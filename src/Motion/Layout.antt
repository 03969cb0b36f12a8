-- ===== src/Motion/Layout.antt =====
-- An independent description of the packets that common/freespace_util.c reads: for each format the
-- list of its fields, in the order of their format flags, with size and scale.
use libfreespace.Common.{
  ℕ, ◌≡◌, List, [], ◌∷◌, Option, none, some, ◌==◌, if◌then◌else◌, negsuc, arith,
}
use libfreespace.Motion.Extract.{Packet, Located, rejected, at, skip, checked}
use libfreespace.Motion.{
  locate_acceleration, locate_acc_no_gravity, locate_angular_velocity, locate_magnetometer,
  locate_temperature, locate_inclination, locate_compass_heading, locate_ang_pos, locate_act_class,
}

-- what a getter reads
pub data Quantity : Type 0 where
  acceleration acc_no_gravity angular_velocity magnetometer temperature : Quantity
  inclination compass_heading ang_pos act_class : Quantity

abbrev pub index : Quantity → ℕ
index acceleration = 1
index acc_no_gravity = 2
index angular_velocity = 3
index magnetometer = 4
index temperature = 5
index inclination = 6
index compass_heading = 7
index ang_pos = 8
index act_class = 9

-- The `tag` is the index of the field's quantity; the mouse data, which no getter reads, has 0.
pub record Field : Type 0 where
  pub tag : ℕ
  pub size : ℕ
  pub scale : ℕ

abbrev field : Quantity → ℕ → ℕ → Field
field q size scale = record { tag = index q; size = size; scale = scale }

abbrev mouse : Field
mouse = record { tag = 0; size = 6; scale = 1 }

-- The fields of each format; `none` is a format that is not recognized, and format 2 has none of
-- the quantities.
abbrev pub layout : ℕ → Option (List Field)
layout format =
    if format == 0
    then some (
        mouse
        ∷ field acceleration 6 1024
        ∷ field acc_no_gravity 6 1024
        ∷ field angular_velocity 6 1024
        ∷ field magnetometer 6 4096
        ∷ field temperature 2 128
        ∷ field ang_pos 8 16384
        ∷ [])
    else if format == 1
    then some (
        field acceleration 6 100
        ∷ field acc_no_gravity 6 100
        ∷ field angular_velocity 6 100
        ∷ field magnetometer 6 1000
        ∷ field inclination 6 10
        ∷ field compass_heading 2 10
        ∷ field ang_pos 8 16384
        ∷ field act_class 2 1
        ∷ [])
    else if format == 2
    then some []
    else if format == 3
    then some (
        mouse
        ∷ field acceleration 6 256
        ∷ field acc_no_gravity 6 256
        ∷ field angular_velocity 6 512
        ∷ field magnetometer 6 32
        ∷ field temperature 2 128
        ∷ field ang_pos 8 16384
        ∷ [])
    else none

abbrev pub flags : Packet → List ℕ
flags p = p.ff0 ∷ p.ff1 ∷ p.ff2 ∷ p.ff3 ∷ p.ff4 ∷ p.ff5 ∷ p.ff6 ∷ p.ff7 ∷ []

-- The field lies behind those before it that are present.
abbrev pub find : Quantity → List Field → List ℕ → ℕ → Located
find q [] bs offset = rejected (negsuc 1)
find q (f ∷ fs) [] offset = rejected (negsuc 1)
find q (f ∷ fs) (b ∷ bs) offset =
    if f.tag == index q then at (checked b offset) f.scale else find q fs bs (skip b f.size offset)

abbrev pub found : Quantity → Option (List Field) → List ℕ → Located
found q none bs = rejected (negsuc 2)
found q (some fs) bs = find q fs bs 0

abbrev pub describe : Quantity → Packet → Located
describe q p = found q (layout p.format_select) (flags p)

-- the `switch` of the getter of each quantity
abbrev pub locate : Quantity → Packet → Located
locate acceleration = locate_acceleration
locate acc_no_gravity = locate_acc_no_gravity
locate angular_velocity = locate_angular_velocity
locate magnetometer = locate_magnetometer
locate temperature = locate_temperature
locate inclination = locate_inclination
locate compass_heading = locate_compass_heading
locate ang_pos = locate_ang_pos
locate act_class = locate_act_class

-- The `switch` of every getter finds the field where the layout of the packet's format puts it: it
-- returns -3 for a format that is not recognized, -2 if the format has no such field, and else -1
-- for an absent field, or the offset behind the fields before it that are present, and its scale.
pub locate-eq-describe : (q : Quantity) (p : Packet) → locate q p ≡ describe q p
unfolding locate_acceleration locate_acc_no_gravity locate_angular_velocity locate_magnetometer
    locate_temperature locate_inclination locate_compass_heading locate_ang_pos locate_act_class
locate-eq-describe acceleration p = ground arith
locate-eq-describe acc_no_gravity p = ground arith
locate-eq-describe angular_velocity p = ground arith
locate-eq-describe magnetometer p = ground arith
locate-eq-describe temperature p = ground arith
locate-eq-describe inclination p = ground arith
locate-eq-describe compass_heading p = ground arith
locate-eq-describe ang_pos p = ground arith
locate-eq-describe act_class p = ground arith
