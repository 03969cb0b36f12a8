-- ===== src/Motion/Bounds.antt =====
-- The getters of common/freespace_util.c read inside of the 44 bytes of `meData`.
use libfreespace.Common.{
  ℕ, Bool, true, false, ◌+◌, ◌≡◌, refl, ◌≤◌, List, [], ◌∷◌, Option, none, some, length,
  get_elem?-lt, is_some, is_some-some, ◌==◌, ℤ, pos, negsuc, arith,
}
use libfreespace.Motion.Extract.{
  Packet, MultiAxisSensor, Located, rejected, at, skip, checked, finish, axis_val, flag_val,
  extract_xyz, extract_xyzw, extract_wxyz, extract_w, extract_x, extract_flags,
}
use libfreespace.Motion.Layout.{
  Quantity, acceleration, acc_no_gravity, angular_velocity, magnetometer, temperature, inclination,
  compass_heading, ang_pos, act_class, index, Field, layout, flags, find, found, locate,
  locate-eq-describe,
}
use libfreespace.Motion.{
  get_acceleration, get_acc_no_gravity, get_angular_velocity, get_magnetometer, get_temperature,
  get_inclination, get_compass_heading, get_ang_pos, get_act_class,
}

-- the size of `meData`, which common/setupMessages.py gives to the generated structure
abbrev pub me_data_size : ℕ
me_data_size = 44

abbrev pub width : Quantity → ℕ
width temperature = 2
width compass_heading = 2
width act_class = 2
width ang_pos = 8
width _ = 6

abbrev Fits : ℕ → Located → Type 0
Fits n (rejected code) = Unit {0}
Fits n (at (negsuc k) scale) = Unit {0}
Fits n (at (pos offset) scale) = offset + n ≤ me_data_size

abbrev total : List Field → ℕ
total [] = 0
total (f ∷ fs) = f.size + total fs

abbrev WellSized : Quantity → List Field → Type 0
WellSized q [] = Unit {0}
WellSized q (f ∷ fs) = (f.tag ≡ index q → width q ≤ f.size) × WellSized q fs

skip-le : (b n o : ℕ) → skip b n o ≤ o + n
unfolding skip
skip-le b n o = ground arith

find-Fits :
    (q : Quantity) (fs : List Field) (bs : List ℕ) (offset : ℕ)
    → WellSized q fs
    → offset + total fs ≤ me_data_size
    → Fits (width q) (find q fs bs offset)
unfolding checked
find-Fits q [] bs offset ws h = tt
find-Fits q (f ∷ fs) [] offset ws h = tt
find-Fits q (f ∷ fs) (b ∷ bs) offset (wf, ws) h =
    let rest =
      find-Fits q fs bs (skip b f.size offset) ws (omega (arith, skip-le b f.size offset)) in
    ground arith

abbrev Sized : Quantity → Option (List Field) → Type 0
Sized q none = Unit {0}
Sized q (some fs) = WellSized q fs × (total fs ≤ me_data_size)

layout-Sized : (q : Quantity) (format : ℕ) → Sized q (layout format)
layout-Sized acceleration format = ground arith
layout-Sized _ format = ground arith

found-Fits :
    (q : Quantity) (o : Option (List Field)) (bs : List ℕ)
    → Sized q o
    → Fits (width q) (found q o bs)
found-Fits q none bs h = tt
found-Fits q (some fs) bs (ws, h) = find-Fits q fs bs 0 ws (omega arith)

locate-Fits : (q : Quantity) (p : Packet) → Fits (width q) (locate q p)
locate-Fits q p =
    rw (locate-eq-describe q p)
      (found-Fits q (layout p.format_select) (flags p) (layout-Sized q p.format_select))

axis_val-some :
    (d : List ℕ) (offset i : ℕ) → offset + i + 2 ≤ length d → is_some (axis_val d offset i) ≡ true
unfolding axis_val
axis_val-some d offset i h =
    let high = get_elem?-lt d (offset + (i + 1)) (omega arith) in
    let low = get_elem?-lt d (offset + i) (omega arith) in rw (high.1, low.1)

flag_val-some :
    (d : List ℕ) (offset i : ℕ) → offset + i + 1 ≤ length d → is_some (flag_val d offset i) ≡ true
unfolding flag_val
flag_val-some d offset i h = rw ((get_elem?-lt d (offset + i) (omega arith)).1)

module _ {Float : Type 0} (quotient : ℤ → ℕ → Float) where
  -- the getter of each quantity
  abbrev pub read : Quantity → Packet → MultiAxisSensor Float → Option (ℤ × MultiAxisSensor Float)
  read acceleration = get_acceleration quotient
  read acc_no_gravity = get_acc_no_gravity quotient
  read angular_velocity = get_angular_velocity quotient
  read magnetometer = get_magnetometer quotient
  read temperature = get_temperature quotient
  read inclination = get_inclination quotient
  read compass_heading = get_compass_heading quotient
  read ang_pos = get_ang_pos quotient
  read act_class = get_act_class quotient

  -- the extraction that the getter of each quantity makes, in the order of the packet's format
  abbrev pub extract :
      Quantity → Bool → List ℕ → MultiAxisSensor Float → ℕ → ℕ → Option (ℤ × MultiAxisSensor Float)
  extract temperature b = extract_w quotient
  extract compass_heading b = extract_x quotient
  extract act_class b = extract_flags quotient
  extract ang_pos true = extract_xyzw quotient
  extract ang_pos false = extract_wxyz quotient
  extract _ b = extract_xyz quotient

  pub read_lem :
      (q : Quantity) (p : Packet) (s : MultiAxisSensor Float)
      → read q p s ≡ finish (locate q p) s (extract q (p.format_select == 1) p.me_data s)
  unfolding get_acceleration get_acc_no_gravity get_angular_velocity get_magnetometer
      get_temperature get_inclination get_compass_heading get_ang_pos get_act_class
  read_lem ang_pos p s = ground arith
  read_lem _ p s = refl

  extract-some :
      (q : Quantity) (b : Bool) (d : List ℕ) (s : MultiAxisSensor Float) (offset scale : ℕ)
      → offset + width q ≤ length d
      → is_some (extract q b d s offset scale) ≡ true
  unfolding extract_xyz extract_xyzw extract_wxyz extract_w extract_x extract_flags
  extract-some temperature b d s o scale h = ground (arith, axis_val-some d o 0)
  extract-some compass_heading b d s o scale h = ground (arith, axis_val-some d o 0)
  extract-some act_class b d s o scale h = ground (arith, flag_val-some d o 0, flag_val-some d o 1)
  extract-some ang_pos true d s o scale h =
      ground
        (arith, axis_val-some d o 0, axis_val-some d o 2, axis_val-some d o 4, axis_val-some d o 6)
  extract-some ang_pos false d s o scale h =
      ground
        (arith, axis_val-some d o 0, axis_val-some d o 2, axis_val-some d o 4, axis_val-some d o 6)
  extract-some _ b d s o scale h =
      ground (arith, axis_val-some d o 0, axis_val-some d o 2, axis_val-some d o 4)

  finish-some :
      (l : Located) (n : ℕ) (s : MultiAxisSensor Float)
      (e : ℕ → ℕ → Option (ℤ × MultiAxisSensor Float))
      → Fits n l
      → ((o scale : ℕ) → o + n ≤ me_data_size → is_some (e o scale) ≡ true)
      → is_some (finish l s e) ≡ true
  unfolding finish
  finish-some (rejected code) n s e f h = refl
  finish-some (at (negsuc k) scale) n s e f h = refl
  finish-some (at (pos o) scale) n s e f h = h o scale f

  -- On a packet with the 44 bytes of `meData` every getter returns: none reads outside of them,
  -- whatever the format and the flags are.
  pub read_in_bounds :
      (q : Quantity) (p : Packet) (s : MultiAxisSensor Float)
      → length p.me_data ≡ me_data_size
      → (r : ℤ × MultiAxisSensor Float) × (read q p s ≡ some r)
  read_in_bounds q p s h = is_some-some (rw (read_lem q p s) returns)
    where
      returns :
          is_some (finish (locate q p) s (extract q (p.format_select == 1) p.me_data s)) ≡ true
      returns =
          finish-some (locate q p) (width q) s (extract q (p.format_select == 1) p.me_data s)
            (locate-Fits q p)
            (λ o scale fits.
              extract-some q (p.format_select == 1) p.me_data s o scale (omega arith))
