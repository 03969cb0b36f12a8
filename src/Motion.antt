-- ===== src/Motion.antt =====
-- The getters of common/freespace_util.c. Each `locate_...` is the `switch` of one getter, and the
-- getter goes on with the extraction. An `Option` is `none` where the code reads outside of
-- `meData`.
pub mod Extract
pub mod Layout
pub mod Bounds
pub mod RoundTrip
use libfreespace.Common.{ℕ, List, Option, if◌then◌else◌, ◌==◌, ℤ, negsuc}
use Extract.{
  Packet, MultiAxisSensor, Located, rejected, at, skip, checked, finish, extract_xyz, extract_xyzw,
  extract_wxyz, extract_w, extract_x, extract_flags,
}

unfoldable pub locate_acceleration : Packet → Located
locate_acceleration p =
    if p.format_select == 0
    then at (checked p.ff1 (skip p.ff0 6 0)) 1024
    else if p.format_select == 1
    then at (checked p.ff0 0) 100
    else if p.format_select == 2
    then rejected (negsuc 1)
    else if p.format_select == 3
    then at (checked p.ff1 (skip p.ff0 6 0)) 256
    else rejected (negsuc 2)

unfoldable pub locate_acc_no_gravity : Packet → Located
locate_acc_no_gravity p =
    if p.format_select == 0
    then at (checked p.ff2 (skip p.ff1 6 (skip p.ff0 6 0))) 1024
    else if p.format_select == 1
    then at (checked p.ff1 (skip p.ff0 6 0)) 100
    else if p.format_select == 2
    then rejected (negsuc 1)
    else if p.format_select == 3
    then at (checked p.ff2 (skip p.ff1 6 (skip p.ff0 6 0))) 256
    else rejected (negsuc 2)

unfoldable pub locate_angular_velocity : Packet → Located
locate_angular_velocity p =
    if p.format_select == 0
    then at (checked p.ff3 (skip p.ff2 6 (skip p.ff1 6 (skip p.ff0 6 0)))) 1024
    else if p.format_select == 1
    then at (checked p.ff2 (skip p.ff1 6 (skip p.ff0 6 0))) 100
    else if p.format_select == 2
    then rejected (negsuc 1)
    else if p.format_select == 3
    then at (checked p.ff3 (skip p.ff2 6 (skip p.ff1 6 (skip p.ff0 6 0)))) 512
    else rejected (negsuc 2)

unfoldable pub locate_magnetometer : Packet → Located
locate_magnetometer p =
    if p.format_select == 0
    then at (checked p.ff4 (skip p.ff3 6 (skip p.ff2 6 (skip p.ff1 6 (skip p.ff0 6 0))))) 4096
    else if p.format_select == 1
    then at (checked p.ff3 (skip p.ff2 6 (skip p.ff1 6 (skip p.ff0 6 0)))) 1000
    else if p.format_select == 2
    then rejected (negsuc 1)
    else if p.format_select == 3
    then at (checked p.ff4 (skip p.ff3 6 (skip p.ff2 6 (skip p.ff1 6 (skip p.ff0 6 0))))) 32
    else rejected (negsuc 2)

unfoldable pub locate_temperature : Packet → Located
locate_temperature p =
    if p.format_select == 0
    then at
        (checked p.ff5 (skip p.ff4 6 (skip p.ff3 6 (skip p.ff2 6 (skip p.ff1 6 (skip p.ff0 6 0))))))
        128
    else if p.format_select == 1
    then rejected (negsuc 1)
    else if p.format_select == 2
    then rejected (negsuc 1)
    else if p.format_select == 3
    then at
        (checked p.ff5 (skip p.ff4 6 (skip p.ff3 6 (skip p.ff2 6 (skip p.ff1 6 (skip p.ff0 6 0))))))
        128
    else rejected (negsuc 2)

unfoldable pub locate_inclination : Packet → Located
locate_inclination p =
    if p.format_select == 0
    then rejected (negsuc 1)
    else if p.format_select == 1
    then at (checked p.ff4 (skip p.ff3 6 (skip p.ff2 6 (skip p.ff1 6 (skip p.ff0 6 0))))) 10
    else if p.format_select == 2
    then rejected (negsuc 1)
    else if p.format_select == 3
    then rejected (negsuc 1)
    else rejected (negsuc 2)

unfoldable pub locate_compass_heading : Packet → Located
locate_compass_heading p =
    if p.format_select == 0
    then rejected (negsuc 1)
    else if p.format_select == 1
    then at
        (checked p.ff5 (skip p.ff4 6 (skip p.ff3 6 (skip p.ff2 6 (skip p.ff1 6 (skip p.ff0 6 0))))))
        10
    else if p.format_select == 2
    then rejected (negsuc 1)
    else if p.format_select == 3
    then rejected (negsuc 1)
    else rejected (negsuc 2)

unfoldable pub locate_ang_pos : Packet → Located
locate_ang_pos p =
    if p.format_select == 0
    then at
        (checked p.ff6 (
          skip p.ff5 2
            (skip p.ff4 6 (skip p.ff3 6 (skip p.ff2 6 (skip p.ff1 6 (skip p.ff0 6 0)))))))
        16384
    else if p.format_select == 1
    then at
        (checked p.ff6 (
          skip p.ff5 2
            (skip p.ff4 6 (skip p.ff3 6 (skip p.ff2 6 (skip p.ff1 6 (skip p.ff0 6 0)))))))
        16384
    else if p.format_select == 2
    then rejected (negsuc 1)
    else if p.format_select == 3
    then at
        (checked p.ff6 (
          skip p.ff5 2
            (skip p.ff4 6 (skip p.ff3 6 (skip p.ff2 6 (skip p.ff1 6 (skip p.ff0 6 0)))))))
        16384
    else rejected (negsuc 2)

unfoldable pub locate_act_class : Packet → Located
locate_act_class p =
    if p.format_select == 0
    then rejected (negsuc 1)
    else if p.format_select == 1
    then at
        (checked p.ff7 (
          skip p.ff6 8 (
            skip p.ff5 2
              (skip p.ff4 6 (skip p.ff3 6 (skip p.ff2 6 (skip p.ff1 6 (skip p.ff0 6 0))))))))
        1
    else if p.format_select == 2
    then rejected (negsuc 1)
    else if p.format_select == 3
    then rejected (negsuc 1)
    else rejected (negsuc 2)

-- `quotient v scale` is the float `((float) v) / scale`.
module _ {Float : Type 0} (quotient : ℤ → ℕ → Float) where
  unfoldable pub get_acceleration :
      Packet → MultiAxisSensor Float → Option (ℤ × MultiAxisSensor Float)
  unfolding locate_acceleration
  get_acceleration p sensor =
      finish (locate_acceleration p) sensor (extract_xyz quotient p.me_data sensor)

  unfoldable pub get_acc_no_gravity :
      Packet → MultiAxisSensor Float → Option (ℤ × MultiAxisSensor Float)
  unfolding locate_acc_no_gravity
  get_acc_no_gravity p sensor =
      finish (locate_acc_no_gravity p) sensor (extract_xyz quotient p.me_data sensor)

  unfoldable pub get_angular_velocity :
      Packet → MultiAxisSensor Float → Option (ℤ × MultiAxisSensor Float)
  unfolding locate_angular_velocity
  get_angular_velocity p sensor =
      finish (locate_angular_velocity p) sensor (extract_xyz quotient p.me_data sensor)

  unfoldable pub get_magnetometer :
      Packet → MultiAxisSensor Float → Option (ℤ × MultiAxisSensor Float)
  unfolding locate_magnetometer
  get_magnetometer p sensor =
      finish (locate_magnetometer p) sensor (extract_xyz quotient p.me_data sensor)

  unfoldable pub get_temperature :
      Packet → MultiAxisSensor Float → Option (ℤ × MultiAxisSensor Float)
  unfolding locate_temperature
  get_temperature p sensor =
      finish (locate_temperature p) sensor (extract_w quotient p.me_data sensor)

  unfoldable pub get_inclination :
      Packet → MultiAxisSensor Float → Option (ℤ × MultiAxisSensor Float)
  unfolding locate_inclination
  get_inclination p sensor =
      finish (locate_inclination p) sensor (extract_xyz quotient p.me_data sensor)

  unfoldable pub get_compass_heading :
      Packet → MultiAxisSensor Float → Option (ℤ × MultiAxisSensor Float)
  unfolding locate_compass_heading
  get_compass_heading p sensor =
      finish (locate_compass_heading p) sensor (extract_x quotient p.me_data sensor)

  unfoldable pub get_ang_pos : Packet → MultiAxisSensor Float → Option (ℤ × MultiAxisSensor Float)
  unfolding locate_ang_pos
  get_ang_pos p sensor =
      if p.format_select == 1
      then finish (locate_ang_pos p) sensor (extract_xyzw quotient p.me_data sensor)
      else finish (locate_ang_pos p) sensor (extract_wxyz quotient p.me_data sensor)

  unfoldable pub get_act_class : Packet → MultiAxisSensor Float → Option (ℤ × MultiAxisSensor Float)
  unfolding locate_act_class
  get_act_class p sensor =
      finish (locate_act_class p) sensor (extract_flags quotient p.me_data sensor)
