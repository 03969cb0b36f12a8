-- ===== src/Motion/Extract.antt =====
-- The MotionEngine output packet and the sensor container of include/freespace/freespace_util.h,
-- and the pieces of code that the getters of common/freespace_util.c repeat.
use libfreespace.Common.{
  ℕ, ◌+◌, ◌*◌, List, Option, some, ◌==◌, if◌then◌else◌, ◌>>=◌, get_elem?, ℤ, pos, negsuc, signed16,
  signed8,
}
use libfreespace.Errors.{success}

-- `struct freespace_MotionEngineOutput`: the format, the eight format flags and `meData`.
pub record Packet : Type 0 where
  pub format_select : ℕ
  pub ff0 : ℕ
  pub ff1 : ℕ
  pub ff2 : ℕ
  pub ff3 : ℕ
  pub ff4 : ℕ
  pub ff5 : ℕ
  pub ff6 : ℕ
  pub ff7 : ℕ
  pub me_data : List ℕ

-- `struct MultiAxisSensor`, over the type of its floats
pub record MultiAxisSensor (Float : Type 0) : Type 0 where
  pub w : Float
  pub x : Float
  pub y : Float
  pub z : Float

-- what the `switch` on the format leaves: an early return, or `offset` and `scale`
pub data Located : Type 0 where
  rejected : ℤ → Located
  at : ℤ → ℕ → Located

-- `offset = (flag == 1) ? offset + size : offset`
unfoldable pub skip : ℕ → ℕ → ℕ → ℕ
skip flag size offset = if flag == 1 then offset + size else offset

-- `if (flag == 0) offset = -1`
unfoldable pub checked : ℕ → ℕ → ℤ
checked flag offset = if flag == 0 then negsuc 0 else pos offset

-- `axisVal = meData[offset + i + 1] << 8 | meData[offset + i]`, an `int16_t`; `none` is a read
-- outside of `meData`. The bytes are below 256, so `|` is `+`.
unfoldable pub axis_val : List ℕ → ℕ → ℕ → Option ℤ
axis_val me_data offset i = do
  high ← get_elem? me_data (offset + (i + 1))
  low ← get_elem? me_data (offset + i)
  some (signed16 (high * 256 + low))

-- `flagVal = meData[offset + i]`, an `int8_t`
unfoldable pub flag_val : List ℕ → ℕ → ℕ → Option ℤ
flag_val me_data offset i = do value ← get_elem? me_data (offset + i); some (signed8 value)

-- the early return, the test `offset < 0`, and else the extraction at the offset
unfoldable pub finish {ℓ} : {S : Type ℓ} → Located → S → (ℕ → ℕ → Option (ℤ × S)) → Option (ℤ × S)
finish (rejected code) sensor extract = some (code, sensor)
finish (at (negsuc n) scale) sensor extract = some (negsuc 0, sensor)
finish (at (pos offset) scale) sensor extract = extract offset scale

-- `quotient v scale` is the float `((float) v) / scale`.
module _ {Float : Type 0} (quotient : ℤ → ℕ → Float) where
  -- x, y and z from six bytes
  unfoldable pub extract_xyz :
      List ℕ → MultiAxisSensor Float → ℕ → ℕ → Option (ℤ × MultiAxisSensor Float)
  extract_xyz d sensor offset scale = do
    x ← axis_val d offset 0
    y ← axis_val d offset 2
    z ← axis_val d offset 4
    some (
      success,
      record sensor { x = quotient x scale; y = quotient y scale; z = quotient z scale },
    )

  -- the quaternion of format 1: x, y, z, then w
  unfoldable pub extract_xyzw :
      List ℕ → MultiAxisSensor Float → ℕ → ℕ → Option (ℤ × MultiAxisSensor Float)
  extract_xyzw d sensor offset scale = do
    x ← axis_val d offset 0
    y ← axis_val d offset 2
    z ← axis_val d offset 4
    w ← axis_val d offset 6
    some (
      success,
      record {
        w = quotient w scale;
        x = quotient x scale;
        y = quotient y scale;
        z = quotient z scale;
      },
    )

  -- the quaternion of the other formats: w, x, y, then z
  unfoldable pub extract_wxyz :
      List ℕ → MultiAxisSensor Float → ℕ → ℕ → Option (ℤ × MultiAxisSensor Float)
  extract_wxyz d sensor offset scale = do
    w ← axis_val d offset 0
    x ← axis_val d offset 2
    y ← axis_val d offset 4
    z ← axis_val d offset 6
    some (
      success,
      record {
        w = quotient w scale;
        x = quotient x scale;
        y = quotient y scale;
        z = quotient z scale;
      },
    )

  unfoldable pub extract_w :
      List ℕ → MultiAxisSensor Float → ℕ → ℕ → Option (ℤ × MultiAxisSensor Float)
  extract_w d sensor offset scale = do
    w ← axis_val d offset 0
    some (success, record sensor { w = quotient w scale })

  unfoldable pub extract_x :
      List ℕ → MultiAxisSensor Float → ℕ → ℕ → Option (ℤ × MultiAxisSensor Float)
  extract_x d sensor offset scale = do
    x ← axis_val d offset 0
    some (success, record sensor { x = quotient x scale })

  -- the activity classification and the power management flags, a byte each
  unfoldable pub extract_flags :
      List ℕ → MultiAxisSensor Float → ℕ → ℕ → Option (ℤ × MultiAxisSensor Float)
  extract_flags d sensor offset scale = do
    x ← flag_val d offset 0
    y ← flag_val d offset 1
    some (success, record sensor { x = quotient x scale; y = quotient y scale })
