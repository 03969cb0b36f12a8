-- ===== src/Common/Int.antt =====
-- C `int` values as integers over the native numbers; `negsuc n` is -(n + 1).
use Prim.Native.Nat.{ℕ, ◌-◌, ◌^◌}
use mathlib.Core.Bool.{Bool, true, false}
use libfreespace.Common.Tests.{ltb, ◌==◌, if◌then◌else◌}

pub data ℤ : Type 0 where
  pos : ℕ → ℤ
  negsuc : ℕ → ℤ

-- `a == b`
abbrev pub eq_ℤ : ℤ → ℤ → Bool
eq_ℤ (pos a) (pos b) = a == b
eq_ℤ (negsuc a) (negsuc b) = a == b
eq_ℤ (pos a) (negsuc b) = false
eq_ℤ (negsuc a) (pos b) = false

-- `a <= 0`
abbrev pub nonpos : ℤ → Bool
nonpos (pos n) = n == 0
nonpos (negsuc n) = true

-- `a < 0`
abbrev pub is_neg : ℤ → Bool
is_neg (pos n) = false
is_neg (negsuc n) = true

-- the number that a positive value stands for
abbrev pub pos_part : ℤ → ℕ
pos_part (pos n) = n
pos_part (negsuc n) = 0

-- The conversion of a bit pattern of `w` bits, whose upper half starts at `half`, to a signed type.
abbrev pub signed : ℕ → ℕ → ℤ
signed half w = if ltb w half then pos w else negsuc (half - 1 - (w - half))

abbrev pub signed16 : ℕ → ℤ
signed16 w = signed (2 ^ 15) w

abbrev pub signed8 : ℕ → ℤ
signed8 w = signed (2 ^ 7) w

abbrev pub signed32 : ℕ → ℤ
signed32 w = signed (2 ^ 31) w

-- `a < b` for a value `a` that is not negative
abbrev pub lt_ℤ : ℕ → ℤ → Bool
lt_ℤ a (pos b) = ltb a b
lt_ℤ a (negsuc b) = false
