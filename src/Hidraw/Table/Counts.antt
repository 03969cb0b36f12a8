-- ===== src/Hidraw/Table/Counts.antt =====
-- The devices of linux/freespace_hidraw.c that are there, and the ids that they hold.
use libfreespace.Common.{
  ℕ, zero, suc, ◌+◌, ◌<◌, ◌≤◌, ◌≡◌, ◌≢◌, refl, Bool, true, false, List, [], ◌∷◌, Option, none, some,
  length, get_or, get_or-set_ne, set, ℤ, pos, negsuc, arith, ap, Bool-cases, inl, inr,
}
use libfreespace.Slots.{occupied, maximum_device_count}
use libfreespace.Hidraw.Types.{DeviceState, unset, connected, opened, disconnected, Device}
use libfreespace.Hidraw.Table.{assign_from}

-- A device that is there: it is connected or opened.
abbrev pub is_live : DeviceState → Bool
is_live unset = false
is_live connected = true
is_live opened = true
is_live disconnected = false

abbrev pub one : Bool → ℕ
one true = 1
one false = 0

-- 1 for a slot whose device is there
abbrev pub weight : Option Device → ℕ
weight none = 0
weight (some d) = one (is_live d.state)

abbrev pub live : List (Option Device) → ℕ
live [] = 0
live (o ∷ rest) = weight o + live rest

-- the number of bits that are set
abbrev pub trues : List Bool → ℕ
trues [] = 0
trues (b ∷ rest) = one b + trues rest

pub live-set :
    (ds : List (Option Device)) (i : ℕ) (o : Option Device)
    → i < length ds
    → live (set ds i o) + weight (get_or ds i none) ≡ live ds + weight o
live-set [] i o h = elim h [ ]
live-set (x ∷ rest) zero o h = omega arith
live-set (x ∷ rest) (suc i) o h = omega (arith, live-set rest i o (omega arith))

pub trues-set :
    (bits : List Bool) (k : ℕ) (b : Bool)
    → k < length bits
    → trues (set bits k b) + one (get_or bits k false) ≡ trues bits + one b
trues-set [] k b h = elim h [ ]
trues-set (x ∷ rest) zero b h = omega arith
trues-set (x ∷ rest) (suc k) b h = omega (arith, trues-set rest k b (omega arith))

pub live-le-occupied : (ds : List (Option Device)) → live ds ≤ occupied ds
live-le-occupied [] = omega arith
live-le-occupied (none ∷ rest) = omega (arith, live-le-occupied rest)
live-le-occupied (some d ∷ rest) = ground (arith, live-le-occupied rest)

-- The bit of an id is set.
abbrev pub is_marked : List Bool → ℤ → Bool
is_marked bits (pos k) = get_or bits k false
is_marked bits (negsuc k) = false

pub is_marked-set_ne :
    (bits : List Bool) (k : ℕ) (b : Bool) (id : ℤ)
    → id ≢ pos k
    → is_marked (set bits k b) id ≡ is_marked bits id
is_marked-set_ne bits k b (pos m) h =
    get_or-set_ne bits k m b false (λ e. h (ap pos (ground (arith, e))))
is_marked-set_ne bits k b (negsuc m) h = refl

pub get_or-true-lt : (bits : List Bool) (k : ℕ) → get_or bits k false ≡ true → k < length bits
get_or-true-lt [] k h = absurd (ground arith)
get_or-true-lt (b ∷ rest) zero h = omega arith
get_or-true-lt (b ∷ rest) (suc k) h = omega (arith, get_or-true-lt rest k h)

-- The bits that the search looks at are not all set.
trues_from : List Bool → ℕ → ℕ → ℕ
trues_from bits zero i = 0
trues_from bits (suc rounds) i = one (get_or bits i false) + trues_from bits rounds (i + 1)

-- The search gives the lowest bit that is clear, and sets it.
assign_from-fresh :
    (bits : List Bool) (rounds i : ℕ)
    → trues_from bits rounds i < rounds
    → (k : ℕ) × (get_or bits k false ≡ false)
      × (k < i + rounds)
      × (assign_from bits rounds i ≡ (pos k, set bits k true))
unfolding assign_from trues_from
assign_from-fresh bits zero i h = absurd (omega arith)
assign_from-fresh bits (suc rounds) i h = elim (Bool-cases (get_or bits i false)) [
  | inl e ↦
      let (k, f, l, g) = assign_from-fresh bits rounds (i + 1) (ground arith) in
      (k, f, omega arith, rw e g)
  | inr e ↦ (i, e, omega arith, rw e refl)
]

trues_from-tail :
    (b : Bool) (bits : List Bool) (rounds i : ℕ)
    → trues_from (b ∷ bits) rounds (i + 1) ≡ trues_from bits rounds i
unfolding trues_from
trues_from-tail b bits zero i = refl
trues_from-tail b bits (suc rounds) i =
    let e : i + 1 ≡ suc i = omega arith in
    omega
      (arith, ap (λ n. one (get_or (b ∷ bits) n false)) e, trues_from-tail b bits rounds (i + 1))

trues_from-all : (bits : List Bool) → trues_from bits (length bits) 0 ≡ trues bits
unfolding trues_from
trues_from-all [] = refl
trues_from-all (b ∷ rest) =
    omega (arith, trues_from-tail b rest (length rest) 0, trues_from-all rest)

-- While a bit is clear, an id is found, which is not in use.
pub assign_from-found :
    (bits : List Bool)
    → length bits ≡ maximum_device_count
    → trues bits < maximum_device_count
    → (k : ℕ) × (get_or bits k false ≡ false)
      × (k < maximum_device_count)
      × (assign_from bits maximum_device_count 0 ≡ (pos k, set bits k true))
assign_from-found bits l h =
    assign_from-fresh bits maximum_device_count 0
      (omega (arith, trues_from-all bits, ap (λ n. trues_from bits n 0) l))
