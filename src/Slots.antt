-- ===== src/Slots.antt =====
-- The arrays of device pointers that linux/freespace.c and linux/freespace_hidraw.c keep: a slot is
-- NULL or a device. How many slots are taken, and where the search for a free one ends.
use libfreespace.Common.{
  ℕ, zero, suc, ◌+◌, ◌-◌, ◌<◌, ◌≤◌, ◌≡◌, ◌≢◌, refl, ap, inl, inr, List, [], ◌∷◌, Option, none, some,
  ◌==◌, leb, ltb, if◌then◌else◌, Bool-cases, length, length-set, get_or, get_or-set_self, set,
  is_some, arith,
}

-- FREESPACE_MAXIMUM_DEVICE_COUNT of include/freespace/freespace.h
abbrev pub maximum_device_count : ℕ
maximum_device_count = 16

-- how far the search walks from `i` to `k`, going round
abbrev distance : ℕ → ℕ → ℕ
distance i k = if leb i k then k - i else maximum_device_count - i + k

module _ {A : Type 0} where
  -- The loop that looks for a free slot from an index to the next slot that is NULL; `none` if the
  -- fuel does not suffice.
  unfoldable pub next_free : ℕ → List (Option A) → ℕ → Option ℕ
  next_free zero devices i = none
  next_free (suc fuel) devices i =
      let rest = next_free fuel devices (if i + 1 == maximum_device_count then 0 else i + 1) in
      if is_some (get_or devices i none) then rest else some i

  -- the number of slots that hold a device
  abbrev pub occupied : List (Option A) → ℕ
  occupied [] = 0
  occupied (none ∷ rest) = occupied rest
  occupied (some d ∷ rest) = suc (occupied rest)

  abbrev pub IsFree : List (Option A) → ℕ → Type 0
  IsFree ds i = (i < length ds) × (get_or ds i none ≡ none)

  pub occupied-le : (ds : List (Option A)) → occupied ds ≤ length ds
  occupied-le [] = omega arith
  occupied-le (none ∷ rest) = omega (arith, occupied-le rest)
  occupied-le (some d ∷ rest) = omega (arith, occupied-le rest)

  pub occupied-set-some :
      (ds : List (Option A)) (i : ℕ) (d : A)
      → IsFree ds i
      → occupied (set ds i (some d)) ≡ occupied ds + 1
  occupied-set-some [] i d h = elim h.0 [ ]
  occupied-set-some (none ∷ rest) zero d h = omega arith
  occupied-set-some (some e ∷ rest) zero d h = ground arith
  occupied-set-some (none ∷ rest) (suc i) d h = occupied-set-some rest i d (omega arith, h.1)
  occupied-set-some (some e ∷ rest) (suc i) d h =
      omega (arith, occupied-set-some rest i d (omega arith, h.1))

  pub occupied-set-none :
      (ds : List (Option A)) (i : ℕ) (d : A)
      → get_or ds i none ≡ some d
      → occupied ds ≡ occupied (set ds i none) + 1
  occupied-set-none [] i d h = ground arith
  occupied-set-none (none ∷ rest) zero d h = ground arith
  occupied-set-none (some e ∷ rest) zero d h = omega arith
  occupied-set-none (none ∷ rest) (suc i) d h = occupied-set-none rest i d h
  occupied-set-none (some e ∷ rest) (suc i) d h = omega (arith, occupied-set-none rest i d h)

  -- Where fewer devices than slots are counted, a slot is free.
  pub IsFree-slot : (ds : List (Option A)) → occupied ds < length ds → (i : ℕ) × IsFree ds i
  IsFree-slot [] h = absurd (omega arith)
  IsFree-slot (none ∷ rest) h = (0, (omega arith, refl))
  IsFree-slot (some d ∷ rest) h =
      let (i, f) = IsFree-slot rest (omega arith) in (suc i, (omega arith, f.1))

  -- The search finds a free slot if there is one within reach of its fuel.
  next_free-reaches :
      (fuel i k : ℕ) (ds : List (Option A))
      → length ds ≡ maximum_device_count
      → i < maximum_device_count
      → IsFree ds k
      → distance i k < fuel
      → (j : ℕ) × (next_free fuel ds i ≡ some j) × IsFree ds j
  unfolding next_free
  next_free-reaches zero i k ds l hi f h = absurd (omega arith)
  next_free-reaches (suc fuel) i k ds l hi f h = elim (Bool-cases (is_some (get_or ds i none))) [
    | inr free ↦ (i, rw free, (omega arith, ground arith))
    | inl taken ↦
        let apart : i ≢ k = λ e. ground (arith, ap (λ x. is_some (get_or ds x none)) e) in
        let (j, e, fj) =
          next_free-reaches fuel (if i + 1 == maximum_device_count then 0 else i + 1) k ds l
            (ground arith) f (ground arith) in
        (j, rw taken e, fj)
  ]

  -- Sixteen rounds are enough: the search ends at a free slot.
  pub next_free-some :
      (i : ℕ) (ds : List (Option A))
      → length ds ≡ maximum_device_count
      → i < maximum_device_count
      → occupied ds < maximum_device_count
      → (j : ℕ) × (next_free maximum_device_count ds i ≡ some j) × IsFree ds j
  next_free-some i ds l hi h =
      let (k, f) = IsFree-slot ds (omega arith) in
      next_free-reaches maximum_device_count i k ds l hi f (ground arith)

  -- `nextFreeIndex` is -1 if the table is full, and else names a free slot.
  abbrev pub PointsToFree : List (Option A) → Option ℕ → Type 0
  PointsToFree ds none = occupied ds ≡ maximum_device_count
  PointsToFree ds (some i) = IsFree ds i

  -- the index that an addition leaves, when it leaves `n` devices
  abbrev pub following : List (Option A) → ℕ → ℕ → Option ℕ
  following ds n i =
      if ltb n maximum_device_count then next_free maximum_device_count ds i else none

  pub following-PointsToFree :
      (ds : List (Option A)) (n i : ℕ)
      → length ds ≡ maximum_device_count
      → n ≡ occupied ds
      → i < maximum_device_count
      → PointsToFree ds (following ds n i)
  following-PointsToFree ds n i l c hi = elim (Bool-cases (ltb n maximum_device_count)) [
    | inl more ↦ let (j, e, f) = next_free-some i ds l hi (ground arith) in rw (more, e) f
    | inr full ↦ rw full (ground (arith, occupied-le ds))
  ]

  -- A slot that is cleared, or was free before, is free.
  pub get_or-set-none :
      (ds : List (Option A)) (i j : ℕ)
      → get_or ds j none ≡ none
      → get_or (set ds i none) j none ≡ none
  get_or-set-none [] i j h = refl
  get_or-set-none (e ∷ rest) zero zero h = refl
  get_or-set-none (e ∷ rest) zero (suc j) h = h
  get_or-set-none (e ∷ rest) (suc i) zero h = h
  get_or-set-none (e ∷ rest) (suc i) (suc j) h = get_or-set-none rest i j h

  pub clear-PointsToFree :
      (ds : List (Option A)) (i : ℕ) (o : Option ℕ)
      → i < length ds
      → PointsToFree ds o
      → PointsToFree (set ds i none) (if is_some o then o else some i)
  clear-PointsToFree ds i none h f =
      (omega (arith, length-set ds i none), get_or-set_self ds i none none h)
  clear-PointsToFree ds i (some j) h f =
      (omega (arith, length-set ds i none, f.0), get_or-set-none ds i j f.1)

  -- 1 for a slot that is taken
  abbrev pub taken : Option A → ℕ
  taken none = 0
  taken (some d) = 1

  pub occupied-set :
      (ds : List (Option A)) (i : ℕ) (o : Option A)
      → i < length ds
      → occupied (set ds i o) + taken (get_or ds i none) ≡ occupied ds + taken o
  occupied-set [] i o h = elim h [ ]
  occupied-set (none ∷ rest) zero none h = omega arith
  occupied-set (none ∷ rest) zero (some d) h = omega arith
  occupied-set (some e ∷ rest) zero none h = omega arith
  occupied-set (some e ∷ rest) zero (some d) h = omega arith
  occupied-set (none ∷ rest) (suc i) o h = occupied-set rest i o (omega arith)
  occupied-set (some e ∷ rest) (suc i) o h = omega (arith, occupied-set rest i o (omega arith))

  pub occupied-lt : (ds : List (Option A)) (i : ℕ) → IsFree ds i → occupied ds < length ds
  occupied-lt [] i f = elim f.0 [ ]
  occupied-lt (none ∷ rest) zero f = omega (arith, occupied-le rest)
  occupied-lt (some d ∷ rest) zero f = ground arith
  occupied-lt (none ∷ rest) (suc i) f = omega (arith, occupied-lt rest i (omega arith, f.1))
  occupied-lt (some d ∷ rest) (suc i) f = omega (arith, occupied-lt rest i (omega arith, f.1))
