-- ===== src/Usb/Table/Refine.antt =====
-- The table of linux/freespace.c implements a map from ids to devices of at most sixteen entries.
use libfreespace.Common.{
  ℕ, zero, suc, ◌+◌, ◌<◌, ◌≡◌, refl, ap, ◌∙◌, ◌⊎◌, inl, inr, true, false, [], ◌∷◌, Option, none,
  some, ◌==◌, if◌then◌else◌, Bool-cases, Option-cases, length, get_or, set, is_some, ℤ, arith,
}
use native.Mathlib.Decide.{dec_lt}
use libfreespace.Errors.{success, error_invalid_device}
use libfreespace.Usb.Types.{Device}
use libfreespace.Usb.Table.{
  Slots, Table, find_device_by_id, store, add, slot_of, clear_slot, remove, clear_from, clear_all,
}
use libfreespace.Slots.{
  maximum_device_count, occupied, PointsToFree, IsFree, occupied-lt, get_or-set-none,
}
use libfreespace.Usb.Table.Map.{Distinct, find-set-some, find-set-none, slot_of-some, slot_of-none}
use libfreespace.Usb.Table.Valid.{IsValid, add-cases, clear_all-IsValid}

-- what an addition does, seen as a map
abbrev pub Adds : Table → Device → Table × ℤ → Type 0
Adds t d (t', rc) =
    ((occupied t.devices < maximum_device_count)
      × (rc ≡ success)
      × ((id : ℕ)
          → find_device_by_id t'.devices id
            ≡ (if d.id == id then some d else find_device_by_id t.devices id)))
    ⊎ ((occupied t.devices ≡ maximum_device_count) × (rc ≡ error_invalid_device) × (t' ≡ t))

-- With a new id, `addFreespaceDevice` adds the device to the map and keeps all others, as long as
-- fewer than sixteen slots are taken; when the table is full it returns
-- FREESPACE_ERROR_INVALID_DEVICE and changes nothing.
pub add_refines :
    (t : Table) (d : Device)
    → IsValid t
    → find_device_by_id t.devices d.id ≡ none
    → Adds t d (add t d)
add_refines t d v fresh =
    add-cases (Adds t d) t d (λ e. inr (rw e at v.next, refl, refl))
      (λ i e.
        let f : IsFree t.devices i = rw e at v.next in
        inl (
          omega (arith, v.size, occupied-lt t.devices i f),
          refl,
          λ id. find-set-some t.devices i id d f fresh,
        ))

-- `removeFreespaceDevice` takes the id out of the map and keeps all others.
pub remove_refines :
    (t : Table) (id j : ℕ)
    → IsValid t
    → find_device_by_id (remove t id).devices j
      ≡ (if id == j then none else find_device_by_id t.devices j)
unfolding remove clear_slot
remove_refines t id j v = elim (Option-cases (slot_of t.devices id 0)) [
  | inl e ↦
      let absent = slot_of-none t.devices id 0 e in
      rw (e, remove) (ground (arith, absent, ap (find_device_by_id t.devices) {x = id} {y = j}))
  | inr (k, e) ↦
      let (n, d, en, l, g, di) = slot_of-some t.devices id 0 e in
      let same : k ≡ n = omega arith in
      rw (e, remove, same, find-set-none t.devices n j v.distinct g, di)
]

store-find :
    (ds : Slots) (d : Device) (id : ℕ)
    → is_some (find_device_by_id ds d.id) ≡ true
    → find_device_by_id (store ds d) id ≡ (if d.id == id then some d else find_device_by_id ds id)
unfolding store find_device_by_id
store-find [] d id h = ground arith
store-find (none ∷ rest) d id h = store-find rest d id h
store-find (some e ∷ rest) d id h = ground (arith, store-find rest d id)

store-absent : (ds : Slots) (d : Device) → find_device_by_id ds d.id ≡ none → store ds d ≡ ds
unfolding store find_device_by_id
store-absent [] d h = refl
store-absent (none ∷ rest) d h = ap (λ r. none ∷ r) (store-absent rest d h)
store-absent (some e ∷ rest) d h = ground (arith, store-absent rest d)

store-fresh :
    (ds : Slots) (d : Device) (id : ℕ)
    → find_device_by_id ds id ≡ none
    → find_device_by_id (store ds d) id ≡ none
unfolding store find_device_by_id
store-fresh [] d id h = refl
store-fresh (none ∷ rest) d id h = store-fresh rest d id h
store-fresh (some e ∷ rest) d id h = ground (arith, store-fresh rest d id)

store-Distinct : (ds : Slots) (d : Device) → Distinct ds → Distinct (store ds d)
unfolding store
store-Distinct [] d u = tt
store-Distinct (none ∷ rest) d u = store-Distinct rest d u
store-Distinct (some e ∷ rest) d u = elim (Bool-cases (e.id == d.id)) [
  | inl y ↦ rw y (ground (arith, u.0, ap (find_device_by_id rest) {x = e.id} {y = d.id}), u.1)
  | inr n ↦ rw n (store-fresh rest d e.id u.0, store-Distinct rest d u.1)
]

length-store : (ds : Slots) (d : Device) → length (store ds d) ≡ length ds
unfolding store
length-store [] d = refl
length-store (none ∷ rest) d = ap suc (length-store rest d)
length-store (some e ∷ rest) d = ground (arith, length-store rest d)

occupied-store : (ds : Slots) (d : Device) → occupied (store ds d) ≡ occupied ds
unfolding store
occupied-store [] d = refl
occupied-store (none ∷ rest) d = occupied-store rest d
occupied-store (some e ∷ rest) d = ground (arith, occupied-store rest d)

store-get_or :
    (ds : Slots) (d : Device) (i : ℕ) → get_or ds i none ≡ none → get_or (store ds d) i none ≡ none
unfolding store
store-get_or [] d i h = refl
store-get_or (none ∷ rest) d zero h = refl
store-get_or (some e ∷ rest) d zero h = ground arith
store-get_or (none ∷ rest) d (suc i) h = store-get_or rest d i h
store-get_or (some e ∷ rest) d (suc i) h = ground (arith, store-get_or rest d i)

store-PointsToFree :
    (ds : Slots) (d : Device) (o : Option ℕ) → PointsToFree ds o → PointsToFree (store ds d) o
store-PointsToFree ds d none h = omega (arith, occupied-store ds d)
store-PointsToFree ds d (some i) h =
    (omega (arith, length-store ds d, h.0), store-get_or ds d i h.1)

-- A write through a pointer to a device keeps the invariant.
pub store-IsValid :
    (t : Table) (d : Device) → IsValid t → IsValid (record t { devices = store t.devices d })
store-IsValid t d v = record {
  size = length-store t.devices d ∙ v.size;
  counted = omega (arith, v.counted, occupied-store t.devices d);
  next = store-PointsToFree t.devices d t.next_free_index v.next;
  distinct = store-Distinct t.devices d v.distinct;
}

pub store_refines :
    (ds : Slots) (d : Device) (id : ℕ) {e : Device}
    → find_device_by_id ds d.id ≡ some e
    → find_device_by_id (store ds d) id ≡ (if d.id == id then some d else find_device_by_id ds id)
store_refines ds d id h = store-find ds d id (rw h)

get_or-set_here : (ds : Slots) (i : ℕ) → get_or (set ds i none) i none ≡ none
get_or-set_here [] i = refl
get_or-set_here (e ∷ rest) zero = refl
get_or-set_here (e ∷ rest) (suc i) = get_or-set_here rest i

-- After the round of the loop at `i`, the slots up to `i` are free.
clear_round-free :
    (ds : Slots) (i j : ℕ)
    → (j < i → get_or ds j none ≡ none)
    → j < i + 1
    → get_or (set ds i none) j none ≡ none
clear_round-free ds i j before h = elim (dec_lt j i) [
  | yes p ↦ get_or-set-none ds i j (before p)
  | no p ↦ let same : j ≡ i = omega arith in rw same (get_or-set_here ds i)
]

skip_round-free :
    (ds : Slots) (i j : ℕ)
    → get_or ds i none ≡ none
    → (j < i → get_or ds j none ≡ none)
    → j < i + 1
    → get_or ds j none ≡ none
skip_round-free ds i j e before h = elim (dec_lt j i) [
  | yes p ↦ before p
  | no p ↦ let same : j ≡ i = omega arith in rw same e
]

clear_from-free :
    (rounds i j : ℕ) (t : Table)
    → (j < i → get_or t.devices j none ≡ none)
    → j < i + rounds
    → get_or (clear_from rounds i t).devices j none ≡ none
unfolding clear_from clear_slot
clear_from-free zero i j t before h = before (omega arith)
clear_from-free (suc rounds) i j t before h =
    elim (is_some (get_or t.devices i none))
        as (λ b.
          (is_some (get_or t.devices i none) ≡ b)
          → get_or (clear_from rounds (i + 1) (if b then clear_slot t i else t)).devices j none
            ≡ none) [
              | true ↦ λ e.
                  clear_from-free rounds (i + 1) j (clear_slot t i)
                    (clear_round-free t.devices i j before) (omega arith)
              | false ↦ λ e.
                  clear_from-free rounds (i + 1) j t
                    (skip_round-free t.devices i j (ground arith) before) (omega arith)
            ]
      refl

occupied-free : (ds : Slots) → ((j : ℕ) → j < length ds → get_or ds j none ≡ none) → occupied ds ≡ 0
occupied-free [] h = refl
occupied-free (none ∷ rest) h = occupied-free rest (λ j p. h (suc j) (omega arith))
occupied-free (some d ∷ rest) h = ground (arith, h 0)

-- The loop of `freespace_exit` frees every device: the table is valid, counts none and holds none.
pub clear_all-empty :
    (t : Table)
    → IsValid t
    → IsValid (clear_all t)
      × ((clear_all t).num_devices ≡ 0)
      × ((j : ℕ) → j < maximum_device_count → get_or (clear_all t).devices j none ≡ none)
unfolding clear_all
clear_all-empty t v = (valid, omega (arith, valid.counted, zero_left), free)
  where
    valid : IsValid (clear_all t)
    valid = clear_all-IsValid t v

    free : (j : ℕ) → j < maximum_device_count → get_or (clear_all t).devices j none ≡ none
    free j h = clear_from-free maximum_device_count 0 j t (λ p. absurd (omega arith)) (omega arith)

    zero_left : occupied (clear_all t).devices ≡ 0
    zero_left = occupied-free (clear_all t).devices (λ j p. free j (omega (arith, valid.size)))
