-- ===== src/Usb/Table/Map.antt =====
-- The slots as a map from ids to devices: what `findDeviceById` finds after each write.
use libfreespace.Common.{
  ℕ, zero, suc, ◌+◌, ◌<◌, ◌≡◌, refl, ap, true, [], ◌∷◌, none, some, ◌==◌, if◌then◌else◌, Bool-cases,
  inl, inr, length, get_or, set, is_some, arith,
}
use libfreespace.Usb.Types.{Device}
use libfreespace.Usb.Table.{Slots, find_device_by_id, slot_of}
use libfreespace.Slots.{IsFree}

-- No two devices have the same id.
abbrev pub Distinct : Slots → Type 0
Distinct [] = Unit {0}
Distinct (none ∷ rest) = Distinct rest
Distinct (some d ∷ rest) = (find_device_by_id rest d.id ≡ none) × Distinct rest

-- A found device has the id that was asked for.
pub find-id : (ds : Slots) (id : ℕ) {d : Device} → find_device_by_id ds id ≡ some d → d.id ≡ id
unfolding find_device_by_id
find-id [] id h = ground arith
find-id (none ∷ rest) id h = find-id rest id h
find-id (some e ∷ rest) id {d} h = ground (arith, find-id rest id {d = d})

pub find-set-some :
    (ds : Slots) (i id : ℕ) (d : Device)
    → IsFree ds i
    → find_device_by_id ds d.id ≡ none
    → find_device_by_id (set ds i (some d)) id
      ≡ (if d.id == id then some d else find_device_by_id ds id)
unfolding find_device_by_id
find-set-some [] i id d f h = elim f.0 [ ]
find-set-some (none ∷ rest) zero id d f h = refl
find-set-some (some e ∷ rest) zero id d f h = ground arith
find-set-some (none ∷ rest) (suc i) id d f h = find-set-some rest i id d (omega arith, f.1) h
find-set-some (some e ∷ rest) (suc i) id d f h =
    ground (arith, find-set-some rest i id d (omega arith, f.1))

pub Distinct-set_some :
    (ds : Slots) (i : ℕ) (d : Device)
    → IsFree ds i
    → find_device_by_id ds d.id ≡ none
    → Distinct ds
    → Distinct (set ds i (some d))
unfolding find_device_by_id
Distinct-set_some [] i d f h u = elim f.0 [ ]
Distinct-set_some (none ∷ rest) zero d f h u = (h, u)
Distinct-set_some (some e ∷ rest) zero d f h u = ground arith
Distinct-set_some (none ∷ rest) (suc i) d f h u = Distinct-set_some rest i d (omega arith, f.1) h u
Distinct-set_some (some e ∷ rest) (suc i) d f h u = (
  ground (arith, find-set-some rest i e.id d (omega arith, f.1)),
  Distinct-set_some rest i d (omega arith, f.1) (ground arith) u.1,
)

-- What stands in the slot that the search by id stops at.
pub slot_of-some :
    (ds : Slots) (id i : ℕ) {k : ℕ}
    → slot_of ds id i ≡ some k
    → (n : ℕ) × (d : Device) × (k ≡ i + n)
      × (n < length ds)
      × (get_or ds n none ≡ some d)
      × (d.id ≡ id)
unfolding slot_of
slot_of-some [] id i h = ground arith
slot_of-some (none ∷ rest) id i h =
    let (n, d, e, l, g, di) = slot_of-some rest id (i + 1) h in
    (suc n, d, omega arith, omega arith, g, di)
slot_of-some (some e ∷ rest) id i {k} h = elim (Bool-cases (e.id == id)) [
  | inl y ↦ (0, e, ground arith, omega arith, refl, ground arith)
  | inr n ↦
      let (n, d, e, l, g, di) = slot_of-some rest id (i + 1) {k = k} (ground arith) in
      (suc n, d, omega arith, omega arith, g, di)
]

pub slot_of-none : (ds : Slots) (id i : ℕ) → slot_of ds id i ≡ none → find_device_by_id ds id ≡ none
unfolding slot_of find_device_by_id
slot_of-none [] id i h = refl
slot_of-none (none ∷ rest) id i h = slot_of-none rest id (i + 1) h
slot_of-none (some e ∷ rest) id i h = ground (arith, slot_of-none rest id (i + 1))

find-none :
    (ds : Slots) (i id : ℕ)
    → find_device_by_id ds id ≡ none
    → find_device_by_id (set ds i none) id ≡ none
unfolding find_device_by_id
find-none [] i id h = refl
find-none (none ∷ rest) zero id h = h
find-none (some e ∷ rest) zero id h = ground arith
find-none (none ∷ rest) (suc i) id h = find-none rest i id h
find-none (some e ∷ rest) (suc i) id h = ground (arith, find-none rest i id)

-- A device that stands in a slot makes the search by its id succeed.
pub find_of_slot :
    (ds : Slots) (i : ℕ) {d : Device}
    → get_or ds i none ≡ some d
    → is_some (find_device_by_id ds d.id) ≡ true
unfolding find_device_by_id
find_of_slot [] i h = ground arith
find_of_slot (none ∷ rest) zero h = ground arith
find_of_slot (some e ∷ rest) zero h = ground arith
find_of_slot (none ∷ rest) (suc i) h = find_of_slot rest i h
find_of_slot (some e ∷ rest) (suc i) h = ground (arith, find_of_slot rest i h)

pub find-set-none :
    (ds : Slots) (i id : ℕ) {d : Device}
    → Distinct ds
    → get_or ds i none ≡ some d
    → find_device_by_id (set ds i none) id ≡ (if d.id == id then none else find_device_by_id ds id)
unfolding find_device_by_id
find-set-none [] i id u h = ground arith
find-set-none (none ∷ rest) zero id u h = ground arith
find-set-none (some e ∷ rest) zero id u h = ground arith
find-set-none (none ∷ rest) (suc i) id u h = find-set-none rest i id u h
find-set-none (some e ∷ rest) (suc i) id {d} u h = ground (
  arith,
  find-set-none rest i id u.1 h,
  find_of_slot rest i h,
  ap (find_device_by_id rest) {x = e.id} {y = d.id},
)

pub Distinct-set_none : (ds : Slots) (i : ℕ) → Distinct ds → Distinct (set ds i none)
Distinct-set_none [] i u = tt
Distinct-set_none (none ∷ rest) zero u = u
Distinct-set_none (some e ∷ rest) zero u = u.1
Distinct-set_none (none ∷ rest) (suc i) u = Distinct-set_none rest i u
Distinct-set_none (some e ∷ rest) (suc i) u =
    (find-none rest i e.id u.0, Distinct-set_none rest i u.1)
