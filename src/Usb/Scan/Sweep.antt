-- ===== src/Usb/Scan/Sweep.antt =====
-- What the second loop of `scanDevices` does to the table, slot by slot.
use libfreespace.Common.{
  ℕ, zero, suc, ◌+◌, ◌<◌, ◌≤◌, ◌≡◌, refl, ap, ◌∙◌, sym, inl, inr, ◌&&◌, [], ◌∷◌, Option, none, some,
  ◌==◌, ltb, leb, if◌then◌else◌, Bool-cases, length, get_or, set, get_or-set_self, get_or-set_ne,
  arith,
}
use mathlib.Core.Path.{ap₂}
use native.Mathlib.Decide.{dec_lt}
use libfreespace.Slots.{maximum_device_count}
use libfreespace.Usb.Types.{DeviceState, Device}
use libfreespace.Usb.Table.{Slots, Table, find_device_by_id, store, slot_of, clear_slot, remove}
use libfreespace.Usb.Table.Map.{Distinct, find_of_slot}
use libfreespace.Usb.Table.Valid.{IsValid, remove-IsValid}
use libfreespace.Usb.Table.Refine.{store-IsValid}
use libfreespace.Usb.Library.{Library}
use libfreespace.Usb.Scan.{is_opened, sweep_slot, sweep}

-- What the sweep makes of a slot: a device that was seen stays; an opened one that was not seen is
-- disconnected, and any other is removed.
unfoldable pub swept : ℕ → Option Device → Option Device
swept ts none = none
swept ts (some d) =
    if d.ts == ts
    then some d
    else if is_opened d.state
    then some (record d { state = DeviceState.disconnected })
    else none

set-get_or : (ds : Slots) (i : ℕ) → set ds i (get_or ds i none) ≡ ds
set-get_or [] i = refl
set-get_or (e ∷ rest) zero = refl
set-get_or (e ∷ rest) (suc i) = ap (λ r. e ∷ r) (set-get_or rest i)

-- In a table with distinct ids a write through a pointer goes to the slot that holds it.
store-slot :
    (ds : Slots) (i : ℕ) (d' : Device) {d : Device}
    → Distinct ds
    → get_or ds i none ≡ some d
    → d.id ≡ d'.id
    → store ds d' ≡ set ds i (some d')
unfolding store
store-slot [] i d' u h e = ground arith
store-slot (none ∷ rest) zero d' u h e = ground arith
store-slot (some e ∷ rest) zero d' u h k = ground arith
store-slot (none ∷ rest) (suc i) d' u h e = ap (λ r. none ∷ r) (store-slot rest i d' u h e)
store-slot (some e ∷ rest) (suc i) d' {d} u h k = ground (
  arith,
  store-slot rest i d' u.1 h k,
  find_of_slot rest i h,
  ap (find_device_by_id rest) {x = e.id} {y = d.id},
)

-- In a table with distinct ids the search by id stops at the device's own slot.
slot_of-slot :
    (ds : Slots) (i k : ℕ) {d : Device}
    → Distinct ds
    → get_or ds i none ≡ some d
    → slot_of ds d.id k ≡ some (k + i)
unfolding slot_of
slot_of-slot [] i k u h = ground arith
slot_of-slot (none ∷ rest) zero k u h = ground arith
slot_of-slot (some e ∷ rest) zero k u h = ground arith
slot_of-slot (none ∷ rest) (suc i) k u h = slot_of-slot rest i (k + 1) u h ∙ ap some (omega arith)
slot_of-slot (some e ∷ rest) (suc i) k {d} u h = ground (
  arith,
  slot_of-slot rest i (k + 1) u.1 h,
  find_of_slot rest i h,
  ap (find_device_by_id rest) {x = e.id} {y = d.id},
)

remove-slot :
    (t : Table) (i : ℕ) {d : Device}
    → Distinct t.devices
    → get_or t.devices i none ≡ some d
    → (remove t d.id).devices ≡ set t.devices i none
unfolding remove clear_slot
remove-slot t i u h = ground (arith, slot_of-slot t.devices i 0 u h)

sweep_slot-devices :
    (lib : Library) (i : ℕ) (o : Option Device)
    → Distinct lib.table.devices
    → get_or lib.table.devices i none ≡ o
    → (sweep_slot lib o).lib.table.devices ≡ set lib.table.devices i (swept lib.ts o)
unfolding sweep_slot swept
sweep_slot-devices lib i none u h =
    sym (set-get_or lib.table.devices i) ∙ ap (set lib.table.devices i) h
sweep_slot-devices lib i (some d) u h = ground (
  arith,
  store-slot lib.table.devices i (record d { state = DeviceState.disconnected }) u h,
  remove-slot lib.table i u h,
  sym (set-get_or lib.table.devices i) ∙ ap (set lib.table.devices i) h,
)

sweep_slot-ts : (lib : Library) (o : Option Device) → (sweep_slot lib o).lib.ts ≡ lib.ts
unfolding sweep_slot
sweep_slot-ts lib none = refl
sweep_slot-ts lib (some d) = ground arith

sweep_slot-IsValid :
    (lib : Library) (o : Option Device) → IsValid lib.table → IsValid (sweep_slot lib o).lib.table
unfolding sweep_slot
sweep_slot-IsValid lib none v = v
sweep_slot-IsValid lib (some d) v = elim (Bool-cases (d.ts == lib.ts)) [
  | inl seen ↦ rw seen v
  | inr gone ↦ elim (Bool-cases (is_opened d.state)) [
    | inl o ↦
        rw (gone, o) (store-IsValid lib.table (record d { state = DeviceState.disconnected }) v)
    | inr c ↦ rw (gone, c) (remove-IsValid lib.table d.id v)
  ]
]

pub sweep-IsValid :
    (rounds i : ℕ) (lib : Library) → IsValid lib.table → IsValid (sweep rounds i lib).lib.table
unfolding sweep
sweep-IsValid zero i lib v = v
sweep-IsValid (suc rounds) i lib v =
    let o = get_or lib.table.devices i none in
    sweep-IsValid rounds (i + 1) (sweep_slot lib o).lib (sweep_slot-IsValid lib o v)

get_or-set :
    (ds : Slots) (i j : ℕ) (o : Option Device)
    → i < length ds
    → get_or (set ds i o) j none ≡ (if i == j then o else get_or ds j none)
get_or-set ds i j o h = elim (Bool-cases (i == j)) [
  | inl e ↦
      ground
        (arith, get_or-set_self ds i o none h, ap (λ k. get_or (set ds i o) k none) {x = i} {y = j})
  | inr n ↦ ground (arith, get_or-set_ne ds i j o none (ground arith))
]

sweep-slots :
    (rounds i j : ℕ) (lib : Library)
    → IsValid lib.table
    → i + rounds ≤ maximum_device_count
    → get_or (sweep rounds i lib).lib.table.devices j none ≡ (
        if leb i j && ltb j (i + rounds)
        then swept lib.ts (get_or lib.table.devices j none)
        else get_or lib.table.devices j none)
unfolding sweep
sweep-slots zero i j lib v h = ground arith
sweep-slots (suc rounds) i j lib v h =
    let ds = lib.table.devices in
    let o = get_or ds i none in
    let lib' = (sweep_slot lib o).lib in
    let here : get_or lib'.table.devices j none
        ≡ (if i == j then swept lib.ts o else get_or ds j none) =
      ap (λ s. get_or s j none) (sweep_slot-devices lib i o v.distinct refl)
      ∙ get_or-set ds i j (swept lib.ts o) (omega (arith, v.size)) in
    let later = sweep-slots rounds (i + 1) j lib' (sweep_slot-IsValid lib o v) (omega arith) in
    ground (
      arith,
      later,
      here,
      sweep_slot-ts lib o,
      ap (λ k. swept lib.ts (get_or ds k none)) {x = i} {y = j},
      ap (λ t. swept t (get_or lib'.table.devices j none)) (sweep_slot-ts lib o),
      ap (swept lib.ts) here,
    )

abbrev pub swept_all : ℕ → Slots → Slots
swept_all ts [] = []
swept_all ts (o ∷ rest) = swept ts o ∷ swept_all ts rest

slots_ext :
    (ds es : Slots)
    → length ds ≡ length es
    → ((j : ℕ) → get_or ds j none ≡ get_or es j none)
    → ds ≡ es
slots_ext [] [] l h = refl
slots_ext [] (e ∷ es) l h = absurd (omega arith)
slots_ext (d ∷ ds) [] l h = absurd (omega arith)
slots_ext (d ∷ ds) (e ∷ es) l h = ap₂ ◌∷◌ (h 0) (slots_ext ds es (omega arith) (λ j. h (suc j)))

length-swept_all : (ts : ℕ) (ds : Slots) → length (swept_all ts ds) ≡ length ds
length-swept_all ts [] = refl
length-swept_all ts (o ∷ rest) = ap suc (length-swept_all ts rest)

get_or-swept_all :
    (ts : ℕ) (ds : Slots) (j : ℕ) → get_or (swept_all ts ds) j none ≡ swept ts (get_or ds j none)
unfolding swept
get_or-swept_all ts [] j = refl
get_or-swept_all ts (o ∷ rest) zero = refl
get_or-swept_all ts (o ∷ rest) (suc j) = get_or-swept_all ts rest j

get_or-beyond : (ds : Slots) (j : ℕ) → length ds ≤ j → get_or ds j none ≡ none
get_or-beyond [] j h = refl
get_or-beyond (o ∷ rest) zero h = absurd (omega arith)
get_or-beyond (o ∷ rest) (suc j) h = get_or-beyond rest j (omega arith)

-- The second loop of `scanDevices` goes through the whole table: each slot is kept if its device
-- was seen in this scan, disconnected if it is opened, and emptied otherwise, whatever the loop did
-- to the slots before it.
pub sweep_refines :
    (lib : Library)
    → IsValid lib.table
    → (sweep maximum_device_count 0 lib).lib.table.devices ≡ swept_all lib.ts lib.table.devices
sweep_refines lib v =
    slots_ext after (swept_all lib.ts ds)
      (omega (arith, length-swept_all lib.ts ds, v.size, valid.size)) slot
  where
    ds : Slots
    ds = lib.table.devices

    after : Slots
    after = (sweep maximum_device_count 0 lib).lib.table.devices

    valid : IsValid (sweep maximum_device_count 0 lib).lib.table
    valid = sweep-IsValid maximum_device_count 0 lib v

    slot : (j : ℕ) → get_or after j none ≡ get_or (swept_all lib.ts ds) j none
    slot j = elim (dec_lt j maximum_device_count) [
      | yes p ↦ ground (
        arith,
        sweep-slots maximum_device_count 0 j lib v (omega arith),
        get_or-swept_all lib.ts ds j,
      )
      | no p ↦
          get_or-beyond after j (omega (arith, valid.size))
          ∙ sym (
              get_or-beyond (swept_all lib.ts ds) j
                (omega (arith, length-swept_all lib.ts ds, v.size)))
    ]

find-swept_all-none :
    (ts : ℕ) (ds : Slots) (id : ℕ)
    → find_device_by_id ds id ≡ none
    → find_device_by_id (swept_all ts ds) id ≡ none
unfolding find_device_by_id swept
find-swept_all-none ts [] id h = refl
find-swept_all-none ts (none ∷ rest) id h = find-swept_all-none ts rest id h
find-swept_all-none ts (some d ∷ rest) id h = ground (arith, find-swept_all-none ts rest id)

pub find-swept_all :
    (ts : ℕ) (ds : Slots) (id : ℕ)
    → Distinct ds
    → find_device_by_id (swept_all ts ds) id ≡ swept ts (find_device_by_id ds id)
unfolding find_device_by_id swept
find-swept_all ts [] id u = refl
find-swept_all ts (none ∷ rest) id u = find-swept_all ts rest id u
find-swept_all ts (some d ∷ rest) id u = elim (Bool-cases (d.id == id)) [
  | inl y ↦ rw y (
      ground (
        arith,
        find-swept_all-none ts rest d.id u.0,
        ap (find_device_by_id (swept_all ts rest)) {x = d.id} {y = id},
      ))
  | inr n ↦ rw n (ground (arith, find-swept_all ts rest id u.1))
]
