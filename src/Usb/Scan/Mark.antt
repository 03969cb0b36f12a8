-- ===== src/Usb/Scan/Mark.antt =====
-- What the first loop of `scanDevices` does to a device of the table, and that it keeps the table
-- valid.
use libfreespace.Common.{
  ℕ, ◌≡◌, refl, ap, sym, ◌∙◌, inl, inr, Bool, true, false, ◌&&◌, ◌||◌, List, [], ◌∷◌, none, some,
  ◌==◌, if◌then◌else◌, Bool-cases, Option-cases, is_some, arith,
}
use libfreespace.DeviceTable.{DeviceApi}
use libfreespace.Usb.Types.{Device}
use libfreespace.Usb.Table.{find_device_by_id}
use libfreespace.Usb.Table.Map.{find-id}
use libfreespace.Usb.Table.Valid.{IsValid, add-IsValid}
use libfreespace.Usb.Table.Refine.{add_refines, store-IsValid, store_refines}
use libfreespace.Usb.Library.{Library}
use libfreespace.Usb.Scan.{
  Descriptor, BusDevice, new_device, Progress, progress, touch, insert, mark, known, visit,
  visit_all,
}

-- The list has a known device at this address.
abbrev pub seen : ℕ → List BusDevice → Bool
seen id [] = false
seen id (b ∷ rest) = is_some (known b) && b.address == id || seen id rest

-- The first loop changes nothing but the table.
mark-ts :
    (lib : Library) (b : BusDevice) (desc : Descriptor) (api : DeviceApi)
    → (mark lib b desc api).lib.ts ≡ lib.ts
unfolding mark touch insert
mark-ts lib b desc api = ground arith

insert-IsValid :
    (lib : Library) (b : BusDevice) (desc : Descriptor) (api : DeviceApi)
    → IsValid lib.table
    → find_device_by_id lib.table.devices b.address ≡ none
    → IsValid (insert lib b desc api).lib.table
unfolding insert new_device
insert-IsValid lib b desc api v fresh = add-IsValid lib.table (new_device lib.ts b desc api) v fresh

mark-IsValid :
    (lib : Library) (b : BusDevice) (desc : Descriptor) (api : DeviceApi)
    → IsValid lib.table
    → IsValid (mark lib b desc api).lib.table
unfolding mark touch
mark-IsValid lib b desc api v =
    elim (Option-cases (find_device_by_id lib.table.devices b.address)) [
      | inl e ↦ elim (Bool-cases b.malloc) [
        | inl m ↦ rw (e, mark, m) (insert-IsValid lib b desc api v e)
        | inr m ↦ rw (e, mark, m) v
      ]
      | inr (d, e) ↦ rw (e, mark) (store-IsValid lib.table (record d { ts = lib.ts }) v)
    ]

-- The cases of a visit: a device that is passed over, and a known one.
visit_cases {ℓ} :
    (P : Progress → Type ℓ) (lib : Library) (b : BusDevice)
    → (known b ≡ none → P (progress lib []))
    → ((desc : Descriptor) (api : DeviceApi) → known b ≡ some (desc, api) → P (mark lib b desc api))
    → P (visit lib b)
unfolding visit
visit_cases P lib b unknown case = elim (Option-cases (known b)) [
  | inl e ↦ rw (e, visit) (unknown e)
  | inr ((desc, api), e) ↦ rw (e, visit) (case desc api e)
]

pub visit-ts : (lib : Library) (b : BusDevice) → (visit lib b).lib.ts ≡ lib.ts
visit-ts lib b =
    visit_cases (λ p. p.lib.ts ≡ lib.ts) lib b (λ e. refl) (λ desc api e. mark-ts lib b desc api)

pub visit-IsValid :
    (lib : Library) (b : BusDevice) → IsValid lib.table → IsValid (visit lib b).lib.table
visit-IsValid lib b v =
    visit_cases (λ p. IsValid p.lib.table) lib b (λ e. v)
      (λ desc api e. mark-IsValid lib b desc api v)

pub visit_all-IsValid :
    (lib : Library) (bus : List BusDevice)
    → IsValid lib.table
    → IsValid (visit_all lib bus).lib.table
unfolding visit_all
visit_all-IsValid lib [] v = v
visit_all-IsValid lib (b ∷ rest) v =
    ground (
      arith,
      visit-IsValid lib b v,
      visit_all-IsValid (visit lib b).lib rest (visit-IsValid lib b v),
    )

pub visit_all-ts : (lib : Library) (bus : List BusDevice) → (visit_all lib bus).lib.ts ≡ lib.ts
unfolding visit_all
visit_all-ts lib [] = refl
visit_all-ts lib (b ∷ rest) = ground (arith, visit-ts lib b, visit_all-ts (visit lib b).lib rest)

-- a device of the table, marked if it was seen
abbrev pub marked : Bool → ℕ → Device → Device
marked s ts d = if s then record d { ts = ts } else d

marked-marked :
    (s s' : Bool) (ts ts' : ℕ) (d : Device)
    → ts' ≡ ts
    → marked s' ts' (marked s ts d) ≡ marked (s || s') ts d
marked-marked true true ts ts' d e = rw e
marked-marked true false ts ts' d e = refl
marked-marked false true ts ts' d e = rw e
marked-marked false false ts ts' d e = refl

insert-find :
    (lib : Library) (b : BusDevice) (desc : Descriptor) (api : DeviceApi) (id : ℕ) {d : Device}
    → IsValid lib.table
    → find_device_by_id lib.table.devices b.address ≡ none
    → find_device_by_id lib.table.devices id ≡ some d
    → find_device_by_id (insert lib b desc api).lib.table.devices id ≡ some d
unfolding insert new_device
insert-find lib b desc api id v fresh h =
    elim (add_refines lib.table (new_device lib.ts b desc api) v fresh) [
      | inl (room, rc, found) ↦
          ground
            (arith, found id, ap (find_device_by_id lib.table.devices) {x = b.address} {y = id})
      | inr (full, rc, same) ↦ rw same h
    ]

touch-find :
    (lib : Library) (id : ℕ) {d d' : Device} (address : ℕ)
    → find_device_by_id lib.table.devices address ≡ some d'
    → find_device_by_id lib.table.devices id ≡ some d
    → find_device_by_id (touch lib d').table.devices id ≡ some (marked (address == id) lib.ts d)
unfolding touch
touch-find lib id {d} {d'} address e h =
    let same : d'.id ≡ address = find-id lib.table.devices address e in
    ground (
      arith,
      store_refines lib.table.devices (record d' { ts = lib.ts }) id {e = d'}
          (ap (find_device_by_id lib.table.devices) same ∙ e),
      ap (find_device_by_id lib.table.devices) {x = address} {y = id},
    )

mark-find :
    (lib : Library) (b : BusDevice) (desc : Descriptor) (api : DeviceApi) (id : ℕ) {d : Device}
    → IsValid lib.table
    → find_device_by_id lib.table.devices id ≡ some d
    → find_device_by_id (mark lib b desc api).lib.table.devices id
      ≡ some (marked (b.address == id) lib.ts d)
unfolding mark touch
mark-find lib b desc api id {d} v h =
    elim (Option-cases (find_device_by_id lib.table.devices b.address)) [
      | inl e ↦ elim (Bool-cases b.malloc) [
        | inl m ↦ rw (e, mark, m) (insert-find lib b desc api id v e h ∙ ap some (sym (apart e)))
        | inr m ↦ rw (e, mark, m) (h ∙ ap some (sym (apart e)))
      ]
      | inr (d', e) ↦ rw (e, mark) (touch-find lib id b.address e h)
    ]
  where
    apart :
        find_device_by_id lib.table.devices b.address ≡ none → marked (b.address == id) lib.ts d ≡ d
    apart e = ground (arith, ap (find_device_by_id lib.table.devices) {x = b.address} {y = id})

pub visit-find :
    (lib : Library) (b : BusDevice) (id : ℕ) {d : Device}
    → IsValid lib.table
    → find_device_by_id lib.table.devices id ≡ some d
    → find_device_by_id (visit lib b).lib.table.devices id
      ≡ some (marked (is_some (known b) && b.address == id) lib.ts d)
visit-find lib b id {d} v h =
    visit_cases
      (λ p.
        find_device_by_id p.lib.table.devices id
        ≡ some (marked (is_some (known b) && b.address == id) lib.ts d))
      lib b (λ e. rw e h) (λ desc api e. rw e (mark-find lib b desc api id v h))

-- If memory does not run out, the first loop gives a device of the table the time stamp of the scan
-- exactly if the list has a known device at its address, and changes nothing else of it.
pub visit_all-find :
    (lib : Library) (bus : List BusDevice) (id : ℕ) {d : Device}
    → IsValid lib.table
    → (visit_all lib bus).out_of_memory ≡ false
    → find_device_by_id lib.table.devices id ≡ some d
    → find_device_by_id (visit_all lib bus).lib.table.devices id
      ≡ some (marked (seen id bus) lib.ts d)
unfolding visit_all
visit_all-find lib [] id v m h = h
visit_all-find lib (b ∷ rest) id {d} v m h = elim (Bool-cases (visit lib b).out_of_memory) [
  | inl out ↦ absurd (ground arith)
  | inr more ↦ rw more (
      visit_all-find (visit lib b).lib rest id (visit-IsValid lib b v) (ground arith)
        (visit-find lib b id v h)
      ∙ ap some (
          marked-marked (is_some (known b) && b.address == id) (seen id rest) lib.ts
            (visit lib b).lib.ts d (visit-ts lib b)))
]
