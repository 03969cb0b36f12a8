-- ===== src/Win32/Sweep.antt =====
-- The sweep of win32/freespace_deviceMgr.c removes the devices that were not seen, and no others.
use libfreespace.Common.{
  ℕ, zero, suc, ◌≤◌, ◌≡◌, ◌≢◌, refl, sym, ap, ◌∙◌, inl, inr, Bool, List, [], ◌∷◌, if◌then◌else◌,
  Bool-cases, length, arith,
}
use libfreespace.Win32.Types.{Device, Manager}
use libfreespace.Slots.{maximum_device_count}
use libfreespace.Win32.{filter_devices, filter_sweep, take_out, take_out_all, remove_devices}

-- No device of the list has this id.
abbrev pub Lacks : ℕ → List Device → Type 0
Lacks id [] = Unit {0}
Lacks id (d ∷ rest) = (d.id ≢ id) × Lacks id rest

-- Each id stands at one device only.
abbrev pub HasDistinctIds : List Device → Type 0
HasDistinctIds [] = Unit {0}
HasDistinctIds (d ∷ rest) = Lacks d.id rest × HasDistinctIds rest

-- the devices that were seen
abbrev pub present : List Device → List Device
present [] = []
present (d ∷ rest) = if filter_sweep d then present rest else d ∷ present rest

-- the devices that pass a test
abbrev pub selected : (Device → Bool) → List Device → List Device
selected p [] = []
selected p (d ∷ rest) = if p d then d ∷ selected p rest else selected p rest

-- the devices that were not seen
abbrev pub gone : List Device → List Device
gone ds = selected filter_sweep ds

pub filter_devices-selected :
    (p : Device → Bool) (room : ℕ) (ds : List Device)
    → length ds ≤ room
    → filter_devices p room ds ≡ selected p ds
unfolding filter_devices
filter_devices-selected p room [] h = refl
filter_devices-selected p zero (d ∷ rest) h = absurd (omega (arith, h))
filter_devices-selected p (suc room) (d ∷ rest) h = elim (Bool-cases (p d)) [
  | inl e ↦ rw e (ap (λ ds. d ∷ ds) (filter_devices-selected p room rest (omega arith)))
  | inr e ↦ rw e (filter_devices-selected p (suc room) rest (omega arith))
]

take_out-Lacks : (id : ℕ) (ds : List Device) → Lacks id ds → take_out id ds ≡ ds
unfolding take_out
take_out-Lacks id [] h = refl
take_out-Lacks id (d ∷ []) h = ground (arith, h.0)
take_out-Lacks id (d ∷ e ∷ rest) h = ground (arith, h.0, take_out-Lacks id (e ∷ rest) h.1)

take_out-head : (d : Device) (ds : List Device) → Lacks d.id ds → take_out d.id (d ∷ ds) ≡ ds
unfolding take_out
take_out-head d [] h = ground arith
take_out-head d (e ∷ rest) h = ground (arith, ap (λ ds. e ∷ ds) (take_out-Lacks d.id rest h.1))

-- A device with another id stays in front.
take_out-skip :
    (id : ℕ) (d : Device) (ds : List Device) → d.id ≢ id → take_out id (d ∷ ds) ≡ d ∷ take_out id ds
unfolding take_out
take_out-skip id d [] h = ground (arith, h)
take_out-skip id d (e ∷ rest) h = ground (arith, h)

pub Lacks-selected :
    (p : Device → Bool) (id : ℕ) (ds : List Device) → Lacks id ds → Lacks id (selected p ds)
Lacks-selected p id [] h = tt
Lacks-selected p id (d ∷ rest) h = elim (Bool-cases (p d)) [
  | inl e ↦ rw e (h.0, Lacks-selected p id rest h.1)
  | inr e ↦ rw e (Lacks-selected p id rest h.1)
]

take_out_all-skip :
    (d : Device) (out ds : List Device)
    → Lacks d.id out
    → take_out_all out (d ∷ ds) ≡ d ∷ take_out_all out ds
unfolding take_out_all
take_out_all-skip d [] ds h = refl
take_out_all-skip d (e ∷ rest) ds h =
    ap (take_out_all rest) (take_out-skip e.id d ds (λ k. h.0 (sym k)))
    ∙ take_out_all-skip d rest (take_out e.id ds) h.1

take_out_all-present :
    (ds : List Device) → HasDistinctIds ds → take_out_all (gone ds) ds ≡ present ds
unfolding take_out_all
take_out_all-present [] h = refl
take_out_all-present (d ∷ rest) h = elim (Bool-cases (filter_sweep d)) [
  | inl e ↦
      rw e
        (ap (take_out_all (gone rest)) (take_out-head d rest h.0) ∙ take_out_all-present rest h.1)
  | inr e ↦ rw e (
      take_out_all-skip d (gone rest) rest (Lacks-selected filter_sweep d.id rest h.0)
      ∙ ap (λ ds. d ∷ ds) (take_out_all-present rest h.1))
]

-- With at most sixteen devices, each with its own id, `checkDiscoveryRemoveDevices` takes out
-- exactly the devices that the scan did not see, keeps the others in their order, and returns their
-- number.
pub remove_devices-present :
    (m : Manager)
    → length m.devices ≤ maximum_device_count
    → HasDistinctIds m.devices
    → ((remove_devices m).0.devices ≡ present m.devices)
      × ((remove_devices m).1 ≡ length (gone m.devices))
unfolding remove_devices
remove_devices-present m h u =
    let e = filter_devices-selected filter_sweep maximum_device_count m.devices h in
    (ap (λ out. take_out_all out m.devices) e ∙ take_out_all-present m.devices u, ap length e)
