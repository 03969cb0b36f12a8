-- ===== src/Win32/Changes/Stable.antt =====
-- `checkDiscovery` of win32/freespace_deviceMgr.c scans again until it counts no change: one round
-- of changes is enough.
use libfreespace.Common.{
  ℕ, zero, suc, ◌≤◌, ◌≡◌, refl, subst, sym, ap, ◌∙◌, inl, inr, Bool, true, false, not, ◌&&◌, List,
  [], ◌∷◌, if◌then◌else◌, Bool-cases, length, arith,
}
use libfreespace.Win32.Types.{Device, Manager}
use libfreespace.Slots.{maximum_device_count}
use libfreespace.Win32.{
  is_present, is_unknown, all_enumerated, filter_devices, filter_sweep, filter_partially_removed,
  filter_ready, remove_devices,
}
use libfreespace.Win32.Sweep.{HasDistinctIds, present}
use libfreespace.Win32.Discovery.{remove_partially, add_ready, handle_changes}
use libfreespace.Win32.Changes.{settle, settle_all, closed-lem, handle_changes-settle_all}

-- No filter of the three takes the device.
abbrev pub IsCalm : Device → Type 0
IsCalm d =
    (filter_sweep d ≡ false) × ((filter_partially_removed d ≡ false) × (filter_ready d ≡ false))

abbrev pub AllCalm : List Device → Type 0
AllCalm [] = Unit {0}
AllCalm (d ∷ rest) = IsCalm d × AllCalm rest

absent-IsCalm : (d : Device) → is_present d.status ≡ false → filter_sweep d ≡ false → IsCalm d
unfolding filter_partially_removed filter_ready
absent-IsCalm d s h = (h, (rw s refl, rw s refl))

-- A device is calm if it is available just if all its interfaces were enumerated.
agrees-IsCalm :
    (d : Device) (b : Bool)
    → d.is_available ≡ b
    → all_enumerated d.interfaces ≡ b
    → filter_sweep d ≡ false
    → IsCalm d
unfolding filter_partially_removed filter_ready
agrees-IsCalm d true a e h = (h, (rw (a, e) (ground arith), rw (a, e) (ground arith)))
agrees-IsCalm d false a e h = (h, (rw (a, e) (ground arith), rw (a, e) (ground arith)))

if-IsCalm :
    (b : Bool) (d e : Device)
    → (b ≡ true → IsCalm d)
    → (b ≡ false → IsCalm e)
    → IsCalm (if b then d else e)
if-IsCalm true d e h k = h refl
if-IsCalm false d e h k = k refl

settle-IsCalm : (d : Device) → filter_sweep d ≡ false → IsCalm (settle d)
settle-IsCalm d h =
    let (st, av, en) = closed-lem (record d { is_available = false }) in
    if-IsCalm (is_present d.status) _ d
      (λ s.
        if-IsCalm (d.is_available && not (all_enumerated d.interfaces)) _ _
          (λ a. agrees-IsCalm _ false av (en ∙ ground (arith, a)) (ap is_unknown st ∙ h))
          (λ a. agrees-IsCalm _ (all_enumerated d.interfaces) refl refl h))
      (λ s. absent-IsCalm d s h)

settle_all-AllCalm : (ds : List Device) → AllCalm (settle_all (present ds))
settle_all-AllCalm [] = tt
settle_all-AllCalm (d ∷ rest) = elim (Bool-cases (filter_sweep d)) [
  | inl e ↦ rw e (settle_all-AllCalm rest)
  | inr e ↦ rw e (settle-IsCalm d e, settle_all-AllCalm rest)
]

filter_devices-none :
    (p : Device → Bool) (room : ℕ) (ds : List Device)
    → ((d : Device) → IsCalm d → p d ≡ false)
    → AllCalm ds
    → filter_devices p room ds ≡ []
unfolding filter_devices
filter_devices-none p room [] q h = refl
filter_devices-none p zero (d ∷ rest) q h = refl
filter_devices-none p (suc room) (d ∷ rest) q h =
    rw (q d h.0) (filter_devices-none p (suc room) rest q h.1)

handle_changes-calm : (m : Manager) → AllCalm m.devices → handle_changes m ≡ (m, 0, [])
unfolding handle_changes remove_devices remove_partially add_ready
handle_changes-calm m h =
    let a = filter_devices-none filter_sweep maximum_device_count m.devices (λ d c. c.0) h in
    let b =
      filter_devices-none filter_partially_removed maximum_device_count m.devices (λ d c. c.1.0)
        h in
    let c = filter_devices-none filter_ready maximum_device_count m.devices (λ d k. k.1.1) h in
    rw (a, b, c) refl

-- With at most sixteen devices, each with its own id, one round of the changes behind the scan is
-- enough: on the devices that it leaves, another round counts no change, so it asks for no further
-- scan, and it leaves the manager as it is and calls no callback.
pub handle_changes-stable :
    (m : Manager)
    → length m.devices ≤ maximum_device_count
    → HasDistinctIds m.devices
    → handle_changes (handle_changes m).0 ≡ ((handle_changes m).0, 0, [])
handle_changes-stable m h u =
    handle_changes-calm (handle_changes m).0
      (subst AllCalm (sym (handle_changes-settle_all m h u)) (settle_all-AllCalm m.devices))
