-- ===== src/Win32/Changes.antt =====
-- The changes that `checkDiscovery` of win32/freespace_deviceMgr.c makes behind a scan, device by
-- device.
pub mod Stable
use libfreespace.Common.{
  ◌≤◌, ◌≡◌, refl, ap, ◌∙◌, inl, inr, false, not, ◌&&◌, List, [], ◌∷◌, if◌then◌else◌, Bool-cases,
  length, arith,
}
use libfreespace.Win32.Types.{Interface, Device, Manager}
use libfreespace.Win32.Close.{
  terminated, terminate_async_receives, without_handles, force_close, close,
}
use libfreespace.Slots.{maximum_device_count}
use libfreespace.Win32.{
  is_present, all_enumerated, filter_partially_removed, filter_ready, remove_devices,
}
use libfreespace.Win32.Sweep.{HasDistinctIds, present, remove_devices-present}
use libfreespace.Win32.Discovery.{
  make_unavailable, make_available, remove_partially, handle_changes,
}
use libfreespace.Win32.Settle.{
  mapped, HasDistinctIds-mapped, HasDistinctIds-present, length-mapped, length-present,
  close-KeepsId, remove_partially-mapped, add_ready-mapped,
}

-- What becomes of a device: if the scan saw it, it is available just if all its interfaces were
-- enumerated, and it is closed if it was available before and is not now.
abbrev pub settle : Device → Device
settle d =
    let complete = all_enumerated d.interfaces in
    if is_present d.status
    then (if d.is_available && not complete
        then close (record d { is_available = false })
        else record d { is_available = complete })
    else d

pub settle-id : (d : Device) → (settle d).id ≡ d.id
settle-id d = elim (Bool-cases (is_present d.status)) [
  | inr s ↦ rw s refl
  | inl s ↦ elim (Bool-cases (d.is_available && not (all_enumerated d.interfaces))) [
    | inl e ↦ rw (s, e) (close-KeepsId (record d { is_available = false }))
    | inr e ↦ rw (s, e) refl
  ]
]

abbrev pub settle_all : List Device → List Device
settle_all [] = []
settle_all (d ∷ rest) = settle d ∷ settle_all rest

-- the state behind `checkDiscoveryPartiallyRemovedDevices`
abbrev half : Device → Device
half d = if filter_partially_removed d then close (make_unavailable d) else d

all_enumerated-without_handles :
    (ss : List Interface) → all_enumerated (without_handles ss) ≡ all_enumerated ss
unfolding all_enumerated without_handles
all_enumerated-without_handles [] = refl
all_enumerated-without_handles (s ∷ rest) =
    ap (λ b. s.enumerated && b) (all_enumerated-without_handles rest)

all_enumerated-terminated :
    (ss : List Interface) → all_enumerated (terminated ss) ≡ all_enumerated ss
unfolding all_enumerated terminated
all_enumerated-terminated [] = refl
all_enumerated-terminated (s ∷ rest) = elim (Bool-cases s.read_status) [
  | inl e ↦ rw e (ap (λ b. s.enumerated && b) (all_enumerated-terminated rest))
  | inr e ↦ rw e (ap (λ b. s.enumerated && b) (all_enumerated-terminated rest))
]

pub closed-lem :
    (d : Device)
    → ((close d).status ≡ d.status)
      × ((close d).is_available ≡ d.is_available)
      × (all_enumerated (close d).interfaces ≡ all_enumerated d.interfaces)
unfolding close force_close terminate_async_receives
closed-lem d = elim (Bool-cases d.is_opened) [
  | inl e ↦ rw e (
    refl,
    refl,
    all_enumerated-without_handles (terminated d.interfaces)
        ∙ all_enumerated-terminated d.interfaces,
  )
  | inr e ↦ rw e (refl, refl, refl)
]

-- A device that was partially removed is not ready.
closed-not_ready :
    (d : Device)
    → all_enumerated d.interfaces ≡ false
    → filter_ready (close (make_unavailable d)) ≡ false
unfolding filter_ready
closed-not_ready d h =
    let (s, a, e) = closed-lem (make_unavailable d) in
    rw (s, a, e, h)
      (elim (Bool-cases (is_present d.status)) [ inl k ↦ rw k refl | inr k ↦ rw k refl ])

half-settle :
    (d : Device) → (if filter_ready (half d) then make_available (half d) else half d) ≡ settle d
unfolding filter_ready filter_partially_removed
half-settle d = elim (Bool-cases (is_present d.status)) [
  | inr s ↦ rw s (rw s refl)
  | inl s ↦ elim (Bool-cases d.is_available) [
    | inl a ↦ elim (Bool-cases (all_enumerated d.interfaces)) [
      | inl c ↦ rw (s, a, c) (rw s refl)
      | inr c ↦
          (let (st, av, en) = closed-lem (make_unavailable d) in
            rw (s, a, c) (rw (st, s, av, en, c) refl))
    ]
    | inr a ↦ elim (Bool-cases (all_enumerated d.interfaces)) [
      | inl c ↦ rw (s, a, c) (rw s refl)
      | inr c ↦ rw (s, a, c) (rw s refl)
    ]
  ]
]

mapped-settle_all :
    (ds : List Device)
    → mapped filter_ready make_available
        (mapped filter_partially_removed (λ d. close (make_unavailable d)) ds)
      ≡ settle_all ds
mapped-settle_all [] = refl
mapped-settle_all (d ∷ rest) =
    ap
      (λ e.
        e
        ∷ mapped filter_ready make_available
            (mapped filter_partially_removed (λ d. close (make_unavailable d)) rest))
      (half-settle d)
    ∙ ap (λ ds. settle d ∷ ds) (mapped-settle_all rest)

-- With at most sixteen devices, each with its own id, the part of `checkDiscovery` behind the scan
-- drops the devices that the scan did not see. Of the others it makes available just those whose
-- interfaces were all enumerated, closes those that were available and are not now, and changes
-- nothing else.
pub handle_changes-settle_all :
    (m : Manager)
    → length m.devices ≤ maximum_device_count
    → HasDistinctIds m.devices
    → (handle_changes m).0.devices ≡ settle_all (present m.devices)
unfolding handle_changes
handle_changes-settle_all m h u =
    let m1 = (remove_devices m).0 in
    let m2 = (remove_partially m1).0 in
    let e1 = (remove_devices-present m h u).0 in
    let h0 : length (present m.devices) ≤ maximum_device_count =
      omega (arith, length-present m.devices, h) in
    let h1 : length m1.devices ≤ maximum_device_count = rw e1 h0 in
    let u1 : HasDistinctIds m1.devices = rw e1 (HasDistinctIds-present m.devices u) in
    let e2 = remove_partially-mapped m1 h1 u1 in
    let f : Device → Device = λ d. close (make_unavailable d) in
    let h2 : length m2.devices ≤ maximum_device_count =
      rw e2 (omega (arith, length-mapped filter_partially_removed f m1.devices, h1)) in
    let u2 : HasDistinctIds m2.devices = rw e2 (
      HasDistinctIds-mapped filter_partially_removed f m1.devices
        (λ d. close-KeepsId (make_unavailable d)) u1) in
    add_ready-mapped m2 h2 u2
    ∙ ap (mapped filter_ready make_available) e2
    ∙ mapped-settle_all m1.devices
    ∙ ap settle_all e1
