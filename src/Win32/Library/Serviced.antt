-- ===== src/Win32/Library/Serviced.antt =====
-- `freespace_perform` of win32/freespace_deviceMgr.c keeps the reads of all listening devices
-- going.
use libfreespace.Common.{
  ℕ, ◌≡◌, refl, ap, ◌∙◌, ◌⊎◌, inl, inr, Bool, false, ◌&&◌, List, [], ◌∷◌, Option, none, some,
  Bool-cases, Option-cases, ℤ, arith,
}
use libfreespace.Usb.Message.{Decode}
use libfreespace.Win32.Match.{DiscoveryCalls}
use libfreespace.Win32.Types.{Device, Manager, Notice}
use libfreespace.Win32.Close.{force_close}
use libfreespace.Win32.Receive.{
  LastError, Hotplug, Run, ReadCalls, Overlapped, has_callback, handle_device_failure,
  initiate_async_receives, perform_sends, perform_reads, device_perform,
}
use libfreespace.Win32.Receive.Listening.{AllReading, Settles, device_perform-Settles}
use libfreespace.Win32.Library.{
  DeviceCalls, Performed, hotplug_of, perform_devices, perform, check_discovery_if_changed,
}

-- The device is not to listen, as it is closed or has no callback, or a read goes on at each
-- interface.
abbrev pub IsServiced : Device → Type 0
IsServiced d = ((d.is_opened && has_callback d) ≡ false) ⊎ AllReading d.interfaces

abbrev pub AllServiced : List Device → Type 0
AllServiced [] = Unit {0}
AllServiced (d ∷ rest) = IsServiced d × AllServiced rest

abbrev pub PerformedServiced : {Body : Type 0} → Option (Performed Body) → Type 0
PerformedServiced none = Unit {0}
PerformedServiced (some p) = AllServiced p.manager.devices

Settles-IsServiced : {Body : Type 0} (r : Run Body) → Settles r → IsServiced r.device
Settles-IsServiced r (inl (e, (o, a))) = inr a
Settles-IsServiced r (inr (n, s)) = inl (rw s.closed refl)

module _ {Body : Type 0} (decode : Decode Body) (code : LastError → ℤ) (hotplug : Hotplug) where
  idle-initiate :
      (calls : ℕ → ReadCalls) (d : Device)
      → (d.is_opened && has_callback d) ≡ false
      → (initiate_async_receives decode code hotplug calls d).device ≡ d
  unfolding initiate_async_receives
  idle-initiate calls d h = rw h refl

  idle-device_perform :
      (send_results : ℕ → Option ℕ) (results : ℕ → Overlapped) (calls : ℕ → ReadCalls) (d : Device)
      → (d.is_opened && has_callback d) ≡ false
      → let r = device_perform decode code hotplug send_results results calls d in
        (r.device.is_opened && has_callback r.device) ≡ false
  unfolding device_perform handle_device_failure force_close
  idle-device_perform send_results results calls d h =
      let p = perform_reads decode code hotplug results d 0 d.interfaces in
      let sends = perform_sends decode code hotplug send_results d 0 d.sends in
      let d' = record d { sends = sends.0; interfaces = p.interfaces } in
      elim (Option-cases p.failure) [
        | inl e ↦
            rw (e, device_perform)
              (ap (λ (x : Device). x.is_opened && has_callback x) (idle-initiate calls d' h) ∙ h)
        | inr (x, e) ↦ rw (e, ◌&&◌) refl
      ]

  device_perform-IsServiced :
      (send_results : ℕ → Option ℕ) (results : ℕ → Overlapped) (calls : ℕ → ReadCalls) (d : Device)
      → IsServiced (device_perform decode code hotplug send_results results calls d).device
  device_perform-IsServiced send_results results calls d =
      elim (Bool-cases (d.is_opened && has_callback d)) [
        | inr e ↦ inl (idle-device_perform send_results results calls d e)
        | inl e ↦ Settles-IsServiced _ (
            device_perform-Settles decode code hotplug send_results results calls d
              (ground (arith, e)) (ground (arith, e)))
      ]

  perform_devices-AllServiced :
      (at : ℕ → DeviceCalls) (ds : List Device)
      → AllServiced (perform_devices decode code hotplug at ds).0
  unfolding perform_devices
  perform_devices-AllServiced at [] = tt
  perform_devices-AllServiced at (d ∷ rest) =
      let c = at d.id in
      (
        device_perform-IsServiced c.send_results c.results c.calls d,
        perform_devices-AllServiced at rest,
      )

-- After every call of `freespace_perform` that does not write behind the array of devices, whatever
-- the scan finds and the system answers, each device of the manager that is open and has a callback
-- has a read going on at each interface.
pub perform-AllServiced :
    {Body : Type 0} (decode : Decode Body) (code : LastError → ℤ) (c : DiscoveryCalls)
    (at : ℕ → DeviceCalls) (m : Manager)
    → PerformedServiced (perform decode code c at m)
unfolding perform
perform-AllServiced decode code c at m = served (check_discovery_if_changed c m)
  where
    served :
        (o : Option (Manager × ℤ × Bool × List Notice))
        → PerformedServiced (elim o [
          | none ↦ none
          | some (m', rc, rescans, notices) ↦
              let (devices, effects) = perform_devices decode code (hotplug_of m') at m'.devices in
              some (record {
                manager = record m' { devices = devices };
                rc = rc;
                rescans = rescans;
                notices = notices;
                effects = effects;
              })
        ])
    served none = tt
    served (some (m', rc, rescans, notices)) =
        perform_devices-AllServiced decode code (hotplug_of m') at m'.devices
