-- ===== src/Win32/Receive/Listening.antt =====
-- `freespace_private_devicePerform` of win32/freespace_device.c leaves a device that listens on
-- every interface, or one that is shut.
use libfreespace.Common.{
  ℕ, ◌+◌, ◌≡◌, ◌≢◌, refl, ◌⊎◌, inl, inr, Bool, true, false, List, [], ◌∷◌, ◌++◌, Option, none,
  Bool-cases, Option-cases, ℤ, arith,
}
use libfreespace.Errors.{success, error_no_data}
use libfreespace.Usb.Message.{Decode}
use libfreespace.Win32.Types.{Interface, Device}
use libfreespace.Win32.Close.{force_close, force_close_actions}
use libfreespace.Win32.Close.Release.{held_by, force_close-releases}
use libfreespace.Win32.Receive.{
  LastError, io_pending, io_incomplete, device_not_connected, other_error, Effect, system, received,
  message_received, sent, unplugged, rescan, Run, ReadCalls, Overlapped, is_pending, has_callback,
  Hotplug, failure_code, report_failure, system_effects, unplug, handle_device_failure,
  initiate_from, initiate_async_receives, perform_sends, perform_reads, device_perform,
}

-- A read is going on at each interface.
abbrev pub AllReading : List Interface → Type 0
AllReading [] = Unit {0}
AllReading (s ∷ rest) = (s.read_status ≡ true) × AllReading rest

-- Is another scan asked for?
abbrev pub asks_rescan : {Body : Type 0} → List (Effect Body) → Bool
asks_rescan [] = false
asks_rescan (rescan ∷ rest) = true
asks_rescan (system a ∷ rest) = asks_rescan rest
asks_rescan (received c i b k r ∷ rest) = asks_rescan rest
asks_rescan (message_received c i b k r ∷ rest) = asks_rescan rest
asks_rescan (sent c i k r ∷ rest) = asks_rescan rest
asks_rescan (unplugged c i k ∷ rest) = asks_rescan rest

asks_rescan-append :
    {Body : Type 0} (xs ys : List (Effect Body))
    → asks_rescan ys ≡ true
    → asks_rescan (xs ++ ys) ≡ true
asks_rescan-append [] ys h = h
asks_rescan-append (rescan ∷ rest) ys h = refl
asks_rescan-append (system a ∷ rest) ys h = asks_rescan-append rest ys h
asks_rescan-append (received c i b k r ∷ rest) ys h = asks_rescan-append rest ys h
asks_rescan-append (message_received c i b k r ∷ rest) ys h = asks_rescan-append rest ys h
asks_rescan-append (sent c i k r ∷ rest) ys h = asks_rescan-append rest ys h
asks_rescan-append (unplugged c i k ∷ rest) ys h = asks_rescan-append rest ys h

-- The device holds no handle, is closed and unavailable, and another scan is asked for.
pub record IsShut {Body : Type 0} (r : Run Body) : Type 0 where
  pub holds_nothing : held_by r.device ≡ []
  pub closed : r.device.is_opened ≡ false
  pub unavailable : r.device.is_available ≡ false
  pub rescans : asks_rescan r.effects ≡ true

-- The device is open and listens at each interface.
abbrev pub IsListening : Device → Type 0
IsListening d = (d.is_opened ≡ true) × AllReading d.interfaces

-- Success, and the device listens; or failure, and it is shut.
abbrev pub Settles : {Body : Type 0} → Run Body → Type 0
Settles r = ((r.rc ≡ success) × IsListening r.device) ⊎ ((r.rc ≢ success) × IsShut r)

pub failure_code-ne-success : (e : LastError) → failure_code e ≢ success
failure_code-ne-success io_pending = ground arith
failure_code-ne-success io_incomplete = ground arith
failure_code-ne-success device_not_connected = ground arith
failure_code-ne-success (other_error n) = ground arith

more_effects-IsShut :
    {Body : Type 0} (r : Run Body) (xs : List (Effect Body))
    → IsShut r
    → IsShut (record r { effects = xs ++ r.effects })
more_effects-IsShut r xs s = record {
  holds_nothing = s.holds_nothing;
  closed = s.closed;
  unavailable = s.unavailable;
  rescans = asks_rescan-append xs r.effects s.rescans;
}

more_effects-Settles :
    {Body : Type 0} (r : Run Body) (xs : List (Effect Body))
    → Settles r
    → Settles (record r { effects = xs ++ r.effects })
more_effects-Settles r xs (inl h) = inl h
more_effects-Settles r xs (inr (n, s)) = inr (n, more_effects-IsShut r xs s)

module _ {Body : Type 0} (decode : Decode Body) (code : LastError → ℤ) (hotplug : Hotplug) where
  pub handle_device_failure-IsShut :
      (d : Device) (e : LastError) → IsShut (handle_device_failure decode code hotplug d e)
  unfolding handle_device_failure force_close
  handle_device_failure-IsShut d e = record {
    holds_nothing = (force_close-releases (record d { is_available = false })).1;
    closed = refl;
    unavailable = refl;
    rescans =
        asks_rescan-append (unplug decode code hotplug d) _
          (asks_rescan-append (system_effects decode code hotplug (force_close_actions d)) _ refl);
  }

  initiate_from-AllReading :
      (calls : ℕ → ReadCalls) (d : Device) (i : ℕ) (ss : List Interface)
      → (initiate_from decode code hotplug calls d i ss).failure ≡ none
      → AllReading (initiate_from decode code hotplug calls d i ss).interfaces
  unfolding initiate_from
  initiate_from-AllReading calls d i [] h = tt
  initiate_from-AllReading calls d i (s ∷ rest) h = elim (Bool-cases s.read_status) [
    | inl a ↦
        rw a (refl, initiate_from-AllReading calls d (i + 1) rest (rw (a, initiate_from) at h))
    | inr a ↦ elim (Bool-cases (is_pending (calls i).last_error)) [
      | inl b ↦ rw (a, b) (refl, initiate_from-AllReading calls d (i + 1) rest (rw (a, b) at h))
      | inr b ↦ cc (rw (a, b) at h)
    ]
  ]

  -- Every outcome of `initiateAsyncReceives` on an open device with a callback.
  initiate-Settles :
      (calls : ℕ → ReadCalls) (d : Device)
      → d.is_opened ≡ true
      → has_callback d ≡ true
      → Settles (initiate_async_receives decode code hotplug calls d)
  unfolding initiate_async_receives
  initiate-Settles calls d o c =
      let p = initiate_from decode code hotplug calls d 0 d.interfaces in
      let d' = record d { interfaces = p.interfaces } in
      elim (Option-cases p.failure) [
        | inl e ↦ rw (o, c, e) (inl (refl, (o, initiate_from-AllReading calls d 0 d.interfaces e)))
        | inr (x, e) ↦
            rw (o, c, e)
              (inr (
                failure_code-ne-success x,
                more_effects-IsShut _ p.effects (
                    more_effects-IsShut _ (report_failure decode code hotplug d' (code x))
                      (handle_device_failure-IsShut d' x)),
              ))
      ]

  -- After `freespace_private_devicePerform` on an open device with a callback, whatever the system
  -- answers, either it reports success, and the device is open with a read going on at each
  -- interface; or it reports an error, and the device is closed, unavailable, and holds no handle
  -- or event, and another scan is asked for.
  pub device_perform-Settles :
      (send_results : ℕ → Option ℕ) (results : ℕ → Overlapped) (calls : ℕ → ReadCalls) (d : Device)
      → d.is_opened ≡ true
      → has_callback d ≡ true
      → Settles (device_perform decode code hotplug send_results results calls d)
  unfolding device_perform
  device_perform-Settles send_results results calls d o c =
      let sends = perform_sends decode code hotplug send_results d 0 d.sends in
      let p = perform_reads decode code hotplug results d 0 d.interfaces in
      let d' = record d { sends = sends.0; interfaces = p.interfaces } in
      elim (Option-cases p.failure) [
        | inl e ↦
            rw (e, device_perform)
              (more_effects-Settles _ sends.1 (
                more_effects-Settles (initiate_async_receives decode code hotplug calls d')
                  p.effects (initiate-Settles calls d' o c)))
        | inr (x, e) ↦
            rw (e, device_perform)
              (inr (
                failure_code-ne-success x,
                more_effects-IsShut _ sends.1 (
                    more_effects-IsShut _ p.effects (
                      more_effects-IsShut _ (report_failure decode code hotplug d error_no_data)
                        (handle_device_failure-IsShut d' x))),
              ))
      ]
