-- ===== src/Win32/Open.antt =====
-- `freespace_openDevice` of win32/freespace_device.c.
pub mod Outcome
use libfreespace.Common.{
  ℕ, ◌+◌, Bool, true, false, not, List, [], ◌∷◌, ◌++◌, Option, none, some, ◌==◌, if◌then◌else◌,
  is_some, ℤ, eq_ℤ,
}
use libfreespace.Errors.{success, error_busy, error_no_device, error_unexpected}
use libfreespace.Usb.Message.{Decode}
use libfreespace.Win32.Types.{Handle, Callback, Interface, Send, Device}
use libfreespace.Win32.Close.{force_close, force_close_actions}
use libfreespace.Win32.Receive.{
  LastError, Effect, Run, ReadCalls, Hotplug, system_effects, initiate_async_receives,
}

-- What the system gives for an interface: the handle of `CreateFile`, whether
-- `BindIoCompletionCallback` and `HidD_SetNumInputBuffers` succeed, and the event of `CreateEvent`.
pub record OpenCalls : Type 0 where
  pub handle : Handle
  pub binds : Bool
  pub sets_buffers : Bool
  pub event : Option Handle

-- The loop over the interfaces: the interfaces, and the code that ends it early.
abbrev pub Opening : Type 0
Opening = List Interface × Option ℤ

module _ (invalid_handle : Handle) where
  -- The loop of `freespace_openDevice` from interface `i` on.
  unfoldable pub open_from : (ℕ → OpenCalls) → ℕ → List Interface → Opening
  open_from calls i [] = ([], none)
  open_from calls i (s ∷ rest) =
      let c = calls i in
      let later = open_from calls (i + 1) rest in
      let s' = record s { handle = some c.handle } in
      if is_some s.handle
      then (s ∷ rest, some error_busy)
      else if not (is_some s.device_path)
      then (s ∷ rest, some error_no_device)
      else if c.handle == invalid_handle
      then (s' ∷ rest, some error_no_device)
      else if not c.binds
      then (s' ∷ rest, some error_unexpected)
      else if not c.sets_buffers
      then (s' ∷ rest, some error_no_device)
      else elim c.event [
        | none ↦ (record s' { read_event = none } ∷ rest, some error_unexpected)
        | some e ↦ (record s' { read_event = some e; read_status = false } ∷ later.0, later.1)
      ]

-- `initializeSendStruct`; the event is what `CreateEvent` gives.
unfoldable pub initialize_send : Option Handle → Send → Send × ℤ
initialize_send event s =
    let s' = record s { interface = none } in
    if is_some s.event
    then (s', success)
    else (record s' { event = event }, if is_some event then success else error_unexpected)

-- The loop that initializes the sends, from send `i` on; the Boolean tells whether it gets to the
-- end.
unfoldable pub initialize_sends : (ℕ → Option Handle) → ℕ → List Send → List Send × Bool
unfolding initialize_send
initialize_sends events i [] = ([], true)
initialize_sends events i (s ∷ rest) =
    let r = initialize_send (events i) (record s { event = none }) in
    let later = initialize_sends events (i + 1) rest in
    if eq_ℤ r.1 success then (r.0 ∷ later.0, later.1) else (r.0 ∷ rest, false)

module _ {Body : Type 0} (decode : Decode Body) (code : LastError → ℤ) (hotplug : Hotplug)
    (invalid_handle : Handle) where
  -- a return behind `freespace_private_forceCloseDevice`
  abbrev pub given_up : Device → ℤ → List (Effect Body) → Run Body
  given_up d rc effects = record {
    device = force_close d;
    rc = rc;
    effects = effects ++ system_effects decode code hotplug (force_close_actions d);
  }

  -- the part of `freespace_openDevice` behind the sends: `is_async` tells that a callback for file
  -- descriptors is set
  unfoldable pub start_receiving : Bool → (ℕ → ReadCalls) → Device → Run Body
  unfolding initiate_async_receives force_close force_close_actions
  start_receiving is_async calls d =
      let r = initiate_async_receives decode code hotplug calls d in
      if is_async
      then (if eq_ℤ r.rc success then r else given_up r.device r.rc r.effects)
      else record { device = d; rc = success; effects = [] }

  -- `freespace_openDevice` on the device that is found
  unfoldable pub open_device :
      Bool → (ℕ → OpenCalls) → (ℕ → Option Handle) → (ℕ → ReadCalls) → Device → Run Body
  unfolding open_from initialize_sends start_receiving force_close force_close_actions
  open_device is_async open_calls events calls d =
      let o = open_from invalid_handle open_calls 0 d.interfaces in
      let d1 = record d { interfaces = o.0 } in
      let i = initialize_sends events 0 d.sends in
      let d2 = record d1 { is_opened = true; sends = i.0 } in
      if d.is_opened then record { device = d; rc = error_busy; effects = [] } else elim o.1 [
        | some rc ↦ given_up d1 rc []
        | none ↦ if i.1 then start_receiving is_async calls d2 else given_up d2 error_unexpected []
      ]
