-- ===== src/Win32/Receive.antt =====
-- The receiving of win32/freespace_device.c: the failure of a device, the reads that are kept
-- going, `freespace_private_devicePerform` and the change of callbacks. User callbacks do not call
-- the library, so the test for callbacks within the loop of `initiateAsyncReceives` never fails.
pub mod Listening
use libfreespace.Common.{
  ℕ, ◌+◌, Bool, true, false, not, ◌&&◌, ◌||◌, List, [], ◌∷◌, ◌++◌, Option, none, some, ◌==◌,
  if◌then◌else◌, is_some, get_or, map, ℤ, eq_ℤ,
}
use libfreespace.Errors.{success, error_io, error_no_data, error_not_found, error_unexpected}
use libfreespace.Usb.Message.{Message, Decode}
use libfreespace.Win32.Types.{Callback, Interface, Send, Device, blank}
use libfreespace.Win32.Close.{
  Action, terminate_async_receives, cancels, finalize_send, finalize_actions, force_close,
  force_close_actions,
}

-- what `GetLastError` tells, as far as the code asks
pub data LastError : Type 0 where
  io_pending io_incomplete device_not_connected : LastError
  other_error : ℕ → LastError

-- What is done to the system and to the user, in order.
pub data Effect (Body : Type 0) : Type 0 where
  system : Action → Effect Body
  -- the receive callback: id, the bytes or NULL, cookie, result
  received : Callback → ℕ → Option (List ℕ) → ℕ → ℤ → Effect Body
  -- the message callback: id, message or NULL, cookie, result
  message_received : Callback → ℕ → Option (Message Body) → ℕ → ℤ → Effect Body
  -- the send callback: id, cookie, result
  sent : Callback → ℕ → ℕ → ℤ → Effect Body
  -- the hotplug callback for a removal: id and cookie
  unplugged : Callback → ℕ → ℕ → Effect Body
  -- `freespace_private_requestDeviceRescan`
  rescan : Effect Body

-- A call's device, result and effects.
pub record Run (Body : Type 0) : Type 0 where
  pub device : Device
  pub rc : ℤ
  pub effects : List (Effect Body)

-- the reads of `ReadFile` that end at once, and the error of the one that does not
pub record ReadCalls : Type 0 where
  pub immediate : List (List ℕ)
  pub last_error : LastError

-- what `GetOverlappedResult` tells of a read
pub data Overlapped : Type 0 where
  completed : List ℕ → Overlapped
  not_completed : LastError → Overlapped

abbrev pub is_pending : LastError → Bool
is_pending io_pending = true
is_pending _ = false

abbrev pub is_incomplete : LastError → Bool
is_incomplete io_incomplete = true
is_incomplete _ = false

-- Is a callback set?
abbrev pub has_callback : Device → Bool
has_callback d = is_some d.receive_callback || is_some d.receive_message_callback

-- the hotplug callback of the instance with its cookie
abbrev pub Hotplug : Type 0
Hotplug = Option (Callback × ℕ)

abbrev pub failure_code : LastError → ℤ
failure_code device_not_connected = error_not_found
failure_code _ = error_unexpected

-- The buffer after these reads.
abbrev pub last_read : List ℕ → List (List ℕ) → List ℕ
last_read buffer [] = buffer
last_read buffer (bytes ∷ rest) = last_read bytes rest

-- the structures of the interfaces, the error that ends the loop early, and the effects
pub record Pass (Body : Type 0) : Type 0 where
  pub interfaces : List Interface
  pub failure : Option LastError
  pub effects : List (Effect Body)

abbrev pub behind : {Body : Type 0} → Interface → List (Effect Body) → Pass Body → Pass Body
behind s effects p = record {
  interfaces = s ∷ p.interfaces;
  failure = p.failure;
  effects = effects ++ p.effects;
}

abbrev pub stopped : {Body : Type 0} → List Interface → LastError → List (Effect Body) → Pass Body
stopped ss e effects = record { interfaces = ss; failure = some e; effects = effects }

module _ {Body : Type 0} (decode : Decode Body) (code : LastError → ℤ) (hotplug : Hotplug) where
  -- the calls of the two callbacks for a report
  unfoldable pub report : Device → List ℕ → List (Effect Body)
  report d bytes =
      let (rc, message) = decode bytes d.hver in
      (elim d.receive_callback [
        | none ↦ []
        | some c ↦ received c d.id (some bytes) d.receive_cookie success ∷ []
      ])
      ++ (elim d.receive_message_callback [
        | none ↦ []
        | some c ↦
            message_received c d.id (if eq_ℤ rc success then some message else none)
              d.receive_message_cookie rc
            ∷ []
      ])

  -- the calls of the two callbacks for a failure
  unfoldable pub report_failure : Device → ℤ → List (Effect Body)
  report_failure d rc =
      (elim d.receive_callback [
        | none ↦ []
        | some c ↦ received c d.id none d.receive_cookie rc ∷ []
      ])
      ++ (elim d.receive_message_callback [
        | none ↦ []
        | some c ↦ message_received c d.id none d.receive_message_cookie rc ∷ []
      ])

  abbrev pub reports : Device → List (List ℕ) → List (Effect Body)
  reports d [] = []
  reports d (bytes ∷ rest) = report d bytes ++ reports d rest

  abbrev pub system_effects : List Action → List (Effect Body)
  system_effects [] = []
  system_effects (a ∷ rest) = system a ∷ system_effects rest

  -- `freespace_private_removeDevice`: what it calls
  unfoldable pub unplug : Device → List (Effect Body)
  unplug d =
      if d.is_available
      then (elim hotplug [
        | none ↦ []
        | some (callback, cookie) ↦ unplugged callback d.id cookie ∷ []
      ])
      else []

  -- `handleDeviceFailure`
  unfoldable pub handle_device_failure : Device → LastError → Run Body
  unfolding unplug force_close force_close_actions
  handle_device_failure d e = record {
    device = force_close (record d { is_available = false });
    rc = failure_code e;
    effects = unplug d ++ (system_effects (force_close_actions d) ++ rescan ∷ []);
  }

  -- The loop of `initiateAsyncReceives` from interface `i` on.
  unfoldable pub initiate_from : (ℕ → ReadCalls) → Device → ℕ → List Interface → Pass Body
  unfolding report
  initiate_from calls d i [] = record { interfaces = []; failure = none; effects = [] }
  initiate_from calls d i (s ∷ rest) =
      let later = initiate_from calls d (i + 1) rest in
      let c = calls i in
      let s' = record s { read_buffer = last_read s.read_buffer c.immediate } in
      if s.read_status
      then behind s [] later
      else if is_pending c.last_error
      then behind (record s' { read_status = true }) (reports d c.immediate) later
      else stopped (s' ∷ rest) c.last_error (reports d c.immediate)

  -- `initiateAsyncReceives`
  unfoldable pub initiate_async_receives : (ℕ → ReadCalls) → Device → Run Body
  unfolding initiate_from report_failure handle_device_failure
  initiate_async_receives calls d =
      let p = initiate_from calls d 0 d.interfaces in
      let d' = record d { interfaces = p.interfaces } in
      if d.is_opened && has_callback d
      then (elim p.failure [
        | none ↦ record { device = d'; rc = success; effects = p.effects }
        | some e ↦
            let f = handle_device_failure d' e in
            record f { effects = p.effects ++ (report_failure d' (code e) ++ f.effects) }
      ])
      else record { device = d; rc = success; effects = [] }

  -- The loop of `freespace_private_devicePerform` over the sends, from send `i` on. `results` gives
  -- the number of bytes that `GetOverlappedResult` stores, if it succeeds.
  unfoldable pub perform_sends :
      (ℕ → Option ℕ) → Device → ℕ → List Send → List Send × List (Effect Body)
  unfolding finalize_send finalize_actions
  perform_sends results d i [] = ([], [])
  perform_sends results d i (s ∷ rest) =
      let later = perform_sends results d (i + 1) rest in
      elim s.interface [
        | none ↦ (s ∷ later.0, later.1)
        | some k ↦ elim (results i) [
          | none ↦ (s ∷ later.0, later.1)
          | some n ↦
              let wanted = (get_or d.interfaces k blank).info.output_report_byte_length in
              let rc = if n == wanted then success else error_io in
              (
                finalize_send false (record s { num_bytes = n }) ∷ later.0,
                (elim s.callback [ none ↦ [] | some c ↦ sent c d.id s.cookie rc ∷ [] ])
                    ++ (system_effects (finalize_actions false s) ++ later.1),
              )
        ]
      ]

  -- The loop of `freespace_private_devicePerform` over the reads, from interface `i` on.
  unfoldable pub perform_reads : (ℕ → Overlapped) → Device → ℕ → List Interface → Pass Body
  unfolding report
  perform_reads results d i [] = record { interfaces = []; failure = none; effects = [] }
  perform_reads results d i (s ∷ rest) =
      let later = perform_reads results d (i + 1) rest in
      if s.read_status
      then (elim (results i) [
        | completed bytes ↦
            behind (record s { read_status = false; read_buffer = bytes }) (report d bytes) later
        | not_completed e ↦ if is_incomplete e then behind s [] later else stopped (s ∷ rest) e []
      ])
      else behind s [] later

  -- `freespace_private_devicePerform`
  unfoldable pub device_perform :
      (ℕ → Option ℕ) → (ℕ → Overlapped) → (ℕ → ReadCalls) → Device → Run Body
  unfolding perform_sends perform_reads initiate_async_receives handle_device_failure
  device_perform send_results results calls d =
      let (sends, effects) = perform_sends send_results d 0 d.sends in
      let p = perform_reads results d 0 d.interfaces in
      let d' = record d { sends = sends; interfaces = p.interfaces } in
      elim p.failure [
        | none ↦
            let r = initiate_async_receives calls d' in
            record r { effects = effects ++ (p.effects ++ r.effects) }
        | some e ↦
            let f = handle_device_failure d' e in
            record f {
              effects = effects ++ (p.effects ++ (report_failure d error_no_data ++ f.effects));
            }
      ]

  -- the end of a change of callbacks that leaves no callback, or the first one
  abbrev pub terminate : Device → Run Body
  terminate d = record {
    device = terminate_async_receives d;
    rc = success;
    effects = system_effects (cancels d.interfaces);
  }

  abbrev pub unchanged : Device → Run Body
  unchanged d = record { device = d; rc = success; effects = [] }

  -- `freespace_private_setReceiveCallback` on the device that is found
  unfoldable pub set_receive_callback : (ℕ → ReadCalls) → Device → Option Callback → ℕ → Run Body
  unfolding initiate_async_receives terminate_async_receives cancels
  set_receive_callback calls d callback cookie =
      let d' = record d {
        receive_callback = callback;
        receive_cookie = if is_some callback then cookie else 0;
      } in
      if d.is_opened && not (is_some d.receive_message_callback)
      then if is_some d.receive_callback && not (is_some callback)
        then terminate d'
        else if not (is_some d.receive_callback) && is_some callback
        then initiate_async_receives calls d'
        else unchanged d'
      else unchanged d'

  -- `freespace_setReceiveMessageCallback` on the device that is found
  unfoldable pub set_receive_message_callback :
      (ℕ → ReadCalls) → Device → Option Callback → ℕ → Run Body
  unfolding initiate_async_receives terminate_async_receives cancels
  set_receive_message_callback calls d callback cookie =
      let d' = record d {
        receive_message_callback = callback;
        receive_message_cookie = if is_some callback then cookie else 0;
      } in
      if d.is_opened && not (is_some d.receive_callback)
      then if is_some d.receive_message_callback && not (is_some callback)
        then terminate d'
        else if not (is_some d.receive_message_callback) && is_some callback
        then initiate_async_receives calls d'
        else unchanged d'
      else unchanged d'
