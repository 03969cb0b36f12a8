-- ===== src/Win32/Calls.antt =====
-- The calls of win32/freespace_device.c that name a device by its id.
use libfreespace.Common.{ℕ, List, [], Option, none, some, is_some, ℤ}
use libfreespace.Errors.{error_no_device}
use libfreespace.Usb.Message.{Message, Decode, Encode}
use libfreespace.Win32.Types.{Callback, Handle, Device, Manager}
use libfreespace.Win32.{get_device_by_id}
use libfreespace.Win32.Close.{Action}
use libfreespace.Win32.Receive.{
  LastError, Effect, Run, ReadCalls, Overlapped, set_receive_callback, set_receive_message_callback,
}
use libfreespace.Win32.Open.{OpenCalls, open_device}
use libfreespace.Win32.Send.{WriteCall, Waited, Sending, send_message, send_message_async}
use libfreespace.Win32.Read.{Wait, read_message, flush}
use libfreespace.Win32.Discovery.{update}
use libfreespace.Win32.Library.{hotplug_of}

-- A call on the device with an id: what it gives there, or the answer for a missing device.
unfoldable pub with_device : {A : Type 0} → Manager → ℕ → A → (Device → Device × A) → Manager × A
unfolding get_device_by_id update
with_device m id missing f = elim (get_device_by_id m.devices id) [
  | none ↦ (m, missing)
  | some d ↦ (record m { devices = update d.id (λ e. (f e).0) m.devices }, (f d).1)
]

-- The result of a call and its effects.
abbrev pub Answer : Type 0 → Type 0
Answer Body = ℤ × List (Effect Body)

abbrev pub answer : {Body : Type 0} → Run Body → Device × Answer Body
answer r = (r.device, (r.rc, r.effects))

module _ {Body : Type 0} (decode : Decode Body) (code : LastError → ℤ) where
  -- `freespace_openDevice`
  unfoldable pub open_by_id :
      Handle
      → (ℕ → OpenCalls)
      → (ℕ → Option Handle)
      → (ℕ → ReadCalls)
      → Manager
      → ℕ
      → Manager × Answer Body
  unfolding with_device open_device
  open_by_id invalid open_calls events calls m id =
      with_device m id (error_no_device, [])
        λ d. answer (
          open_device decode code (hotplug_of m) invalid (is_some m.fd_added_callback) open_calls
            events calls d)

  -- `freespace_private_setReceiveCallback`
  unfoldable pub set_receive_callback_by_id :
      (ℕ → ReadCalls) → Manager → ℕ → Option Callback → ℕ → Manager × Answer Body
  unfolding with_device set_receive_callback
  set_receive_callback_by_id calls m id callback cookie =
      with_device m id (error_no_device, [])
        λ d. answer (set_receive_callback decode code (hotplug_of m) calls d callback cookie)

  -- `freespace_setReceiveMessageCallback`
  unfoldable pub set_receive_message_callback_by_id :
      (ℕ → ReadCalls) → Manager → ℕ → Option Callback → ℕ → Manager × Answer Body
  unfolding with_device set_receive_message_callback
  set_receive_message_callback_by_id calls m id callback cookie =
      with_device m id (error_no_device, [])
        λ d.
          answer (set_receive_message_callback decode code (hotplug_of m) calls d callback cookie)

  -- `freespace_readMessage`: the result, the message and the effects of the read
  unfoldable pub read_message_by_id :
      (ℕ → Overlapped)
      → Wait
      → (ℕ → Overlapped)
      → Manager
      → ℕ
      → Manager × (ℤ × (Option (Message Body) × List (Effect Body)))
  unfolding with_device read_message
  read_message_by_id calls wait results m id =
      with_device m id (error_no_device, (none, []))
        λ d.
          let (r, rc, message) = read_message decode code (hotplug_of m) calls wait results d in
          (r.device, (rc, (message, r.effects)))

-- what is written: the handle and the bytes
abbrev pub Written : Type 0
Written = ℤ × (Option (Option Handle × List ℕ) × List Action)

abbrev pub as_written : Sending → Device × Written
as_written a = (a.device, (a.rc, (a.write, a.actions)))

module _ {Body : Type 0} (encode : Encode Body) where
  -- `freespace_sendMessage`
  unfoldable pub send_message_by_id :
      Option Handle → WriteCall → Waited → Manager → ℕ → Message Body → Manager × Written
  unfolding with_device send_message
  send_message_by_id event call waited m id message =
      with_device m id (error_no_device, (none, []))
        λ d. as_written (send_message encode event call waited d message)

  -- `freespace_sendMessageAsync`
  unfoldable pub send_message_async_by_id :
      Option Handle
      → WriteCall
      → Manager
      → ℕ
      → Message Body
      → ℕ
      → Option Callback
      → ℕ
      → Manager × Written
  unfolding with_device send_message_async
  send_message_async_by_id event call m id message timeout callback cookie =
      with_device m id (error_no_device, (none, []))
        λ d. as_written (send_message_async encode event call d message timeout callback cookie)

-- `freespace_flush`
unfoldable pub flush_by_id : Manager → ℕ → Manager × (ℤ × List Action)
unfolding with_device flush
flush_by_id m id =
    with_device m id (error_no_device, [])
      λ d. let (d', rc, actions) = flush d in (d', (rc, actions))
