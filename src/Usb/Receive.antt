-- ===== src/Usb/Receive.antt =====
-- The receive queue of linux/freespace.c: eight transfers of libusb, used in turn.
pub mod Terminate
use libfreespace.Common.{
  ℕ, zero, suc, ◌+◌, ◌-◌, ◌*◌, ◌≡◌, Bool, true, false, ◌&&◌, ◌||◌, List, [], ◌∷◌, ◌++◌, Option,
  none, some, ◌==◌, ltb, leb, if◌then◌else◌, get_or, set, take, is_some, ◌>>=◌, ℤ, pos, eq_ℤ,
}
use libfreespace.Errors.{success, error_receive_buffer_too_small}
use libfreespace.Usb.Types.{
  LibusbError, LibusbResult, done, is_success, TransferStatus, Transfer, ReceiveTransfer, Device,
  Callback, receive_queue_size,
}
use libfreespace.Usb.Status.{libusb_to_freespace_error, transfer_status_to_freespace_error}
use libfreespace.Usb.Message.{
  Message, Decode, Action, submit, cancel, free_transfer, received, message_received,
}

-- a slot with no transfer, as `memset` leaves it
abbrev pub no_transfer : ReceiveTransfer
no_transfer = record { transfer = none; buffer = []; submitted = false }

-- `device->receiveQueue_[i]`
abbrev pub slot : Device → ℕ → ReceiveTransfer
slot d i = get_or d.receive_queue i no_transfer

abbrev pub set_slot : Device → ℕ → ReceiveTransfer → Device
set_slot d i rt = record d { receive_queue = set d.receive_queue i rt }

abbrev pub is_cancelled : TransferStatus → Bool
is_cancelled TransferStatus.cancelled = true
is_cancelled _ = false

-- Neither callback is set.
abbrev pub is_sync : Device → Bool
is_sync d = elim d.receive_callback [
  | none ↦ elim d.receive_message_callback [ none ↦ true | some c ↦ false ]
  | some c ↦ false
]

-- A transfer that ends: its slot, what libusb writes into the transfer, and the bytes received.
pub record Completion : Type 0 where
  pub slot : ℕ
  pub transfer : Transfer
  pub bytes : List ℕ

-- What a call of `libusb_handle_events_timeout` returns, and the transfers that end in it.
pub record Handled : Type 0 where
  pub rc : LibusbResult
  pub completions : List Completion

-- A phase of `freespace_terminateReceiveTransfers`: the device, `canceledCount`, `rc`, the actions.
pub record Phase (Body : Type 0) : Type 0 where
  pub device : Device
  pub count : ℕ
  pub rc : LibusbResult
  pub actions : List (Action Body)

module _ {Body : Type 0} where
  -- the body of the cancelling loop at slot `i`
  unfoldable pub cancel_slot : (ℕ → LibusbResult) → ℕ → Phase Body → Phase Body
  cancel_slot results i p =
      let rt = slot p.device i in
      if is_some rt.transfer
      then (if rt.submitted
          then (if is_success (results i)
              then record p {
                count = p.count + 1;
                rc = results i;
                actions = p.actions ++ cancel i ∷ [];
              }
              else record p {
                device = set_slot p.device i (record rt { transfer = none; submitted = false });
                rc = results i;
                actions = p.actions ++ cancel i ∷ free_transfer i ∷ [];
              })
          else record p {
            device = set_slot p.device i (record rt { transfer = none });
            actions = p.actions ++ free_transfer i ∷ [];
          })
      else p

  -- the body of the loop that frees the transfers that are not submitted, while it waits
  unfoldable pub reap_slot : ℕ → Phase Body → Phase Body
  reap_slot i p =
      let rt = slot p.device i in
      if is_some rt.transfer
      then (if rt.submitted then p else record p {
        device = set_slot p.device i (record rt { transfer = none });
        count = p.count - 1;
        actions = p.actions ++ free_transfer i ∷ [];
      })
      else p

  -- the body of the last loop, which frees what is left
  unfoldable pub clean_slot : ℕ → Phase Body → Phase Body
  clean_slot i p =
      let rt = slot p.device i in
      if is_some rt.transfer
      then record p {
        device = set_slot p.device i (record rt { transfer = none });
        actions = p.actions ++ free_transfer i ∷ [];
      }
      else p

  -- `for (i = ...; rounds left; i++)` over the slots
  abbrev pub for_slots : (ℕ → Phase Body → Phase Body) → ℕ → ℕ → Phase Body → Phase Body
  for_slots body zero i p = p
  for_slots body (suc rounds) i p = for_slots body rounds (i + 1) (body i p)

module _ {Body : Type 0} (decode : Decode Body) where
  -- the call of the receive callback for a transfer
  unfoldable pub report_bytes : Device → List ℕ → Transfer → List (Action Body)
  report_bytes d buffer t = elim d.receive_callback [
    | none ↦ []
    | some callback ↦
        received callback d.id (take t.actual_length buffer) d.receive_cookie
          (transfer_status_to_freespace_error t.status)
        ∷ []
  ]

  -- the call of the message callback of `receiveCallback`: the code is that of the decoding
  unfoldable pub report_message : Device → List ℕ → Transfer → List (Action Body)
  report_message d buffer t = elim d.receive_message_callback [
    | none ↦ []
    | some callback ↦
        let (rc, m) = decode (take t.actual_length buffer) d.api.h_ver in
        if eq_ℤ rc success
        then message_received callback d.id (some m) d.receive_message_cookie success ∷ []
        else message_received callback d.id none d.receive_message_cookie rc ∷ []
  ]

  -- `receiveCallback` for the transfer `t` of slot `i`
  unfoldable pub receive_callback : Device → ℕ → Transfer → Device × List (Action Body)
  receive_callback d i t =
      let rt = slot d i in
      if is_cancelled t.status
      then (set_slot d i (record rt { submitted = false }), [])
      else if is_sync d
      then (set_slot d i (record rt { submitted = false }), [])
      else (d, report_bytes d rt.buffer t ++ report_message d rt.buffer t ++ submit i ∷ [])

  -- The end of a transfer: libusb fills it and calls `receiveCallback`. It does so only for a
  -- transfer that is submitted.
  unfoldable pub deliver : Device → Completion → Device × List (Action Body)
  deliver d c =
      let rt = slot d c.slot in
      if is_some rt.transfer && rt.submitted
      then receive_callback
          (set_slot d c.slot (record rt { transfer = some c.transfer; buffer = c.bytes })) c.slot
          c.transfer
      else (d, [])

  unfoldable pub deliver_all : Device → List Completion → Device × List (Action Body)
  deliver_all d [] = (d, [])
  deliver_all d (c ∷ rest) =
      let p = deliver d c in let q = deliver_all p.0 rest in (q.0, p.1 ++ q.1)

  -- The waiting loop: `retries` is the fuel; `events` gives the calls of
  -- `libusb_handle_events_timeout`.
  unfoldable pub wait : (ℕ → Handled) → ℕ → Phase Body → Phase Body
  wait events zero p = p
  wait events (suc retries) p =
      let h = events retries in
      let q = deliver_all p.device h.completions in
      let handled = record p { device = q.0; rc = h.rc; actions = p.actions ++ q.1 } in
      let rest = wait events retries (for_slots reap_slot receive_queue_size 0 handled) in
      if p.count == 0
      then p
      else if is_success h.rc
      then rest
      else record p { rc = h.rc; device = q.0; actions = p.actions ++ q.1 }

  -- `freespace_terminateReceiveTransfers`
  unfoldable pub terminate_receive_transfers :
      (ℕ → LibusbResult) → (ℕ → Handled) → Device → Phase Body
  terminate_receive_transfers results events d =
      let start : Phase Body = record { device = d; count = 0; rc = done 0; actions = [] } in
      let cancelled = for_slots (cancel_slot results) receive_queue_size 0 start in
      let waited = wait events (cancelled.count * 3) cancelled in
      for_slots clean_slot receive_queue_size 0 waited
