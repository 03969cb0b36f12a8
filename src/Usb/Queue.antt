-- ===== src/Usb/Queue.antt =====
-- The receive queue of linux/freespace.c from the side of the library's user: starting it, reading,
-- flushing and changing the callbacks. A `none` is a use of a NULL transfer, where the code
-- crashes.
pub mod Drain
pub mod Initiate
pub mod Order
use libfreespace.Common.{
  ℕ, zero, suc, ◌+◌, ◌*◌, Bool, true, false, not, ◌&&◌, List, [], ◌∷◌, ◌++◌, Option, none, some,
  leb, ltb, if◌then◌else◌, take, is_some, ℤ, eq_ℤ,
}
use libfreespace.Errors.{success, error_not_found, error_receive_buffer_too_small, error_timeout}
use libfreespace.Usb.Types.{
  LibusbResult, done, is_success, Transfer, ReceiveTransfer, Device, DeviceState, Callback,
  receive_queue_size,
}
use libfreespace.Usb.Status.{libusb_to_freespace_error, transfer_status_to_freespace_error}
use libfreespace.Usb.Message.{Message, Decode, Action, submit, received, message_received}
use libfreespace.Usb.Scan.{is_opened}
use libfreespace.Usb.Receive.{
  slot, set_slot, is_sync, Handled, Phase, deliver_all, terminate_receive_transfers,
}

-- `receiveQueueHead_++`, back to 0 at the end of the queue
abbrev pub next_head : ℕ → ℕ
next_head head = if leb receive_queue_size (head + 1) then 0 else head + 1

-- what `rt->submitted_ = 1` and the move of the head do to the device
abbrev pub resubmit_head : Device → Device
resubmit_head d =
    record (set_slot d d.receive_queue_head
      (record (slot d d.receive_queue_head) { submitted = true })) {
        receive_queue_head = next_head d.receive_queue_head;
      }

-- `device->receiveQueue_[device->receiveQueueHead_]`
abbrev pub head_slot : Device → ReceiveTransfer
head_slot d = slot d d.receive_queue_head

-- The calls of `drain` have fuel for every slot and for the test that ends the loop.
abbrev pub drain_fuel : ℕ
drain_fuel = receive_queue_size + 1

module _ {Body : Type 0} where
  -- The loop `while (rt->submitted_ == 0)` at the head of the queue, with what it reports about
  -- each transfer. The fuel is a bound on the rounds; `none` also if it does not suffice.
  unfoldable pub drain :
      (Device → List ℕ → Transfer → List (Action Body))
      → ℕ
      → Device
      → Option (Device × List (Action Body))
  drain report zero d = none
  drain report (suc fuel) d =
      let rest = drain report fuel (resubmit_head d) in
      if (head_slot d).submitted then some (d, []) else elim (head_slot d).transfer [
        | none ↦ none
        | some t ↦ elim rest [
          | none ↦ none
          | some (d', actions) ↦
              some (d', report d (head_slot d).buffer t ++ submit d.receive_queue_head ∷ actions)
        ]
      ]

  -- `freespace_private_setReceiveCallback` on the device that `findDeviceById` found
  unfoldable pub set_receive_callback :
      Device → Option Callback → ℕ → Option (Device × ℤ × List (Action Body))
  unfolding drain
  set_receive_callback d callback cookie =
      let d' = record d { receive_callback = callback; receive_cookie = cookie } in
      elim callback [
        | none ↦ some (d', success, [])
        | some c ↦
            if is_sync d && is_opened d.state
            then (elim (drain
                (λ d bytes t.
                  received c d.id (take t.actual_length bytes) cookie
                    (transfer_status_to_freespace_error t.status)
                  ∷ [])
                drain_fuel d') [ none ↦ none | some (d'', actions) ↦ some (d'', success, actions) ])
            else some (d', success, [])
      ]

  -- The loop of `freespace_initiateReceiveTransfers` from slot `i` on. `alloc` gives what
  -- `libusb_alloc_transfer` returns, `submits` what `libusb_submit_transfer` does, and `stop` is
  -- `freespace_terminateReceiveTransfers`.
  unfoldable pub initiate_from :
      (ℕ → Option Transfer)
      → (ℕ → LibusbResult)
      → (Device → Phase Body)
      → ℕ
      → ℕ
      → Device
      → Option (Device × ℤ × List (Action Body))
  initiate_from alloc submits stop zero i d = some (d, success, [])
  initiate_from alloc submits stop (suc rounds) i d = elim (alloc i) [
    | none ↦ none
    | some t ↦
        let rt = slot d i in
        let filled = set_slot d i (record rt { transfer = some t }) in
        let stopped = stop filled in
        let rest =
          initiate_from alloc submits stop rounds (i + 1)
            (set_slot filled i (record (slot filled i) { submitted = true })) in
        if is_success (submits i)
        then (elim rest [
          | none ↦ none
          | some (d', rc, actions) ↦ some (d', rc, submit i ∷ actions)
        ])
        else some
            (stopped.device, libusb_to_freespace_error (submits i), submit i ∷ stopped.actions)
  ]

  -- `freespace_initiateReceiveTransfers`
  unfoldable pub initiate_receive_transfers :
      (ℕ → Option Transfer)
      → (ℕ → LibusbResult)
      → (Device → Phase Body)
      → Device
      → Option (Device × ℤ × List (Action Body))
  unfolding initiate_from
  initiate_receive_transfers alloc submits stop d =
      initiate_from alloc submits stop receive_queue_size 0 (record d { receive_queue_head = 0 })

-- FREESPACE_MAX_INPUT_MESSAGE_SIZE
abbrev pub max_input_message_size : ℕ
max_input_message_size = 96

-- What `freespace_private_read` leaves: the device, its result, and the bytes that it copied out.
pub record Read (Body : Type 0) : Type 0 where
  pub device : Device
  pub rc : ℤ
  pub bytes : Option (List ℕ)
  pub actions : List (Action Body)

module _ {Body : Type 0} (decode : Decode Body) where
  -- the part of `freespace_private_read` behind the wait
  unfoldable pub take_head : Device → Option (Read Body)
  take_head d = elim (head_slot d).transfer [
    | none ↦ none
    | some t ↦ some record {
      device = resubmit_head d;
      rc = transfer_status_to_freespace_error t.status;
      bytes = some (take t.actual_length (head_slot d).buffer);
      actions = submit d.receive_queue_head ∷ [];
    }
  ]

  -- `freespace_private_read` on the device that `findDeviceById` found. `event` is what the one
  -- call of `libusb_handle_events_timeout` does: the loop around it sets `timeoutMs` to 0 and ends.
  unfoldable pub private_read : Handled → Device → ℕ → Option (Read Body)
  unfolding take_head
  private_read event d max_length =
      let stay : ℤ → Device → List (Action Body) → Option (Read Body) =
        λ rc d actions. some record { device = d; rc = rc; bytes = none; actions = actions } in
      let q = deliver_all decode d event.completions in
      if not (is_opened d.state)
      then stay error_not_found d []
      else if ltb max_length d.max_read_size
      then stay error_receive_buffer_too_small d []
      else if (head_slot d).submitted
      then (if is_success event.rc
          then (if (head_slot q.0).submitted
              then stay error_timeout q.0 q.1
              else elim (take_head q.0) [
                | none ↦ none
                | some r ↦ some (record r { actions = q.1 ++ r.actions })
              ])
          else stay (libusb_to_freespace_error event.rc) q.0 q.1)
      else take_head d

  -- `freespace_readMessage` on the device that `findDeviceById` found: the read, the result, and
  -- the message
  unfoldable pub read_message : Handled → Device → Option (Read Body × ℤ × Option (Message Body))
  unfolding private_read
  read_message event d = elim (private_read event d max_input_message_size) [
    | none ↦ none
    | some r ↦
        if eq_ℤ r.rc success
        then (elim r.bytes [
          | none ↦ some (r, r.rc, none)
          | some bytes ↦ let (rc, m) = decode bytes d.api.h_ver in some (r, rc, some m)
        ])
        else some (r, r.rc, none)
  ]

  -- the rounds of `freespace_flush`: at most `rounds`
  unfoldable pub flush_rounds : (ℕ → Handled) → ℕ → Device → Option (Device × List (Action Body))
  unfolding drain
  flush_rounds events zero d = some (d, [])
  flush_rounds events (suc rounds) d =
      let q = deliver_all decode d (events rounds).completions in
      elim (drain {Body = Body} (λ d bytes t. []) drain_fuel q.0) [
        | none ↦ none
        | some (d', actions) ↦
            let rest = flush_rounds events rounds d' in
            if (head_slot q.0).submitted
            then some (d', q.1 ++ actions)
            else elim rest [ none ↦ none | some (d'', more) ↦ some (d'', q.1 ++ actions ++ more) ]
      ]

  -- `freespace_flush` on the device that `findDeviceById` found
  unfoldable pub flush : (ℕ → Handled) → Device → Option (Device × ℤ × List (Action Body))
  flush events d =
      if not (is_opened d.state)
      then some (d, error_not_found, [])
      else elim (flush_rounds events (receive_queue_size * 2) d) [
        | none ↦ none
        | some (d', actions) ↦ some (d', success, actions)
      ]

  -- what the loop of `freespace_setReceiveMessageCallback` reports about a transfer
  unfoldable pub report_decoded : Callback → ℕ → Device → List ℕ → Transfer → List (Action Body)
  report_decoded c cookie d bytes t =
      let (rc, m) = decode (take t.actual_length bytes) d.api.h_ver in
      if eq_ℤ rc success
      then message_received c d.id (some m) cookie (transfer_status_to_freespace_error t.status)
        ∷ []
      else message_received c d.id none cookie rc ∷ []

  -- `freespace_setReceiveMessageCallback` on the device that `findDeviceById` found
  unfoldable pub set_receive_message_callback :
      Device → Option Callback → ℕ → Option (Device × ℤ × List (Action Body))
  unfolding drain
  set_receive_message_callback d callback cookie =
      let d' = record d { receive_message_callback = callback; receive_message_cookie = cookie } in
      elim callback [
        | none ↦ some (d', success, [])
        | some c ↦
            if is_sync d && is_opened d.state
            then (elim (drain {Body = Body} (report_decoded c cookie) drain_fuel d') [
              | none ↦ none
              | some (d'', actions) ↦ some (d'', success, actions)
            ])
            else some (d', success, [])
      ]
