-- ===== src/Win32/Send.antt =====
-- The sending of win32/freespace_device.c. The codec is a parameter.
pub mod Prepare
pub mod Slots
use libfreespace.Common.{
  ℕ, ◌+◌, ◌-◌, Bool, true, false, not, List, [], ◌∷◌, ◌++◌, Option, none, some, ◌==◌, ltb,
  if◌then◌else◌, is_some, get_or, set, length, replicate, take, ℤ, eq_ℤ, nonpos, pos_part,
}
use libfreespace.Errors.{
  success, error_io, error_busy, error_timeout, error_unexpected, error_send_too_large,
}
use libfreespace.Usb.Message.{Message, Encode}
use libfreespace.Win32.Types.{Callback, Handle, Interface, Send, Device, blank, blank_send}
use libfreespace.Win32.Close.{Action, cancel_io, finalize_send, finalize_actions}
use libfreespace.Win32.Receive.{LastError, is_pending}
use libfreespace.Win32.Open.{initialize_send}

-- FREESPACE_MAX_OUTPUT_MESSAGE_SIZE
abbrev pub max_output_message_size : ℕ
max_output_message_size = 96

-- `getNextSendBuffer` from index `i` on: the index of a send that is free
unfoldable pub next_send_from : ℕ → List Send → Option ℕ
next_send_from i [] = none
next_send_from i (s ∷ rest) =
    let next = next_send_from (i + 1) rest in if is_some s.interface then next else some i

abbrev pub output_length : Interface → ℕ
output_length s = s.info.output_report_byte_length

-- The loop of `prepareSend` for the output port from interface `i` on; `best` is the index of the
-- port so far, and `n` its report length.
unfoldable pub output_port_from : ℕ → ℕ → ℕ → List Interface → ℕ × ℕ
output_port_from best n i [] = (best, n)
output_port_from best n i (s ∷ rest) =
    output_port_from (if ltb n (output_length s) then i else best)
      (if ltb n (output_length s) then output_length s else n) (i + 1) rest

-- the index of the output port, and the length of its reports
unfoldable pub output_port : Device → ℕ × ℕ
unfolding output_port_from
output_port d = output_port_from 0 (output_length (get_or d.interfaces 0 blank)) 0 d.interfaces

abbrev pub store_send : Device → ℕ → Send → Device
store_send d i s = record d { sends = set d.sends i s }

-- What `prepareSend` leaves: the device, the index of the send, and the result.
pub record Prepared : Type 0 where
  pub device : Device
  pub send : Option ℕ
  pub rc : ℤ

-- `prepareSend` on the device that is found; the event is what `CreateEvent` gives. The report is
-- given up to its length, and the send has its bytes up to the length of the port's reports.
unfoldable pub prepare_send : Option Handle → Device → List ℕ → Prepared
unfolding next_send_from output_port initialize_send
prepare_send event d report =
    let (port, n) = output_port d in
    let failed : Option ℕ → ℤ → Prepared = λ i rc. record { device = d; send = i; rc = rc } in
    if not d.is_opened then failed none error_io else elim (next_send_from 0 d.sends) [
      | none ↦ failed none error_busy
      | some i ↦
          let r = initialize_send event (get_or d.sends i blank_send) in
          let s = record r.0 { interface = some port } in
          let kept : Send → ℤ → Prepared = λ t rc. record {
            device = store_send d i (record t { rc = rc });
            send = some i;
            rc = rc;
          } in
          if not (eq_ℤ r.1 success)
          then record { device = store_send d i r.0; send = some i; rc = r.1 }
          else if ltb n (length report)
          then kept s error_send_too_large
          else if ltb max_output_message_size n
          then kept s error_unexpected
          else kept (record s { report = report ++ replicate (n - length report) 0 }) success
    ]

-- what `WriteFile` does: it ends at once with this many bytes, or there is an error
pub data WriteCall : Type 0 where
  written : ℕ → WriteCall
  not_written : LastError → WriteCall

-- A call's device, result, and what is done to the system. A write is the handle and the bytes.
pub record Sending : Type 0 where
  pub device : Device
  pub rc : ℤ
  pub write : Option (Option Handle × List ℕ)
  pub actions : List Action

abbrev pub port_of : Device → Send → Interface
port_of d s = elim s.interface [ none ↦ blank | some k ↦ get_or d.interfaces k blank ]

-- `CancelIo` on the port of a send, and the end of its read
abbrev pub stop_reading : Device → Send → Device
stop_reading d s = elim s.interface [
  | none ↦ d
  | some k ↦ record d {
    interfaces = set d.interfaces k (record (get_or d.interfaces k blank) { read_status = false });
  }
]

-- the send at `i` with its result, finalized and not closed
abbrev pub finalized : Device → ℕ → Send → ℤ → Device
finalized d i s rc = store_send d i (finalize_send false (record s { rc = rc }))

-- `freespace_send_activate` on the send at `i`
unfoldable pub send_activate : WriteCall → Device → ℕ → Sending
unfolding finalize_send finalize_actions
send_activate call d i =
    let s = get_or d.sends i blank_send in
    let write = some ((port_of d s).handle, s.report) in
    elim call [
      | written n ↦ record {
        device = finalized d i (record s { num_bytes = n }) success;
        rc = success;
        write = write;
        actions = finalize_actions false s;
      }
      | not_written e ↦
          if is_pending e
          then record { device = d; rc = error_io; write = write; actions = [] }
          else record {
            device = finalized (stop_reading d s) i s error_unexpected;
            rc = error_unexpected;
            write = write;
            actions = cancel_io (port_of d s).handle ∷ finalize_actions false s;
          }
    ]

-- What the wait of `freespace_private_send` gives: the event is signalled or not, and the number of
-- bytes that `GetOverlappedResult` stores if it succeeds.
pub record Waited : Type 0 where
  pub is_signalled : Bool
  pub overlapped : Option ℕ

-- the part of `freespace_private_send` behind the wait
unfoldable pub send_waited : Waited → Device → ℕ → Sending → Sending
unfolding finalize_send finalize_actions
send_waited w d i before =
    let s = get_or d.sends i blank_send in
    let rc =
      if w.is_signalled
      then (elim w.overlapped [
        | none ↦ error_io
        | some n ↦ if n == output_length (port_of d s) then success else error_io
      ])
      else if is_some w.overlapped
      then error_timeout
      else error_io in
    let s' : Send = elim w.overlapped [ none ↦ s | some n ↦ record s { num_bytes = n } ] in
    if w.is_signalled
    then record before {
      device = finalized d i s' rc;
      rc = rc;
      actions = before.actions ++ finalize_actions false s;
    }
    else record before {
      device = finalized (stop_reading d s) i s' rc;
      rc = rc;
      actions = before.actions ++ cancel_io (port_of d s).handle ∷ finalize_actions false s;
    }

abbrev pub not_sent : Prepared → Sending
not_sent p = record { device = p.device; rc = p.rc; write = none; actions = [] }

-- `freespace_private_send` on the device that is found
unfoldable pub private_send : Option Handle → WriteCall → Waited → Device → List ℕ → Sending
unfolding prepare_send send_activate send_waited
private_send event call waited d report =
    let p = prepare_send event d report in
    if eq_ℤ p.rc success
    then (elim p.send [
      | none ↦ not_sent p
      | some i ↦
          let a = send_activate call p.device i in
          if eq_ℤ a.rc error_io then send_waited waited a.device i a else a
    ])
    else not_sent p

-- `freespace_private_sendAsync` on the device that is found
unfoldable pub private_send_async :
    Option Handle → WriteCall → Device → List ℕ → ℕ → Option Callback → ℕ → Sending
unfolding prepare_send send_activate
private_send_async event call d report timeout callback cookie =
    let p = prepare_send event d report in
    if eq_ℤ p.rc success
    then (elim p.send [
      | none ↦ not_sent p
      | some i ↦
          let s = get_or p.device.sends i blank_send in
          let d' =
            store_send p.device i
              (record s { callback = callback; cookie = cookie; timeout = timeout }) in
          let a = send_activate call d' i in
          if eq_ℤ a.rc error_io then record a { rc = success } else a
    ])
    else not_sent p

-- FREESPACE_RESERVED_ADDRESS
abbrev pub reserved_address : ℕ
reserved_address = 4

module _ {Body : Type 0} (encode : Encode Body) where
  -- the part of `freespace_sendMessage` and of `freespace_sendMessageAsync` up to the sending
  unfoldable pub encode_and : Device → Message Body → (List ℕ → Sending) → Sending
  encode_and d message send =
      let addressed = record message {
        dest = if message.dest == 0 then reserved_address else message.dest;
        ver = d.hver;
      } in
      let (rc, bytes) = encode addressed max_output_message_size in
      if nonpos rc
      then record { device = d; rc = rc; write = none; actions = [] }
      else send (take (pos_part rc) bytes)

  -- `freespace_sendMessage` on the device that is found
  unfoldable pub send_message : Option Handle → WriteCall → Waited → Device → Message Body → Sending
  unfolding encode_and private_send
  send_message event call waited d message = encode_and d message (private_send event call waited d)

  -- `freespace_sendMessageAsync` on the device that is found
  unfoldable pub send_message_async :
      Option Handle → WriteCall → Device → Message Body → ℕ → Option Callback → ℕ → Sending
  unfolding encode_and private_send_async
  send_message_async event call d message timeout callback cookie =
      encode_and d message
        (λ report. private_send_async event call d report timeout callback cookie)
