-- ===== src/Win32/Reach/Sends.antt =====
-- No sending of win32/freespace_device.c changes the id of a device.
use libfreespace.Common.{
  ℕ, ◌≡◌, refl, ◌∙◌, inl, inr, Bool, true, false, not, List, Option, if◌then◌else◌, get_or,
  Option-cases, eq_ℤ, nonpos, pos_part, take, ◌==◌, ltb, length,
}
use libfreespace.Errors.{success, error_io}
use libfreespace.Usb.Message.{Message, Encode}
use libfreespace.Win32.Types.{Callback, Handle, Send, Device, blank_send}
use libfreespace.Win32.Receive.{is_pending}
use libfreespace.Win32.Open.{initialize_send}
use libfreespace.Win32.Send.{
  WriteCall, written, not_written, Waited, Sending, Prepared, next_send_from, store_send,
  output_port, max_output_message_size, reserved_address, prepare_send, stop_reading, send_activate,
  send_waited, private_send, private_send_async, encode_and, send_message, send_message_async,
}

sending_if-id :
    (n : ℕ) (b : Bool) (r t : Sending)
    → r.device.id ≡ n
    → t.device.id ≡ n
    → (if b then r else t).device.id ≡ n
sending_if-id n true r t h k = h
sending_if-id n false r t h k = k

stop_reading-id : (d : Device) (s : Send) → (stop_reading d s).id ≡ d.id
stop_reading-id d s = elim (Option-cases s.interface) [ inl e ↦ rw e refl | inr (k, e) ↦ rw e refl ]

send_activate-id :
    (call : WriteCall) (d : Device) (i : ℕ) → (send_activate call d i).device.id ≡ d.id
unfolding send_activate
send_activate-id (written n) d i = refl
send_activate-id (not_written e) d i =
    sending_if-id d.id (is_pending e) _ _ refl (stop_reading-id d (get_or d.sends i blank_send))

send_waited-id :
    (w : Waited) (d : Device) (i : ℕ) (a : Sending) → (send_waited w d i a).device.id ≡ d.id
unfolding send_waited
send_waited-id w d i a =
    sending_if-id d.id w.is_signalled _ _ refl (stop_reading-id d (get_or d.sends i blank_send))

prepared_if-id :
    (n : ℕ) (b : Bool) (r t : Prepared)
    → r.device.id ≡ n
    → t.device.id ≡ n
    → (if b then r else t).device.id ≡ n
prepared_if-id n true r t h k = h
prepared_if-id n false r t h k = k

prepare_send-id :
    (event : Option Handle) (d : Device) (report : List ℕ)
    → (prepare_send event d report).device.id ≡ d.id
unfolding prepare_send
prepare_send-id event d report =
    prepared_if-id d.id (not d.is_opened) _ _ refl (elim (Option-cases (next_send_from 0 d.sends)) [
      | inl e ↦ rw e refl
      | inr (i, e) ↦ rw e (
          prepared_if-id d.id
            (not (eq_ℤ (initialize_send event (get_or d.sends i blank_send)).1 success)) _ _ refl
            (prepared_if-id d.id (ltb (output_port d).1 (length report)) _ _ refl
              (prepared_if-id d.id (ltb max_output_message_size (output_port d).1) _ _ refl refl)))
    ])

private_send-id :
    (event : Option Handle) (call : WriteCall) (waited : Waited) (d : Device) (report : List ℕ)
    → (private_send event call waited d report).device.id ≡ d.id
unfolding private_send
private_send-id event call waited d report =
    let p = prepare_send event d report in
    let same = prepare_send-id event d report in
    sending_if-id d.id (eq_ℤ p.rc success) _ _
      (elim (Option-cases p.send) [
        | inl e ↦ rw e same
        | inr (i, e) ↦
            let a = send_activate call p.device i in
            let ida = send_activate-id call p.device i ∙ same in
            rw e (
              sending_if-id d.id (eq_ℤ a.rc error_io) _ _ (send_waited-id waited a.device i a ∙ ida)
                ida)
      ])
      same

private_send_async-id :
    (event : Option Handle) (call : WriteCall) (d : Device) (report : List ℕ) (timeout : ℕ)
    (callback : Option Callback) (cookie : ℕ)
    → (private_send_async event call d report timeout callback cookie).device.id ≡ d.id
unfolding private_send_async
private_send_async-id event call d report timeout callback cookie =
    let p = prepare_send event d report in
    let same = prepare_send-id event d report in
    sending_if-id d.id (eq_ℤ p.rc success) _ _
      (elim (Option-cases p.send) [
        | inl e ↦ rw e same
        | inr (i, e) ↦
            let s = get_or p.device.sends i blank_send in
            let d' =
              store_send p.device i
                (record s { callback = callback; cookie = cookie; timeout = timeout }) in
            let ida = send_activate-id call d' i ∙ same in
            rw e (sending_if-id d.id (eq_ℤ (send_activate call d' i).rc error_io) _ _ ida ida)
      ])
      same

module _ {Body : Type 0} (encode : Encode Body) where
  encode_and-id :
      (d : Device) (message : Message Body) (send : List ℕ → Sending)
      → ((report : List ℕ) → (send report).device.id ≡ d.id)
      → (encode_and encode d message send).device.id ≡ d.id
  unfolding encode_and
  encode_and-id d message send h =
      let addressed = record message {
        dest = if message.dest == 0 then reserved_address else message.dest;
        ver = d.hver;
      } in
      let p = encode addressed max_output_message_size in
      sending_if-id d.id (nonpos p.0) _ _ refl (h (take (pos_part p.0) p.1))

  pub send_message-id :
      (event : Option Handle) (call : WriteCall) (waited : Waited) (d : Device)
      (message : Message Body)
      → (send_message encode event call waited d message).device.id ≡ d.id
  unfolding send_message
  send_message-id event call waited d message =
      encode_and-id d message (private_send event call waited d)
        (private_send-id event call waited d)

  pub send_message_async-id :
      (event : Option Handle) (call : WriteCall) (d : Device) (message : Message Body) (timeout : ℕ)
      (callback : Option Callback) (cookie : ℕ)
      → (send_message_async encode event call d message timeout callback cookie).device.id ≡ d.id
  unfolding send_message_async
  send_message_async-id event call d message timeout callback cookie =
      encode_and-id d message
        (λ report. private_send_async event call d report timeout callback cookie)
        (λ report. private_send_async-id event call d report timeout callback cookie)
