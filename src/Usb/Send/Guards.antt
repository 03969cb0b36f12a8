-- ===== src/Usb/Send/Guards.antt =====
-- When `freespace_private_send` and `freespace_sendMessage` succeed.
use libfreespace.Common.{
  ℕ, zero, suc, ◌≤◌, ◌≡◌, ◌≢◌, refl, true, false, List, Option, none, some, length, ℤ, pos, negsuc,
  ◌⊎◌, sym, ap, subst, ◌∙◌, nonpos, pos_part, take, arith, Option-cases, inl, inr,
}
use libfreespace.Errors.{success}
use libfreespace.Usb.Types.{LibusbResult, done, failed, is_success, Device}
use libfreespace.Usb.Status.{libusb_to_freespace_error, libusb_to_freespace_error-failed}
use libfreespace.Usb.Message.{Message, Encode}
use libfreespace.Usb.Table.{Slots, find_device_by_id}
use libfreespace.Usb.Scan.{is_opened}
use libfreespace.Usb.Session.{get_device_info}
use libfreespace.Usb.Send.{Write, Transferred, private_send, addressed, encode_and, send_message}

-- The write that delivers a message to a device, all of it.
pub record Delivers (transfer : Write → Transferred) (devices : Slots) (id : ℕ) (bytes : List ℕ)
    (sent : Option Write) : Type 0 where
  pub device : Device
  pub found : find_device_by_id devices id ≡ some device
  pub opened : is_opened device.state ≡ true
  pub fits : length bytes ≤ device.max_write_size
  pub write : Write
  pub is_sent : sent ≡ some write
  pub handle : write.handle ≡ device.handle
  pub endpoint : write.endpoint ≡ device.write_endpoint_address
  pub whole : write.bytes ≡ bytes
  pub complete : (transfer write).count ≡ length bytes

-- A code that is 0 or negative is an error of the encoder, which success does not stand for.
positive-cases : (c : ℤ) → (nonpos c ≡ true) ⊎ ((n : ℕ) × (c ≡ pos (suc n)) × (nonpos c ≡ false))
positive-cases (pos zero) = inl refl
positive-cases (pos (suc n)) = inr (n, refl, ground arith)
positive-cases (negsuc n) = inl refl

failed-or_zero :
    (r : LibusbResult)
    → ((n : ℕ) → r ≢ done (suc n))
    → libusb_to_freespace_error r ≡ success
    → is_success r ≡ true
failed-or_zero (done zero) h e = refl
failed-or_zero (done (suc n)) h e = absurd (h n refl)
failed-or_zero (failed x) h e = absurd (libusb_to_freespace_error-failed x e)

module _ (transfer : Write → Transferred) where
  -- If libusb returns no positive number, FREESPACE_SUCCESS from `freespace_private_send` means
  -- that the device is found and opened, that the message fits, and that libusb wrote all of it to
  -- the device's endpoint.
  pub private_send-success :
      (devices : Slots) (id : ℕ) (message : List ℕ)
      → ((w : Write) (n : ℕ) → (transfer w).rc ≢ done (suc n))
      → (private_send transfer devices id message).0 ≡ success
      → Delivers transfer devices id message (private_send transfer devices id message).1
  unfolding private_send
  private_send-success devices id message nonneg e =
      elim (Option-cases (find_device_by_id devices id)) [
        | inl n ↦ absurd (ground (arith, e, n))
        | inr (d, f) ↦
            let w : Write = record {
              handle = d.handle;
              endpoint = d.write_endpoint_address;
              bytes = message;
            } in
            let z = failed-or_zero (transfer w).rc (nonneg w) in
            record {
              device = d;
              found = f;
              opened = ground (arith, e, f, z);
              fits = ground (arith, e, f, z);
              write = w;
              is_sent = ground (arith, e, f, z);
              handle = refl;
              endpoint = refl;
              whole = refl;
              complete = ground (arith, e, f, z);
            }
      ]

  -- If libusb returns no positive number, FREESPACE_SUCCESS from `freespace_sendMessage` means that
  -- the message, with the address filled in and with a protocol version, was encoded in a positive
  -- number of bytes, all of which were delivered to the opened device, or that the encoder returned
  -- 0 and nothing was written.
  pub send_message-success :
      {Body : Type 0} (encode : Encode Body) (reserved_address max_output : ℕ) (devices : Slots)
      (id : ℕ) (m : Message Body)
      → ((w : Write) (n : ℕ) → (transfer w).rc ≢ done (suc n))
      → let r = send_message encode reserved_address max_output transfer devices id m in
        r.0 ≡ success
        → (h_ver : ℕ) × let (rc, bytes) = encode (addressed reserved_address m h_ver) max_output in
            ((rc ≡ success) × (r.1 ≡ none))
            ⊎ ((n : ℕ) × (rc ≡ pos (suc n)) × Delivers transfer devices id (take (suc n) bytes) r.1)
  unfolding send_message encode_and
  send_message-success encode reserved_address max_output devices id m nonneg e =
      elim (Option-cases (get_device_info devices id)) [
        | inl n ↦ absurd (ground (arith, e, n))
        | inr (info, f) ↦
            let c = encode (addressed reserved_address m info.h_ver) max_output in
            elim (positive-cases c.0) [
              | inl b ↦
                  let same : send_message encode reserved_address max_output transfer devices id m
                      ≡ (c.0, none) =
                    rw (f, send_message, encode_and, b) refl in
                  (
                    info.h_ver,
                    inl (
                      ap (λ (p : ℤ × Option Write). p.0) (sym same) ∙ e,
                      ap (λ (p : ℤ × Option Write). p.1) same,
                    ),
                  )
              | inr (n, b, k) ↦
                  let bytes = take (suc n) c.1 in
                  let same : send_message encode reserved_address max_output transfer devices id m
                      ≡ private_send transfer devices id bytes =
                    rw (f, send_message, encode_and, k)
                      (ap (λ x. private_send transfer devices id (take (pos_part x) c.1)) b) in
                  (
                    info.h_ver,
                    inr (
                      n,
                      b,
                      subst (λ (p : ℤ × Option Write). Delivers transfer devices id bytes p.1)
                          (sym same)
                          (private_send-success devices id bytes nonneg
                            (sym (ap (λ (p : ℤ × Option Write). p.0) same) ∙ e)),
                    ),
                  )
            ]
      ]
