-- ===== src/Hidraw/Io.antt =====
-- Reading, sending and polling of linux/freespace_hidraw.c.
use libfreespace.Common.{
  ℕ, List, [], ◌∷◌, ◌++◌, Option, none, some, ◌==◌, if◌then◌else◌, take, length, ℤ, eq_ℤ, nonpos,
  pos_part,
}
use libfreespace.Errors.{
  success, error_io, error_no_device, error_timeout, error_unexpected, error_invalid_device,
  error_unimplemented,
}
use libfreespace.DeviceTable.{DeviceApi}
use libfreespace.Usb.Message.{Message, Encode, Decode}
use libfreespace.Usb.Send.{addressed}
use libfreespace.Hidraw.Types.{unset, connected, opened, disconnected, Callback, Device, Context}
use libfreespace.Hidraw.Table.{find_device_by_id}
use libfreespace.Hidraw.Session.{with_device}

-- `errno` after a failed `read` or `write`
pub data Errno : Type 0 where
  eagain enoent enodev etimedout other : Errno

-- What `write` returns: the number of bytes, or a failure.
pub data Written : Type 0 where
  wrote : ℕ → Written
  write_failed : Errno → Written

-- the code for a failed `write`
abbrev pub write_error : Errno → ℤ
write_error enoent = error_no_device
write_error enodev = error_no_device
write_error etimedout = error_timeout
write_error eagain = error_io
write_error other = error_io

-- `_write` of a message of `n` bytes
unfoldable pub write : Written → ℕ → ℤ
write (write_failed e) n = write_error e
write (wrote count) n = if count == n then success else error_io

-- GET_DEVICE_IF_OPEN: what follows it gets the device.
abbrev pub if_open {ℓ} : {R : Type ℓ} → Context → ℤ → (ℤ → R) → (Device → R) → R
if_open c id fail body = with_device c id (fail error_invalid_device) (λ i d. elim d.state [
  | opened ↦ body d
  | connected ↦ fail error_no_device
  | disconnected ↦ fail error_no_device
  | unset ↦ fail error_unexpected
])

-- `freespace_private_sendAsync` without LIBFREESPACE_THREADED_WRITES: the result, and what is
-- written to which descriptor
unfoldable pub private_send_async :
    (ℤ → List ℕ → Written) → Context → ℤ → List ℕ → ℤ × Option (ℤ × List ℕ)
unfolding find_device_by_id write
private_send_async writes c id message =
    if_open c id (λ rc. (rc, none))
      (λ d. (write (writes d.fd message) (length message), some (d.fd, message)))

-- `freespace_private_send`
unfoldable pub private_send : ℤ
private_send = error_unimplemented

module _ {Body : Type 0} (encode : Encode Body) (reserved_address max_output : ℕ) where
  -- what `freespace_sendMessage` and `freespace_sendMessageAsync` share
  unfoldable pub encode_and {ℓ} :
      {R : Type ℓ} → Context → ℤ → Message Body → (ℤ → R) → (List ℕ → R) → Option R
  unfolding find_device_by_id
  encode_and c id m fail send =
      if_open c id (λ rc. some (fail rc))
        (λ d. elim d.api [
          | none ↦ none
          | some api ↦
              let (rc, bytes) = encode (addressed reserved_address m api.h_ver) max_output in
              some (if nonpos rc then fail rc else send (take (pos_part rc) bytes))
        ])

  -- `freespace_sendMessage`; `none` is a use of a NULL `api_`.
  unfoldable pub send_message : Context → ℤ → Message Body → Option ℤ
  unfolding encode_and private_send
  send_message c id m = encode_and c id m (λ rc. rc) (λ bytes. private_send)

  -- `freespace_sendMessageAsync`
  unfoldable pub send_message_async :
      (ℤ → List ℕ → Written) → Context → ℤ → Message Body → Option (ℤ × Option (ℤ × List ℕ))
  unfolding encode_and private_send_async
  send_message_async writes c id m =
      encode_and c id m (λ rc. (rc, none)) (private_send_async writes c id)

-- What a `read` of a device returns: bytes, none of them at the end of the file, or a failure.
pub data ReadCall : Type 0 where
  bytes : List ℕ → ReadCall
  failed : Errno → ReadCall

-- a call of a receive callback: id, bytes or message, cookie, result
pub data Report (Body : Type 0) : Type 0 where
  received : Callback → ℤ → List ℕ → ℕ → ℤ → Report Body
  message_received : Callback → ℤ → Option (Message Body) → ℕ → ℤ → Report Body

-- the result of `_readDevice` when `read` fails
abbrev pub read_error : Errno → ℤ
read_error eagain = success
read_error enoent = error_no_device
read_error enodev = error_no_device
read_error etimedout = error_io
read_error other = error_io

module _ {Body : Type 0} (decode : Decode Body) where
  -- the callbacks of `_readDevice` for one message; the device has an api
  unfoldable pub report : Device → DeviceApi → List ℕ → List (Report Body)
  report d api buf =
      (elim d.receive_callback [
        | none ↦ []
        | some callback ↦ received callback d.id buf d.receive_cookie success ∷ []
      ])
      ++ (elim d.receive_message_callback [
        | none ↦ []
        | some callback ↦
            let (rc, m) = decode buf api.h_ver in
            message_received callback d.id (if eq_ℤ rc success then some m else none)
              d.receive_message_cookie rc
            ∷ []
      ])

  -- The loop of `_readDevice` over what the calls of `read` return; after the last one, EAGAIN.
  unfoldable pub read_device : Device → DeviceApi → List ReadCall → ℤ × List (Report Body)
  unfolding report
  read_device d api [] = (success, [])
  read_device d api (failed e ∷ rest) = (read_error e, [])
  read_device d api (bytes [] ∷ rest) = (error_no_device, [])
  read_device d api (bytes (b ∷ bs) ∷ rest) =
      let p = read_device d api rest in (p.0, report d api (b ∷ bs) ++ p.1)
