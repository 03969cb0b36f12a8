-- ===== src/Usb/Send.antt =====
-- Sending of linux/freespace.c. The codec and the constants of its generated header are parameters.
-- The callback of `freespace_private_sendAsync` runs when the transfer ends.
pub mod Guards
use libfreespace.Common.{
  ℕ, Bool, true, false, not, List, [], ◌∷◌, Option, none, some, ◌==◌, ltb, if◌then◌else◌, is_some,
  take, ℤ, nonpos, pos_part, length,
}
use libfreespace.Errors.{
  success, error_not_found, error_send_too_large, error_unexpected, error_out_of_memory,
}
use libfreespace.Usb.Types.{LibusbResult, is_success, TransferStatus, Device, Callback, Handle}
use libfreespace.Usb.Status.{libusb_to_freespace_error, transfer_status_to_freespace_error}
use libfreespace.Usb.Message.{Message, Encode, Decode}
use libfreespace.Usb.Table.{Slots, find_device_by_id}
use libfreespace.Usb.Scan.{is_opened}
use libfreespace.Usb.Session.{DeviceInfo, get_device_info}

-- the device that can be sent to
abbrev pub open_device_of : Slots → ℕ → Option Device
open_device_of devices id = elim (find_device_by_id devices id) [
  | none ↦ none
  | some d ↦ if is_opened d.state then some d else none
]

-- a write to the output endpoint: the handle, the endpoint and the bytes
pub record Write : Type 0 where
  pub handle : Option Handle
  pub endpoint : ℕ
  pub bytes : List ℕ

-- what `libusb_interrupt_transfer` returns, and the `count` that it stores
pub record Transferred : Type 0 where
  pub rc : LibusbResult
  pub count : ℕ

-- `freespace_private_send` with what it writes. The message is given up to its length.
unfoldable pub private_send : (Write → Transferred) → Slots → ℕ → List ℕ → ℤ × Option Write
private_send transfer devices id message = elim (open_device_of devices id) [
  | none ↦ (error_not_found, none)
  | some d ↦
      let w : Write = record {
        handle = d.handle;
        endpoint = d.write_endpoint_address;
        bytes = message;
      } in
      let t = transfer w in
      if ltb d.max_write_size (length message)
      then (error_send_too_large, none)
      else if not (is_success t.rc)
      then (libusb_to_freespace_error t.rc, some w)
      else if not (length message == t.count)
      then (error_unexpected, some w)
      else (success, some w)
]

-- `struct SendTransferInfo`
pub record SendTransferInfo : Type 0 where
  pub id : ℕ
  pub callback : Callback
  pub cookie : ℕ

-- the call of the user's callback: id, cookie and result
pub record Sent : Type 0 where
  pub callback : Callback
  pub id : ℕ
  pub cookie : ℕ
  pub rc : ℤ

-- `sendCallback`
unfoldable pub send_callback : SendTransferInfo → TransferStatus → Sent
send_callback info status = record {
  callback = info.callback;
  id = info.id;
  cookie = info.cookie;
  rc = transfer_status_to_freespace_error status;
}

-- what `libusb_alloc_transfer` and `malloc` give, and what `libusb_submit_transfer` returns
pub record AsyncCalls : Type 0 where
  pub alloc : Bool
  pub malloc : Bool
  pub submit : LibusbResult

-- the transfer that is submitted
pub record AsyncWrite : Type 0 where
  pub write : Write
  pub timeout : ℕ
  pub user_data : Option SendTransferInfo

pub record AsyncSent : Type 0 where
  pub rc : ℤ
  -- the transfer, if it is submitted
  pub submitted : Option AsyncWrite
  -- A transfer that the function frees itself.
  pub freed : Bool

abbrev not_sent : ℤ → Bool → AsyncSent
not_sent rc freed = record { rc = rc; submitted = none; freed = freed }

-- `freespace_private_sendAsync`, the branch that is not for __APPLE__
unfoldable pub private_send_async :
    AsyncCalls → Slots → ℕ → List ℕ → ℕ → Option Callback → ℕ → AsyncSent
private_send_async calls devices id message timeout callback cookie =
    elim (open_device_of devices id) [
      | none ↦ not_sent error_not_found false
      | some d ↦
          let submitted : Option SendTransferInfo → AsyncSent = λ info. record {
            rc = libusb_to_freespace_error calls.submit;
            submitted = some record {
              write = record {
                handle = d.handle;
                endpoint = d.write_endpoint_address;
                bytes = message;
              };
              timeout = timeout;
              user_data = info;
            };
            freed = false;
          } in
          if ltb d.max_write_size (length message)
          then not_sent error_send_too_large false
          else if not calls.alloc
          then not_sent error_out_of_memory false
          else elim callback [
            | none ↦ submitted none
            | some c ↦
                if calls.malloc
                then submitted (some record { id = id; callback = c; cookie = cookie })
                else not_sent error_out_of_memory true
          ]
    ]

-- the message that `freespace_sendMessage` encodes
abbrev pub addressed : {Body : Type 0} → ℕ → Message Body → ℕ → Message Body
addressed reserved_address m h_ver = record m {
  dest = if m.dest == 0 then reserved_address else m.dest;
  ver = h_ver;
}

module _ {Body : Type 0} (encode : Encode Body) (reserved_address max_output : ℕ) where
  -- The part that `freespace_sendMessage` and `freespace_sendMessageAsync` share: `send` gets the
  -- bytes, `fail` a result that is returned at once.
  unfoldable pub encode_and {ℓ} :
      {R : Type ℓ} → (ℤ → R) → (List ℕ → R) → Slots → ℕ → Message Body → R
  encode_and fail send devices id m = elim (get_device_info devices id) [
    | none ↦ fail error_not_found
    | some info ↦
        let (rc, bytes) = encode (addressed reserved_address m info.h_ver) max_output in
        if nonpos rc then fail rc else send (take (pos_part rc) bytes)
  ]

  -- `freespace_sendMessage`
  unfoldable pub send_message : (Write → Transferred) → Slots → ℕ → Message Body → ℤ × Option Write
  unfolding encode_and private_send
  send_message transfer devices id m =
      encode_and (λ rc. (rc, none)) (private_send transfer devices id) devices id m

  -- `freespace_sendMessageAsync`
  unfoldable pub send_message_async :
      AsyncCalls → Slots → ℕ → Message Body → ℕ → Option Callback → ℕ → AsyncSent
  unfolding encode_and private_send_async
  send_message_async calls devices id m timeout callback cookie =
      encode_and (λ rc. not_sent rc false)
        (λ bytes. private_send_async calls devices id bytes timeout callback cookie) devices id m
