-- ===== src/Usb/Message.antt =====
-- The message structure and the codec, which the build generates from common/setupMessages.py: the
-- codec is a parameter of what uses it.
use libfreespace.Common.{ℕ, List, Option, ℤ}
use libfreespace.Usb.Types.{Callback}

-- `struct freespace_message`: the address, the protocol version, and the generated rest
pub record Message (Body : Type 0) : Type 0 where
  pub dest : ℕ
  pub ver : ℕ
  pub body : Body

-- `freespace_decode_message(buffer, length, &m, hVer)`: the code that it returns, and the message
-- that it writes. The buffer is given up to the length.
abbrev pub Decode : Type 0 → Type 0
Decode Body = List ℕ → ℕ → ℤ × Message Body

-- `freespace_encode_message(m, buffer, maxLength)`: a code, or the length, and the bytes written
abbrev pub Encode : Type 0 → Type 0
Encode Body = Message Body → ℕ → ℤ × List ℕ

-- What the receive queue does to libusb and to the user. A transfer is named by its slot.
pub data Action (Body : Type 0) : Type 0 where
  submit : ℕ → Action Body
  cancel : ℕ → Action Body
  free_transfer : ℕ → Action Body
  -- the receive callback: id, bytes up to the length, cookie, result
  received : Callback → ℕ → List ℕ → ℕ → ℤ → Action Body
  -- the message callback: id, message or NULL, cookie, result
  message_received : Callback → ℕ → Option (Message Body) → ℕ → ℤ → Action Body
