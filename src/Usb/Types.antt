-- ===== src/Usb/Types.antt =====
-- The structures of linux/freespace.c, and what libusb reports to it.
use libfreespace.Common.{ℕ, zero, suc, Bool, true, false, List, Option}
use libfreespace.DeviceTable.{DeviceApi}

-- The negative codes of libusb, by the names of its constants; `unknown` is any other.
pub data LibusbError : Type 0 where
  io invalid_param access no_device not_found busy timeout overflow : LibusbError
  pipe interrupted no_mem not_supported other unknown : LibusbError

-- what a call of libusb returns: a number that is not negative, or a code
pub data LibusbResult : Type 0 where
  done : ℕ → LibusbResult
  failed : LibusbError → LibusbResult

-- `rc == LIBUSB_SUCCESS`
abbrev pub is_success : LibusbResult → Bool
is_success (done zero) = true
is_success (done (suc n)) = false
is_success (failed e) = false

-- `enum libusb_transfer_status`; `unknown` is a value that has no name.
pub data TransferStatus : Type 0 where
  completed error timed_out cancelled stall no_device overflow unknown : TransferStatus

-- the part of a `libusb_transfer` that libusb fills
pub record Transfer : Type 0 where
  pub status : TransferStatus
  pub actual_length : ℕ

-- `struct FreespaceReceiveTransfer`; its `transfer_` is NULL or a transfer.
pub record ReceiveTransfer : Type 0 where
  pub transfer : Option Transfer
  pub buffer : List ℕ
  pub submitted : Bool

-- `enum FreespaceDeviceState`
pub data DeviceState : Type 0 where
  connected opened disconnected : DeviceState

-- A callback of the user, and a handle of libusb, by a number each.
abbrev pub Callback : Type 0
Callback = ℕ

abbrev pub Handle : Type 0
Handle = ℕ

-- `struct FreespaceDevice`
pub record Device : Type 0 where
  pub id : ℕ
  pub state : DeviceState
  pub ts : ℕ
  pub dev : ℕ
  pub handle : Option Handle
  pub id_vendor : ℕ
  pub id_product : ℕ
  pub kernel_driver_detached : Bool
  pub api : DeviceApi
  pub write_endpoint_address : ℕ
  pub read_endpoint_address : ℕ
  pub max_write_size : ℕ
  pub max_read_size : ℕ
  pub receive_callback : Option Callback
  pub receive_message_callback : Option Callback
  pub receive_cookie : ℕ
  pub receive_message_cookie : ℕ
  pub receive_queue_head : ℕ
  pub receive_queue : List ReceiveTransfer

-- FREESPACE_RECEIVE_QUEUE_SIZE
abbrev pub receive_queue_size : ℕ
receive_queue_size = 8
