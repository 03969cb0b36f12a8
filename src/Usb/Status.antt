-- ===== src/Usb/Status.antt =====
-- The translations of libusb's codes in linux/freespace.c.
use libfreespace.Common.{◌≢◌, ℤ, arith}
use libfreespace.Errors.{
  success, error_io, error_access, error_no_device, error_not_found, error_busy, error_timeout,
  error_pipe, error_interrupted, error_out_of_memory, error_unexpected,
}
use libfreespace.Usb.Types.{LibusbError, LibusbResult, done, failed, TransferStatus}

error_of : LibusbError → ℤ
error_of LibusbError.io = error_io
error_of LibusbError.invalid_param = error_unexpected
error_of LibusbError.access = error_access
error_of LibusbError.no_device = error_no_device
error_of LibusbError.not_found = error_not_found
error_of LibusbError.busy = error_busy
error_of LibusbError.timeout = error_timeout
error_of LibusbError.overflow = error_unexpected
error_of LibusbError.pipe = error_pipe
error_of LibusbError.interrupted = error_interrupted
error_of LibusbError.no_mem = error_out_of_memory
error_of LibusbError.not_supported = error_unexpected
error_of LibusbError.other = error_unexpected
error_of LibusbError.unknown = error_unexpected

unfoldable pub libusb_to_freespace_error : LibusbResult → ℤ
unfolding error_of
libusb_to_freespace_error (done n) = success
libusb_to_freespace_error (failed e) = error_of e

unfoldable pub transfer_status_to_freespace_error : TransferStatus → ℤ
transfer_status_to_freespace_error TransferStatus.completed = success
transfer_status_to_freespace_error TransferStatus.error = error_io
transfer_status_to_freespace_error TransferStatus.timed_out = error_timeout
transfer_status_to_freespace_error TransferStatus.cancelled = error_interrupted
transfer_status_to_freespace_error TransferStatus.stall = error_io
transfer_status_to_freespace_error TransferStatus.no_device = error_no_device
transfer_status_to_freespace_error TransferStatus.overflow = error_unexpected
transfer_status_to_freespace_error TransferStatus.unknown = error_unexpected

-- No failure is reported as success.
pub libusb_to_freespace_error-failed :
    (e : LibusbError) → libusb_to_freespace_error (failed e) ≢ success
unfolding libusb_to_freespace_error
libusb_to_freespace_error-failed LibusbError.io = ground arith
libusb_to_freespace_error-failed _ = ground arith
