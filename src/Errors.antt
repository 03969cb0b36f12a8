-- ===== src/Errors.antt =====
-- The error codes of include/freespace/freespace_common.h, `enum freespace_error`, as C `int`s.
use libfreespace.Common.{ℤ, pos, negsuc}

abbrev pub success : ℤ
success = pos 0

abbrev pub error_io : ℤ
error_io = negsuc 0

abbrev pub error_access : ℤ
error_access = negsuc 2

abbrev pub error_no_device : ℤ
error_no_device = negsuc 3

abbrev pub error_not_found : ℤ
error_not_found = negsuc 4

abbrev pub error_busy : ℤ
error_busy = negsuc 5

abbrev pub error_timeout : ℤ
error_timeout = negsuc 6

abbrev pub error_pipe : ℤ
error_pipe = negsuc 8

abbrev pub error_interrupted : ℤ
error_interrupted = negsuc 9

abbrev pub error_out_of_memory : ℤ
error_out_of_memory = negsuc 10

abbrev pub error_send_too_large : ℤ
error_send_too_large = negsuc 19

abbrev pub error_invalid_device : ℤ
error_invalid_device = negsuc 20

abbrev pub error_receive_buffer_too_small : ℤ
error_receive_buffer_too_small = negsuc 21

abbrev pub error_unexpected : ℤ
error_unexpected = negsuc 97

abbrev pub error_unimplemented : ℤ
error_unimplemented = negsuc 96

abbrev pub error_could_not_create_thread : ℤ
error_could_not_create_thread = negsuc 22

abbrev pub error_no_data : ℤ
error_no_data = negsuc 24
