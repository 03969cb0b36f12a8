-- ===== src/Win32/Types.antt =====
-- The structures of win32/freespace_win32.h.
use Prim.Native.String.{String}
use libfreespace.Common.{ℕ, Bool, List, Option, none, [], ℤ}

-- A callback of the user and a handle of the system, by their numbers. NULL is `none`.
abbrev pub Callback : Type 0
Callback = ℕ

abbrev pub Handle : Type 0
Handle = ℕ

-- `enum freespace_discoveryStatus`
pub data Status : Type 0 where
  unknown existing added removed : Status

-- `struct FreespaceDeviceInterfaceInfo`
pub record InterfaceInfo : Type 0 where
  pub id_vendor : ℕ
  pub id_product : ℕ
  pub usage : ℕ
  pub usage_page : ℕ
  pub input_report_byte_length : ℕ
  pub output_report_byte_length : ℕ

-- `struct FreespaceSubStruct`. Of `readOverlapped_` it has the event; the system's calls get the
-- rest. The buffer is its bytes up to `readBufferSize`.
pub record Interface : Type 0 where
  pub device_path : Option (List ℕ)
  pub handle : Option Handle
  pub read_event : Option Handle
  pub read_status : Bool
  pub read_buffer : List ℕ
  pub enumerated : Bool
  pub info : InterfaceInfo

-- `struct FreespaceSendStruct`. The interface is its index in the device, and of `overlapped_` it
-- has the event. `error_`, which is never read, is left out.
pub record Send : Type 0 where
  pub interface : Option ℕ
  pub event : Option Handle
  pub callback : Option Callback
  pub cookie : ℕ
  pub timeout : ℕ
  pub report : List ℕ
  pub num_bytes : ℕ
  pub rc : ℤ

-- `struct FreespaceDeviceStruct`; the interfaces are the first `handleCount_`.
pub record Device : Type 0 where
  pub id : ℕ
  pub name : String
  pub hver : ℕ
  pub status : Status
  pub is_opened : Bool
  pub is_available : Bool
  pub unique_id : Option ℕ
  pub interfaces : List Interface
  pub receive_callback : Option Callback
  pub receive_cookie : ℕ
  pub receive_message_callback : Option Callback
  pub receive_message_cookie : ℕ
  pub sends : List Send

-- `struct LibfreespaceData`: the devices are the first `deviceCount_`. A pointer to a device is its
-- id. The window class, which is NULL whenever the
-- thread starts, is left out.
pub record Manager : Type 0 where
  pub devices : List Device
  pub next_device_id : ℕ
  pub hotplug_callback : Option Callback
  pub hotplug_cookie : ℕ
  pub fd_added_callback : Option Callback
  pub fd_removed_callback : Option Callback
  pub need_to_rescan_devices : Bool
  pub discovery_event : Option Handle
  pub discovery_thread_status : ℤ
  pub perform_event : Option Handle
  pub window : Option Handle
  pub window_event : Option Handle

-- The calls of the hotplug callback, with the id and the cookie, and the devices that are freed, in
-- order. What is closed is not in the list.
pub data Notice : Type 0 where
  inserted : Callback → ℕ → ℕ → Notice
  removed_notice : Callback → ℕ → ℕ → Notice
  free_device : ℕ → Notice

-- FREESPACE_MAXIMUM_SEND_MESSAGE_COUNT
abbrev pub maximum_send_message_count : ℕ
maximum_send_message_count = 10

-- memory after `memset`
abbrev pub blank : Interface
blank = record {
  device_path = none;
  handle = none;
  read_event = none;
  read_status = Bool.false;
  read_buffer = [];
  enumerated = Bool.false;
  info = record {
    id_vendor = 0;
    id_product = 0;
    usage = 0;
    usage_page = 0;
    input_report_byte_length = 0;
    output_report_byte_length = 0;
  };
}

abbrev pub blank_send : Send
blank_send = record {
  interface = none;
  event = none;
  callback = none;
  cookie = 0;
  timeout = 0;
  report = [];
  num_bytes = 0;
  rc = ℤ.pos 0;
}
