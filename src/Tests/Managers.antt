-- ===== src/Tests/Managers.antt =====
-- Examples for the device manager of win32/freespace_deviceMgr.c.
use libfreespace.Common.{ℕ, ◌≡◌, Bool, true, false, [], ◌∷◌, none, some, arith}
use libfreespace.Win32.Types.{
  Status, unknown, existing, Interface, InterfaceInfo, Device, Manager, blank_send,
}
use libfreespace.Win32.Sweep.{present}
use libfreespace.Win32.Discovery.{handle_changes}
use libfreespace.Win32.Changes.{settle_all, handle_changes-settle_all}
use libfreespace.Win32.Changes.Stable.{handle_changes-stable}
use libfreespace.Errors.{success}
use libfreespace.DeviceTable.{device_api_table}
use libfreespace.Win32.Match.{Listed, get_device_api}
use libfreespace.Win32.Match.First.{Chooses, get_device_api_lem}

abbrev pub info : InterfaceInfo
info = record {
  id_vendor = 0x1d5a;
  id_product = 0xc010;
  usage = 4;
  usage_page = 0xff01;
  input_report_byte_length = 64;
  output_report_byte_length = 4;
}

abbrev pub interface_of : Bool → Interface
interface_of enumerated = record {
  device_path = some (1 ∷ []);
  handle = some 9;
  read_event = some 10;
  read_status = true;
  read_buffer = [];
  enumerated = enumerated;
  info = info;
}

-- a device that is opened and available, with two interfaces
abbrev pub device : ℕ → Status → Bool → Device
device id status complete = record {
  id = id;
  name = "USB RF Transceiver v1 (MV)";
  hver = 1;
  status = status;
  is_opened = true;
  is_available = true;
  unique_id = some id;
  interfaces = interface_of true ∷ interface_of complete ∷ [];
  receive_callback = some 3;
  receive_cookie = 4;
  receive_message_callback = none;
  receive_message_cookie = 0;
  sends = record blank_send { event = some 30 } ∷ [];
}

-- device 3 is gone, and device 5 has lost an interface
abbrev pub manager : Manager
manager = record {
  devices = device 3 unknown false ∷ device 4 existing true ∷ device 5 existing false ∷ [];
  next_device_id = 6;
  hotplug_callback = some 1;
  hotplug_cookie = 2;
  fd_added_callback = none;
  fd_removed_callback = some 5;
  need_to_rescan_devices = false;
  discovery_event = some 20;
  discovery_thread_status = success;
  perform_event = some 21;
  window = some 22;
  window_event = some 23;
}

-- an interface that serves the usage of an entry of the table
abbrev pub listed : Listed
listed = record {
  detail_memory = true;
  has_detail = true;
  path = 4 ∷ 5 ∷ [];
  unique_id = some 77;
  info_calls = record { opens = true; preparsed = true; has_capabilities = true; info = info };
  device_memory = true;
  path_memory = true;
  handle_is_valid = false;
}

handle_changes-settle_all_example :
    (handle_changes manager).0.devices ≡ settle_all (present manager.devices)
handle_changes-settle_all_example =
    handle_changes-settle_all manager (omega arith)
      ((omega arith, (omega arith, tt)), ((omega arith, tt), (tt, tt)))

handle_changes-stable_example :
    handle_changes (handle_changes manager).0 ≡ ((handle_changes manager).0, 0, [])
handle_changes-stable_example =
    handle_changes-stable manager (omega arith)
      ((omega arith, (omega arith, tt)), ((omega arith, tt), (tt, tt)))

get_device_api_lem_example : Chooses info device_api_table (get_device_api device_api_table info)
get_device_api_lem_example = get_device_api_lem info
