-- ===== src/Usb/Session.antt =====
-- Opening, closing and listing devices, and the start and the end of the library:
-- linux/freespace.c.
use Prim.Native.String.{String}
pub mod Ids
use libfreespace.Common.{
  ℕ, zero, suc, ◌+◌, Bool, true, false, not, ◌&&◌, ◌||◌, List, [], ◌∷◌, ◌++◌, Option, none, some,
  ◌==◌, ltb, if◌then◌else◌, is_some, get_or, ℤ, pos, eq_ℤ,
}
use libfreespace.Errors.{success, error_not_found, error_unexpected}
use libfreespace.Hotplug.{Hotplug, InitCalls, init, exit}
use libfreespace.Slots.{maximum_device_count}
use libfreespace.Usb.Types.{LibusbResult, done, failed, is_success, Device, DeviceState, Handle}
use libfreespace.Usb.Status.{libusb_to_freespace_error}
use libfreespace.Usb.Table.{Table, Slots, find_device_by_id, store, remove, clear_all}
use libfreespace.Usb.Library.{Library, Notice, unref_device}
use libfreespace.Usb.Scan.{Scanned, DeviceList, scan_devices}
use libfreespace.Usb.Message.{Action}
use libfreespace.Usb.Receive.{Phase}

-- `struct FreespaceDeviceInfo`
pub record DeviceInfo : Type 0 where
  pub vendor : ℕ
  pub product : ℕ
  pub name : String
  pub h_ver : ℕ

-- `freespace_getDeviceInfo`; `none` is FREESPACE_ERROR_NOT_FOUND.
unfoldable pub get_device_info : Slots → ℕ → Option DeviceInfo
get_device_info devices id = elim (find_device_by_id devices id) [
  | none ↦ none
  | some d ↦ some record {
    vendor = d.id_vendor;
    product = d.id_product;
    name = d.api.name;
    h_ver = d.api.h_ver;
  }
]

-- the loop of `freespace_getDeviceList`, with room for `room` more ids
unfoldable pub list_ids : Slots → ℕ → List ℕ
list_ids [] room = []
list_ids (none ∷ rest) room = list_ids rest room
list_ids (some d ∷ rest) zero = []
list_ids (some d ∷ rest) (suc room) = d.id ∷ list_ids rest room

-- `freespace_getDeviceList`: what the scan leaves, and the ids
unfoldable pub get_device_list : Library → List ℕ → Bool → DeviceList → ℕ → Scanned × List ℕ
unfolding list_ids
get_device_list lib received eagain list max_ids =
    let s = scan_devices lib received eagain list in
    if eq_ℤ s.rc success then (s, list_ids s.lib.table.devices max_ids) else (s, [])

-- the fields of `libusb_endpoint_descriptor` that the code reads
pub record Endpoint : Type 0 where
  pub address : ℕ
  pub is_in : Bool
  pub max_packet_size : ℕ

-- the body of the loop of `freespace_openDevice` over the endpoints
unfoldable pub use_endpoint : Device → Endpoint → Device
use_endpoint d e =
    if e.is_in
    then record d { read_endpoint_address = e.address; max_read_size = e.max_packet_size }
    else record d { write_endpoint_address = e.address; max_write_size = e.max_packet_size }

unfoldable pub use_endpoints : Device → List Endpoint → Device
unfolding use_endpoint
use_endpoints d [] = d
use_endpoints d (e ∷ rest) = use_endpoints (use_endpoint d e) rest

-- What the calls of libusb in `freespace_openDevice` return. `handle` is what `libusb_open` stores,
-- and `endpoints` are those of the first setting of the control interface.
pub record OpenCalls : Type 0 where
  pub opening : LibusbResult
  pub handle : Handle
  pub kernel_driver_active : LibusbResult
  pub detach_kernel_driver : LibusbResult
  pub claim_interface : LibusbResult
  pub get_active_config_descriptor : LibusbResult
  pub endpoints : List Endpoint

-- `rc == 1`
abbrev pub is_one : LibusbResult → Bool
is_one (done n) = n == 1
is_one (failed e) = false

module _ {Body : Type 0} where
  -- `freespace_openDevice` on the device that `findDeviceById` found; `initiate` is
  -- `freespace_initiateReceiveTransfers`.
  unfoldable pub open_device :
      (Device → Option (Device × ℤ × List (Action Body)))
      → OpenCalls
      → Device
      → Option (Device × ℤ × List (Action Body))
  unfolding use_endpoints
  open_device initiate c d =
      let opened = if is_success c.opening then record d { handle = some c.handle } else d in
      let detached =
        if is_one c.kernel_driver_active && is_success c.detach_kernel_driver
        then record opened { kernel_driver_detached = true }
        else opened in
      let ready = use_endpoints detached c.endpoints in
      if not (is_success c.opening)
      then some (opened, libusb_to_freespace_error c.opening, [])
      else if not (is_success c.claim_interface)
      then some (detached, libusb_to_freespace_error c.claim_interface, [])
      else if not (is_success c.get_active_config_descriptor)
      then some (detached, libusb_to_freespace_error c.get_active_config_descriptor, [])
      else if ready.max_read_size == 0 || ready.max_write_size == 0
      then some (ready, error_unexpected, [])
      else initiate (record ready { state = DeviceState.opened })

-- what `freespace_closeDevice` does to libusb besides the transfers
pub data Closing : Type 0 where
  release_interface : Handle → ℕ → Closing
  attach_kernel_driver : Handle → ℕ → Closing
  close : Handle → Closing
  unref : ℕ → Closing

pub record Closed (Body : Type 0) : Type 0 where
  pub table : Table
  pub actions : List (Action Body)
  pub closing : List Closing

abbrev pub is_disconnected : DeviceState → Bool
is_disconnected DeviceState.connected = false
is_disconnected DeviceState.opened = false
is_disconnected DeviceState.disconnected = true

module _ {Body : Type 0} (terminate : Device → Phase Body) where
  -- The part of `freespace_closeDevice` behind its guard, as far as this device goes. While
  -- `terminate` waits for the device's transfers, `libusb_handle_events_timeout` may also end
  -- transfers of other devices; what that does to them is not in this function.
  unfoldable pub close_handle : Table → Device → Handle → Closed Body
  close_handle t d h =
      let p = terminate d in
      let n = d.api.control_interface_number in
      let calls =
        release_interface h n
          ∷ (if p.device.kernel_driver_detached then attach_kernel_driver h n ∷ [] else [])
        ++ close h ∷ [] in
      let closed = record p.device { handle = none } in
      if is_disconnected p.device.state
      then record {
        table = remove (record t { devices = store t.devices closed }) d.id;
        actions = p.actions;
        closing = calls ++ unref d.dev ∷ [];
      }
      else record {
        table = record t {
          devices = store t.devices (record closed { state = DeviceState.connected });
        };
        actions = p.actions;
        closing = calls;
      }

  -- `freespace_closeDevice`
  unfoldable pub close_device : Table → ℕ → Closed Body
  unfolding close_handle
  close_device t id =
      let same : Closed Body = record { table = t; actions = []; closing = [] } in
      elim (find_device_by_id t.devices id) [
        | none ↦ same
        | some d ↦ elim d.handle [ none ↦ same | some h ↦ close_handle t d h ]
      ]

-- `freespace_init`; `usb` is what `libusb_init` returns.
unfoldable pub init_library : Library → InitCalls → LibusbResult → Library × ℤ
init_library lib calls usb =
    let r = init lib.hotplug calls in
    let lib' = record lib { hotplug = r.state } in
    if eq_ℤ r.rc success then (lib', libusb_to_freespace_error usb) else (lib', r.rc)

-- the devices that the loop of `freespace_exit` unreferences, in order
unfoldable pub unref_all : Slots → List Notice
unref_all [] = []
unref_all (none ∷ rest) = unref_all rest
unref_all (some d ∷ rest) = unref_device d.dev ∷ unref_all rest

-- `freespace_exit`, with the sockets that it closes
unfoldable pub exit_library : Library → Library × List Notice × List ℤ
unfolding unref_all
exit_library lib =
    let (hotplug, closed) = exit lib.hotplug in
    (
      record lib { table = clear_all lib.table; hotplug = hotplug },
      unref_all lib.table.devices,
      closed,
    )
