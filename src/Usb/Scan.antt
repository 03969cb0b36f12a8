-- ===== src/Usb/Scan.antt =====
-- `scanDevices` of linux/freespace.c: mark what is on the bus, sweep what is not.
pub mod Sweep
pub mod Mark
pub mod Refine
use libfreespace.Common.{
  ℕ, zero, suc, ◌+◌, ◌%◌, ◌^◌, Bool, true, false, not, ◌||◌, List, [], ◌∷◌, ◌++◌, Option, none,
  some, ◌==◌, if◌then◌else◌, get_or, replicate, ℤ, eq_ℤ,
}
use libfreespace.Errors.{success, error_out_of_memory}
use libfreespace.DeviceTable.{DeviceApi}
use libfreespace.DeviceTable.Lookup.{lookup_device}
use libfreespace.Hotplug.{perform}
use libfreespace.Slots.{maximum_device_count}
use libfreespace.Usb.Types.{LibusbError, DeviceState, Device, ReceiveTransfer, receive_queue_size}
use libfreespace.Usb.Types.{failed}
use libfreespace.Usb.Status.{libusb_to_freespace_error}
use libfreespace.Usb.Table.{Table, find_device_by_id, store, add, remove}
use libfreespace.Usb.Library.{
  Library, Notice, inserted, removed, ref_device, unref_device, free_list, notify,
}

-- `struct libusb_device_descriptor`, as far as it is read
pub record Descriptor : Type 0 where
  pub id_vendor : ℕ
  pub id_product : ℕ

-- A device of libusb's list: its pointer, its descriptor if it can be got, its address, and whether
-- `malloc` succeeds for it.
pub record BusDevice : Type 0 where
  pub dev : ℕ
  pub descriptor : Option Descriptor
  pub address : ℕ
  pub malloc : Bool

abbrev empty_transfer : ReceiveTransfer
empty_transfer = record { transfer = none; buffer = replicate 96 0; submitted = false }

-- the device after `memset` and the assignments
pub new_device : ℕ → BusDevice → Descriptor → DeviceApi → Device
new_device ts b desc api = record {
  id = b.address;
  state = DeviceState.connected;
  ts = ts;
  dev = b.dev;
  handle = none;
  id_vendor = desc.id_vendor;
  id_product = desc.id_product;
  kernel_driver_detached = false;
  api = api;
  write_endpoint_address = 0;
  read_endpoint_address = 0;
  max_write_size = 0;
  max_read_size = 0;
  receive_callback = none;
  receive_message_callback = none;
  receive_cookie = 0;
  receive_message_cookie = 0;
  receive_queue_head = 0;
  receive_queue = replicate receive_queue_size empty_transfer;
}

-- What a part of the scan leaves: the library, the reports, and whether memory ran out.
pub record Progress : Type 0 where
  pub lib : Library
  pub notices : List Notice
  pub out_of_memory : Bool

abbrev pub progress : Library → List Notice → Progress
progress lib notices = record { lib = lib; notices = notices; out_of_memory = false }

-- `device->ts_ = ts` for a known device
unfoldable pub touch : Library → Device → Library
touch lib d = record lib {
  table = record lib.table { devices = store lib.table.devices (record d { ts = lib.ts }) };
}

-- the insertion of a new device; the result of `addFreespaceDevice` is not looked at
unfoldable pub insert : Library → BusDevice → Descriptor → DeviceApi → Progress
unfolding new_device
insert lib b desc api =
    progress (record lib { table = (add lib.table (new_device lib.ts b desc api)).0 })
      (ref_device b.dev ∷ notify inserted lib b.address)

-- the body of the first loop for a device that is in the table of known devices
unfoldable pub mark : Library → BusDevice → Descriptor → DeviceApi → Progress
unfolding touch insert
mark lib b desc api = elim (find_device_by_id lib.table.devices b.address) [
  | none ↦
      if b.malloc
      then insert lib b desc api
      else record { lib = lib; notices = free_list ∷ []; out_of_memory = true }
  | some d ↦ progress (touch lib d) []
]

-- the api of a device of the bus, if its descriptor can be got and it is known
unfoldable pub known : BusDevice → Option (Descriptor × DeviceApi)
known b = elim b.descriptor [
  | none ↦ none
  | some desc ↦ elim (lookup_device desc.id_vendor desc.id_product) [
    | none ↦ none
    | some api ↦ some (desc, api)
  ]
]

-- the body of the first loop
unfoldable pub visit : Library → BusDevice → Progress
visit lib b = elim (known b) [ none ↦ progress lib [] | some (desc, api) ↦ mark lib b desc api ]

-- the first loop, with its return when memory runs out
unfoldable pub visit_all : Library → List BusDevice → Progress
visit_all lib [] = progress lib []
visit_all lib (b ∷ rest) =
    let p = visit lib b in
    let q = visit_all p.lib rest in
    if p.out_of_memory then p else record q { notices = p.notices ++ q.notices }

abbrev pub is_opened : DeviceState → Bool
is_opened DeviceState.connected = false
is_opened DeviceState.opened = true
is_opened DeviceState.disconnected = false

-- the body of the second loop for a device that was not seen
unfoldable pub drop_device : Library → Device → Progress
drop_device lib d =
    if is_opened d.state
    then progress
        (record lib {
          table = record lib.table {
            devices = store lib.table.devices (record d { state = DeviceState.disconnected });
          };
        })
        (notify removed lib d.id)
    else progress (record lib { table = remove lib.table d.id })
        (notify removed lib d.id ++ unref_device d.dev ∷ [])

-- the body of the second loop at a slot
unfoldable pub sweep_slot : Library → Option Device → Progress
unfolding drop_device
sweep_slot lib none = progress lib []
sweep_slot lib (some d) = if d.ts == lib.ts then progress lib [] else drop_device lib d

-- the second loop over the slots from `i` on
unfoldable pub sweep : ℕ → ℕ → Library → Progress
unfolding sweep_slot
sweep zero i lib = progress lib []
sweep (suc rounds) i lib =
    let p = sweep_slot lib (get_or lib.table.devices i none) in
    let q = sweep rounds (i + 1) p.lib in record q { notices = p.notices ++ q.notices }

-- What the system gives to one call of `scanDevices`: the uevent queue, and the list of devices or
-- the error of `libusb_get_device_list`.
pub data DeviceList : Type 0 where
  listed : List BusDevice → DeviceList
  list_failed : LibusbError → DeviceList

pub record Scanned : Type 0 where
  pub lib : Library
  pub rc : ℤ
  pub notices : List Notice

-- what follows `libusb_get_device_list`
unfoldable pub rescan : Library → List BusDevice → Scanned
rescan lib bus =
    let p = visit_all (record lib { ts = (lib.ts + 1) % 2 ^ 32 }) bus in
    let q = sweep maximum_device_count 0 p.lib in
    if p.out_of_memory
    then record { lib = p.lib; rc = error_out_of_memory; notices = p.notices }
    else record { lib = q.lib; rc = success; notices = p.notices ++ q.notices ++ free_list ∷ [] }

-- `scanDevices`
unfoldable pub scan_devices : Library → List ℕ → Bool → DeviceList → Scanned
scan_devices lib received eagain list =
    let p = perform lib.hotplug received eagain in
    let lib' = record lib { hotplug = p.state } in
    if not (eq_ℤ p.rc success) || not p.recheck
    then record { lib = lib'; rc = p.rc; notices = [] }
    else elim list [
      | list_failed e ↦ record {
        lib = lib';
        rc = libusb_to_freespace_error (failed e);
        notices = [];
      }
      | listed bus ↦ rescan lib' bus
    ]
