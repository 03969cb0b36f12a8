-- ===== src/Tests/Data.antt =====
-- The data of the examples.
use libfreespace.Common.{
  ℕ, zero, suc, ◌+◌, Bool, true, false, List, [], ◌∷◌, none, some, replicate, pos, refl, arith,
}
use libfreespace.DeviceTable.{DeviceApi, entry}
use libfreespace.Usb.Types.{Device, DeviceState, TransferStatus, ReceiveTransfer}
use libfreespace.Usb.Table.{Slots, Table, find_device_by_id}
use libfreespace.Usb.Table.Valid.{IsValid}
use libfreespace.Usb.Library.{Library}
use libfreespace.Usb.Scan.{BusDevice}

abbrev pub loop_api : DeviceApi
loop_api = entry 0x1d5a 0xc001 0 2 1 4 0xff01 8 1 "Piranha" 0xffff

-- a transfer that holds `n` bytes of value `b`
abbrev pub holding : ℕ → ℕ → Bool → ReceiveTransfer
holding n b submitted = record {
  transfer = some record { status = TransferStatus.completed; actual_length = n };
  buffer = replicate 4 b;
  submitted = submitted;
}

abbrev pub device : ℕ → DeviceState → Device
device id state = record {
  id = id;
  state = state;
  ts = 7;
  dev = 100 + id;
  handle = some 55;
  id_vendor = 0x1d5a;
  id_product = 0xc001;
  kernel_driver_detached = true;
  api = loop_api;
  write_endpoint_address = 2;
  read_endpoint_address = 0x81;
  max_write_size = 4;
  max_read_size = 4;
  receive_callback = none;
  receive_message_callback = none;
  receive_cookie = 0;
  receive_message_cookie = 0;
  receive_queue_head = 6;
  receive_queue =
      holding 3 30 false
      ∷ holding 4 31 true
      ∷ holding 4 32 true
      ∷ holding 4 33 true
      ∷ holding 4 34 true
      ∷ holding 4 35 true
      ∷ holding 1 36 false
      ∷ holding 2 37 false
      ∷ [];
}

abbrev pub opened_device : Device
opened_device = device 5 DeviceState.opened

abbrev pub one_device : DeviceState → Table
one_device state = record {
  devices = some (device 5 state) ∷ replicate 15 none;
  num_devices = 1;
  next_free_index = some 1;
}

pub one_device-IsValid : (state : DeviceState) → IsValid (one_device state)
unfolding find_device_by_id
one_device-IsValid state = record {
  size = refl;
  counted = refl;
  next = (omega arith, refl);
  distinct = (refl, tt);
}

-- devices with the ids from `id` on
abbrev pub devices_from : ℕ → ℕ → Slots
devices_from id zero = []
devices_from id (suc n) = some (device id DeviceState.connected) ∷ devices_from (id + 1) n

abbrev pub full_table : Table
full_table = record { devices = devices_from 0 16; num_devices = 16; next_free_index = none }

pub full_table-IsValid : IsValid full_table
unfolding find_device_by_id
full_table-IsValid = record {
  size = refl;
  counted = refl;
  next = refl;
  distinct = (
    refl,
    (
      refl,
      (
        refl,
        (
          refl,
          (
            refl,
            (
              refl,
              (refl, (refl, (refl, (refl, (refl, (refl, (refl, (refl, (refl, (refl, tt)))))))))),
            ),
          ),
        ),
      ),
    ),
  );
}

abbrev pub library : Table → Library
library table = record {
  table = table;
  ts = 9;
  hotplug = record { sock = pos 3; delay = 100 };
  hotplug_callback = some 77;
  hotplug_cookie = 78;
  user_added_callback = none;
  user_removed_callback = none;
}

-- nothing of the library's devices on the bus, but a mouse
abbrev pub strangers : List BusDevice
strangers =
    record {
      dev = 1;
      descriptor = some record { id_vendor = 0x46d; id_product = 0xc077 };
      address = 5;
      malloc = true;
    }
    ∷ []
