-- ===== src/Tests/Devices.antt =====
-- Examples for the table of devices of linux/freespace.c.
use libfreespace.Common.{
  ℕ, ◌<◌, ◌≤◌, ◌≡◌, refl, ◌⊎◌, [], ◌∷◌, none, some, true, pos, negsuc, arith, ◌==◌, if◌then◌else◌,
}
use libfreespace.Errors.{success}
use libfreespace.DeviceTable.{device_api_table}
use libfreespace.Hotplug.{timeout}
use libfreespace.Usb.Types.{DeviceState}
use libfreespace.Usb.Table.{find_device_by_id, add, remove}
use libfreespace.Usb.Table.Valid.{IsValid}
use libfreespace.Usb.Table.Refine.{Adds, add_refines, remove_refines}
use libfreespace.Usb.Status.{libusb_to_freespace_error}
use libfreespace.Usb.Library.{inserted, ref_device}
use libfreespace.Usb.Scan.{
  BusDevice, known, visit, visit_all, drop_device, sweep, rescan, scan_devices, listed,
}
use libfreespace.Usb.Scan.Mark.{seen}
use libfreespace.Usb.Scan.Refine.{
  next_ts, after_scan, rescan-find, scan_devices-IsValid, visit-full_table,
}
use libfreespace.Usb.Poll.{next, get_next_timeout, asked}
use libfreespace.Usb.Poll.Earliest.{get_next_timeout-earliest}
use libfreespace.DeviceTable.Lookup.{lookup_device}
use libfreespace.Tests.Data.{
  loop_api, device, opened_device, one_device, one_device-IsValid, full_table, full_table-IsValid,
  library, strangers,
}

absent : find_device_by_id (one_device DeviceState.opened).devices 6 ≡ none
unfolding find_device_by_id
absent = refl

add_refines_example :
    Adds
      (one_device DeviceState.opened)
      (device 6 DeviceState.connected)
      (add (one_device DeviceState.opened) (device 6 DeviceState.connected))
add_refines_example =
    add_refines (one_device DeviceState.opened) (device 6 DeviceState.connected)
      (one_device-IsValid DeviceState.opened) absent

remove_refines_example :
    find_device_by_id (remove full_table 3).devices 4
    ≡ (if 3 == 4 then none else find_device_by_id full_table.devices 4)
remove_refines_example = remove_refines full_table 3 4 full_table-IsValid

rescan_ok : (rescan (library (one_device DeviceState.opened)) strangers).rc ≡ success
unfolding rescan visit_all visit known lookup_device sweep drop_device device_api_table
rescan_ok = refl

there_before : find_device_by_id (one_device DeviceState.opened).devices 5 ≡ some opened_device
unfolding find_device_by_id
there_before = refl

rescan-find_example :
    find_device_by_id
      (rescan (library (one_device DeviceState.opened)) strangers).lib.table.devices
      5
    ≡ after_scan
        (seen 5 strangers)
        (next_ts (library (one_device DeviceState.opened)))
        opened_device
rescan-find_example =
    rescan-find (library (one_device DeviceState.opened)) strangers 5
      (one_device-IsValid DeviceState.opened) rescan_ok there_before (ground arith)

scan_devices-IsValid_example :
    IsValid (scan_devices (library full_table) [] true (listed strangers)).lib.table
scan_devices-IsValid_example =
    scan_devices-IsValid (library full_table) [] true (listed strangers) full_table-IsValid

-- one more device than the table holds
abbrev newcomer : BusDevice
newcomer = record {
  dev = 40;
  descriptor = some record { id_vendor = 0x1d5a; id_product = 0xc001 };
  address = 40;
  malloc = true;
}

newcomer-known :
    known newcomer ≡ some (record { id_vendor = 0x1d5a; id_product = 0xc001 }, loop_api)
unfolding known lookup_device device_api_table
newcomer-known = refl

newcomer_absent : find_device_by_id full_table.devices 40 ≡ none
unfolding find_device_by_id
newcomer_absent = refl

visit-full_table_example :
    ((visit (library full_table) newcomer).lib ≡ library full_table)
    × ((visit (library full_table) newcomer).notices ≡ ref_device 40 ∷ inserted 77 40 78 ∷ [])
visit-full_table_example =
    visit-full_table (library full_table) newcomer
      (record { id_vendor = 0x1d5a; id_product = 0xc001 }) loop_api 77 full_table-IsValid refl
      newcomer-known newcomer_absent refl refl

no_error : (get_next_timeout (library full_table) (next 0 250000)).1 ≡ success
unfolding get_next_timeout libusb_to_freespace_error
no_error = refl

get_next_timeout-earliest_example :
    ((ms : ℕ) × ((get_next_timeout (library full_table) (next 0 250000)).0 ≡ pos ms)
      × ((asked (next 0 250000) ≡ some ms)
          ⊎ ((timeout (library full_table).hotplug ≡ ms) × (0 < ms)))
      × ((t : ℕ) → asked (next 0 250000) ≡ some t → ms ≤ t)
      × (0 < timeout (library full_table).hotplug → ms ≤ timeout (library full_table).hotplug))
    ⊎ (((get_next_timeout (library full_table) (next 0 250000)).0 ≡ negsuc 0)
        × (asked (next 0 250000) ≡ none)
        × (timeout (library full_table).hotplug ≡ 0))
get_next_timeout-earliest_example =
    get_next_timeout-earliest (library full_table) (next 0 250000) (λ t h. ground (arith, h))
      no_error
