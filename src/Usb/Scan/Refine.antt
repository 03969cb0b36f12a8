-- ===== src/Usb/Scan/Refine.antt =====
-- `scanDevices` of linux/freespace.c as a whole: what becomes of the devices of the table.
use libfreespace.Common.{
  ℕ, ◌+◌, ◌%◌, ◌^◌, ◌≡◌, ◌≢◌, ap, ◌∙◌, inl, inr, Bool, true, false, List, [], ◌∷◌, Option, none,
  some, if◌then◌else◌, arith,
}
use libfreespace.Errors.{success}
use libfreespace.DeviceTable.{DeviceApi}
use libfreespace.Hotplug.{perform}
use libfreespace.Usb.Types.{DeviceState, Device, Callback}
use libfreespace.Usb.Table.{find_device_by_id}
use libfreespace.Slots.{maximum_device_count, occupied}
use libfreespace.Usb.Table.Valid.{IsValid}
use libfreespace.Usb.Table.Refine.{add_refines}
use libfreespace.Usb.Library.{Library, inserted, ref_device}
use libfreespace.Usb.Scan.{
  Descriptor, BusDevice, new_device, Progress, DeviceList, insert, mark, known, visit, visit_all,
  rescan, scan_devices, is_opened,
}
use libfreespace.Usb.Scan.Sweep.{swept, sweep-IsValid, sweep_refines, find-swept_all}
use libfreespace.Usb.Scan.Mark.{seen, marked, visit_all-IsValid, visit_all-find, visit_all-ts}

-- the time stamp of the next scan, an `uint32_t`
abbrev pub next_ts : Library → ℕ
next_ts lib = (lib.ts + 1) % 2 ^ 32

abbrev stamped : Library → Library
stamped lib = record lib { ts = next_ts lib }

rescan-IsValid :
    (lib : Library) (bus : List BusDevice) → IsValid lib.table → IsValid (rescan lib bus).lib.table
unfolding rescan
rescan-IsValid lib bus v =
    let marked = visit_all-IsValid (stamped lib) bus v in
    ground
      (arith, marked, sweep-IsValid maximum_device_count 0 (visit_all (stamped lib) bus).lib marked)

-- Every outcome of `scanDevices` keeps the table valid: the counts, the free index and the ids.
pub scan_devices-IsValid :
    (lib : Library) (received : List ℕ) (eagain : Bool) (list : DeviceList)
    → IsValid lib.table
    → IsValid (scan_devices lib received eagain list).lib.table
unfolding scan_devices
scan_devices-IsValid lib received eagain (DeviceList.listed bus) v = ground (
  arith,
  rescan-IsValid (record lib { hotplug = (perform lib.hotplug received eagain).state }) bus v,
)
scan_devices-IsValid lib received eagain (DeviceList.list_failed e) v = ground arith

-- what a completed scan makes of a device that was in the table
abbrev pub after_scan : Bool → ℕ → Device → Option Device
after_scan on_bus ts d =
    if on_bus
    then some (record d { ts = ts })
    else if is_opened d.state
    then some (record d { state = DeviceState.disconnected })
    else none

swept-marked :
    (on_bus : Bool) (ts : ℕ) (d : Device)
    → d.ts ≢ ts
    → swept ts (some (marked on_bus ts d)) ≡ after_scan on_bus ts d
unfolding swept
swept-marked true ts d h = ground arith
swept-marked false ts d h = ground arith

rescan-no_oom :
    (lib : Library) (bus : List BusDevice)
    → (rescan lib bus).rc ≡ success
    → (visit_all (stamped lib) bus).out_of_memory ≡ false
unfolding rescan
rescan-no_oom lib bus h = ground arith

-- A scan that succeeds finds out exactly what is gone: a device of the table stays, with the time
-- stamp of the scan, if the list has a known device at its address; if not, it is disconnected if
-- it was opened, and removed in every other state. Its old time stamp must not be that of this
-- scan.
pub rescan-find :
    (lib : Library) (bus : List BusDevice) (id : ℕ) {d : Device}
    → IsValid lib.table
    → (rescan lib bus).rc ≡ success
    → find_device_by_id lib.table.devices id ≡ some d
    → d.ts ≢ next_ts lib
    → find_device_by_id (rescan lib bus).lib.table.devices id
      ≡ after_scan (seen id bus) (next_ts lib) d
unfolding rescan
rescan-find lib bus id {d} v ok h old = rw enough (
    ap (λ ds. find_device_by_id ds id) (sweep_refines p.lib valid)
    ∙ find-swept_all p.lib.ts p.lib.table.devices id valid.distinct
    ∙ ap (swept p.lib.ts) (visit_all-find (stamped lib) bus id v enough h)
    ∙ ap (λ t. swept t (some (marked (seen id bus) (next_ts lib) d)))
        (visit_all-ts (stamped lib) bus)
    ∙ swept-marked (seen id bus) (next_ts lib) d old)
  where
    p : Progress
    p = visit_all (stamped lib) bus

    enough : p.out_of_memory ≡ false
    enough = rescan-no_oom lib bus ok

    valid : IsValid p.lib.table
    valid = visit_all-IsValid (stamped lib) bus v

-- When the table is full, the visit of a new known device adds nothing, but reports its insertion
-- to the user all the same, under an id that no call of the library finds, and keeps a reference to
-- the libusb device.
pub visit-full_table :
    (lib : Library) (b : BusDevice) (desc : Descriptor) (api : DeviceApi) (callback : Callback)
    → IsValid lib.table
    → occupied lib.table.devices ≡ maximum_device_count
    → known b ≡ some (desc, api)
    → find_device_by_id lib.table.devices b.address ≡ none
    → b.malloc ≡ true
    → lib.hotplug_callback ≡ some callback
    → ((visit lib b).lib ≡ lib)
      × ((visit lib b).notices
          ≡ ref_device b.dev ∷ inserted callback b.address lib.hotplug_cookie ∷ [])
unfolding visit mark insert new_device
visit-full_table lib b desc api callback v full k fresh m c =
    elim (add_refines lib.table (new_device lib.ts b desc api) v fresh) [
      | inl (room, rc, found) ↦ absurd (omega arith)
      | inr (full', rc, same) ↦ ground (arith, same)
    ]
