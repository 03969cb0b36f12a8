-- ===== src/Win32.antt =====
-- The device manager of win32/freespace_deviceMgr.c and the parts of win32/freespace_device.c and
-- win32/freespace_discoveryDetail.c that it calls: the mark and sweep of the devices.
pub mod Types
pub mod Close
pub mod Receive
pub mod Open
pub mod Send
pub mod Read
pub mod Match
pub mod Library
pub mod Sweep
pub mod Discovery
pub mod Settle
pub mod Changes
pub mod Keep
pub mod Calls
pub mod Thread
pub mod Reach
use libfreespace.Common.{
  ℕ, zero, suc, ◌+◌, Bool, true, false, not, ◌&&◌, ◌||◌, List, [], ◌∷◌, ◌++◌, Option, none, some,
  ◌==◌, ltb, if◌then◌else◌, get_or, set, take, length, replicate, is_some, ℤ, pos,
}
use libfreespace.Errors.{success}
use libfreespace.Slots.{maximum_device_count}
use libfreespace.Win32.Types.{
  Status, unknown, existing, added, removed, Interface, Device, Manager, Notice, removed_notice,
  free_device,
}

-- `freespace_private_getDeviceById`
unfoldable pub get_device_by_id : List Device → ℕ → Option Device
get_device_by_id [] id = none
get_device_by_id (d ∷ rest) id =
    let next = get_device_by_id rest id in if id == d.id then some d else next

-- the list that `freespace_private_filterDevices` fills, from the device at hand on, with `room`
-- left
unfoldable pub filter_devices : (Device → Bool) → ℕ → List Device → List Device
filter_devices filter room [] = []
filter_devices filter zero (d ∷ rest) = []
filter_devices filter (suc room) (d ∷ rest) =
    let more = filter_devices filter room rest in
    let same = filter_devices filter (suc room) rest in if filter d then d ∷ more else same

-- the loop of `freespace_getDeviceList`
unfoldable pub list_ids : List Device → ℕ → List ℕ
list_ids devices zero = []
list_ids [] (suc size) = []
list_ids (d ∷ rest) (suc size) =
    let more = list_ids rest size in
    let same = list_ids rest (suc size) in if d.is_available then d.id ∷ more else same

-- `filterInitialize`: what it does to a device
unfoldable pub initialize : Device → Device
initialize d = record d { interfaces = all d.interfaces; status = unknown }
  where
    all : List Interface → List Interface
    all [] = []
    all (s ∷ rest) = record s { enumerated = false } ∷ all rest

abbrev pub is_unknown : Status → Bool
is_unknown unknown = true
is_unknown _ = false

-- the status is existing or added
abbrev pub is_present : Status → Bool
is_present existing = true
is_present added = true
is_present _ = false

unfoldable pub all_enumerated : List Interface → Bool
all_enumerated [] = true
all_enumerated (s ∷ rest) = s.enumerated && all_enumerated rest

-- `filterSweep`
abbrev pub filter_sweep : Device → Bool
filter_sweep d = is_unknown d.status

-- `filterPartiallyRemoved`
unfoldable pub filter_partially_removed : Device → Bool
filter_partially_removed d =
    is_present d.status && d.is_available && not (all_enumerated d.interfaces)

-- `filterReady`
unfoldable pub filter_ready : Device → Bool
filter_ready d = is_present d.status && not d.is_available && all_enumerated d.interfaces

-- The inner loop of `checkDiscoveryRemoveDevices`: behind a device that it took out, it passes over
-- the device that moved to its place.
unfoldable pub take_out : ℕ → List Device → List Device
take_out id [] = []
take_out id (d ∷ []) = if d.id == id then [] else d ∷ []
take_out id (d ∷ e ∷ rest) =
    let passed = take_out id rest in
    let next = take_out id (e ∷ rest) in if d.id == id then e ∷ passed else d ∷ next

unfoldable pub take_out_all : List Device → List Device → List Device
unfolding take_out
take_out_all [] devices = devices
take_out_all (d ∷ rest) devices = take_out_all rest (take_out d.id devices)

-- `freespace_private_removeDevice`
unfoldable pub remove_notices : Manager → Device → List Notice
remove_notices m d =
    if d.is_available
    then (elim m.hotplug_callback [
      | none ↦ []
      | some callback ↦ removed_notice callback d.id m.hotplug_cookie ∷ []
    ])
    else []

-- `freespace_private_removeDevice` of the devices of the list, and `freespace_private_freeDevice`:
-- the devices have left the manager's list, so `freespace_closeDevice` finds none of them.
unfoldable pub removal : Manager → List Device → List Notice
unfolding remove_notices
removal m [] = []
removal m (d ∷ rest) = remove_notices m d ++ removal m rest

abbrev pub frees : List Device → List Notice
frees [] = []
frees (d ∷ rest) = free_device d.id ∷ frees rest

-- `checkDiscoveryRemoveDevices`
unfoldable pub remove_devices : Manager → Manager × ℕ × List Notice
unfolding filter_devices take_out_all removal
remove_devices m =
    let gone = filter_devices filter_sweep maximum_device_count m.devices in
    let m' = record m { devices = take_out_all gone m.devices } in
    (m', length gone, removal m' gone ++ frees gone)
