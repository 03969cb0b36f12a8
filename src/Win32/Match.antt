-- ===== src/Win32/Match.antt =====
-- The scan of win32/freespace_discoveryDetail.c: what an interface tells, the entry of the table
-- that it matches, and the loop of `freespace_private_scanAndAddDevices` over what the system
-- lists; with `checkDiscovery` of win32/freespace_deviceMgr.c, which calls it.
pub mod First
use Prim.Native.Nat.{bit_and}
use libfreespace.Common.{
  ℕ, ◌+◌, Bool, true, false, not, ◌&&◌, List, [], ◌∷◌, Option, none, some, ◌==◌, if◌then◌else◌,
  take, ℤ, eq_ℤ,
}
use libfreespace.Errors.{success, error_unexpected, error_out_of_memory, error_busy}
use libfreespace.DeviceTable.{DeviceUsageApi, DeviceApi, device_api_table}
use libfreespace.Win32.Types.{InterfaceInfo, Manager, Device, Notice}
use libfreespace.Win32.Discovery.{
  Found, Scanned, scanned, overflows, add_new_device, handle_changes,
}
use libfreespace.Win32.{initialize}

-- the first `usageCount_` usages of an entry; no entry of the table has more than two
abbrev pub usages : DeviceApi → List DeviceUsageApi
usages api = take api.usage_count (api.usage_0 ∷ api.usage_1 ∷ [])

-- The loop of `getDeviceAPIIndex` from usage `j` on.
unfoldable pub usage_index_from : ℕ → List DeviceUsageApi → InterfaceInfo → Option ℕ
usage_index_from j [] info = none
usage_index_from j (u ∷ rest) info =
    let next = usage_index_from (j + 1) rest info in
    if not (u.usage == 0) && not (u.usage == info.usage)
    then next
    else if not (u.usage_page == 0) && not (u.usage_page == info.usage_page)
    then next
    else some j

-- `getDeviceAPIIndex`; -1 is `none`
unfoldable pub get_device_api_index : DeviceApi → InterfaceInfo → Option ℕ
unfolding usage_index_from
get_device_api_index api info = usage_index_from 0 (usages api) info

-- The loop of `getDeviceAPI`.
unfoldable pub get_device_api : List DeviceApi → InterfaceInfo → Option DeviceApi
unfolding get_device_api_index
get_device_api [] info = none
get_device_api (api ∷ rest) info =
    let next = get_device_api rest info in
    if not (info.id_vendor == api.id_vendor)
    then next
    else if not (bit_and info.id_product api.mask == bit_and api.id_product api.mask)
    then next
    else elim (get_device_api_index api info) [ none ↦ next | some j ↦ some api ]

-- what the system tells `getDeviceInfo`: whether the file opens, the preparsed data and the
-- capabilities come, and the attributes and capabilities
pub record InfoCalls : Type 0 where
  pub opens : Bool
  pub preparsed : Bool
  pub has_capabilities : Bool
  pub info : InterfaceInfo

-- `getDeviceInfo`
unfoldable pub get_device_info : InfoCalls → ℤ × Option InterfaceInfo
get_device_info c =
    if not c.opens
    then (error_unexpected, none)
    else if not c.preparsed
    then (error_unexpected, none)
    else if not c.has_capabilities
    then (error_unexpected, none)
    else (success, some c.info)

-- An interface that the system lists: whether memory is given for its details, whether they come,
-- the path in them, its unique id, what `getDeviceInfo` meets, and what `addNewDevice` meets.
pub record Listed : Type 0 where
  pub detail_memory : Bool
  pub has_detail : Bool
  pub path : List ℕ
  pub unique_id : Option ℕ
  pub info_calls : InfoCalls
  pub device_memory : Bool
  pub path_memory : Bool
  pub handle_is_valid : Bool

-- the arguments of `addNewDevice`, with what it asks the entry
abbrev pub found_of : Listed → DeviceApi → InterfaceInfo → Found
found_of l api info = record {
  unique_id = l.unique_id;
  path = l.path;
  usage_index = get_device_api_index api info;
  usage_count = api.usage_count;
  name = api.name;
  hver = api.h_ver;
  info = info;
  device_memory = l.device_memory;
  path_memory = l.path_memory;
  handle_is_valid = l.handle_is_valid;
}

-- The arguments of `addNewDevice` for an interface, if it is one to add.
unfoldable pub matched : List DeviceApi → Listed → Option Found
unfolding get_device_info get_device_api
matched table l =
    let (rc, answer) = get_device_info l.info_calls in
    elim answer [
      | none ↦ none
      | some info ↦ elim (get_device_api table info) [
        | none ↦ none
        | some api ↦ some (found_of l api info)
      ]
    ]

-- The loop of `freespace_private_scanAndAddDevices`; `complete` tells that the system ends the list
-- with ERROR_NO_MORE_ITEMS.
unfoldable pub scan_listed : List DeviceApi → Manager → Bool → List Listed → Scanned
unfolding matched add_new_device
scan_listed table m complete [] = scanned m (if complete then success else error_unexpected)
scan_listed table m complete (l ∷ rest) =
    if not l.detail_memory
    then scanned m error_out_of_memory
    else if not l.has_detail
    then scanned m error_unexpected
    else elim (matched table l) [
      | none ↦ scan_listed table m complete rest
      | some f ↦ elim (add_new_device m f) [
        | overflows ↦ overflows
        | scanned m' rc ↦
            if eq_ℤ rc success then scan_listed table m' complete rest else scanned m' rc
      ]
    ]

-- `freespace_private_scanAndAddDevices`; `lists` tells whether the system gives a list
unfoldable pub scan_and_add_devices : Manager → Bool → Bool → List Listed → Scanned
unfolding scan_listed
scan_and_add_devices m lists complete listed =
    if lists then scan_listed device_api_table m complete listed else scanned m error_unexpected

-- `filterInitialize` on all devices
abbrev pub initialize_all : List Device → List Device
initialize_all [] = []
initialize_all (d ∷ rest) = initialize d ∷ initialize_all rest

-- What `checkDiscovery` meets: whether the timer is signalled, whether installations are going on,
-- whether the system gives a list of interfaces and ends it as it should, and the interfaces.
pub record DiscoveryCalls : Type 0 where
  pub is_signalled : Bool
  pub is_pending : Bool
  pub lists : Bool
  pub complete : Bool
  pub listed : List Listed

-- What `checkDiscovery` does when the discovery status has changed: the manager, the result,
-- whether it asks for another scan, and the notices.
-- `none` is a write behind the array of devices.
unfoldable pub check_discovery :
    Manager → DiscoveryCalls → ℤ → Option (Manager × ℤ × Bool × List Notice)
unfolding scan_and_add_devices handle_changes
check_discovery m c thread_status =
    if c.is_pending
    then some (m, error_busy, true, [])
    else elim (scan_and_add_devices (record m { devices = initialize_all m.devices }) c.lists
        c.complete c.listed) [
          | overflows ↦ none
          | scanned m' rc ↦
              let (m'', n, notices) = handle_changes m' in
              if eq_ℤ rc success
              then some (m'', thread_status, not (n == 0), notices)
              else some (m', rc, true, [])
        ]
