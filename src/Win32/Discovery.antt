-- ===== src/Win32/Discovery.antt =====
-- What `checkDiscovery` of win32/freespace_deviceMgr.c does to the devices, and `addNewDevice` of
-- win32/freespace_discoveryDetail.c.
use Prim.Native.String.{String}
use libfreespace.Common.{
  ℕ, ◌+◌, Bool, true, false, not, List, [], ◌∷◌, ◌++◌, Option, none, some, ◌==◌, ltb, if◌then◌else◌,
  get_or, set, length, replicate, is_some, ℤ,
}
use libfreespace.Win32.Types.{
  Status, existing, added, Device, Manager, Notice, inserted, InterfaceInfo, blank, blank_send,
  maximum_send_message_count,
}
use libfreespace.Win32.Close.{force_close, close}
use libfreespace.Errors.{success, error_out_of_memory, error_io, error_not_found}
use libfreespace.Slots.{maximum_device_count}
use libfreespace.Win32.{
  filter_devices, filter_partially_removed, filter_ready, remove_devices, removal,
}

-- what is changed in the device with an id
unfoldable pub update : ℕ → (Device → Device) → List Device → List Device
update id f [] = []
update id f (d ∷ rest) = let next = update id f rest in if d.id == id then f d ∷ rest else d ∷ next

-- the same for each device of a list
unfoldable pub update_all : (Device → Device) → List Device → List Device → List Device
unfolding update
update_all f [] devices = devices
update_all f (d ∷ rest) devices = update_all f rest (update d.id f devices)

-- `freespace_private_removeDevice` and `freespace_private_insertDevice`: the flag
abbrev pub make_unavailable : Device → Device
make_unavailable d = record d { is_available = false }

abbrev pub make_available : Device → Device
make_available d = record d { is_available = true }

unfoldable pub insert_notices : Manager → Device → List Notice
insert_notices m d = if d.is_available then [] else (elim m.hotplug_callback [
  | none ↦ []
  | some callback ↦ inserted callback d.id m.hotplug_cookie ∷ []
])

unfoldable pub insertion : Manager → List Device → List Notice
unfolding insert_notices
insertion m [] = []
insertion m (d ∷ rest) = insert_notices m d ++ insertion m rest

-- `checkDiscoveryPartiallyRemovedDevices`
unfoldable pub remove_partially : Manager → Manager × ℕ × List Notice
unfolding update_all close removal filter_devices
remove_partially m =
    let list = filter_devices filter_partially_removed maximum_device_count m.devices in
    let unavailable = update_all make_unavailable list m.devices in
    (record m { devices = update_all close list unavailable }, length list, removal m list)

-- `checkDiscoveryAddedDevices`
unfoldable pub add_ready : Manager → Manager × ℕ × List Notice
unfolding update_all insertion filter_devices
add_ready m =
    let list = filter_devices filter_ready maximum_device_count m.devices in
    (record m { devices = update_all make_available list m.devices }, length list, insertion m list)

-- An interface that the system lists: its unique id, its path, the index of its usage in the
-- matching entry, the number of usages, the name and the version of that entry, what the interface
-- tells, whether memory is given for the device and for the path, and whether the handle of the
-- interface is valid, if it has one.
pub record Found : Type 0 where
  pub unique_id : Option ℕ
  pub path : List ℕ
  pub usage_index : Option ℕ
  pub usage_count : ℕ
  pub name : String
  pub hver : ℕ
  pub info : InterfaceInfo
  pub device_memory : Bool
  pub path_memory : Bool
  pub handle_is_valid : Bool

-- the result of a step of the scan; `overflows` is a write behind the end of the array of devices
pub data Scanned : Type 0 where
  scanned : Manager → ℤ → Scanned
  overflows : Scanned

-- `freespace_private_createDevice` and what `addNewDevice` sets in the new device
abbrev pub created : Manager → Found → Device
created m f = record {
  id = m.next_device_id;
  name = f.name;
  hver = f.hver;
  status = added;
  is_opened = false;
  is_available = false;
  unique_id = f.unique_id;
  interfaces = replicate f.usage_count blank;
  receive_callback = none;
  receive_cookie = 0;
  receive_message_callback = none;
  receive_message_cookie = 0;
  sends = replicate maximum_send_message_count blank_send;
}

-- `freespace_private_getDeviceByRef`
unfoldable pub get_device_by_ref : List Device → Option ℕ → Option Device
get_device_by_ref [] ref = none
get_device_by_ref (d ∷ rest) none = none
get_device_by_ref (d ∷ rest) (some u) =
    let next = get_device_by_ref rest (some u) in
    elim d.unique_id [ none ↦ next | some v ↦ if u == v then some d else next ]

abbrev pub seen_status : Status → Status
seen_status added = added
seen_status _ = existing

-- the part of `addNewDevice` that stores the path and marks the interface
abbrev pub populate : Found → ℕ → Device → Device
populate f i d = record d {
  interfaces = set d.interfaces i (record (get_or d.interfaces i blank) {
    device_path = some f.path;
    info = f.info;
    enumerated = true;
  });
}

abbrev pub enumerate : ℕ → Device → Device
enumerate i d = record d {
  interfaces = set d.interfaces i (record (get_or d.interfaces i blank) { enumerated = true });
}

-- `freespace_private_addDevice`. The code has no test of the count: where sixteen devices are in the
-- array, it writes behind the array, and `overflows` stands for that.
unfoldable pub add_device : Manager → Device → Scanned
add_device m d =
    if ltb (length m.devices) maximum_device_count
    then scanned (record m { devices = m.devices ++ d ∷ [] }) success
    else overflows

-- the branch of `addNewDevice` for a device that is known
unfoldable pub add_known : Manager → Found → ℕ → Device → Scanned
unfolding update force_close
add_known m f i d =
    let seen : Device → Device = λ e. record e { status = seen_status e.status } in
    let s = get_or d.interfaces i blank in
    let change : (Device → Device) → Manager =
      λ g. record m { devices = update d.id (λ e. g (seen e)) m.devices } in
    if is_some s.handle
    then (if f.handle_is_valid
        then scanned (change (enumerate i)) success
        else scanned (change force_close) error_io)
    else if is_some s.device_path
    then scanned (change (enumerate i)) success
    else if f.path_memory
    then scanned (change (populate f i)) success
    else scanned (change (λ e. e)) error_out_of_memory

-- `addNewDevice`
unfoldable pub add_new_device : Manager → Found → Scanned
unfolding get_device_by_ref add_known add_device
add_new_device m f = elim f.usage_index [
  | none ↦ scanned m error_not_found
  | some i ↦ elim (get_device_by_ref m.devices f.unique_id) [
    | some d ↦ add_known m f i d
    | none ↦
        let m' = record m { next_device_id = m.next_device_id + 1 } in
        if not f.device_memory
        then scanned m error_out_of_memory
        else if not f.path_memory
        then scanned m' error_out_of_memory
        else add_device m' (populate f i (created m f))
  ]
]

-- the part of `checkDiscovery` behind the scan: the manager, the number of changes and the notices
unfoldable pub handle_changes : Manager → Manager × ℕ × List Notice
unfolding remove_devices remove_partially add_ready
handle_changes m =
    let (m1, n1, a) = remove_devices m in
    let (m2, n2, b) = remove_partially m1 in
    let (m3, n3, c) = add_ready m2 in (m3, n1 + n2 + n3, a ++ b ++ c)
