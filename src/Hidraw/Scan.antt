-- ===== src/Hidraw/Scan.antt =====
-- Finding devices under /dev: the probe, the scans and the inotify events of
-- linux/freespace_hidraw.c. File names are given by whether they start with `hidraw` and by the
-- number that `sscanf` reads from them.
pub mod Recognize
use Prim.Native.Nat.{bit_and}
use libfreespace.Common.{
  ℕ, zero, suc, ◌+◌, ◌-◌, Bool, true, false, not, ◌&&◌, ◌||◌, List, [], ◌∷◌, ◌++◌, Option, none,
  some, ◌==◌, ltb, if◌then◌else◌, is_some, take, drop, length, ℤ, pos, negsuc, is_neg, eq_ℤ,
  signed16,
}
use libfreespace.Errors.{success, error_io, error_access, error_unexpected}
use libfreespace.Slots.{maximum_device_count}
use libfreespace.DeviceTable.{DeviceApi, device_api_table}
use libfreespace.Hidraw.Types.{
  DeviceState, unset, connected, opened, disconnected, Device, Context, Notice, inserted, Outcome,
  outcome,
}
use libfreespace.Hidraw.Table.{
  slot, store, blank, Allocated, refused, allocated, allocate_new_device, assign_id,
}
use libfreespace.Hidraw.Session.{notify}

-- FREESPACE_HID_STRING
abbrev pub hid_string : List ℕ
hid_string = 0x06 ∷ 0x01 ∷ 0xff ∷ 0x09 ∷ 0x04 ∷ 0xa1 ∷ []

-- `memcmp(a, b, n) == 0` for two lists of the bytes that are compared
abbrev pub bytes_eq : List ℕ → List ℕ → Bool
bytes_eq [] [] = true
bytes_eq (x ∷ xs) (y ∷ ys) = x == y && bytes_eq xs ys
bytes_eq [] (y ∷ ys) = false
bytes_eq (x ∷ xs) [] = false

-- The loop of `_isFreespaceDevice` over the descriptor, for the rounds that are left.
unfoldable pub search_from : ℕ → List ℕ → Bool
search_from zero value = false
search_from (suc rounds) value =
    let next = search_from rounds (drop 1 value) in
    if bytes_eq hid_string (take 6 value) then true else next

-- `stringFound`: the loop stops at `size - FREESPACE_HID_STRING_LEN`.
unfoldable pub string_found : List ℕ → Bool
unfolding search_from
string_found descriptor = search_from (length descriptor - 6) descriptor

-- The loop of `_isFreespaceDevice` over the table. `vendor` and `product` are the 16 bits of the
-- signed fields of `hidraw_devinfo`; the vendor is compared as an `int`.
unfoldable pub find_api : List DeviceApi → ℕ → ℕ → Option DeviceApi
find_api [] vendor product = none
find_api (api ∷ rest) vendor product =
    let next = find_api rest vendor product in
    if not (eq_ℤ (pos api.id_vendor) (signed16 vendor))
    then next
    else if not (bit_and api.id_product api.mask == bit_and product api.mask)
    then next
    else some api

-- What the system calls of `_isFreespaceDevice` give.
pub data Probe : Type 0 where
  -- `open` fails, with EAGAIN or not
  open_failed : Bool → Probe
  -- one of the `ioctl` calls fails
  ioctl_failed : Probe
  -- the ids and the report descriptor
  probed : ℕ → ℕ → List ℕ → Probe

-- `_isFreespaceDevice`: its result and `*API`
unfoldable pub is_freespace_device : Probe → ℤ × Option DeviceApi
unfolding string_found find_api
is_freespace_device (open_failed eagain) = (if eagain then success else error_io, none)
is_freespace_device ioctl_failed = (error_io, none)
is_freespace_device (probed vendor product descriptor) =
    (success, if string_found descriptor then find_api device_api_table vendor product else none)

-- The search of `_scanDevice` for the number of a device: `some` is the return from the loop.
unfoldable pub known_from : List (Option Device) → ℕ → ℕ → ℕ → Option ℤ
known_from [] n num_devices dev_num = none
known_from (none ∷ rest) n num_devices dev_num =
    let next = known_from rest n num_devices dev_num in if ltb n num_devices then next else none
known_from (some d ∷ rest) n num_devices dev_num =
    let next = known_from rest (n + 1) num_devices dev_num in
    if not (ltb n num_devices)
    then none
    else if not (d.dev_num == dev_num)
    then next
    else (elim d.state [
      | opened ↦ some success
      | connected ↦ some success
      | disconnected ↦ some success
      | unset ↦ some error_unexpected
    ])

-- A name of /dev: whether it starts with `hidraw`, the number that `sscanf` reads, its path,
-- whether `access` allows it, what the probe finds, and whether `malloc` gives memory.
pub record Entry : Type 0 where
  pub is_hidraw : Bool
  pub dev_num : Option ℕ
  pub path : List ℕ
  pub accessible : Bool
  pub probe : Probe
  pub malloc : Bool

-- the fields that `_scanDevice` sets in the new device; `strncpy` copies at most 16 bytes
abbrev pub filled : Device → ℤ → ℕ → List ℕ → DeviceApi → Device
filled d id dev_num path api = record d {
  state = connected;
  fd = negsuc 0;
  id = id;
  dev_num = dev_num;
  hidraw_path = take 16 path;
  api = some api;
}

-- the part of `_scanDevice` that adds a device
unfoldable pub add_device : Context → Entry → ℕ → DeviceApi → Outcome
add_device c e dev_num api = elim (allocate_new_device c e.malloc) [
  | refused rc ↦ outcome c rc []
  | allocated c' i ↦
      let r = assign_id c' in
      let c'' = store r.1 i (filled (blank c'.num_devices) r.0 dev_num e.path api) in
      outcome c'' success (notify inserted c'' r.0)
]

-- `_scanDevice`
unfoldable pub scan_device : Context → Entry → Outcome
unfolding known_from is_freespace_device add_device
scan_device c e = elim e.dev_num [
  | none ↦ outcome c error_unexpected []
  | some dev_num ↦ elim (known_from c.devices 0 c.num_devices dev_num) [
    | some rc ↦ outcome c rc []
    | none ↦
        let p = is_freespace_device e.probe in
        if not e.accessible
        then outcome c success []
        else elim p.1 [ none ↦ outcome c p.0 [] | some api ↦ add_device c e dev_num api ]
  ]
]

-- the loop of `_scanAllDevices` over the names of /dev
unfoldable pub scan_entries : Context → List Entry → Context × List Notice
unfolding scan_device
scan_entries c [] = (c, [])
scan_entries c (e ∷ rest) =
    let p = if e.is_hidraw then scan_device c e else outcome c success [] in
    let q = scan_entries p.ctx rest in (q.0, p.notices ++ q.1)

-- `_scanAllDevices`; `none` is a directory that cannot be opened.
unfoldable pub scan_all_devices : Context → Option (List Entry) → Outcome
unfolding scan_entries
scan_all_devices c none = outcome c error_access []
scan_all_devices c (some entries) = let p = scan_entries c entries in outcome p.0 success p.1

-- What `read` on the inotify descriptor gives: a failure, with EAGAIN or not, or an event with its
-- watch, the length of its name, whether its mask has IN_CREATE or IN_ATTRIB, and its name.
pub data Event : Type 0 where
  read_failed : Bool → Event
  event : ℤ → ℕ → Bool → Entry → Event

module _ (buffer_size : ℕ) where
  -- `_inotify_process`; `buffer_size` is the size of its buffer.
  unfoldable pub inotify_process : Context → Event → Outcome
  unfolding scan_device
  inotify_process c (read_failed eagain) = outcome c (if eagain then success else error_io) []
  inotify_process c (event wd len created e) =
      let scanned = scan_device c e in
      if not (eq_ℤ wd c.inotify_wd)
      then outcome c error_io []
      else if ltb buffer_size len
      then outcome c error_io []
      else if not e.is_hidraw
      then outcome c success []
      else if created
      then scanned
      else outcome c success []
