-- ===== src/Hidraw/Table.antt =====
-- The table of devices of linux/freespace_hidraw.c and the bitmap of the ids in use.
pub mod Counts
pub mod Valid
pub mod Change
use libfreespace.Common.{
  ℕ, zero, suc, ◌+◌, ◌-◌, ◌<◌, Bool, true, false, List, [], ◌∷◌, ◌++◌, Option, none, some, ◌==◌,
  ltb, if◌then◌else◌, get_or, set, is_some, replicate, ℤ, pos, negsuc, eq_ℤ,
}
use libfreespace.Errors.{success, error_out_of_memory}
use libfreespace.Slots.{maximum_device_count, next_free}
use libfreespace.Hidraw.Types.{
  DeviceState, unset, Device, Context, Notice, fd_removed, close_fd, free_device,
}

-- `ctx_.devices[i]`
abbrev pub slot : Context → ℕ → Option Device
slot c i = get_or c.devices i none

-- what a write of the device at slot `i` does
abbrev pub store : Context → ℕ → Device → Context
store c i d = record c { devices = set c.devices i (some d) }

-- `findDeviceById` from index `i` on: the index of the slot
unfoldable pub find_from : List (Option Device) → ℤ → ℕ → Option ℕ
find_from [] id i = none
find_from (none ∷ rest) id i = find_from rest id (i + 1)
find_from (some d ∷ rest) id i =
    let next = find_from rest id (i + 1) in if eq_ℤ d.id id then some i else next

unfoldable pub find_device_by_id : Context → ℤ → Option ℕ
unfolding find_from
find_device_by_id c id = find_from c.devices id 0

-- the device after `memset` and the assignment of its cookie
abbrev pub blank : ℕ → Device
blank cookie = record {
  id = pos 0;
  state = unset;
  fd = pos 0;
  dev_num = 0;
  cookie = cookie;
  hidraw_path = replicate 16 0;
  api = none;
  receive_callback = none;
  receive_message_callback = none;
  receive_cookie = 0;
  receive_message_cookie = 0;
}

-- the context and the slot of the new device, or the code of a failure
pub data Allocated : Type 0 where
  refused : ℤ → Allocated
  allocated : Context → ℕ → Allocated

-- `_allocateNewDevice`; `malloc` tells whether memory is given.
unfoldable pub allocate_new_device : Context → Bool → Allocated
unfolding next_free
allocate_new_device c malloc = elim c.next_free_index [
  | none ↦ refused error_out_of_memory
  | some i ↦
      let n = c.num_devices + 1 in
      let devices = set c.devices i (some (blank n)) in
      if malloc
      then allocated
          (record c {
            num_devices = n;
            devices = devices;
            next_free_index =
                if ltb n maximum_device_count
                then next_free maximum_device_count devices i
                else none;
          })
          i
      else refused error_out_of_memory
]

-- the loop of `_assignId` from bit `i` on: the id and the bitmap
unfoldable pub assign_from : List Bool → ℕ → ℕ → ℤ × List Bool
assign_from bits zero i = (negsuc 0, bits)
assign_from bits (suc rounds) i =
    let rest = assign_from bits rounds (i + 1) in
    if get_or bits i false then rest else (pos i, set bits i true)

-- `_assignId`
unfoldable pub assign_id : Context → ℤ × Context
unfolding assign_from
assign_id c =
    let r = assign_from c.connected_devices maximum_device_count 0 in
    (r.0, record c { connected_devices = r.1 })

-- `ctx_.connectedDevices &= ~(1 << id)`; a shift by a negative id is undefined.
abbrev pub release_id : Context → ℤ → Context
release_id c (pos k) = record c { connected_devices = set c.connected_devices k false }
release_id c (negsuc k) = c

-- `if (device->fd_ > 0)` with the callback, `close` and `fd_ = -1`
abbrev pub is_fd : ℤ → Bool
is_fd (pos n) = ltb 0 n
is_fd (negsuc n) = false

abbrev pub closed : Device → Device
closed d = if is_fd d.fd then record d { fd = negsuc 0 } else d

abbrev pub removed_fd : Context → ℤ → List Notice
removed_fd c fd = elim c.user_removed_callback [
  | none ↦ []
  | some callback ↦ fd_removed callback fd ∷ []
]

abbrev pub closing : Context → Device → List Notice
closing c d = if is_fd d.fd then removed_fd c d.fd ++ close_fd d.fd ∷ [] else []

-- `_deallocateDevice` of the device at slot `i`
unfoldable pub deallocate_device : Context → ℕ → Context × List Notice
deallocate_device c i = elim (slot c i) [
  | none ↦ (c, [])
  | some d ↦ (
    record c {
      next_free_index = if is_some c.next_free_index then c.next_free_index else some i;
      devices = set c.devices i none;
      num_devices = c.num_devices - 1;
    },
    closing c d ++ free_device i ∷ [],
  )
]
