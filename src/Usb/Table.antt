-- ===== src/Usb/Table.antt =====
-- The table of devices of linux/freespace.c: the statics `devices`, `numDevices` and
-- `nextFreeIndex`. A `FreespaceDevice*` of the table is the entry that `findDeviceById` finds,
-- since each device stands in one slot.
pub mod Valid
pub mod Map
pub mod Refine
use libfreespace.Common.{
  ℕ, zero, suc, ◌+◌, ◌-◌, ◌≡◌, Bool, true, false, List, [], ◌∷◌, Option, none, some, ◌==◌, ltb,
  if◌then◌else◌, get_or, set, is_some, replicate, ℤ,
}
use libfreespace.Errors.{success, error_invalid_device}
use libfreespace.Slots.{maximum_device_count, next_free}
use libfreespace.Usb.Types.{Device}

-- A slot is NULL or a device.
abbrev pub Slots : Type 0
Slots = List (Option Device)

pub record Table : Type 0 where
  pub devices : Slots
  pub num_devices : ℕ
  -- `none` is -1
  pub next_free_index : Option ℕ

unfoldable pub initial : Table
initial = record {
  devices = replicate maximum_device_count none;
  num_devices = 0;
  next_free_index = some 0;
}

-- `findDeviceById`
unfoldable pub find_device_by_id : Slots → ℕ → Option Device
find_device_by_id [] id = none
find_device_by_id (none ∷ rest) id = find_device_by_id rest id
find_device_by_id (some d ∷ rest) id = if d.id == id then some d else find_device_by_id rest id

-- What a write through the pointer that `findDeviceById` returned does to the table.
unfoldable pub store : Slots → Device → Slots
store [] d = []
store (none ∷ rest) d = none ∷ store rest d
store (some e ∷ rest) d = if e.id == d.id then some d ∷ rest else some e ∷ store rest d

-- `addFreespaceDevice`
unfoldable pub add : Table → Device → Table × ℤ
unfolding next_free
add t d = elim t.next_free_index [
  | none ↦ (t, error_invalid_device)
  | some i ↦
      let devices = set t.devices i (some d) in
      let n = t.num_devices + 1 in
      (
        record {
          devices = devices;
          num_devices = n;
          next_free_index =
              if ltb n maximum_device_count then next_free maximum_device_count devices i else none;
        },
        success,
      )
]

-- The index of the slot that `removeFreespaceDevice` stops at.
unfoldable pub slot_of : Slots → ℕ → ℕ → Option ℕ
slot_of [] id i = none
slot_of (none ∷ rest) id i = slot_of rest id (i + 1)
slot_of (some d ∷ rest) id i = if d.id == id then some i else slot_of rest id (i + 1)

-- The body of the loops of `removeFreespaceDevice` and `freespace_exit` at a slot that holds a
-- device.
unfoldable pub clear_slot : Table → ℕ → Table
clear_slot t i = record {
  devices = set t.devices i none;
  num_devices = t.num_devices - 1;
  next_free_index = if is_some t.next_free_index then t.next_free_index else some i;
}

-- `removeFreespaceDevice`
unfoldable pub remove : Table → ℕ → Table
unfolding slot_of clear_slot
remove t id = elim (slot_of t.devices id 0) [ none ↦ t | some i ↦ clear_slot t i ]

-- The loop of `freespace_exit` over the slots from `i` on.
unfoldable pub clear_from : ℕ → ℕ → Table → Table
unfolding clear_slot
clear_from zero i t = t
clear_from (suc rounds) i t =
    clear_from rounds (i + 1) (if is_some (get_or t.devices i none) then clear_slot t i else t)

unfoldable pub clear_all : Table → Table
unfolding clear_from
clear_all t = clear_from maximum_device_count 0 t
