-- ===== src/Hidraw/Types.antt =====
-- The structures of linux/freespace_hidraw.c, and what it does to the system and to the user.
use libfreespace.Common.{ℕ, Bool, List, Option, ℤ}
use libfreespace.DeviceTable.{DeviceApi}

-- `enum FreespaceDeviceState`; `unset` is FREESPACE_NONE.
pub data DeviceState : Type 0 where
  unset connected opened disconnected : DeviceState

-- A callback of the user, by a number.
abbrev pub Callback : Type 0
Callback = ℕ

-- `struct FreespaceDevice`; the path is its bytes, and `api` is NULL or an entry.
pub record Device : Type 0 where
  pub id : ℤ
  pub state : DeviceState
  pub fd : ℤ
  pub dev_num : ℕ
  pub cookie : ℕ
  pub hidraw_path : List ℕ
  pub api : Option DeviceApi
  pub receive_callback : Option Callback
  pub receive_message_callback : Option Callback
  pub receive_cookie : ℕ
  pub receive_message_cookie : ℕ

-- `struct freespace_context` without the writer. A pointer to a device is the index of its slot.
-- The bitmap is the list of its bits, the lowest first; `next_free_index` is `none` for -1.
pub record Context : Type 0 where
  pub num_devices : ℕ
  pub next_free_index : Option ℕ
  pub connected_devices : List Bool
  pub devices : List (Option Device)
  pub inotify_fd : ℤ
  pub inotify_wd : ℤ
  pub user_added_callback : Option Callback
  pub user_removed_callback : Option Callback
  pub hotplug_callback : Option Callback
  pub hotplug_cookie : ℕ

-- What the code does besides the changes of the context, in order.
pub data Notice : Type 0 where
  -- the callbacks for file descriptors: POLLIN is always the event that is asked for
  fd_added : Callback → ℤ → Notice
  fd_removed : Callback → ℤ → Notice
  -- the hotplug callback, with the id and the cookie
  inserted : Callback → ℤ → ℕ → Notice
  removed : Callback → ℤ → ℕ → Notice
  -- `close` of a file descriptor, and `free` of the device of a slot
  close_fd : ℤ → Notice
  free_device : ℕ → Notice

-- A call's context, result and notices.
pub record Outcome : Type 0 where
  pub ctx : Context
  pub rc : ℤ
  pub notices : List Notice

abbrev pub outcome : Context → ℤ → List Notice → Outcome
outcome ctx rc notices = record { ctx = ctx; rc = rc; notices = notices }
