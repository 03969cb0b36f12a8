-- ===== src/Usb/Library.antt =====
-- The static variables of linux/freespace.c, and what it reports to the user and to libusb about
-- devices. User callbacks do not call back into the library.
use libfreespace.Common.{ℕ, List, [], ◌∷◌, Option, none, some, ℤ}
use libfreespace.Errors.{success}
use libfreespace.Hotplug.{Hotplug}
use libfreespace.Usb.Types.{Callback}
use libfreespace.Usb.Table.{Table}

pub record Library : Type 0 where
  pub table : Table
  pub ts : ℕ
  pub hotplug : Hotplug
  pub hotplug_callback : Option Callback
  pub hotplug_cookie : ℕ
  pub user_added_callback : Option Callback
  pub user_removed_callback : Option Callback

pub data Notice : Type 0 where
  -- the hotplug callback, with the id and the cookie
  inserted : Callback → ℕ → ℕ → Notice
  removed : Callback → ℕ → ℕ → Notice
  -- `libusb_ref_device` and `libusb_unref_device`
  ref_device : ℕ → Notice
  unref_device : ℕ → Notice
  -- `libusb_free_device_list` with unreferencing
  free_list : Notice

-- `if (hotplugCallback) hotplugCallback(event, id, hotplugCookie)`
abbrev pub notify : (Callback → ℕ → ℕ → Notice) → Library → ℕ → List Notice
notify event lib id = elim lib.hotplug_callback [
  | none ↦ []
  | some callback ↦ event callback id lib.hotplug_cookie ∷ []
]

-- `freespace_setDeviceHotplugCallback`
pub set_device_hotplug_callback : Library → Option Callback → ℕ → Library × ℤ
set_device_hotplug_callback lib callback cookie =
    (record lib { hotplug_callback = callback; hotplug_cookie = cookie }, success)
