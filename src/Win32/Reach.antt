-- ===== src/Win32/Reach.antt =====
-- The calls of the library on Windows as steps of a machine.
pub mod Ids
pub mod Sends
pub mod Preserve
pub mod Invariant
use libfreespace.Common.{
  ℕ, ◌≡◌, refl, subst, inl, inr, Bool, true, false, not, List, [], Option, none, some, is_some,
  if◌then◌else◌, Bool-cases, Option-cases, ℤ, eq_ℤ, arith,
}
use libfreespace.Errors.{success}
use libfreespace.Usb.Message.{Message, Decode, Encode}
use libfreespace.Win32.Match.{DiscoveryCalls}
use libfreespace.Win32.Types.{Callback, Handle, Device, Manager, Notice}
use libfreespace.Win32.Receive.{LastError, ReadCalls, Overlapped}
use libfreespace.Win32.Open.{OpenCalls}
use libfreespace.Win32.Send.{WriteCall, Waited}
use libfreespace.Win32.Read.{Wait}
use libfreespace.Win32.Library.{
  InitCalls, init, discovery_thread_init, DeviceCalls, Performed, perform, get_device_list,
  set_device_hotplug_callback, set_file_descriptor_callbacks, close_device, cleared, hotplug_of,
  perform_devices, check_discovery_if_changed,
}
use libfreespace.Win32.Calls.{
  open_by_id, set_receive_callback_by_id, set_receive_message_callback_by_id, read_message_by_id,
  send_message_by_id, send_message_async_by_id, flush_by_id,
}
use libfreespace.Win32.Discovery.{update}
use libfreespace.Win32.Close.{close}
use libfreespace.Win32.Settle.{close-KeepsId}
use libfreespace.Win32.{get_device_by_id, list_ids}

module _ {Body : Type 0} (decode : Decode Body) (encode : Encode Body) (code : LastError → ℤ) where
  -- a call of the library that changes the instance
  pub data Step (m m' : Manager) : Type 0 where
    performs :
        (c : DiscoveryCalls) (at : ℕ → DeviceCalls) (p : Performed Body)
        → perform decode code c at m ≡ some p
        → m' ≡ p.manager
        → Step m m'
    lists :
        (c : DiscoveryCalls) (size : ℕ) (rc : ℤ) (ids : List ℕ)
        → get_device_list c size m ≡ some (m', rc, ids)
        → Step m m'
    opens :
        (invalid : Handle) (open_calls : ℕ → OpenCalls) (events : ℕ → Option Handle)
        (calls : ℕ → ReadCalls) (id : ℕ)
        → m' ≡ (open_by_id decode code invalid open_calls events calls m id).0
        → Step m m'
    closes : (id : ℕ) → m' ≡ close_device m id → Step m m'
    reads :
        (calls : ℕ → Overlapped) (wait : Wait) (results : ℕ → Overlapped) (id : ℕ)
        → m' ≡ (read_message_by_id decode code calls wait results m id).0
        → Step m m'
    sends :
        (event : Option Handle) (call : WriteCall) (waited : Waited) (id : ℕ)
        (message : Message Body)
        → m' ≡ (send_message_by_id encode event call waited m id message).0
        → Step m m'
    sends_async :
        (event : Option Handle) (call : WriteCall) (id : ℕ) (message : Message Body) (timeout : ℕ)
        (callback : Option Callback) (cookie : ℕ)
        → m' ≡ (send_message_async_by_id encode event call m id message timeout callback cookie).0
        → Step m m'
    flushes : (id : ℕ) → m' ≡ (flush_by_id m id).0 → Step m m'
    sets_receive :
        (calls : ℕ → ReadCalls) (id : ℕ) (callback : Option Callback) (cookie : ℕ)
        → m' ≡ (set_receive_callback_by_id decode code calls m id callback cookie).0
        → Step m m'
    sets_message :
        (calls : ℕ → ReadCalls) (id : ℕ) (callback : Option Callback) (cookie : ℕ)
        → m' ≡ (set_receive_message_callback_by_id decode code calls m id callback cookie).0
        → Step m m'
    sets_hotplug :
        (callback : Option Callback) (cookie : ℕ)
        → (set_device_hotplug_callback (some m) callback cookie).0 ≡ some m'
        → Step m m'
    sets_fds :
        (on_added on_removed : Option Callback)
        → m' ≡ set_file_descriptor_callbacks m on_added on_removed
        → Step m m'

  -- The instances that sequences of calls behind `freespace_init` lead to. A call in which the scan
  -- writes behind the array of devices has no instance behind it: what it leaves is undefined.
  pub data Reached : Manager → Type 0 where
    start : (c : InitCalls) (m : Manager) → (init c none).0 ≡ some m → Reached m
    next : {m m' : Manager} → Reached m → Step m m' → Reached m'
