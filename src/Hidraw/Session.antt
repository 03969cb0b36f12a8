-- ===== src/Hidraw/Session.antt =====
-- Opening, closing and disconnecting of devices, and the start and the end of the library, in
-- linux/freespace_hidraw.c built without LIBFREESPACE_THREADED_WRITES. With it, closing and
-- disconnecting also flush the device's write jobs.
pub mod Frees
pub mod Exit
use Prim.Native.String.{String}
use libfreespace.Common.{
  ℕ, zero, suc, ◌+◌, Bool, true, false, not, List, [], ◌∷◌, ◌++◌, Option, none, some, ◌==◌, ltb,
  if◌then◌else◌, is_some, replicate, ℤ, pos, negsuc, is_neg, eq_ℤ,
}
use libfreespace.Errors.{
  success, error_io, error_no_device, error_unexpected, error_invalid_device, error_unimplemented,
}
use libfreespace.Slots.{maximum_device_count}
use libfreespace.DeviceTable.{DeviceApi}
use libfreespace.Hidraw.Types.{
  DeviceState, unset, connected, opened, disconnected, Callback, Device, Context, Notice, fd_added,
  fd_removed, inserted, removed, Outcome, outcome,
}
use libfreespace.Hidraw.Table.{
  slot, store, find_device_by_id, release_id, is_fd, closed, removed_fd, closing, deallocate_device,
}

-- `if (ctx_.userAddedCallback) ctx_.userAddedCallback(fd, POLLIN)`
abbrev pub added_fd : Context → ℤ → List Notice
added_fd c fd = elim c.user_added_callback [ none ↦ [] | some callback ↦ fd_added callback fd ∷ [] ]

abbrev pub notify : (Callback → ℤ → ℕ → Notice) → Context → ℤ → List Notice
notify event c id = elim c.hotplug_callback [
  | none ↦ []
  | some callback ↦ event callback id c.hotplug_cookie ∷ []
]

-- The context that `memset` leaves: the free index is 0.
abbrev pub zeroed : Context
zeroed = record {
  num_devices = 0;
  next_free_index = some 0;
  connected_devices = replicate maximum_device_count false;
  devices = replicate maximum_device_count none;
  inotify_fd = pos 0;
  inotify_wd = pos 0;
  user_added_callback = none;
  user_removed_callback = none;
  hotplug_callback = none;
  hotplug_cookie = 0;
}

-- What `inotify_init`, `fcntl` and `inotify_add_watch` return.
pub record InotifyCalls : Type 0 where
  pub init_rc : ℤ
  pub fcntl_rc : ℤ
  pub watch_rc : ℤ

-- `_inotify_init`
unfoldable pub inotify_init : Context → InotifyCalls → Outcome
inotify_init c calls =
    let c1 = record c { inotify_fd = calls.init_rc } in
    let c2 = record c1 { inotify_wd = calls.watch_rc } in
    if is_neg calls.init_rc
    then outcome c1 error_io []
    else if is_neg calls.fcntl_rc
    then outcome c1 error_io []
    else if is_neg calls.watch_rc
    then outcome c2 error_io []
    else outcome c2 success (added_fd c2 calls.init_rc)

-- `freespace_init`; the context before it does not matter.
unfoldable pub init : InotifyCalls → Outcome
unfolding inotify_init
init calls = inotify_init zeroed calls

-- `freespace_openDevice` on the device of slot `i`; `fd` is what `open` returns.
unfoldable pub open_at : Context → ℕ → Device → ℤ → Outcome
open_at c i d fd = elim d.state [
  | disconnected ↦ outcome c error_no_device []
  | opened ↦ outcome c success []
  | unset ↦ outcome c error_unexpected []
  | connected ↦
      if is_neg fd
      then outcome (store c i (record d { fd = fd })) error_io []
      else outcome (store c i (record d { fd = fd; state = opened })) success (added_fd c fd)
]

-- the use of GET_DEVICE: what follows it gets the slot and the device
abbrev pub with_device {ℓ} : {R : Type ℓ} → Context → ℤ → R → (ℕ → Device → R) → R
with_device c id missing body = elim (find_device_by_id c id) [
  | none ↦ missing
  | some i ↦ elim (slot c i) [ none ↦ missing | some d ↦ body i d ]
]

unfoldable pub open_device : Context → ℤ → ℤ → Outcome
unfolding open_at find_device_by_id
open_device c id fd = with_device c id (outcome c error_invalid_device []) (λ i d. open_at c i d fd)

-- `freespace_closeDevice` on the device of slot `i`
unfoldable pub close_at : Context → ℕ → Device → Context × List Notice
unfolding deallocate_device
close_at c i d = elim d.state [
  | connected ↦ (c, [])
  | opened ↦ (store c i (record (closed d) { state = connected }), closing c d)
  | disconnected ↦ deallocate_device c i
  | unset ↦ (c, [])
]

unfoldable pub close_device : Context → ℤ → Context × List Notice
unfolding close_at find_device_by_id
close_device c id = with_device c id (c, []) (close_at c)

-- `_disconnect` of the device of slot `i`
unfoldable pub disconnect : Context → ℕ → Device → Outcome
unfolding deallocate_device
disconnect c i d = elim d.state [
  | opened ↦
      outcome (release_id (store c i (record (closed d) { state = disconnected })) d.id) success
        (closing c d ++ notify removed c d.id)
  | connected ↦
      let r = deallocate_device (release_id (store c i (closed d)) d.id) i in
      outcome r.0 success (closing c d ++ r.1 ++ notify removed c d.id)
  | unset ↦ outcome c error_unexpected []
  | disconnected ↦ outcome c error_unexpected []
]

abbrev pub is_disconnected : DeviceState → Bool
is_disconnected disconnected = true
is_disconnected _ = false

-- the body of the loop of `freespace_exit`
unfoldable pub exit_slot : Context → ℕ → Context × List Notice
unfolding disconnect deallocate_device
exit_slot c i = elim (slot c i) [
  | none ↦ (c, [])
  | some d ↦
      let p = if is_disconnected d.state then outcome c success [] else disconnect c i d in
      let q = deallocate_device p.ctx i in (q.0, p.notices ++ q.1)
]

-- the loop of `freespace_exit` from slot `i` on
unfoldable pub exit_from : ℕ → ℕ → Context → Context × List Notice
unfolding exit_slot
exit_from zero i c = (c, [])
exit_from (suc rounds) i c =
    let p = exit_slot c i in let q = exit_from rounds (i + 1) p.0 in (q.0, p.1 ++ q.1)

-- `freespace_exit`
unfoldable pub exit : Context → Context × List Notice
unfolding exit_from
exit c =
    let p = exit_from maximum_device_count 0 c in
    (p.0, p.1 ++ (if is_fd p.0.inotify_fd then removed_fd p.0 p.0.inotify_fd else []))

-- `freespace_setDeviceHotplugCallback`
unfoldable pub set_device_hotplug_callback : Context → Option Callback → ℕ → Context × ℤ
set_device_hotplug_callback c callback cookie =
    (record c { hotplug_callback = callback; hotplug_cookie = cookie }, success)

-- `freespace_setFileDescriptorCallbacks`
unfoldable pub set_file_descriptor_callbacks : Context → Option Callback → Option Callback → Context
set_file_descriptor_callbacks c on_added on_removed = record c {
  user_added_callback = on_added;
  user_removed_callback = on_removed;
}

-- `freespace_private_setReceiveCallback`
unfoldable pub set_receive_callback : Context → ℤ → Option Callback → ℕ → Context × ℤ
unfolding find_device_by_id
set_receive_callback c id callback cookie =
    with_device c id (c, error_invalid_device)
      (λ i d.
        (store c i (record d { receive_callback = callback; receive_cookie = cookie }), success))

-- `freespace_setReceiveMessageCallback`
unfoldable pub set_receive_message_callback : Context → ℤ → Option Callback → ℕ → Context × ℤ
unfolding find_device_by_id
set_receive_message_callback c id callback cookie =
    with_device c id (c, error_invalid_device)
      (λ i d. (
        store c i
            (record d { receive_message_callback = callback; receive_message_cookie = cookie }),
        success,
      ))

-- `struct FreespaceDeviceInfo`
pub record DeviceInfo : Type 0 where
  pub vendor : ℕ
  pub product : ℕ
  pub name : String
  pub h_ver : ℕ

-- `freespace_getDeviceInfo`: its result and what it writes. `none` is a use of a NULL `api_`.
unfoldable pub get_device_info : Context → ℤ → Option (ℤ × Option DeviceInfo)
unfolding find_device_by_id
get_device_info c id = with_device c id (some (error_invalid_device, none)) (λ i d. elim d.api [
  | none ↦ none
  | some api ↦ some (
    success,
    some record {
      vendor = api.id_vendor;
      product = api.id_product;
      name = api.name;
      h_ver = api.h_ver;
    },
  )
])

-- the loop of `freespace_getDeviceList`, with room for `room` more ids
unfoldable pub list_ids : List (Option Device) → ℕ → List ℤ
list_ids [] room = []
list_ids (none ∷ rest) room = list_ids rest room
list_ids (some d ∷ rest) zero = []
list_ids (some d ∷ rest) (suc room) = d.id ∷ list_ids rest room

-- the descriptors that the loop of `freespace_syncFileDescriptors` reports, `n` of them seen
unfoldable pub sync_from : Callback → List (Option Device) → ℕ → ℕ → List Notice
sync_from callback [] n num_devices = []
sync_from callback (none ∷ rest) n num_devices =
    let next = sync_from callback rest n num_devices in if ltb n num_devices then next else []
sync_from callback (some d ∷ rest) n num_devices =
    let next = sync_from callback rest (n + 1) num_devices in
    if ltb n num_devices
    then (elim d.state [ opened ↦ fd_added callback d.fd ∷ next | _ ↦ next ])
    else []

-- `freespace_syncFileDescriptors`
unfoldable pub sync_file_descriptors : Context → List Notice × ℤ
unfolding sync_from
sync_file_descriptors c = elim c.user_added_callback [
  | none ↦ ([], success)
  | some callback ↦
      (fd_added callback c.inotify_fd ∷ sync_from callback c.devices 0 c.num_devices, success)
]
