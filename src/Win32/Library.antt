-- ===== src/Win32/Library.antt =====
-- The calls of the library of win32/freespace_deviceMgr.c and win32/freespace_discovery.c that keep
-- the instance: `freespace_init`, `freespace_exit`, `freespace_perform` and the callbacks. `none`
-- is no instance; in `exit` the outer `none` is a read of a freed device. The thread of the hidden
-- window is seen by the window that it makes.
pub mod Serviced
pub mod Exit
use Prim.Native.String.{String}
use libfreespace.Common.{
  ℕ, Bool, true, false, not, ◌||◌, List, [], ◌∷◌, ◌++◌, Option, none, some, if◌then◌else◌, is_some,
  get_or, ℤ, pos, eq_ℤ, suc, ◌==◌, replicate, map,
}
use libfreespace.Errors.{
  success, error_busy, error_out_of_memory, error_unexpected, error_could_not_create_thread,
  error_not_found, error_no_device,
}
use libfreespace.Usb.Message.{Decode}
use libfreespace.Win32.Types.{Callback, Handle, Device, Manager, Notice, blank}
use libfreespace.Win32.{get_device_by_id, list_ids}
use libfreespace.Win32.Close.{Action, cancels, force_close, force_close_actions, close}
use libfreespace.Win32.Receive.{
  LastError, Effect, Run, ReadCalls, Overlapped, Hotplug, device_perform,
}
use libfreespace.Win32.Discovery.{update}
use libfreespace.Win32.Match.{DiscoveryCalls, check_discovery}

-- memory after `memset`
abbrev pub cleared : Manager
cleared = record {
  devices = [];
  next_device_id = 0;
  hotplug_callback = none;
  hotplug_cookie = 0;
  fd_added_callback = none;
  fd_removed_callback = none;
  need_to_rescan_devices = false;
  discovery_event = none;
  discovery_thread_status = pos 0;
  perform_event = none;
  window = none;
  window_event = none;
}

-- what `freespace_init` gets: memory, the timer, the thread, the event
pub record InitCalls : Type 0 where
  pub memory : Bool
  pub timer : Option Handle
  pub thread : Bool
  pub event : Option Handle

-- `freespace_private_discoveryThreadInit`
unfoldable pub discovery_thread_init : InitCalls → Manager → Manager × ℤ
discovery_thread_init c m = if is_some m.window then (m, error_busy) else elim c.timer [
  | none ↦ (record m { discovery_event = none }, error_unexpected)
  | some t ↦
      let m' = record m {
        discovery_event = some t;
        need_to_rescan_devices = true;
        discovery_thread_status = success;
      } in
      if c.thread then (m', success) else (
        record m' { discovery_thread_status = error_could_not_create_thread },
        error_could_not_create_thread,
      )
]

-- `freespace_init`
unfoldable pub init : InitCalls → Option Manager → Option Manager × ℤ
unfolding discovery_thread_init
init c (some m) = (some m, error_busy)
init c none =
    let (m, rc) = discovery_thread_init c cleared in
    if not c.memory
    then (none, error_out_of_memory)
    else if not (eq_ℤ rc success)
    then (some m, rc)
    else elim c.event [
      | none ↦ (some m, error_unexpected)
      | some e ↦ (some (record m { perform_event = some e }), success)
    ]

-- What `freespace_exit` and `freespace_syncFileDescriptors` do, in order: the calls of the
-- callbacks with what they are given, what is done to handles, and what is freed.
pub data Step : Type 0 where
  watches : Callback → Option Handle → ℕ → Step
  unwatches : Callback → Option Handle → Step
  acts : Action → Step
  cancel_timer : Option Handle → Step
  close_event : Option Handle → Step
  frees : ℕ → Step
  frees_instance : Step

abbrev pub all_acts : List Action → List Step
all_acts [] = []
all_acts (a ∷ rest) = acts a ∷ all_acts rest

-- `discoveryCallback` on WM_CLOSE and WM_DESTROY, and the end of a thread that takes messages
abbrev pub destroy_window : Manager → Manager × List Step
destroy_window m = (
  record m { discovery_event = none; window = none; window_event = none },
  cancel_timer m.discovery_event ∷ close_event m.discovery_event ∷ [],
)

-- `freespace_private_discoveryThreadExit`
unfoldable pub discovery_thread_exit : Manager → Manager × List Step
discovery_thread_exit m = if is_some m.window then destroy_window m else (m, [])

-- `freespace_private_getDeviceById` on an array of which the devices that are `none` are freed, but
-- not taken out: the outer `none` is a read of a freed device.
unfoldable pub get_among_freed : List (Option Device) → ℕ → Option (Option Device)
get_among_freed [] id = some none
get_among_freed (none ∷ rest) id = none
get_among_freed (some d ∷ rest) id =
    let next = get_among_freed rest id in if id == d.id then some (some d) else next

-- `freespace_private_freeDevice`, with the array that the close by id looks into. `none` is a read
-- of a freed device.
unfoldable pub free_device : List (Option Device) → Device → Option (List Step)
unfolding get_among_freed force_close_actions
free_device devices d =
    if d.is_opened
    then (elim (get_among_freed devices d.id) [
      | none ↦ none
      | some none ↦ some (frees d.id ∷ [])
      | some (some e) ↦
          some ((if e.is_opened then all_acts (force_close_actions e) else []) ++ frees d.id ∷ [])
    ])
    else some (frees d.id ∷ [])

-- what two parts of a call do, unless one of them reads a freed device
abbrev pub both : Option (List Step) → Option (List Step) → Option (List Step)
both none behind = none
both (some steps) none = none
both (some steps) (some behind) = some (steps ++ behind)

-- the loop of `freespace_exit`, with `freed` devices freed in front of those that are left
unfoldable pub free_devices : ℕ → List Device → Option (List Step)
unfolding free_device
free_devices freed [] = some []
free_devices freed (d ∷ rest) =
    both (free_device (replicate freed none ++ map some (d ∷ rest)) d)
      (free_devices (suc freed) rest)

-- The part of `freespace_exit` behind the end of the discovery, with what was done before
abbrev pub exit_devices : List Step → Manager → Option (Option Manager × List Step)
exit_devices before m = elim (free_devices 0 m.devices) [
  | none ↦ none
  | some freeing ↦
      some (none, before ++ (freeing ++ close_event m.perform_event ∷ frees_instance ∷ []))
]

abbrev pub reported : Manager → List Step
reported m = elim m.fd_removed_callback [
  | none ↦ []
  | some c ↦ unwatches c m.perform_event ∷ unwatches c m.discovery_event ∷ []
]

-- `freespace_exit`; `none` is a read of a freed device.
unfoldable pub exit : Option Manager → Option (Option Manager × List Step)
unfolding discovery_thread_exit free_devices
exit none = some (none, [])
exit (some m) = let p = discovery_thread_exit m in exit_devices (reported m ++ p.1) p.0

-- `freespace_setDeviceHotplugCallback`
unfoldable pub set_device_hotplug_callback :
    Option Manager → Option Callback → ℕ → Option Manager × ℤ
set_device_hotplug_callback none callback cookie = (none, error_not_found)
set_device_hotplug_callback (some m) callback cookie =
    (some (record m { hotplug_callback = callback; hotplug_cookie = cookie }), success)

-- `freespace_setFileDescriptorCallbacks`
unfoldable pub set_file_descriptor_callbacks : Manager → Option Callback → Option Callback → Manager
set_file_descriptor_callbacks m added_callback removed_callback = record m {
  fd_added_callback = added_callback;
  fd_removed_callback = removed_callback;
}

-- `freespace_syncFileDescriptors`
unfoldable pub sync_file_descriptors : Manager → ℤ × List Step
sync_file_descriptors m = elim m.fd_added_callback [
  | none ↦ (success, [])
  | some c ↦ (success, watches c m.discovery_event 1 ∷ watches c m.perform_event 1 ∷ [])
]

-- `freespace_private_discoveryStatusChanged`; `is_signalled` tells of the timer
unfoldable pub discovery_status_changed : Bool → Manager → Manager × Bool
discovery_status_changed is_signalled m =
    if m.need_to_rescan_devices || is_signalled
    then (record m { need_to_rescan_devices = false }, true)
    else (m, false)

-- `struct FreespaceDeviceInfo`
pub record DeviceInfo : Type 0 where
  pub name : String
  pub vendor : ℕ
  pub product : ℕ
  pub hver : ℕ

-- `freespace_getDeviceInfo`
unfoldable pub get_device_info : Option Manager → ℕ → ℤ × Option DeviceInfo
unfolding get_device_by_id
get_device_info none id = (error_no_device, none)
get_device_info (some m) id = elim (get_device_by_id m.devices id) [
  | none ↦ (error_no_device, none)
  | some d ↦
      let i = (get_or d.interfaces 0 blank).info in
      (
        success,
        some
            (record { name = d.name; vendor = i.id_vendor; product = i.id_product; hver = d.hver }),
      )
]

-- `freespace_closeDevice`
unfoldable pub close_device : Manager → ℕ → Manager
unfolding get_device_by_id update close
close_device m id = elim (get_device_by_id m.devices id) [
  | none ↦ m
  | some d ↦ record m { devices = update d.id close m.devices }
]

-- `checkDiscovery`; a scan only if the status changed
unfoldable pub check_discovery_if_changed :
    DiscoveryCalls → Manager → Option (Manager × ℤ × Bool × List Notice)
unfolding discovery_status_changed check_discovery
check_discovery_if_changed c m =
    let (m', is_changed) = discovery_status_changed c.is_signalled m in
    if is_changed
    then check_discovery m' c m'.discovery_thread_status
    else some (m', m'.discovery_thread_status, false, [])

-- `freespace_getDeviceList`: the list is empty if the discovery fails.
unfoldable pub get_device_list : DiscoveryCalls → ℕ → Manager → Option (Manager × ℤ × List ℕ)
unfolding check_discovery_if_changed list_ids
get_device_list c size m = elim (check_discovery_if_changed c m) [
  | none ↦ none
  | some (m', rc, rescans, notices) ↦
      some (m', rc, if eq_ℤ rc success then list_ids m'.devices size else [])
]

-- what `freespace_private_devicePerform` meets at a device
pub record DeviceCalls : Type 0 where
  pub send_results : ℕ → Option ℕ
  pub results : ℕ → Overlapped
  pub calls : ℕ → ReadCalls

-- A call of `freespace_perform`: the instance, the result, whether `checkDiscovery` asks for
-- another scan, its notices, and the effects of the devices' service.
pub record Performed (Body : Type 0) : Type 0 where
  pub manager : Manager
  pub rc : ℤ
  pub rescans : Bool
  pub notices : List Notice
  pub effects : List (Effect Body)

abbrev pub hotplug_of : Manager → Hotplug
hotplug_of m = elim m.hotplug_callback [ none ↦ none | some c ↦ some (c, m.hotplug_cookie) ]

module _ {Body : Type 0} (decode : Decode Body) (code : LastError → ℤ) where
  -- `performHelper` on all devices; the meetings are by the id of the device
  unfoldable pub perform_devices :
      Hotplug → (ℕ → DeviceCalls) → List Device → List Device × List (Effect Body)
  unfolding device_perform
  perform_devices hotplug at [] = ([], [])
  perform_devices hotplug at (d ∷ rest) =
      let c = at d.id in
      let r = device_perform decode code hotplug c.send_results c.results c.calls d in
      let (devices, effects) = perform_devices hotplug at rest in
      (r.device ∷ devices, r.effects ++ effects)

  -- `freespace_perform`; `none` is a write behind the array of devices
  unfoldable pub perform : DiscoveryCalls → (ℕ → DeviceCalls) → Manager → Option (Performed Body)
  unfolding check_discovery_if_changed perform_devices
  perform c at m = elim (check_discovery_if_changed c m) [
    | none ↦ none
    | some (m', rc, rescans, notices) ↦
        let (devices, effects) = perform_devices (hotplug_of m') at m'.devices in
        some (record {
          manager = record m' { devices = devices };
          rc = rc;
          rescans = rescans;
          notices = notices;
          effects = effects;
        })
  ]
