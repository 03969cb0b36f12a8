-- ===== src/Win32/Reach/Invariant.antt =====
-- What holds in every state of the library on Windows.
use libfreespace.Common.{
  ℕ, subst, inl, inr, Bool, true, false, not, List, [], Option, none, some, is_some, if◌then◌else◌,
  Bool-cases, Option-cases, ℤ, eq_ℤ, arith,
}
use libfreespace.Errors.{success}
use libfreespace.Usb.Message.{Decode, Encode}
use libfreespace.Win32.Match.{DiscoveryCalls}
use libfreespace.Win32.Types.{Device, Manager, Notice}
use libfreespace.Win32.Receive.{LastError}
use libfreespace.Win32.Library.{
  InitCalls, init, discovery_thread_init, DeviceCalls, Performed, perform, get_device_list,
  set_device_hotplug_callback, set_file_descriptor_callbacks, close_device, cleared, hotplug_of,
  perform_devices, check_discovery_if_changed,
}
use libfreespace.Win32.Calls.{
  open_by_id, set_receive_callback_by_id, set_receive_message_callback_by_id, read_message_by_id,
  send_message_by_id, send_message_async_by_id, flush_by_id,
}
use libfreespace.Win32.Discovery.{update}
use libfreespace.Win32.Close.{close}
use libfreespace.Win32.Settle.{close-KeepsId}
use libfreespace.Win32.{get_device_by_id, list_ids}
use libfreespace.Win32.Keep.{IsValid, update-IsValid}
use libfreespace.Win32.Reach.Ids.{
  open_device-id, set_receive_callback-id, set_receive_message_callback-id, read_message-id,
  flush-id,
}
use libfreespace.Win32.Reach.Sends.{send_message-id, send_message_async-id}
use libfreespace.Win32.Reach.Preserve.{
  Kept, check_discovery_if_changed-Kept, perform_devices-IsValid, with_device-IsValid,
}
use libfreespace.Win32.Reach.{
  Step, performs, lists, opens, closes, reads, sends, sends_async, flushes, sets_receive,
  sets_message, sets_hotplug, sets_fds, Reached, start, next,
}

module _ {Body : Type 0} (decode : Decode Body) (encode : Encode Body) (code : LastError → ℤ) where
  -- what holds in the instance that is left, if there is one
  abbrev Left : Option Manager → Type 0
  Left none = Unit {0}
  Left (some m) = IsValid m

  abbrev PerformLeft : Option (Performed Body) → Type 0
  PerformLeft none = Unit {0}
  PerformLeft (some p) = IsValid p.manager

  abbrev ListLeft : Option (Manager × ℤ × List ℕ) → Type 0
  ListLeft none = Unit {0}
  ListLeft (some (m, rc, ids)) = IsValid m

  perform-Left :
      (c : DiscoveryCalls) (at : ℕ → DeviceCalls) (m : Manager)
      → IsValid m
      → PerformLeft (perform decode code c at m)
  unfolding perform
  perform-Left c at m v =
      served (check_discovery_if_changed c m) (check_discovery_if_changed-Kept c m v)
    where
      served :
          (o : Option (Manager × ℤ × Bool × List Notice))
          → Kept o
          → PerformLeft (elim o [
            | none ↦ none
            | some (m', rc, rescans, notices) ↦
                let (devices, effects) =
                  perform_devices decode code (hotplug_of m') at m'.devices in
                some (record {
                  manager = record m' { devices = devices };
                  rc = rc;
                  rescans = rescans;
                  notices = notices;
                  effects = effects;
                })
          ])
      served none h = tt
      served (some (m', rc, rescans, notices)) h =
          perform_devices-IsValid decode code (hotplug_of m') at m' h

  get_device_list-Left :
      (c : DiscoveryCalls) (size : ℕ) (m : Manager)
      → IsValid m
      → ListLeft (get_device_list c size m)
  unfolding get_device_list
  get_device_list-Left c size m v =
      listed (check_discovery_if_changed c m) (check_discovery_if_changed-Kept c m v)
    where
      listed :
          (o : Option (Manager × ℤ × Bool × List Notice))
          → Kept o
          → ListLeft (elim o [
            | none ↦ none
            | some (m', rc, rescans, notices) ↦
                some (m', rc, if eq_ℤ rc success then list_ids m'.devices size else [])
          ])
      listed none h = tt
      listed (some (m', rc, rescans, notices)) h = h

  if-Left :
      (b : Bool) (p q : Option Manager × ℤ) → Left p.0 → Left q.0 → Left (if b then p else q).0
  if-Left true p q h k = h
  if-Left false p q h k = k

  thread_init-IsValid : (c : InitCalls) → IsValid (discovery_thread_init c cleared).0
  unfolding discovery_thread_init
  thread_init-IsValid c = elim (Option-cases c.timer) [
    | inl e ↦ rw e record { size = omega arith; distinct = tt; below = tt }
    | inr (t, e) ↦ elim (Bool-cases c.thread) [
      | inl b ↦ rw (e, b) record { size = omega arith; distinct = tt; below = tt }
      | inr b ↦ rw (e, b) record { size = omega arith; distinct = tt; below = tt }
    ]
  ]

  init-Left : (c : InitCalls) → Left (init c none).0
  unfolding init
  init-Left c =
      let r = discovery_thread_init c cleared in
      let v = thread_init-IsValid c in
      if-Left (not c.memory) _ _ tt (
        if-Left (not (eq_ℤ r.1 success)) _ _ v (elim (Option-cases c.event) [
          | inl e ↦ rw e v
          | inr (x, e) ↦ rw e record { size = v.size; distinct = v.distinct; below = v.below }
        ]))

  close_device-IsValid : (m : Manager) (id : ℕ) → IsValid m → IsValid (close_device m id)
  unfolding close_device
  close_device-IsValid m id v = found (get_device_by_id m.devices id)
    where
      found :
          (o : Option Device)
          → IsValid
              (elim o [ none ↦ m | some d ↦ record m { devices = update d.id close m.devices } ])
      found none = v
      found (some d) = update-IsValid close close-KeepsId d.id m v

  Step-IsValid : (m m' : Manager) → Step decode encode code m m' → IsValid m → IsValid m'
  unfolding open_by_id set_receive_callback_by_id set_receive_message_callback_by_id
      read_message_by_id send_message_by_id send_message_async_by_id flush_by_id
      set_device_hotplug_callback set_file_descriptor_callbacks
  Step-IsValid m m' (performs c at p e h) v = rw h (subst PerformLeft e (perform-Left c at m v))
  Step-IsValid m m' (lists c size rc ids e) v = subst ListLeft e (get_device_list-Left c size m v)
  Step-IsValid m m' (opens invalid open_calls events calls id e) v = rw e (
      with_device-IsValid m id _ _
        (open_device-id decode code (hotplug_of m) invalid (is_some m.fd_added_callback) open_calls
          events calls)
        v)
  Step-IsValid m m' (closes id e) v = rw e (close_device-IsValid m id v)
  Step-IsValid m m' (reads calls wait results id e) v = rw e (
      with_device-IsValid m id _ _ (read_message-id decode code (hotplug_of m) calls wait results)
        v)
  Step-IsValid m m' (sends event call waited id message e) v =
      rw e
        (with_device-IsValid m id _ _ (λ d. send_message-id encode event call waited d message) v)
  Step-IsValid m m' (sends_async event call id message timeout callback cookie e) v = rw e (
      with_device-IsValid m id _ _
        (λ d. send_message_async-id encode event call d message timeout callback cookie) v)
  Step-IsValid m m' (flushes id e) v = rw e (with_device-IsValid m id _ _ flush-id v)
  Step-IsValid m m' (sets_receive calls id callback cookie e) v = rw e (
      with_device-IsValid m id _ _
        (λ d. set_receive_callback-id decode code (hotplug_of m) calls d callback cookie) v)
  Step-IsValid m m' (sets_message calls id callback cookie e) v = rw e (
      with_device-IsValid m id _ _
        (λ d. set_receive_message_callback-id decode code (hotplug_of m) calls d callback cookie) v)
  Step-IsValid m m' (sets_hotplug callback cookie e) v =
      subst Left e record { size = v.size; distinct = v.distinct; below = v.below }
  Step-IsValid m m' (sets_fds on_added on_removed e) v =
      rw e record { size = v.size; distinct = v.distinct; below = v.below }

  -- In every state that a sequence of calls behind `freespace_init` leads to, as long as no call
  -- writes a seventeenth device behind the array, which the code does not prevent: each device has
  -- its own id, the next id is above them all, and the devices fit the array of sixteen.
  pub manager-IsValid : (m : Manager) → Reached decode encode code m → IsValid m
  manager-IsValid m (start c _ e) = subst Left e (init-Left c)
  manager-IsValid m' (next {m = m0} r s) = Step-IsValid m0 m' s (manager-IsValid m0 r)
