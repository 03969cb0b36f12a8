-- ===== src/Win32/Reach/Ids.antt =====
-- No call of win32/freespace_device.c changes the id of a device.
use libfreespace.Common.{
  ℕ, ◌≡◌, refl, inl, inr, Bool, true, false, not, ◌&&◌, List, Option, if◌then◌else◌, is_some,
  Bool-cases, Option-cases, ℤ, eq_ℤ,
}
use libfreespace.Errors.{success}
use libfreespace.Usb.Message.{Decode}
use libfreespace.Win32.Types.{Callback, Handle, Interface, Device}
use libfreespace.Win32.Close.{force_close}
use libfreespace.Win32.Receive.{
  LastError, Run, ReadCalls, Overlapped, Hotplug, has_callback, handle_device_failure,
  initiate_from, initiate_async_receives, perform_sends, perform_reads, device_perform,
  set_receive_callback, set_receive_message_callback,
}
use libfreespace.Win32.Open.{OpenCalls, open_from, initialize_sends, start_receiving, open_device}
use libfreespace.Win32.Read.{
  Wait, wait_failed, wait_timeout, wait_signalled, Progress, through, came, broke, start_from,
  check_from, ReadRun, resolve, private_read, read_message, flush,
}

-- both branches have the id
if-id : (n : ℕ) (b : Bool) (d e : Device) → d.id ≡ n → e.id ≡ n → (if b then d else e).id ≡ n
if-id n true d e h k = h
if-id n false d e h k = k

run_if-id :
    {Body : Type 0} (n : ℕ) (b : Bool) (r t : Run Body)
    → r.device.id ≡ n
    → t.device.id ≡ n
    → (if b then r else t).device.id ≡ n
run_if-id n true r t h k = h
run_if-id n false r t h k = k

module _ {Body : Type 0} (decode : Decode Body) (code : LastError → ℤ) (hotplug : Hotplug) where
  failure-id :
      (d : Device) (e : LastError)
      → (handle_device_failure decode code hotplug d e).device.id ≡ d.id
  unfolding handle_device_failure force_close
  failure-id d e = refl

  initiate-id :
      (calls : ℕ → ReadCalls) (d : Device)
      → (initiate_async_receives decode code hotplug calls d).device.id ≡ d.id
  unfolding initiate_async_receives
  initiate-id calls d =
      let p = initiate_from decode code hotplug calls d 0 d.interfaces in
      run_if-id d.id (d.is_opened && has_callback d) _ _
        (elim (Option-cases p.failure) [
          | inl e ↦ rw e refl
          | inr (x, e) ↦ rw e (failure-id (record d { interfaces = p.interfaces }) x)
        ])
        refl

  pub device_perform-id :
      (send_results : ℕ → Option ℕ) (results : ℕ → Overlapped) (calls : ℕ → ReadCalls) (d : Device)
      → (device_perform decode code hotplug send_results results calls d).device.id ≡ d.id
  unfolding device_perform
  device_perform-id send_results results calls d =
      let sends = perform_sends decode code hotplug send_results d 0 d.sends in
      let p = perform_reads decode code hotplug results d 0 d.interfaces in
      let d' = record d { sends = sends.0; interfaces = p.interfaces } in
      elim (Option-cases p.failure) [
        | inl e ↦ rw (e, device_perform) (initiate-id calls d')
        | inr (x, e) ↦ rw (e, device_perform) (failure-id d' x)
      ]

  pub set_receive_callback-id :
      (calls : ℕ → ReadCalls) (d : Device) (callback : Option Callback) (cookie : ℕ)
      → (set_receive_callback decode code hotplug calls d callback cookie).device.id ≡ d.id
  unfolding set_receive_callback
  set_receive_callback-id calls d callback cookie =
      let d' = record d {
        receive_callback = callback;
        receive_cookie = if is_some callback then cookie else 0;
      } in
      run_if-id d.id (d.is_opened && not (is_some d.receive_message_callback)) _ _
        (run_if-id d.id (is_some d.receive_callback && not (is_some callback)) _ _ refl (
          run_if-id d.id (not (is_some d.receive_callback) && is_some callback) _ _
            (initiate-id calls d') refl))
        refl

  pub set_receive_message_callback-id :
      (calls : ℕ → ReadCalls) (d : Device) (callback : Option Callback) (cookie : ℕ)
      → (set_receive_message_callback decode code hotplug calls d callback cookie).device.id ≡ d.id
  unfolding set_receive_message_callback
  set_receive_message_callback-id calls d callback cookie =
      let d' = record d {
        receive_message_callback = callback;
        receive_message_cookie = if is_some callback then cookie else 0;
      } in
      run_if-id d.id (d.is_opened && not (is_some d.receive_callback)) _ _
        (run_if-id d.id (is_some d.receive_message_callback && not (is_some callback)) _ _ refl (
          run_if-id d.id (not (is_some d.receive_message_callback) && is_some callback) _ _
            (initiate-id calls d') refl))
        refl

  start_receiving-id :
      (invalid : Handle) (is_async : Bool) (calls : ℕ → ReadCalls) (d : Device)
      → (start_receiving decode code hotplug invalid is_async calls d).device.id ≡ d.id
  unfolding start_receiving force_close
  start_receiving-id invalid is_async calls d =
      run_if-id d.id is_async _ _
        (run_if-id d.id (eq_ℤ (initiate_async_receives decode code hotplug calls d).rc success) _ _
          (initiate-id calls d) (initiate-id calls d))
        refl

  pub open_device-id :
      (invalid : Handle) (is_async : Bool) (open_calls : ℕ → OpenCalls) (events : ℕ → Option Handle)
      (calls : ℕ → ReadCalls) (d : Device)
      → (open_device decode code hotplug invalid is_async open_calls events calls d).device.id
        ≡ d.id
  unfolding open_device force_close
  open_device-id invalid is_async open_calls events calls d =
      let o = open_from invalid open_calls 0 d.interfaces in
      let i = initialize_sends events 0 d.sends in
      let d2 = record d { interfaces = o.0; is_opened = true; sends = i.0 } in
      run_if-id d.id d.is_opened _ _ refl (elim (Option-cases o.1) [
        | inr (rc, e) ↦ rw e refl
        | inl e ↦ rw e (run_if-id d.id i.1 _ _ (start_receiving-id invalid is_async calls d2) refl)
      ])

  resolve-id :
      (max_length : ℕ) (d : Device) (p : Progress) (next : Device → ReadRun Body)
      → ((ss : List Interface) → (next (record d { interfaces = ss })).device.id ≡ d.id)
      → (resolve decode code hotplug max_length d p next).device.id ≡ d.id
  unfolding resolve
  resolve-id max_length d (through ss) next h = h ss
  resolve-id max_length d (came ss bytes) next h = refl
  resolve-id max_length d (broke ss e) next h = failure-id (record d { interfaces = ss }) e

  private_read-id :
      (calls : ℕ → Overlapped) (wait : Wait) (results : ℕ → Overlapped) (max_length : ℕ)
      (d : Device)
      → (private_read decode code hotplug calls wait results max_length d).device.id ≡ d.id
  unfolding private_read
  private_read-id calls wait_failed results max_length d =
      resolve-id max_length d (start_from calls 0 d.interfaces) _ (λ ss. refl)
  private_read-id calls wait_timeout results max_length d =
      resolve-id max_length d (start_from calls 0 d.interfaces) _ (λ ss. refl)
  private_read-id calls wait_signalled results max_length d =
      resolve-id max_length d (start_from calls 0 d.interfaces) _ (λ ss.
        resolve-id max_length (record d { interfaces = ss }) (check_from results 0 ss) _
          (λ ts. refl))

  pub read_message-id :
      (calls : ℕ → Overlapped) (wait : Wait) (results : ℕ → Overlapped) (d : Device)
      → (read_message decode code hotplug calls wait results d).0.device.id ≡ d.id
  unfolding read_message
  read_message-id calls wait results d =
      let r = private_read decode code hotplug calls wait results 96 d in
      let same = private_read-id calls wait results 96 d in
      elim (Bool-cases (eq_ℤ r.rc success)) [
        | inr e ↦ rw e same
        | inl e ↦ elim (Option-cases r.bytes) [
          | inl b ↦ rw (e, b) same
          | inr (x, b) ↦ rw (e, b) same
        ]
      ]

pub flush-id : (d : Device) → (flush d).0.id ≡ d.id
unfolding flush
flush-id d = refl
