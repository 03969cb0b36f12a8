-- ===== src/Hidraw/Reach.antt =====
-- The calls of linux/freespace_hidraw.c as steps of a machine, and what holds in each of its
-- states.
use libfreespace.Common.{ℕ, ◌≡◌, refl, Bool, List, Option, ℤ, inl, inr, Bool-cases, eq_ℤ}
use libfreespace.Errors.{success}
use libfreespace.Usb.Message.{Decode}
use libfreespace.Hidraw.Types.{Callback, Context, Notice, Outcome}
use libfreespace.Hidraw.Table.Valid.{IsValid, store-IsValid}
use libfreespace.Hidraw.Keep.{with_device-cases, init-IsValid, open_at-IsValid, close_at-IsValid}
use libfreespace.Hidraw.Session.{
  InotifyCalls, init, exit, open_device, close_device, close_at, open_at,
  set_device_hotplug_callback, set_file_descriptor_callbacks, set_receive_callback,
  set_receive_message_callback,
}
use libfreespace.Hidraw.Io.{ReadCall}
use libfreespace.Hidraw.Poll.{Loop, returned, PollCalls, perform}
use libfreespace.Hidraw.Poll.Keep.{perform-Holds, inotify_process-IsValid}
use libfreespace.Hidraw.Scan.{Event, inotify_process}
use libfreespace.Hidraw.Listing.{get_device_list}
use libfreespace.Hidraw.Session.Exit.{exit-IsValid}

get_device_list-IsValid :
    (size : ℕ) (c : Context) (occurred : Event) (max_ids : ℤ)
    → IsValid c
    → IsValid (get_device_list size c occurred max_ids).0.ctx
unfolding get_device_list
get_device_list-IsValid size c occurred max_ids v =
    let valid = inotify_process-IsValid size c occurred v in
    elim (Bool-cases (eq_ℤ (inotify_process size c occurred).rc success)) [
      | inl e ↦ rw e valid
      | inr e ↦ rw e valid
    ]

module _ {Body : Type 0} (decode : Decode Body) where
  -- a call of the library that changes the context
  pub data Step (c c' : Context) : Type 0 where
    lists :
        (size : ℕ) (occurred : Event) (max_ids : ℤ)
        → c' ≡ (get_device_list size c occurred max_ids).0.ctx
        → Step c c'
    exits : c' ≡ (exit c).0 → Step c c'
    inits : (calls : InotifyCalls) → c' ≡ (init calls).ctx → Step c c'
    opens : (id fd : ℤ) → c' ≡ (open_device c id fd).ctx → Step c c'
    closes : (id : ℤ) → c' ≡ (close_device c id).0 → Step c c'
    performs :
        (reads : ℕ → List ReadCall) (size : ℕ) (need_to_rescan : Bool) (calls : PollCalls)
        (l : Loop Body)
        → perform decode reads size need_to_rescan c calls ≡ returned l
        → c' ≡ l.ctx
        → Step c c'
    sets_hotplug :
        (callback : Option Callback) (cookie : ℕ)
        → c' ≡ (set_device_hotplug_callback c callback cookie).0
        → Step c c'
    sets_fds :
        (on_added on_removed : Option Callback)
        → c' ≡ set_file_descriptor_callbacks c on_added on_removed
        → Step c c'
    sets_receive :
        (id : ℤ) (callback : Option Callback) (cookie : ℕ)
        → c' ≡ (set_receive_callback c id callback cookie).0
        → Step c c'
    sets_message :
        (id : ℤ) (callback : Option Callback) (cookie : ℕ)
        → c' ≡ (set_receive_message_callback c id callback cookie).0
        → Step c c'

  -- the contexts that sequences of these calls behind `freespace_init` lead to
  pub data Reached : Context → Type 0 where
    start : (calls : InotifyCalls) (c : Context) → c ≡ (init calls).ctx → Reached c
    next : {c c' : Context} → Reached c → Step c c' → Reached c'

  Step-IsValid : (c c' : Context) → Step c c' → IsValid c → IsValid c'
  unfolding set_device_hotplug_callback set_file_descriptor_callbacks set_receive_callback
      set_receive_message_callback open_device close_device
  Step-IsValid c c' (lists size occurred max_ids e) v =
      rw e (get_device_list-IsValid size c occurred max_ids v)
  Step-IsValid c c' (exits e) v = rw e (exit-IsValid c v)
  Step-IsValid c c' (inits calls e) v = rw e (init-IsValid calls)
  Step-IsValid c c' (opens id fd e) v = rw e (
      with_device-cases (λ (o : Outcome). IsValid o.ctx) c id _ (λ i d. open_at c i d fd) v
        (λ i d h. open_at-IsValid c i d fd v h))
  Step-IsValid c c' (closes id e) v = rw e (
      with_device-cases (λ (p : Context × List Notice). IsValid p.0) c id _ (close_at c) v
        (λ i d h. close_at-IsValid c i d v h))
  Step-IsValid c c' (performs reads size need calls l p e) v =
      rw e (rw p at (perform-Holds decode reads size need c calls v))
  Step-IsValid c c' (sets_hotplug callback cookie e) v = rw e record {
    size = v.size;
    counted = v.counted;
    next = v.next;
    bits_size = v.bits_size;
    balanced = v.balanced;
    settled = v.settled;
    marked = v.marked;
    apart = v.apart;
  }
  Step-IsValid c c' (sets_fds on_added on_removed e) v = rw e record {
    size = v.size;
    counted = v.counted;
    next = v.next;
    bits_size = v.bits_size;
    balanced = v.balanced;
    settled = v.settled;
    marked = v.marked;
    apart = v.apart;
  }
  Step-IsValid c c' (sets_receive id callback cookie e) v = rw e (
      with_device-cases (λ (p : Context × ℤ). IsValid p.0) c id _ _ v
        (λ i d h.
          store-IsValid c i d (record d { receive_callback = callback; receive_cookie = cookie }) v
            h refl (v.settled i d h) refl))
  Step-IsValid c c' (sets_message id callback cookie e) v = rw e (
      with_device-cases (λ (p : Context × ℤ). IsValid p.0) c id _ _ v
        (λ i d h.
          store-IsValid c i d
            (record d { receive_message_callback = callback; receive_message_cookie = cookie }) v h
            refl (v.settled i d h) refl))

  -- After `freespace_init` and any sequence of calls that return and that initialise or end the
  -- library, list, open and close devices, perform, or set callbacks, whatever the system answers,
  -- the invariant holds: the table's counts and its free index are right, every device that is
  -- connected or opened holds an id that is set in the bitmap and that no other such device has, and
  -- no other id is set.
  pub Reached-IsValid : (c : Context) → Reached c → IsValid c
  Reached-IsValid c (start calls _ e) = rw e (init-IsValid calls)
  Reached-IsValid c (next {c = c0} r s) = Step-IsValid c0 c s (Reached-IsValid c0 r)
