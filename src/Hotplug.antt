-- ===== src/Hotplug.antt =====
-- The hotplug socket of linux/linux_hotplug.c. The static variables are a record; the results of
-- the system calls are arguments, and what is closed is returned.
pub mod Debounce
use libfreespace.Common.{
  ℕ, ◌≡◌, Bool, true, false, not, List, [], ◌∷◌, ltb, if◌then◌else◌, ℤ, pos, negsuc, eq_ℤ, is_neg,
}
use libfreespace.Errors.{success, error_io, error_access, error_unexpected}

-- FREESPACE_HOTPLUG_SETTLING_TIME, in ms
abbrev pub settling_time : ℕ
settling_time = 100

-- `sock_` and `delay_`
pub record Hotplug : Type 0 where
  pub sock : ℤ
  pub delay : ℕ

-- the values of the static variables before `freespace_hotplug_init`
abbrev pub unopened : Hotplug
unopened = record { sock = negsuc 0; delay = settling_time }

-- What the calls of `freespace_hotplug_init` return, and whether `bind` sets EPERM.
pub record InitCalls : Type 0 where
  pub socket : ℤ
  pub bind : ℤ
  pub bind_eperm : Bool
  pub setsockopt : ℤ
  pub fcntl : ℤ

pub record Inited : Type 0 where
  pub state : Hotplug
  pub rc : ℤ
  pub closed : List ℤ

abbrev inited : Hotplug → ℤ → List ℤ → Inited
inited h rc closed = record { state = h; rc = rc; closed = closed }

-- `freespace_hotplug_init`
unfoldable pub init : Hotplug → InitCalls → Inited
init h c =
    if not (eq_ℤ h.sock (negsuc 0))
    then inited h error_unexpected []
    else if eq_ℤ c.socket (negsuc 0)
    then inited h error_unexpected []
    else if is_neg c.bind
    then inited h (if c.bind_eperm then error_access else error_unexpected) (c.socket ∷ [])
    else if is_neg c.setsockopt
    then inited h error_unexpected (c.socket ∷ [])
    else if is_neg c.fcntl
    then inited h error_unexpected (c.socket ∷ [])
    else inited (record { sock = c.socket; delay = settling_time }) success []

-- `freespace_hotplug_exit`, with what it closes
unfoldable pub exit : Hotplug → Hotplug × List ℤ
exit h = (record h { sock = negsuc 0 }, h.sock ∷ [])

-- `freespace_hotplug_getFD`
pub get_fd : Hotplug → ℤ
get_fd h = h.sock

-- `freespace_hotplug_timeout`
unfoldable pub timeout : Hotplug → ℕ
timeout h = h.delay

-- The loop that drains the uevent queue, over the sizes that the calls of `recv` return in order;
-- the end of the list is the call that fails.
unfoldable pub drain : List ℕ → Bool → Bool
drain [] got_event = got_event
drain (rc ∷ rest) got_event = if ltb 0 rc then drain rest true else got_event

pub record Polled : Type 0 where
  pub state : Hotplug
  pub recheck : Bool
  pub rc : ℤ

-- `freespace_hotplug_perform`; `eagain` tells whether `errno` is EAGAIN after the last `recv`.
unfoldable pub perform : Hotplug → List ℕ → Bool → Polled
unfolding drain
perform h received eagain =
    let rc : ℤ = if eagain then success else error_io in
    if drain received false
    then record { state = record h { delay = settling_time }; recheck = false; rc = rc }
    else if ltb 0 h.delay
    then record { state = record h { delay = 0 }; recheck = true; rc = rc }
    else record { state = h; recheck = false; rc = rc }
