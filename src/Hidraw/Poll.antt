-- ===== src/Hidraw/Poll.antt =====
-- `freespace_perform` of linux/freespace_hidraw.c.
pub mod Keep
pub mod Ready
pub mod Ends
use libfreespace.Common.{
  ℕ, zero, suc, ◌+◌, ◌-◌, Bool, true, false, not, ◌&&◌, ◌||◌, List, [], ◌∷◌, ◌++◌, Option, none,
  some, ◌==◌, ltb, if◌then◌else◌, is_some, ℤ, pos, negsuc, eq_ℤ,
}
use libfreespace.Errors.{success, error_unexpected}
use libfreespace.Slots.{maximum_device_count}
use libfreespace.Usb.Message.{Decode}
use libfreespace.Hidraw.Types.{
  DeviceState, unset, connected, opened, disconnected, Device, Context, Notice, Outcome, outcome,
}
use libfreespace.Hidraw.Table.{slot}
use libfreespace.Hidraw.Session.{disconnect}
use libfreespace.Hidraw.Scan.{Event, Entry, inotify_process, scan_all_devices}
use libfreespace.Hidraw.Io.{ReadCall, Report, read_device}

-- the bits of `revents`: POLLIN, POLLHUP or POLLERR, any other
pub record Revents : Type 0 where
  pub readable : Bool
  pub hung_up : Bool
  pub other : Bool

-- `fds[n].revents != 0`
abbrev pub is_ready : Revents → Bool
is_ready r = r.readable || r.hung_up || r.other

abbrev pub is_opened : DeviceState → Bool
is_opened opened = true
is_opened _ = false

-- The variables of the loops: `i`, `n`, `nfds`, `rc`, the context, and what was done so far.
pub record Loop (Body : Type 0) : Type 0 where
  pub ctx : Context
  pub i : ℕ
  pub n : ℕ
  pub nfds : ℕ
  pub rc : ℤ
  pub notices : List Notice
  pub reports : List (Report Body)

-- How a part of `freespace_perform` ends: it goes on, it returns, it uses a pointer that is NULL or
-- freed, or the fuel does not suffice.
pub data Progress (Body : Type 0) : Type 0 where
  goes_on : Loop Body → Progress Body
  returned : Loop Body → Progress Body
  faulted : Progress Body
  unfinished : Progress Body

-- What the system gives to a call: the names of /dev, what `poll` returns and stores, and the
-- inotify event. `revents 0` is that of the inotify descriptor; `rc` is not initialised.
pub record PollCalls : Type 0 where
  pub entries : Option (List Entry)
  pub nfds : ℤ
  pub revents : ℕ → Revents
  pub event : Event
  pub rc : ℤ

-- The fuel of `serve`: a round for each device, and one for the test that ends it.
abbrev pub serve_fuel : ℕ
serve_fuel = maximum_device_count + 1

module _ {Body : Type 0} (decode : Decode Body) (reads : ℕ → List ReadCall) where
  -- the test of POLLIN, the test of `rc` and `--nfds` for the device in slot `i`
  unfoldable pub read_ready : Revents → ℕ → Loop Body → Progress Body
  read_ready r i l =
      let finish : ℤ → List (Report Body) → Progress Body = λ rc reports.
        if eq_ℤ rc success
        then goes_on (record l { rc = rc; reports = l.reports ++ reports; nfds = l.nfds - 1 })
        else returned (record l { rc = rc; reports = l.reports ++ reports }) in
      if r.readable
      then (elim (slot l.ctx i) [
        | none ↦ faulted
        | some d ↦
            if is_opened d.state
            then (elim d.api [
              | none ↦ faulted
              | some api ↦
                  let (rc, reports) = read_device decode d api (reads i) in finish rc reports
            ])
            else finish l.rc []
      ])
      else finish l.rc []

  -- the body of `if (fds[n].revents)` for the device in slot `i`
  unfoldable pub service : Revents → ℕ → Device → Loop Body → Progress Body
  service r i d l =
      let p = if r.hung_up then disconnect l.ctx i d else outcome l.ctx l.rc [] in
      read_ready r i (record l { ctx = p.ctx; rc = p.rc; notices = l.notices ++ p.notices })

  -- The inner loop: it goes on to the next device that is ready. `rounds` are the slots that are
  -- left.
  unfoldable pub next_ready : (ℕ → Revents) → ℕ → Loop Body → Progress Body
  next_ready revents zero l = goes_on l
  next_ready revents (suc rounds) l =
      let skipped = next_ready revents rounds (record l { i = l.i + 1 }) in
      let moved = record l { i = l.i + 1; n = l.n + 1 } in
      let passed = next_ready revents rounds moved in
      if ltb l.n l.ctx.num_devices && ltb l.i maximum_device_count
      then (elim (slot l.ctx l.i) [
        | none ↦ skipped
        | some d ↦
            if is_ready (revents (l.n + 1)) then service (revents (l.n + 1)) l.i d moved else passed
      ])
      else goes_on l

  -- the loop `while (nfds > 0)`
  unfoldable pub serve : (ℕ → Revents) → ℕ → Loop Body → Progress Body
  serve revents zero l = unfinished
  serve revents (suc fuel) l =
      if l.nfds == 0 then goes_on l else elim (next_ready revents (maximum_device_count - l.i) l) [
        | goes_on l' ↦ serve revents fuel l'
        | returned l' ↦ returned l'
        | faulted ↦ faulted
        | unfinished ↦ unfinished
      ]

  -- the part of `freespace_perform` behind `poll` for `nfds` ready descriptors
  unfoldable pub dispatch : ℕ → Context → PollCalls → List Notice → ℕ → Progress Body
  dispatch buffer_size c calls notices nfds =
      let start : Loop Body = record {
        ctx = c;
        i = 0;
        n = 0;
        nfds = nfds;
        rc = calls.rc;
        notices = notices;
        reports = [];
      } in
      let p = inotify_process buffer_size c calls.event in
      let after = record start {
        ctx = p.ctx;
        nfds = nfds - 1;
        rc = p.rc;
        notices = notices ++ p.notices;
      } in
      if (calls.revents 0).readable
      then (if eq_ℤ p.rc success then serve calls.revents serve_fuel after else returned after)
      else serve calls.revents serve_fuel start

  -- a return with nothing to serve
  abbrev pub finished : Outcome → ℤ → Loop Body
  finished p rc = record {
    ctx = p.ctx;
    i = 0;
    n = 0;
    nfds = 0;
    rc = rc;
    notices = p.notices;
    reports = [];
  }

  -- the part of `freespace_perform` behind the scan, by what `poll` returns
  unfoldable pub after_poll : ℕ → Outcome → PollCalls → ℤ → Progress Body
  after_poll buffer_size p calls (negsuc k) = returned (finished p error_unexpected)
  after_poll buffer_size p calls (pos zero) = returned (finished p success)
  after_poll buffer_size p calls (pos (suc k)) =
      elim (dispatch buffer_size p.ctx calls p.notices (suc k)) [
        | goes_on l ↦ returned (record l { rc = success })
        | returned l ↦ returned l
        | faulted ↦ faulted
        | unfinished ↦ unfinished
      ]

  -- `freespace_perform`; the Boolean is the static `needToRescan`.
  unfoldable pub perform : ℕ → Bool → Context → PollCalls → Progress Body
  perform buffer_size need_to_rescan c calls =
      after_poll buffer_size
        (if need_to_rescan then scan_all_devices c calls.entries else outcome c success []) calls
        calls.nfds
