-- ===== src/Hidraw/Poll/Keep.antt =====
-- `freespace_perform` of linux/freespace_hidraw.c keeps the invariant of its context.
use libfreespace.Common.{
  ℕ, zero, suc, ◌+◌, ◌-◌, ◌≡◌, Bool, not, ◌&&◌, List, [], ◌∷◌, ◌++◌, Option, none, some, ◌==◌, ltb,
  if◌then◌else◌, Bool-cases, Option-cases, inl, inr, ℤ, pos, negsuc, eq_ℤ,
}
use libfreespace.Errors.{success}
use libfreespace.Slots.{maximum_device_count}
use libfreespace.Usb.Message.{Decode}
use libfreespace.Hidraw.Types.{Device, Context, Notice, Outcome, outcome}
use libfreespace.Hidraw.Table.{slot}
use libfreespace.Hidraw.Table.Valid.{IsValid}
use libfreespace.Hidraw.Keep.{disconnect-IsValid, scan_device-IsValid}
use libfreespace.Hidraw.Session.{disconnect}
use libfreespace.Hidraw.Scan.{
  Entry, Event, read_failed, event, scan_device, scan_entries, scan_all_devices, inotify_process,
}
use libfreespace.Hidraw.Io.{ReadCall, read_device}
use libfreespace.Hidraw.Poll.{
  Revents, is_ready, is_opened, Loop, Progress, goes_on, returned, faulted, unfinished, read_ready,
  service, next_ready, serve, PollCalls, dispatch, after_poll, perform, serve_fuel,
}

scan_entries-IsValid :
    (entries : List Entry) (c : Context) → IsValid c → IsValid (scan_entries c entries).0
unfolding scan_entries
scan_entries-IsValid [] c v = v
scan_entries-IsValid (e ∷ rest) c v = elim (Bool-cases e.is_hidraw) [
  | inl h ↦ rw h (scan_entries-IsValid rest (scan_device c e).ctx (scan_device-IsValid c e v))
  | inr h ↦ rw h (scan_entries-IsValid rest c v)
]

pub scan_all_devices-IsValid :
    (c : Context) (entries : Option (List Entry))
    → IsValid c
    → IsValid (scan_all_devices c entries).ctx
unfolding scan_all_devices
scan_all_devices-IsValid c none v = v
scan_all_devices-IsValid c (some entries) v = scan_entries-IsValid entries c v

pub inotify_process-IsValid :
    (buffer_size : ℕ) (c : Context) (e : Event)
    → IsValid c
    → IsValid (inotify_process buffer_size c e).ctx
unfolding inotify_process
inotify_process-IsValid n c (read_failed eagain) v = v
inotify_process-IsValid n c (event wd len created e) v =
    elim (Bool-cases (not (eq_ℤ wd c.inotify_wd))) [
      | inl a ↦ rw a v
      | inr a ↦ elim (Bool-cases (ltb n len)) [
        | inl b ↦ rw (a, b) v
        | inr b ↦ elim (Bool-cases (not e.is_hidraw)) [
          | inl h ↦ rw (a, b, h) v
          | inr h ↦ elim (Bool-cases created) [
            | inl m ↦ rw (a, b, h, m) (scan_device-IsValid c e v)
            | inr m ↦ rw (a, b, h, m) v
          ]
        ]
      ]
    ]

module _ {Body : Type 0} (decode : Decode Body) (reads : ℕ → List ReadCall) where
  -- Wherever the code stands, its context is valid.
  abbrev pub Holds : Progress Body → Type 0
  Holds (goes_on l) = IsValid l.ctx
  Holds (returned l) = IsValid l.ctx
  Holds faulted = Unit {0}
  Holds unfinished = Unit {0}

  read_ready-Holds :
      (r : Revents) (i : ℕ) (l : Loop Body) → IsValid l.ctx → Holds (read_ready decode reads r i l)
  unfolding read_ready
  read_ready-Holds r i l v = elim (Bool-cases r.readable) [
    | inr a ↦ elim (Bool-cases (eq_ℤ l.rc success)) [ inl b ↦ rw (a, b) v | inr b ↦ rw (a, b) v ]
    | inl a ↦ elim (Option-cases (slot l.ctx i)) [
      | inl s ↦ rw (a, s) tt
      | inr (d, s) ↦ elim (Bool-cases (is_opened d.state)) [
        | inr o ↦ elim (Bool-cases (eq_ℤ l.rc success)) [
          | inl b ↦ rw (a, s, o, b) v
          | inr b ↦ rw (a, s, o, b) v
        ]
        | inl o ↦ elim (Option-cases d.api) [
          | inl n ↦ rw (a, s, o, n) tt
          | inr (api, n) ↦ elim (Bool-cases (eq_ℤ (read_device decode d api (reads i)).0 success)) [
            | inl b ↦ rw (a, s, o, n, b) v
            | inr b ↦ rw (a, s, o, n, b) v
          ]
        ]
      ]
    ]
  ]

  service-Holds :
      (r : Revents) (i : ℕ) (d : Device) (l : Loop Body)
      → IsValid l.ctx
      → slot l.ctx i ≡ some d
      → Holds (service decode reads r i d l)
  unfolding service
  service-Holds r i d l v s =
      let p = if r.hung_up then disconnect l.ctx i d else outcome l.ctx l.rc [] in
      let valid : IsValid p.ctx = elim (Bool-cases r.hung_up) [
        | inl h ↦ rw h (disconnect-IsValid l.ctx i d v s)
        | inr h ↦ rw h v
      ] in
      read_ready-Holds r i (record l { ctx = p.ctx; rc = p.rc; notices = l.notices ++ p.notices })
        valid

  next_ready-Holds :
      (revents : ℕ → Revents) (rounds : ℕ) (l : Loop Body)
      → IsValid l.ctx
      → Holds (next_ready decode reads revents rounds l)
  unfolding next_ready
  next_ready-Holds revents zero l v = v
  next_ready-Holds revents (suc rounds) l v =
      elim (Bool-cases (ltb l.n l.ctx.num_devices && ltb l.i maximum_device_count)) [
        | inr t ↦ rw t v
        | inl t ↦ elim (Option-cases (slot l.ctx l.i)) [
          | inl s ↦ rw (t, s) (next_ready-Holds revents rounds (record l { i = l.i + 1 }) v)
          | inr (d, s) ↦ elim (Bool-cases (is_ready (revents (l.n + 1)))) [
            | inl r ↦
                rw (t, s, r)
                  (service-Holds (revents (l.n + 1)) l.i d (record l { i = l.i + 1; n = l.n + 1 }) v
                    s)
            | inr r ↦
                rw (t, s, r)
                  (next_ready-Holds revents rounds (record l { i = l.i + 1; n = l.n + 1 }) v)
          ]
        ]
      ]

  Holds-after :
      (p : Progress Body) (k : Loop Body → Progress Body)
      → Holds p
      → ((l : Loop Body) → IsValid l.ctx → Holds (k l))
      → Holds (elim p [
        | goes_on l ↦ k l
        | returned l ↦ returned l
        | faulted ↦ faulted
        | unfinished ↦ unfinished
      ])
  Holds-after (goes_on l) k h next = next l h
  Holds-after (returned l) k h next = h
  Holds-after faulted k h next = tt
  Holds-after unfinished k h next = tt

  serve-Holds :
      (revents : ℕ → Revents) (fuel : ℕ) (l : Loop Body)
      → IsValid l.ctx
      → Holds (serve decode reads revents fuel l)
  unfolding serve
  serve-Holds revents zero l v = tt
  serve-Holds revents (suc fuel) l v = elim (Bool-cases (l.nfds == 0)) [
    | inl e ↦ rw e v
    | inr e ↦ rw e (
        Holds-after (next_ready decode reads revents (maximum_device_count - l.i) l)
          (serve decode reads revents fuel)
          (next_ready-Holds revents (maximum_device_count - l.i) l v) (serve-Holds revents fuel))
  ]

  serve_start-Holds :
      (buffer_size : ℕ) (c : Context) (calls : PollCalls) (notices : List Notice) (nfds : ℕ)
      → IsValid c
      → Holds (dispatch decode reads buffer_size c calls notices nfds)
  unfolding dispatch
  serve_start-Holds size c calls notices nfds v =
      let p = inotify_process size c calls.event in
      let valid = inotify_process-IsValid size c calls.event v in
      elim (Bool-cases (calls.revents 0).readable) [
        | inr r ↦ rw r (serve-Holds calls.revents serve_fuel _ v)
        | inl r ↦ elim (Bool-cases (eq_ℤ p.rc success)) [
          | inl e ↦ rw (r, e) (serve-Holds calls.revents serve_fuel _ valid)
          | inr e ↦ rw (r, e) valid
        ]
      ]

  after_poll-Holds :
      (size : ℕ) (p : Outcome) (calls : PollCalls) (nfds : ℤ)
      → IsValid p.ctx
      → Holds (after_poll decode reads size p calls nfds)
  unfolding after_poll
  after_poll-Holds size p calls (negsuc k) v = v
  after_poll-Holds size p calls (pos zero) v = v
  after_poll-Holds size p calls (pos (suc k)) v =
      Holds-after (dispatch decode reads size p.ctx calls p.notices (suc k))
        (λ l. returned (record l { rc = success }))
        (serve_start-Holds size p.ctx calls p.notices (suc k) v) (λ l w. w)

  -- `freespace_perform` keeps the invariant, wherever it returns.
  pub perform-Holds :
      (size : ℕ) (need_to_rescan : Bool) (c : Context) (calls : PollCalls)
      → IsValid c
      → Holds (perform decode reads size need_to_rescan c calls)
  unfolding perform
  perform-Holds size need c calls v =
      after_poll-Holds size
        (if need then scan_all_devices c calls.entries else outcome c success []) calls calls.nfds
        (elim (Bool-cases need) [
          | inl h ↦ rw h (scan_all_devices-IsValid c calls.entries v)
          | inr h ↦ rw h v
        ])
