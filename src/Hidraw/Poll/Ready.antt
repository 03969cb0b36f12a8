-- ===== src/Hidraw/Poll/Ready.antt =====
-- What the loops of `freespace_perform` of linux/freespace_hidraw.c have counted when they stand at
-- a slot, and that one round gets behind it.
use libfreespace.Common.{
  ℕ, zero, suc, ◌+◌, ◌-◌, ◌<◌, ◌≤◌, ◌≡◌, refl, subst, ap, inl, inr, true, false, ◌&&◌, List, [],
  ◌∷◌, ◌++◌, Option, none, some, ltb, if◌then◌else◌, Bool-cases, Option-cases, get_or, length, eq_ℤ,
  arith,
}
use libfreespace.Errors.{success}
use libfreespace.Slots.{maximum_device_count, occupied, taken}
use libfreespace.Usb.Message.{Decode}
use libfreespace.Hidraw.Types.{Device, outcome}
use libfreespace.Hidraw.Table.{slot}
use libfreespace.Hidraw.Table.Counts.{one}
use libfreespace.Hidraw.Session.{disconnect}
use libfreespace.Hidraw.Io.{ReadCall, read_device}
use libfreespace.Hidraw.Poll.{
  Revents, is_ready, is_opened, Loop, Progress, goes_on, returned, faulted, unfinished, read_ready,
  service, next_ready,
}

abbrev pub Slots : Type 0
Slots = List (Option Device)

-- the number of devices in the slots from `i` on
abbrev pub devices_from : ℕ → ℕ → Slots → ℕ
devices_from zero i ds = 0
devices_from (suc rounds) i ds = taken (get_or ds i none) + devices_from rounds (i + 1) ds

-- How many devices in the slots from `i` on are ready, if `n` devices stand before them.
abbrev pub ready_from : (ℕ → Revents) → ℕ → ℕ → ℕ → Slots → ℕ
ready_from revents zero i n ds = 0
ready_from revents (suc rounds) i n ds = elim (get_or ds i none) [
  | none ↦ ready_from revents rounds (i + 1) n ds
  | some d ↦ one (is_ready (revents (n + 1))) + ready_from revents rounds (i + 1) (n + 1) ds
]

devices_from-shift :
    (rounds i j : ℕ) (x : Option Device) (ds : Slots)
    → j ≡ suc i
    → devices_from rounds j (x ∷ ds) ≡ devices_from rounds i ds
devices_from-shift zero i j x ds e = refl
devices_from-shift (suc rounds) i j x ds e = omega (
  arith,
  ap (λ k. taken (get_or (x ∷ ds) k none)) e,
  devices_from-shift rounds (i + 1) (j + 1) x ds (omega arith),
)

pub devices_from-occupied : (ds : Slots) → devices_from (length ds) 0 ds ≡ occupied ds
devices_from-occupied [] = refl
devices_from-occupied (none ∷ ds) =
    omega (arith, devices_from-shift (length ds) 0 1 none ds refl, devices_from-occupied ds)
devices_from-occupied (some d ∷ ds) =
    omega (arith, devices_from-shift (length ds) 0 1 (some d) ds refl, devices_from-occupied ds)

ready_from-le :
    (revents : ℕ → Revents) (rounds i n : ℕ) (ds : Slots)
    → ready_from revents rounds i n ds ≤ devices_from rounds i ds
ready_from-le revents zero i n ds = omega arith
ready_from-le revents (suc rounds) i n ds = ground (
  arith,
  ready_from-le revents rounds (i + 1) n ds,
  ready_from-le revents rounds (i + 1) (n + 1) ds,
)

module _ {Body : Type 0} (decode : Decode Body) (reads : ℕ → List ReadCall)
    (revents : ℕ → Revents) where
  -- `n` counts the devices before slot `i`, and `nfds` those from `i` on that are ready.
  pub record InStep (rounds : ℕ) (l : Loop Body) : Type 0 where
    pub left : rounds + l.i ≡ maximum_device_count
    pub counted : l.n + devices_from rounds l.i l.ctx.devices ≡ l.ctx.num_devices
    pub ready : l.nfds ≡ ready_from revents rounds l.i l.n l.ctx.devices

  InStep-again :
      (rounds : ℕ) (l l' : Loop Body)
      → l'.ctx ≡ l.ctx
      → l'.i ≡ l.i
      → l'.n ≡ l.n
      → l'.nfds ≡ l.nfds
      → InStep rounds l
      → InStep rounds l'
  InStep-again rounds l l' c i n nfds s = record {
    left = rw i s.left;
    counted = rw (c, i, n) s.counted;
    ready = rw (c, i, n, nfds) s.ready;
  }

  -- Behind slot `i`, the loop is in step, or the call has returned or faulted.
  abbrev pub Advances : ℕ → Progress Body → Type 0
  Advances i (goes_on l) = (i < l.i) × InStep (maximum_device_count - l.i) l
  Advances i (returned l) = Unit {0}
  Advances i faulted = Unit {0}
  Advances i unfinished = true ≡ false

  read_ready-Advances :
      (r : Revents) (i k : ℕ) (l : Loop Body)
      → i < l.i
      → InStep (maximum_device_count - l.i) (record l { nfds = l.nfds - 1 })
      → Advances i (read_ready decode reads r k l)
  unfolding read_ready
  read_ready-Advances r i k l h s = elim (Bool-cases r.readable) [
    | inr a ↦ elim (Bool-cases (eq_ℤ l.rc success)) [
      | inl b ↦
          rw (a, b) (h, InStep-again _ (record l { nfds = l.nfds - 1 }) _ refl refl refl refl s)
      | inr b ↦ rw (a, b) tt
    ]
    | inl a ↦ elim (Option-cases (slot l.ctx k)) [
      | inl e ↦ rw (a, e) tt
      | inr (d, e) ↦ elim (Bool-cases (is_opened d.state)) [
        | inr o ↦ elim (Bool-cases (eq_ℤ l.rc success)) [
          | inl b ↦
              rw (a, e, o, b)
                (h, InStep-again _ (record l { nfds = l.nfds - 1 }) _ refl refl refl refl s)
          | inr b ↦ rw (a, e, o, b) tt
        ]
        | inl o ↦ elim (Option-cases d.api) [
          | inl n ↦ rw (a, e, o, n) tt
          | inr (api, n) ↦ elim (Bool-cases (eq_ℤ (read_device decode d api (reads k)).0 success)) [
            | inl b ↦
                rw (a, e, o, n, b)
                  (h, InStep-again _ (record l { nfds = l.nfds - 1 }) _ refl refl refl refl s)
            | inr b ↦ rw (a, e, o, n, b) tt
          ]
        ]
      ]
    ]
  ]

  service-Advances :
      (r : Revents) (d : Device) (l : Loop Body)
      → r.hung_up ≡ false
      → (i : ℕ) → i < l.i
      → InStep (maximum_device_count - l.i) (record l { nfds = l.nfds - 1 })
      → Advances i (service decode reads r i d l)
  unfolding service
  service-Advances r d l up i h s =
      let p = if r.hung_up then disconnect l.ctx i d else outcome l.ctx l.rc [] in
      let same : p.ctx ≡ l.ctx = rw up refl in
      read_ready-Advances r i i
        (record l { ctx = p.ctx; rc = p.rc; notices = l.notices ++ p.notices }) h
        (InStep-again (maximum_device_count - l.i) (record l { nfds = l.nfds - 1 })
          (record l { ctx = p.ctx; rc = p.rc; notices = l.notices ++ p.notices; nfds = l.nfds - 1 })
          same refl refl refl s)

  Advances-earlier : (i j : ℕ) (p : Progress Body) → i ≤ j → Advances j p → Advances i p
  Advances-earlier i j (goes_on l) h a = (omega (arith, a.0), a.1)
  Advances-earlier i j (returned l) h a = tt
  Advances-earlier i j faulted h a = tt
  Advances-earlier i j unfinished h a = a

  InStep-none :
      (rounds : ℕ) (l : Loop Body)
      → slot l.ctx l.i ≡ none
      → InStep (suc rounds) l
      → InStep rounds (record l { i = l.i + 1 })
  InStep-none rounds l e s = record {
    left = omega (arith, s.left);
    counted =
        (let c : l.n + (0 + devices_from rounds (l.i + 1) l.ctx.devices) ≡ l.ctx.num_devices =
            rw e at s.counted in
          omega (arith, c));
    ready = rw (e, ready_from) at s.ready;
  }

  -- behind a device that is there, with `k` less to serve if it is ready
  InStep-some :
      (rounds k : ℕ) (d : Device) (l : Loop Body)
      → slot l.ctx l.i ≡ some d
      → one (is_ready (revents (l.n + 1))) ≡ k
      → InStep (suc rounds) l
      → InStep rounds (record l { i = l.i + 1; n = l.n + 1; nfds = l.nfds - k })
  InStep-some rounds k d l e r s = record {
    left = omega (arith, s.left);
    counted =
        (let c : l.n + (1 + devices_from rounds (l.i + 1) l.ctx.devices) ≡ l.ctx.num_devices =
            rw e at s.counted in
          omega (arith, c));
    ready =
        (let q : l.nfds
              ≡ one (is_ready (revents (l.n + 1)))
                + ready_from revents rounds (l.i + 1) (l.n + 1) l.ctx.devices =
            rw (e, ready_from) at s.ready in
          omega (arith, q, r));
  }

  pub next_ready-Advances :
      (rounds : ℕ) (l : Loop Body)
      → ((j : ℕ) → (revents j).hung_up ≡ false)
      → InStep rounds l
      → 0 < l.nfds
      → Advances l.i (next_ready decode reads revents rounds l)
  unfolding next_ready
  next_ready-Advances zero l up s h = (let no : 0 < 0 = rw s.ready at h in elim no [ ])
  next_ready-Advances (suc rounds) l up s h =
      elim (Bool-cases (ltb l.n l.ctx.num_devices && ltb l.i maximum_device_count)) [
        | inr t ↦
            (let no : 0 < 0 = ground (
              arith,
              t,
              h,
              s.left,
              s.counted,
              s.ready,
              ready_from-le revents (suc rounds) l.i l.n l.ctx.devices,
            ) in
              elim no [ ])
        | inl t ↦ elim (Option-cases (slot l.ctx l.i)) [
          | inl e ↦
              rw (t, e)
                (Advances-earlier _ _ _ (omega arith) (
                  next_ready-Advances rounds (record l { i = l.i + 1 }) up
                    (InStep-none rounds l e s) h))
          | inr (d, e) ↦ elim (Bool-cases (is_ready (revents (l.n + 1)))) [
            | inl r ↦
                rw (t, e, r)
                  (service-Advances (revents (l.n + 1)) d (record l { i = l.i + 1; n = l.n + 1 })
                    (up (l.n + 1)) l.i (omega arith)
                    (subst
                      (λ k. InStep k (record l { i = l.i + 1; n = l.n + 1; nfds = l.nfds - 1 }))
                      (omega (arith, s.left)) (InStep-some rounds 1 d l e (ap one r) s)))
            | inr r ↦
                rw (t, e, r)
                  (Advances-earlier _ _ _ (omega arith) (
                    next_ready-Advances rounds (record l { i = l.i + 1; n = l.n + 1 }) up
                      (InStep-again _ (record l { i = l.i + 1; n = l.n + 1; nfds = l.nfds - 0 }) _
                        refl refl refl (omega arith) (InStep-some rounds 0 d l e (ap one r) s))
                      h))
          ]
        ]
      ]
