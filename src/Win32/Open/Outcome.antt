-- ===== src/Win32/Open/Outcome.antt =====
-- What `freespace_openDevice` of win32/freespace_device.c leaves on every path.
use libfreespace.Common.{
  ℕ, ◌+◌, ◌≡◌, ◌≢◌, refl, ◌⊎◌, inl, inr, Bool, true, false, ◌&&◌, List, [], ◌∷◌, Option, none, some,
  is_some, Bool-cases, Option-cases, ℤ, eq_ℤ, arith,
}
use libfreespace.Errors.{success, error_unexpected}
use libfreespace.Usb.Message.{Decode}
use libfreespace.Win32.Types.{Handle, Interface, Send, Device}
use libfreespace.Win32.Close.{force_close}
use libfreespace.Win32.Close.Release.{held_by, force_close-releases}
use libfreespace.Win32.Receive.{
  LastError, Effect, Run, ReadCalls, Hotplug, has_callback, is_pending, handle_device_failure,
  initiate_from, initiate_async_receives,
}
use libfreespace.Win32.Receive.Listening.{failure_code-ne-success}
use libfreespace.Win32.Open.{
  OpenCalls, open_from, initialize_send, initialize_sends, given_up, start_receiving, open_device,
}

-- Each interface has a handle and an event to read with.
abbrev pub CanRead : List Interface → Type 0
CanRead [] = Unit {0}
CanRead (s ∷ rest) = (is_some s.handle ≡ true) × (is_some s.read_event ≡ true) × CanRead rest

-- Each send is free and has an event.
abbrev pub CanSend : List Send → Type 0
CanSend [] = Unit {0}
CanSend (s ∷ rest) = (s.interface ≡ none) × (is_some s.event ≡ true) × CanSend rest

pub record IsReady (d : Device) : Type 0 where
  pub opened : d.is_opened ≡ true
  pub reads : CanRead d.interfaces
  pub sends : CanSend d.sends

-- The device is closed and holds nothing.
abbrev pub IsReleased : Device → Type 0
IsReleased d = (d.is_opened ≡ false) × (held_by d ≡ [])

open_from-CanRead :
    (invalid : Handle) (calls : ℕ → OpenCalls) (i : ℕ) (ss : List Interface)
    → (open_from invalid calls i ss).1 ≡ none
    → CanRead (open_from invalid calls i ss).0
unfolding open_from
open_from-CanRead invalid calls i [] h = tt
open_from-CanRead invalid calls i (s ∷ rest) h =
    ground (arith, open_from-CanRead invalid calls (i + 1) rest)

open_from-failed :
    (invalid : Handle) (calls : ℕ → OpenCalls) (i : ℕ) (ss : List Interface) (rc : ℤ)
    → (open_from invalid calls i ss).1 ≡ some rc
    → rc ≢ success
unfolding open_from
open_from-failed invalid calls i [] rc h = cc
open_from-failed invalid calls i (s ∷ rest) rc h =
    ground (arith, open_from-failed invalid calls (i + 1) rest rc)

initialize_sends-CanSend :
    (events : ℕ → Option Handle) (i : ℕ) (ss : List Send)
    → (initialize_sends events i ss).1 ≡ true
    → CanSend (initialize_sends events i ss).0
unfolding initialize_sends initialize_send
initialize_sends-CanSend events i [] h = tt
initialize_sends-CanSend events i (s ∷ rest) h =
    ground (arith, initialize_sends-CanSend events (i + 1) rest)

-- Success, and the device is ready; or failure, and it is released.
abbrev pub OpensOrReleases : {Body : Type 0} → Run Body → Type 0
OpensOrReleases r = ((r.rc ≡ success) × IsReady r.device) ⊎ ((r.rc ≢ success) × IsReleased r.device)

eq_ℤ-ne : (a b : ℤ) → eq_ℤ a b ≡ false → a ≢ b
eq_ℤ-ne a b h = ground arith

eq_ℤ-eq : (a b : ℤ) → eq_ℤ a b ≡ true → a ≡ b
eq_ℤ-eq a b h = ground arith

module _ {Body : Type 0} (decode : Decode Body) (code : LastError → ℤ) (hotplug : Hotplug) where
  initiate_from-CanRead :
      (calls : ℕ → ReadCalls) (d : Device) (i : ℕ) (ss : List Interface)
      → CanRead ss
      → CanRead (initiate_from decode code hotplug calls d i ss).interfaces
  unfolding initiate_from
  initiate_from-CanRead calls d i [] h = tt
  initiate_from-CanRead calls d i (s ∷ rest) h =
      let later = initiate_from-CanRead calls d (i + 1) rest h.2 in
      elim (Bool-cases s.read_status) [
        | inl a ↦ rw a (h.0, h.1, later)
        | inr a ↦ elim (Bool-cases (is_pending (calls i).last_error)) [
          | inl b ↦ rw (a, b) (h.0, h.1, later)
          | inr b ↦ rw (a, b) h
        ]
      ]

  -- If `initiateAsyncReceives` succeeds, the device is as ready as before.
  initiate-IsReady :
      (calls : ℕ → ReadCalls) (d : Device)
      → IsReady d
      → (initiate_async_receives decode code hotplug calls d).rc ≡ success
      → IsReady (initiate_async_receives decode code hotplug calls d).device
  unfolding initiate_async_receives handle_device_failure
  initiate-IsReady calls d v h = elim (Bool-cases (d.is_opened && has_callback d)) [
    | inr a ↦ rw a v
    | inl a ↦
        elim (Option-cases (initiate_from decode code hotplug calls d 0 d.interfaces).failure) [
          | inl e ↦
              rw (a, e)
                record {
                  opened = v.opened;
                  reads = initiate_from-CanRead calls d 0 d.interfaces v.reads;
                  sends = v.sends;
                }
          | inr (x, e) ↦ absurd (failure_code-ne-success x (rw (a, e) at h))
        ]
  ]

  module _ (invalid : Handle) where
    given_up-IsReleased :
        (d : Device) (rc : ℤ) (effects : List (Effect Body))
        → IsReleased (given_up decode code hotplug invalid d rc effects).device
    unfolding force_close
    given_up-IsReleased d rc effects = (refl, (force_close-releases d).1)

    start_receiving-OpensOrReleases :
        (is_async : Bool) (calls : ℕ → ReadCalls) (d : Device)
        → IsReady d
        → OpensOrReleases (start_receiving decode code hotplug invalid is_async calls d)
    unfolding start_receiving
    start_receiving-OpensOrReleases is_async calls d v =
        let r = initiate_async_receives decode code hotplug calls d in
        elim (Bool-cases is_async) [
          | inr a ↦ rw a (inl (refl, v))
          | inl a ↦ elim (Bool-cases (eq_ℤ r.rc success)) [
            | inl b ↦ rw (a, b) (inl (eq_ℤ-eq _ _ b, initiate-IsReady calls d v (eq_ℤ-eq _ _ b)))
            | inr b ↦ rw (a, b) (inr (eq_ℤ-ne _ _ b, given_up-IsReleased r.device r.rc r.effects))
          ]
        ]

    -- Every outcome of `freespace_openDevice` on a device that is not opened, whatever the system
    -- answers: success, and the device is open, each interface has a handle and an event and each
    -- send is free and has an event; or an error, and the device is closed and holds no handle or
    -- event.
    pub open_device-OpensOrReleases :
        (is_async : Bool) (open_calls : ℕ → OpenCalls) (events : ℕ → Option Handle)
        (calls : ℕ → ReadCalls) (d : Device)
        → d.is_opened ≡ false
        → OpensOrReleases
            (open_device decode code hotplug invalid is_async open_calls events calls d)
    unfolding open_device
    open_device-OpensOrReleases is_async open_calls events calls d closed =
        let o = open_from invalid open_calls 0 d.interfaces in
        let d1 = record d { interfaces = o.0 } in
        let i = initialize_sends events 0 d.sends in
        let d2 = record d1 { is_opened = true; sends = i.0 } in
        elim (Option-cases o.1) [
          | inr (rc, e) ↦
              rw (closed, e)
                (inr (
                  open_from-failed invalid open_calls 0 d.interfaces rc e,
                  given_up-IsReleased d1 rc [],
                ))
          | inl e ↦ elim (Bool-cases i.1) [
            | inr f ↦
                rw (closed, e, f) (inr (ground arith, given_up-IsReleased d2 error_unexpected []))
            | inl f ↦
                rw (closed, e, f)
                  (start_receiving-OpensOrReleases is_async calls d2 record {
                    opened = refl;
                    reads = open_from-CanRead invalid open_calls 0 d.interfaces e;
                    sends = initialize_sends-CanSend events 0 d.sends f;
                  })
          ]
        ]
