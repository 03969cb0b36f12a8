-- ===== src/Hidraw/Session/Exit.antt =====
-- What `freespace_exit` of linux/freespace_hidraw.c frees, and the context that it leaves.
use libfreespace.Common.{
  ℕ, zero, suc, ◌+◌, ◌<◌, ◌≡◌, ◌≢◌, refl, sym, ap, subst, ◌∙◌, ◌⊎◌, true, false, Bool, List, [],
  ◌∷◌, ◌++◌, append-nil, if◌then◌else◌, Option, none, some, Option-cases, inl, inr, length, get_or,
  get_or-set_self, arith,
}
use native.Mathlib.Decide.{ℕ_discrete}
use libfreespace.Slots.{maximum_device_count, occupied}
use libfreespace.Hidraw.Types.{
  DeviceState, unset, connected, opened, disconnected, Device, Context, Notice,
}
use libfreespace.Hidraw.Table.{
  slot, store, closed, is_fd, removed_fd, release_id, deallocate_device,
}
use libfreespace.Hidraw.Table.Counts.{is_live, trues, live-le-occupied}
use libfreespace.Hidraw.Table.Valid.{IsValid, slot-lt}
use libfreespace.Hidraw.Table.Change.{deallocate_device-none, deallocate_device-IsValid}
use libfreespace.Hidraw.Keep.{state-cases, disconnect-IsValid}
use libfreespace.Hidraw.Session.Frees.{
  freed, held_slots, freed-append, freed-removed_fd, deallocate_device-slot, release_id-slot,
  exit_slot-other, exit_from-freed,
}
use libfreespace.Hidraw.Session.{disconnect, is_disconnected, exit_slot, exit_from, exit}

-- the slot of a device that is disconnected: it is empty or holds a device that is not there
abbrev IsGone : Option Device → Type 0
IsGone none = Unit {0}
IsGone (some d) = is_live d.state ≡ false

-- `_disconnect` of a device that is there makes its slot one of a device that is gone.
disconnect-slot :
    (c : Context) (i : ℕ) (d : Device)
    → slot c i ≡ some d
    → is_live d.state ≡ true
    → IsGone (slot (disconnect c i d).ctx i)
unfolding disconnect
disconnect-slot c i d h l = elim (state-cases d.state) [
  | inl e ↦ absurd (ground (arith, e, l))
  | inr (inl e) ↦
      let c' = release_id (store c i (closed d)) d.id in
      rw (e, disconnect) (subst IsGone (sym (deallocate_device-slot c' i)) tt)
  | inr (inr (inl e)) ↦
      let d' = record (closed d) { state = disconnected } in
      rw (e, disconnect)
        (subst IsGone
          (sym (
            release_id-slot (store c i d') d.id i
            ∙ get_or-set_self c.devices i (some d') none (slot-lt c.devices i h)))
          refl)
  | inr (inr (inr e)) ↦ absurd (ground (arith, e, l))
]

-- `_deallocateDevice` keeps the invariant at the slot of a device that is gone.
gone-IsValid :
    (c : Context) (i : ℕ) → IsValid c → IsGone (slot c i) → IsValid (deallocate_device c i).0
gone-IsValid c i v g = elim (Option-cases (slot c i)) [
  | inl h ↦ subst IsValid (sym (ap (λ p. p.0) (deallocate_device-none c i h))) v
  | inr (d, h) ↦ deallocate_device-IsValid c i d v h (subst IsGone h g)
]

live-or_gone : (s : DeviceState) → s ≢ unset → (is_live s ≡ true) ⊎ (s ≡ disconnected)
live-or_gone unset h = absurd (h refl)
live-or_gone connected h = inl refl
live-or_gone opened h = inl refl
live-or_gone disconnected h = inr refl

live-ne-disconnected : (s : DeviceState) → is_live s ≡ true → is_disconnected s ≡ false
live-ne-disconnected s h = ground arith

-- The body of the loop keeps the invariant and empties its slot.
exit_slot-empties :
    (c : Context) (i : ℕ)
    → IsValid c
    → IsValid (exit_slot c i).0 × (slot (exit_slot c i).0 i ≡ none)
unfolding exit_slot
exit_slot-empties c i v = elim (Option-cases (slot c i)) [
  | inl h ↦ rw (h, exit_slot) (v, h)
  | inr (d, h) ↦ elim (live-or_gone d.state (v.settled i d h)) [
    | inr e ↦
        let t = ap is_disconnected e in
        rw (h, exit_slot, t)
          (gone-IsValid c i v (subst IsGone (sym h) (ap is_live e)), deallocate_device-slot c i)
    | inl l ↦
        let p = (disconnect c i d).ctx in
        let t = live-ne-disconnected d.state l in
        rw (h, exit_slot, t)
          (
            gone-IsValid p i (disconnect-IsValid c i d v h) (disconnect-slot c i d h l),
            deallocate_device-slot p i,
          )
  ]
]

exit_from-empties :
    (rounds i : ℕ) (c : Context)
    → IsValid c
    → ((j : ℕ) → j < i → slot c j ≡ none)
    → IsValid (exit_from rounds i c).0
      × ((j : ℕ) → j < i + rounds → slot (exit_from rounds i c).0 j ≡ none)
unfolding exit_from
exit_from-empties zero i c v before = (v, λ j h. before j (omega arith))
exit_from-empties (suc rounds) i c v before =
    let (v', here) = exit_slot-empties c i v in
    let (v'', all) = exit_from-empties rounds (i + 1) (exit_slot c i).0 v' (λ j h.
      elim (ℕ_discrete i j) [
        | yes e ↦ subst (λ n. slot (exit_slot c i).0 n ≡ none) e here
        | no n ↦ exit_slot-other c i j n ∙ before j (omega arith)
      ]) in
    (v'', λ j h. all j (omega arith))

occupied-none :
    (ds : List (Option Device))
    → ((j : ℕ) → j < length ds → get_or ds j none ≡ none)
    → occupied ds ≡ 0
occupied-none [] h = refl
occupied-none (none ∷ rest) h = occupied-none rest (λ j l. h (suc j) (omega arith))
occupied-none (some d ∷ rest) h = absurd (ground (arith, h 0))

-- The report of the inotify descriptor frees nothing.
freed-removed_behind :
    (c : Context) (xs : List Notice) (b : Bool)
    → freed (xs ++ (if b then removed_fd c c.inotify_fd else [])) ≡ freed xs
freed-removed_behind c xs false = ap freed (append-nil xs)
freed-removed_behind c xs true =
    freed-append xs (removed_fd c c.inotify_fd)
    ∙ ap (λ l. freed xs ++ l) (freed-removed_fd c c.inotify_fd)
    ∙ append-nil (freed xs)

-- `freespace_exit` keeps the invariant.
pub exit-IsValid : (c : Context) → IsValid c → IsValid (exit c).0
unfolding exit
exit-IsValid c v =
    let (v', all) = exit_from-empties maximum_device_count 0 c v (λ j h. absurd (omega arith)) in v'

-- In a context where the invariant holds, `freespace_exit` frees the devices of the slots that hold
-- one, in the order of the slots, each of them once and nothing else, whatever their states are;
-- then all slots are empty, no device is counted and no id is in use.
pub exit-empties :
    (c : Context)
    → IsValid c
    → (freed (exit c).1 ≡ held_slots maximum_device_count 0 c)
      × ((j : ℕ) → j < maximum_device_count → slot (exit c).0 j ≡ none)
      × ((exit c).0.num_devices ≡ 0)
      × (trues (exit c).0.connected_devices ≡ 0)
unfolding exit
exit-empties c v =
    let (v', all) = exit_from-empties maximum_device_count 0 c v (λ j h. absurd (omega arith)) in
    let p = exit_from maximum_device_count 0 c in
    let o = occupied-none p.0.devices (λ j h. all j (omega (arith, h, v'.size))) in
    (
      freed-removed_behind p.0 p.1 (is_fd p.0.inotify_fd)
          ∙ exit_from-freed maximum_device_count 0 c,
      λ j h. all j (omega arith),
      omega (arith, v'.counted, o),
      omega (arith, v'.balanced, live-le-occupied p.0.devices, o),
    )
