-- ===== src/Hidraw/Session/Frees.antt =====
-- Which devices the calls of linux/freespace_hidraw.c free.
use libfreespace.Common.{
  ℕ, zero, suc, ◌+◌, ◌≤◌, ◌≡◌, ◌≢◌, refl, ap, ◌∙◌, List, [], ◌∷◌, ◌++◌, Option, none, some,
  Option-cases, Bool-cases, inl, inr, get_or, get_or-set_self, get_or-set_ne, set, ℤ, pos, negsuc,
  arith,
}
use libfreespace.Hidraw.Types.{
  disconnected, Device, Context, Notice, fd_added, fd_removed, inserted, removed, close_fd,
  free_device,
}
use libfreespace.Hidraw.Table.{
  slot, store, closed, closing, is_fd, removed_fd, release_id, deallocate_device,
}
use libfreespace.Hidraw.Table.Valid.{slot-lt}
use libfreespace.Hidraw.Table.Change.{deallocate_device-removed, deallocate_device-none}
use libfreespace.Hidraw.Keep.{state-cases}
use libfreespace.Hidraw.Session.{notify, disconnect, is_disconnected, exit_slot, exit_from}

-- the slots whose devices were freed, in order
abbrev pub freed : List Notice → List ℕ
freed [] = []
freed (free_device i ∷ rest) = i ∷ freed rest
freed (fd_added f fd ∷ rest) = freed rest
freed (fd_removed f fd ∷ rest) = freed rest
freed (inserted f id cookie ∷ rest) = freed rest
freed (removed f id cookie ∷ rest) = freed rest
freed (close_fd fd ∷ rest) = freed rest

-- the index of a slot, if there is a device in it
abbrev pub held : ℕ → Option Device → List ℕ
held i none = []
held i (some d) = i ∷ []

-- The slots that hold a device, from slot `i` on, of the next `rounds` slots.
abbrev pub held_slots : ℕ → ℕ → Context → List ℕ
held_slots zero i c = []
held_slots (suc rounds) i c = held i (slot c i) ++ held_slots rounds (i + 1) c

pub freed-append : (xs ys : List Notice) → freed (xs ++ ys) ≡ freed xs ++ freed ys
freed-append [] ys = refl
freed-append (free_device i ∷ rest) ys = ap (λ l. i ∷ l) (freed-append rest ys)
freed-append (fd_added f fd ∷ rest) ys = freed-append rest ys
freed-append (fd_removed f fd ∷ rest) ys = freed-append rest ys
freed-append (inserted f id cookie ∷ rest) ys = freed-append rest ys
freed-append (removed f id cookie ∷ rest) ys = freed-append rest ys
freed-append (close_fd fd ∷ rest) ys = freed-append rest ys

pub freed-removed_fd : (c : Context) (fd : ℤ) → freed (removed_fd c fd) ≡ []
freed-removed_fd c fd = elim (Option-cases c.user_removed_callback) [
  | inl h ↦ rw h refl
  | inr (f, h) ↦ rw h refl
]

freed-notify : (c : Context) (id : ℤ) → freed (notify removed c id) ≡ []
freed-notify c id = elim (Option-cases c.hotplug_callback) [
  | inl h ↦ rw h refl
  | inr (f, h) ↦ rw h refl
]

freed-closing :
    (c : Context) (d : Device) (rest : List Notice) → freed (closing c d ++ rest) ≡ freed rest
freed-closing c d rest = elim (Bool-cases (is_fd d.fd)) [
  | inr h ↦ rw h refl
  | inl h ↦ elim (Option-cases c.user_removed_callback) [
    | inl k ↦ rw (h, k) refl
    | inr (f, k) ↦ rw (h, k) refl
  ]
]

-- A deallocation frees the device of its slot.
deallocate_device-freed :
    (c : Context) (i : ℕ) → freed (deallocate_device c i).1 ≡ held i (slot c i)
unfolding deallocate_device
deallocate_device-freed c i = elim (Option-cases (slot c i)) [
  | inl h ↦ rw (h, deallocate_device) refl
  | inr (d, h) ↦ rw (h, deallocate_device) (freed-closing c d (free_device i ∷ []))
]

pub deallocate_device-other :
    (c : Context) (i j : ℕ) → i ≢ j → slot (deallocate_device c i).0 j ≡ slot c j
deallocate_device-other c i j n = elim (Option-cases (slot c i)) [
  | inl h ↦ ap (λ p. slot p.0 j) (deallocate_device-none c i h)
  | inr (d, h) ↦
      ap (λ p. slot p j) (deallocate_device-removed c i h) ∙ get_or-set_ne c.devices i j none none n
]

set-none-slot : (ds : List (Option Device)) (i : ℕ) → get_or (set ds i none) i none ≡ none
set-none-slot [] i = refl
set-none-slot (x ∷ rest) zero = refl
set-none-slot (x ∷ rest) (suc i) = set-none-slot rest i

-- A deallocation empties its slot.
pub deallocate_device-slot : (c : Context) (i : ℕ) → slot (deallocate_device c i).0 i ≡ none
deallocate_device-slot c i = elim (Option-cases (slot c i)) [
  | inl h ↦ ap (λ p. slot p.0 i) (deallocate_device-none c i h) ∙ h
  | inr (d, h) ↦ ap (λ p. slot p i) (deallocate_device-removed c i h) ∙ set-none-slot c.devices i
]

pub release_id-slot : (c : Context) (id : ℤ) (j : ℕ) → slot (release_id c id) j ≡ slot c j
release_id-slot c (pos k) j = refl
release_id-slot c (negsuc k) j = refl

disconnect-other :
    (c : Context) (i j : ℕ) (d : Device) → i ≢ j → slot (disconnect c i d).ctx j ≡ slot c j
unfolding disconnect
disconnect-other c i j d n = elim (state-cases d.state) [
  | inl e ↦ rw (e, disconnect) refl
  | inr (inl e) ↦
      let c' = release_id (store c i (closed d)) d.id in
      rw (e, disconnect)
        (deallocate_device-other c' i j n
          ∙ release_id-slot (store c i (closed d)) d.id j
          ∙ get_or-set_ne c.devices i j (some (closed d)) none n)
  | inr (inr (inl e)) ↦
      let d' = record (closed d) { state = disconnected } in
      rw (e, disconnect)
        (release_id-slot (store c i d') d.id j ∙ get_or-set_ne c.devices i j (some d') none n)
  | inr (inr (inr e)) ↦ rw (e, disconnect) refl
]

-- `_disconnect` and the deallocation behind it free the device once: the one or the other does it.
disconnect-freed :
    (c : Context) (i : ℕ) (d : Device)
    → slot c i ≡ some d
    → freed (disconnect c i d).notices ++ held i (slot (disconnect c i d).ctx i) ≡ i ∷ []
unfolding disconnect
disconnect-freed c i d h = elim (state-cases d.state) [
  | inl e ↦ rw (e, disconnect, h) refl
  | inr (inl e) ↦
      let c0 = store c i (closed d) in
      let c' = release_id c0 d.id in
      let at_i =
        release_id-slot c0 d.id i
        ∙ get_or-set_self c.devices i (some (closed d)) none (slot-lt c.devices i h) in
      let gone = deallocate_device-slot c' i in
      let q = deallocate_device c' i in
      let all =
        freed-append (closing c d ++ q.1) (notify removed c d.id)
        ∙ ap (λ l. freed (closing c d ++ q.1) ++ l) (freed-notify c d.id)
        ∙ ap (λ l. l ++ []) (freed-closing c d q.1)
        ∙ ap (λ l. l ++ []) (deallocate_device-freed c' i ∙ ap (held i) at_i) in
      rw (e, disconnect, gone) (ap (λ l. l ++ []) all)
  | inr (inr (inl e)) ↦
      let d' = record (closed d) { state = disconnected } in
      let at_i =
        release_id-slot (store c i d') d.id i
        ∙ get_or-set_self c.devices i (some d') none (slot-lt c.devices i h) in
      rw (e, disconnect, freed-closing c d (notify removed c d.id), freed-notify c d.id, at_i) refl
  | inr (inr (inr e)) ↦ rw (e, disconnect, h) refl
]

-- The body of the loop frees the device of its slot, and leaves the other slots.
exit_slot-freed : (c : Context) (i : ℕ) → freed (exit_slot c i).1 ≡ held i (slot c i)
unfolding exit_slot
exit_slot-freed c i = elim (Option-cases (slot c i)) [
  | inl h ↦ rw (h, exit_slot) refl
  | inr (d, h) ↦ elim (Bool-cases (is_disconnected d.state)) [
    | inl t ↦ rw (h, exit_slot, t) (deallocate_device-freed c i ∙ ap (held i) h)
    | inr t ↦
        let p = disconnect c i d in
        rw (h, exit_slot, t)
          (freed-append p.notices (deallocate_device p.ctx i).1
            ∙ ap (λ l. freed p.notices ++ l) (deallocate_device-freed p.ctx i)
            ∙ disconnect-freed c i d h)
  ]
]

pub exit_slot-other : (c : Context) (i j : ℕ) → i ≢ j → slot (exit_slot c i).0 j ≡ slot c j
unfolding exit_slot
exit_slot-other c i j n = elim (Option-cases (slot c i)) [
  | inl h ↦ rw (h, exit_slot) refl
  | inr (d, h) ↦ elim (Bool-cases (is_disconnected d.state)) [
    | inl t ↦ rw (h, exit_slot, t) (deallocate_device-other c i j n)
    | inr t ↦
        rw (h, exit_slot, t)
          (deallocate_device-other (disconnect c i d).ctx i j n ∙ disconnect-other c i j d n)
  ]
]

held_slots-eq :
    (rounds i : ℕ) (c c' : Context)
    → ((j : ℕ) → i ≤ j → slot c j ≡ slot c' j)
    → held_slots rounds i c ≡ held_slots rounds i c'
held_slots-eq zero i c c' h = refl
held_slots-eq (suc rounds) i c c' h =
    ap (λ o. held i o ++ held_slots rounds (i + 1) c) (h i (omega arith))
    ∙ ap (λ l. held i (slot c' i) ++ l)
        (held_slots-eq rounds (i + 1) c c' (λ j l. h j (omega arith)))

-- The loop of `freespace_exit` frees the devices of its slots, each once.
pub exit_from-freed :
    (rounds i : ℕ) (c : Context) → freed (exit_from rounds i c).1 ≡ held_slots rounds i c
unfolding exit_from
exit_from-freed zero i c = refl
exit_from-freed (suc rounds) i c =
    let p = exit_slot c i in
    freed-append p.1 (exit_from rounds (i + 1) p.0).1
    ∙ ap (λ l. l ++ freed (exit_from rounds (i + 1) p.0).1) (exit_slot-freed c i)
    ∙ ap (λ l. held i (slot c i) ++ l)
        (exit_from-freed rounds (i + 1) p.0
          ∙ held_slots-eq rounds (i + 1) p.0 c
              (λ j l. exit_slot-other c i j (λ e. omega (arith, e, l))))
