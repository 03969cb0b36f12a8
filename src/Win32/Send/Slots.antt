-- ===== src/Win32/Send/Slots.antt =====
-- The sends of a device of win32/freespace_device.c that are free.
use libfreespace.Common.{
  ℕ, zero, suc, ◌+◌, ◌<◌, ◌≡◌, refl, inl, inr, List, [], ◌∷◌, none, some, if◌then◌else◌, is_some,
  get_or, set, length, Option-cases, arith,
}
use libfreespace.Win32.Types.{Send, blank_send}
use libfreespace.Win32.Send.{next_send_from}

-- the number of sends that are free
abbrev pub free_sends : List Send → ℕ
free_sends [] = 0
free_sends (s ∷ rest) = if is_some s.interface then free_sends rest else suc (free_sends rest)

pub get_or-set_at :
    (ss : List Send) (i : ℕ) (s t d : Send)
    → get_or ss i d ≡ t
    → i < length ss
    → get_or (set ss i s) i d ≡ s
get_or-set_at [] i s t d h l = elim l [ ]
get_or-set_at (x ∷ rest) zero s t d h l = refl
get_or-set_at (x ∷ rest) (suc i) s t d h l = get_or-set_at rest i s t d h (omega arith)

-- The search begins at the first send, and finds one that is free.
next_send_from-free :
    (k : ℕ) (ss : List Send) (j : ℕ)
    → next_send_from k ss ≡ some j
    → (i : ℕ) × (j ≡ k + i) × (i < length ss) × ((get_or ss i blank_send).interface ≡ none)
unfolding next_send_from
next_send_from-free k [] j h = cc
next_send_from-free k (s ∷ rest) j h = elim (Option-cases s.interface) [
  | inl e ↦ (0, ground (arith, e, h), omega arith, e)
  | inr (x, e) ↦
      let (i, p, l, f) = next_send_from-free (k + 1) rest j (rw e at h) in
      (suc i, omega arith, omega arith, f)
]

pub next_send-free :
    (ss : List Send) (i : ℕ)
    → next_send_from 0 ss ≡ some i
    → (i < length ss) × ((get_or ss i blank_send).interface ≡ none)
next_send-free ss i h =
    let (j, p, l, f) = next_send_from-free 0 ss i h in let e : i ≡ j = omega arith in rw e (l, f)

-- With all sends taken, the search finds none.
next_send_from-none : (k : ℕ) (ss : List Send) → free_sends ss ≡ 0 → next_send_from k ss ≡ none
unfolding next_send_from
next_send_from-none k [] h = refl
next_send_from-none k (s ∷ rest) h = ground (arith, next_send_from-none (k + 1) rest)
