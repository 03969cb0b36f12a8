-- ===== src/Usb/Queue/Drain.antt =====
-- The loop over the received transfers at the head of the queue ends.
use libfreespace.Common.{
  ℕ, zero, suc, ◌+◌, ◌<◌, ◌≤◌, ◌≡◌, refl, ◌∙◌, ap, true, false, List, [], ◌∷◌, ◌++◌, Option, some,
  if◌then◌else◌, is_some, length, length-set, get_or, set, arith, Option-cases, inl, inr,
  Bool-cases,
}
use libfreespace.Usb.Types.{Transfer, ReceiveTransfer, Device, receive_queue_size}
use libfreespace.Usb.Message.{Action, submit}
use libfreespace.Usb.Receive.{no_transfer, slot}
use libfreespace.Usb.Receive.Terminate.{slot-set_slot}
use libfreespace.Usb.Queue.{resubmit_head, head_slot, drain, drain_fuel}

-- The queue of a device that is opened: eight slots, each with its transfer.
unfoldable pub IsRunning : Device → Type 0
IsRunning d =
    (length d.receive_queue ≡ receive_queue_size)
    × (d.receive_queue_head < receive_queue_size)
    × ((i : ℕ) → i < receive_queue_size → is_some (slot d i).transfer ≡ true)

-- the number of slots that are not submitted
unsubmitted : List ReceiveTransfer → ℕ
unsubmitted [] = 0
unsubmitted (x ∷ q) = (if x.submitted then 0 else 1) + unsubmitted q

unsubmitted-le : (q : List ReceiveTransfer) → unsubmitted q ≤ length q
unfolding unsubmitted
unsubmitted-le [] = omega arith
unsubmitted-le (x ∷ q) = ground (arith, unsubmitted-le q)

unsubmitted-set :
    (q : List ReceiveTransfer) (i : ℕ)
    → i < length q
    → (get_or q i no_transfer).submitted ≡ false
    → unsubmitted q
      ≡ suc (unsubmitted (set q i (record (get_or q i no_transfer) { submitted = true })))
unfolding unsubmitted
unsubmitted-set [] i h e = elim h [ ]
unsubmitted-set (x ∷ q) zero h e = ground arith
unsubmitted-set (x ∷ q) (suc i) h e = ground (arith, unsubmitted-set q i (omega arith) e)

pub resubmit_head-IsRunning : (d : Device) → IsRunning d → IsRunning (resubmit_head d)
unfolding IsRunning
resubmit_head-IsRunning d (n, h, t) =
    (length-set d.receive_queue _ _ ∙ n, ground arith, λ j k. kept j k)
  where
    kept : (j : ℕ) → j < receive_queue_size → is_some (slot (resubmit_head d) j).transfer ≡ true
    kept j k = ground (
      arith,
      t j k,
      t d.receive_queue_head h,
      ap is_some (
          ap (λ (x : ReceiveTransfer). x.transfer)
            (slot-set_slot d d.receive_queue_head j (record (head_slot d) { submitted = true }))),
    )

module _ {Body : Type 0} (report : Device → List ℕ → Transfer → List (Action Body)) where
  -- What a drained queue is: it still runs, and the transfer at its head is submitted.
  abbrev pub IsDrained : Option (Device × List (Action Body)) → Type 0
  IsDrained r =
      (d : Device) × (actions : List (Action Body)) × (r ≡ some (d, actions))
      × IsRunning d
      × ((head_slot d).submitted ≡ true)

  drain-enough :
      (fuel : ℕ) (d : Device)
      → IsRunning d
      → unsubmitted d.receive_queue < fuel
      → IsDrained (drain report fuel d)
  unfolding drain IsRunning
  drain-enough zero d v h = elim h [ ]
  drain-enough (suc fuel) d v h = elim (Bool-cases (head_slot d).submitted) [
    | inl e ↦ (d, [], rw e refl, v, e)
    | inr e ↦ elim (Option-cases (head_slot d).transfer) [
      | inl n ↦ absurd (ground (arith, v.2 d.receive_queue_head v.1, n))
      | inr (t, s) ↦
          let (d', actions, r, v', e') =
            drain-enough fuel (resubmit_head d) (resubmit_head-IsRunning d v) (
              omega (
                arith,
                h,
                v.0,
                v.1,
                unsubmitted-set d.receive_queue d.receive_queue_head (omega (arith, v.0, v.1)) e,
              )) in
          (
            d',
            report d (head_slot d).buffer t ++ submit d.receive_queue_head ∷ actions,
            rw (e, s, r) refl,
            v',
            e',
          )
    ]
  ]

  -- On a queue of eight slots with a transfer each, the loop that resubmits the received transfers
  -- ends within the fuel that its callers give, uses no NULL transfer, and leaves a queue of the
  -- same kind whose head waits for a transfer.
  pub drain_ends : (d : Device) → IsRunning d → IsDrained (drain report drain_fuel d)
  unfolding IsRunning
  drain_ends d v = drain-enough drain_fuel d v (omega (arith, v.0, unsubmitted-le d.receive_queue))
