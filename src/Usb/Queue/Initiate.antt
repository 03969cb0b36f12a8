-- ===== src/Usb/Queue/Initiate.antt =====
-- `freespace_initiateReceiveTransfers` starts the whole queue, or stops it.
use libfreespace.Common.{
  ℕ, zero, suc, ◌+◌, ◌<◌, ◌≡◌, refl, ◌∙◌, ap, ◌⊎◌, inl, inr, true, false, List, [], ◌∷◌, Option,
  some, Bool-cases, Option-cases, length, length-set, is_some, ℤ, arith,
}
use native.Mathlib.Decide.{dec_lt}
use libfreespace.Errors.{success}
use libfreespace.Usb.Types.{
  LibusbResult, is_success, Transfer, ReceiveTransfer, Device, receive_queue_size,
}
use libfreespace.Usb.Status.{libusb_to_freespace_error}
use libfreespace.Usb.Message.{Decode, Action, submit}
use libfreespace.Usb.Receive.{slot, set_slot, Handled, Phase, terminate_receive_transfers}
use libfreespace.Usb.Receive.Terminate.{live, slot-set_slot, terminate_frees_once}
use libfreespace.Usb.Queue.{initiate_from, initiate_receive_transfers}

-- a slot whose transfer is submitted
abbrev pub IsSubmitted : ReceiveTransfer → Type 0
IsSubmitted rt = (is_some rt.transfer ≡ true) × (rt.submitted ≡ true)

-- Every slot is submitted and the result is success, or a submission failed with the result that is
-- returned and no slot has a transfer.
abbrev pub StartsOrStops :
    {Body : Type 0} → (ℕ → LibusbResult) → Device × ℤ × List (Action Body) → Type 0
StartsOrStops submits (d, rc, actions) =
    (((j : ℕ) → j < receive_queue_size → IsSubmitted (slot d j)) × (rc ≡ success))
    ⊎ (((j : ℕ) → j < receive_queue_size → live d j ≡ 0)
        × ((i : ℕ) × (is_success (submits i) ≡ false)
            × (rc ≡ libusb_to_freespace_error (submits i))))

module _ {Body : Type 0} (decode : Decode Body) (results : ℕ → LibusbResult) (events : ℕ → Handled)
    (alloc : ℕ → Option Transfer) (submits : ℕ → LibusbResult) where
  abbrev stop : Device → Phase Body
  stop d = terminate_receive_transfers decode results events d

  -- slot `i` with its new transfer, before and after the submission
  abbrev filled : Device → ℕ → Transfer → Device
  filled d i t = set_slot d i (record (slot d i) { transfer = some t })

  abbrev started : Device → ℕ → Transfer → Device
  started d i t = set_slot (filled d i t) i (record (slot (filled d i t) i) { submitted = true })

  initiate_from-started :
      (rounds i : ℕ) (d : Device) {t : Transfer} {r : Device × ℤ × List (Action Body)}
      → alloc i ≡ some t
      → is_success (submits i) ≡ true
      → initiate_from alloc submits stop rounds (i + 1) (started d i t) ≡ some r
      → initiate_from alloc submits stop (suc rounds) i d ≡ some (r.0, r.1, submit i ∷ r.2)
  unfolding initiate_from
  initiate_from-started rounds i d g b e = rw (g, initiate_from, b, e) refl

  initiate_from-stopped :
      (rounds i : ℕ) (d : Device) {t : Transfer}
      → alloc i ≡ some t
      → is_success (submits i) ≡ false
      → initiate_from alloc submits stop (suc rounds) i d
        ≡ some (
          (stop (filled d i t)).device,
          libusb_to_freespace_error (submits i),
          submit i ∷ (stop (filled d i t)).actions,
        )
  unfolding initiate_from
  initiate_from-stopped rounds i d g b = rw (g, initiate_from, b) refl

  slot-started :
      (d : Device) (i j : ℕ) (t : Transfer)
      → i < length d.receive_queue
      → IsSubmitted (slot d j) ⊎ (i ≡ j)
      → IsSubmitted (slot (started d i t) j)
  slot-started d i j t h before =
      let rt = record (slot d i) { transfer = some t } in
      let st = record (slot (filled d i t) i) { submitted = true } in
      ground (
        arith,
        h,
        before,
        length-set d.receive_queue i rt,
        ap (λ (x : ReceiveTransfer). is_some x.transfer) (slot-set_slot d i j rt),
        ap (λ (x : ReceiveTransfer). x.submitted) (slot-set_slot d i j rt),
        ap (λ (x : ReceiveTransfer). is_some x.transfer) (slot-set_slot d i i rt),
        ap (λ (x : ReceiveTransfer). is_some x.transfer) (slot-set_slot (filled d i t) i j st),
        ap (λ (x : ReceiveTransfer). x.submitted) (slot-set_slot (filled d i t) i j st),
      )

  initiate_from_lem :
      (rounds i : ℕ) (d : Device)
      → ((k : ℕ) → is_some (alloc k) ≡ true)
      → length d.receive_queue ≡ receive_queue_size
      → i + rounds ≡ receive_queue_size
      → ((j : ℕ) → j < i → IsSubmitted (slot d j))
      → (r : Device × ℤ × List (Action Body)) × (initiate_from alloc submits stop rounds i d
          ≡ some r)
        × StartsOrStops submits r
  unfolding initiate_from
  initiate_from_lem zero i d a n e before =
      ((d, success, []), refl, inl (λ j h. before j (omega arith), refl))
  initiate_from_lem (suc rounds) i d a n e before = elim (Option-cases (alloc i)) [
    | inl z ↦ absurd (ground (arith, a i, z))
    | inr (t, g) ↦ elim (Bool-cases (is_success (submits i))) [
      | inr b ↦ (
        _,
        initiate_from-stopped rounds i d g b,
        inr (
          λ j h. (terminate_frees_once decode j results events (filled d i t) h).0,
          (i, b, refl),
        ),
      )
      | inl b ↦
          let (r, eq, q) =
            initiate_from_lem rounds (i + 1) (started d i t) a
              (length-set _ i _ ∙ length-set d.receive_queue i _ ∙ n) (omega arith)
              (λ j h.
                slot-started d i j t (omega arith)
                  (elim (dec_lt j i) [ yes l ↦ inl (before j l) | no l ↦ inr (omega arith) ])) in
          (_, initiate_from-started rounds i d g b eq, q)
    ]
  ]

  -- If `libusb_alloc_transfer` never returns NULL, `freespace_initiateReceiveTransfers` either
  -- submits all eight transfers and returns success, or a submission fails, its code is returned
  -- and no slot is left with a transfer.
  pub initiate_receive_transfers_lem :
      (d : Device)
      → ((k : ℕ) → is_some (alloc k) ≡ true)
      → length d.receive_queue ≡ receive_queue_size
      → (r : Device × ℤ × List (Action Body)) × (initiate_receive_transfers alloc submits
            (λ d'. terminate_receive_transfers decode results events d')
            d
          ≡ some r)
        × StartsOrStops submits r
  unfolding initiate_receive_transfers
  initiate_receive_transfers_lem d a n =
      initiate_from_lem receive_queue_size 0 (record d { receive_queue_head = 0 }) a n refl
        (λ j h. absurd (omega arith))
