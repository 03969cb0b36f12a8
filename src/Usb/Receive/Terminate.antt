-- ===== src/Usb/Receive/Terminate.antt =====
-- `freespace_terminateReceiveTransfers` frees every transfer once.
use libfreespace.Common.{
  ℕ, zero, suc, ◌+◌, ◌*◌, ◌<◌, ◌≡◌, refl, ◌∙◌, ap, false, ◌&&◌, List, [], ◌∷◌, ◌++◌, none, some,
  ◌==◌, ltb, if◌then◌else◌, length, get_or, set, is_some, arith,
}
use libfreespace.Usb.Types.{
  LibusbResult, done, Transfer, ReceiveTransfer, Device, receive_queue_size,
}
use libfreespace.Usb.Message.{
  Decode, Action, submit, cancel, free_transfer, received, message_received,
}
use libfreespace.Usb.Receive.{
  no_transfer, slot, set_slot, Completion, Handled, Phase, cancel_slot, reap_slot, clean_slot,
  for_slots, report_bytes, report_message, receive_callback, deliver, deliver_all, wait,
  terminate_receive_transfers,
}

-- 1 if the slot has a transfer
abbrev pub live : Device → ℕ → ℕ
live d i = if is_some (slot d i).transfer then 1 else 0

module _ {Body : Type 0} where
  -- how often the transfer of a slot is freed
  pub frees : ℕ → List (Action Body) → ℕ
  frees i [] = 0
  frees i (free_transfer k ∷ rest) = (if k == i then 1 else 0) + frees i rest
  frees i (_ ∷ rest) = frees i rest

  frees-append : (j : ℕ) (xs ys : List (Action Body)) → frees j (xs ++ ys) ≡ frees j xs + frees j ys
  unfolding frees
  frees-append j [] ys = omega arith
  frees-append j (free_transfer k ∷ rest) ys = omega (arith, frees-append j rest ys)
  frees-append j (submit k ∷ rest) ys = frees-append j rest ys
  frees-append j (cancel k ∷ rest) ys = frees-append j rest ys
  frees-append j (received c d b k r ∷ rest) ys = frees-append j rest ys
  frees-append j (message_received c d b k r ∷ rest) ys = frees-append j rest ys

-- A slot after a write: a write outside of the queue changes nothing.
pub slot-set_slot :
    (d : Device) (i j : ℕ) (rt : ReceiveTransfer)
    → slot (set_slot d i rt) j ≡ (if i == j && ltb i (length d.receive_queue) then rt else slot d j)
slot-set_slot d i j rt = go d.receive_queue i j rt
  where
    go :
        (q : List ReceiveTransfer) (i j : ℕ) (rt : ReceiveTransfer)
        → get_or (set q i rt) j no_transfer
          ≡ (if i == j && ltb i (length q) then rt else get_or q j no_transfer)
    go [] i j rt = ground arith
    go (x ∷ q) zero zero rt = ground arith
    go (x ∷ q) zero (suc j) rt = ground arith
    go (x ∷ q) (suc i) zero rt = ground arith
    go (x ∷ q) (suc i) (suc j) rt = ground (arith, go q i j rt)

slot-beyond :
    (d : Device) (i : ℕ)
    → ltb i (length d.receive_queue) ≡ false
    → is_some (slot d i).transfer ≡ false
slot-beyond d i h = go d.receive_queue i h
  where
    go :
        (q : List ReceiveTransfer) (i : ℕ)
        → ltb i (length q) ≡ false
        → is_some (get_or q i no_transfer).transfer ≡ false
    go [] i h = refl
    go (x ∷ q) zero h = absurd (ground arith)
    go (x ∷ q) (suc i) h = go q i (ground arith)

module _ {Body : Type 0} (j : ℕ) where
  -- The transfers of slot `j` that are freed or still there.
  abbrev accounted : Phase Body → ℕ
  accounted p = live p.device j + frees j p.actions

  abbrev Keeps : (Phase Body → Phase Body) → Type 0
  Keeps body = (p : Phase Body) → accounted (body p) ≡ accounted p

  reap_slot-Keeps : (i : ℕ) → Keeps (reap_slot i)
  unfolding reap_slot frees
  reap_slot-Keeps i p =
      let rt = slot p.device i in
      ground (
        arith,
        ap is_some (
            ap (λ (x : ReceiveTransfer). x.transfer)
              (slot-set_slot p.device i j (record rt { transfer = none }))),
        slot-beyond p.device i,
        frees-append j p.actions (free_transfer i ∷ []),
        ap (λ k. is_some (slot p.device k).transfer) {x = i} {y = j},
      )

  clean_slot-Keeps : (i : ℕ) → Keeps (clean_slot i)
  unfolding clean_slot frees
  clean_slot-Keeps i p =
      let rt = slot p.device i in
      ground (
        arith,
        ap is_some (
            ap (λ (x : ReceiveTransfer). x.transfer)
              (slot-set_slot p.device i j (record rt { transfer = none }))),
        slot-beyond p.device i,
        frees-append j p.actions (free_transfer i ∷ []),
        ap (λ k. is_some (slot p.device k).transfer) {x = i} {y = j},
      )

  cancel_slot-Keeps : (results : ℕ → LibusbResult) (i : ℕ) → Keeps (cancel_slot results i)
  unfolding cancel_slot frees
  cancel_slot-Keeps results i p =
      let rt = slot p.device i in
      ground (
        arith,
        ap is_some (
            ap (λ (x : ReceiveTransfer). x.transfer)
              (slot-set_slot p.device i j (record rt { transfer = none }))),
        ap is_some (
            ap (λ (x : ReceiveTransfer). x.transfer)
              (slot-set_slot p.device i j (record rt { transfer = none; submitted = false }))),
        slot-beyond p.device i,
        frees-append j p.actions (free_transfer i ∷ []),
        frees-append j p.actions (cancel i ∷ []),
        frees-append j p.actions (cancel i ∷ free_transfer i ∷ []),
        ap (λ k. is_some (slot p.device k).transfer) {x = i} {y = j},
      )

  for_slots-Keeps :
      (body : ℕ → Phase Body → Phase Body)
      → ((i : ℕ) → Keeps (body i))
      → (rounds i : ℕ) → Keeps (for_slots body rounds i)
  for_slots-Keeps body keep zero i p = refl
  for_slots-Keeps body keep (suc rounds) i p =
      for_slots-Keeps body keep rounds (i + 1) (body i p) ∙ keep i p

  -- The last loop leaves no transfer in the slots that it goes through.
  clean_slot-live :
      (i : ℕ) (p : Phase Body)
      → live (clean_slot i p).device j ≡ (if i == j then 0 else live p.device j)
  unfolding clean_slot
  clean_slot-live i p =
      let rt = slot p.device i in
      ground (
        arith,
        ap is_some (
            ap (λ (x : ReceiveTransfer). x.transfer)
              (slot-set_slot p.device i j (record rt { transfer = none }))),
        slot-beyond p.device i,
        ap (λ k. is_some (slot p.device k).transfer) {x = i} {y = j},
      )

  clean_all-live :
      (rounds i : ℕ) (p : Phase Body)
      → (j < i → live p.device j ≡ 0)
      → j < i + rounds
      → live (for_slots clean_slot rounds i p).device j ≡ 0
  clean_all-live zero i p before h = before (omega arith)
  clean_all-live (suc rounds) i p before h =
      clean_all-live rounds (i + 1) (clean_slot i p)
        (λ k. ground (arith, clean_slot-live i p, before)) (omega arith)

module _ {Body : Type 0} (decode : Decode Body) (j : ℕ) where
  report-frees :
      (d : Device) (b : List ℕ) (t : Transfer)
      → (frees j (report_bytes decode d b t) ≡ 0) × (frees j (report_message decode d b t) ≡ 0)
  unfolding report_bytes report_message frees
  report-frees d b t = ground arith

  receive_callback-accounted :
      (d : Device) (i : ℕ) (t : Transfer)
      → let r = receive_callback decode d i t in (live r.0 j ≡ live d j) × (frees j r.1 ≡ 0)
  unfolding receive_callback frees
  receive_callback-accounted d i t =
      let rb = report_bytes decode d (slot d i).buffer t in
      let rm = report_message decode d (slot d i).buffer t in
      ground (
        arith,
        ap is_some (
            ap (λ (x : ReceiveTransfer). x.transfer)
              (slot-set_slot d i j (record (slot d i) { submitted = false }))),
        report-frees d (slot d i).buffer t,
        frees-append j (rb ++ rm) (submit i ∷ []),
        frees-append j rb rm,
        ap (λ k. is_some (slot d k).transfer) {x = i} {y = j},
      )

  deliver-accounted :
      (d : Device) (c : Completion)
      → let r = deliver decode d c in (live r.0 j ≡ live d j) × (frees j r.1 ≡ 0)
  unfolding deliver frees
  deliver-accounted d c =
      let rt = slot d c.slot in
      let rt' : ReceiveTransfer = record rt { transfer = some c.transfer; buffer = c.bytes } in
      ground (
        arith,
        receive_callback-accounted (set_slot d c.slot rt') c.slot c.transfer,
        ap is_some (ap (λ (x : ReceiveTransfer). x.transfer) (slot-set_slot d c.slot j rt')),
        ap (λ k. is_some (slot d k).transfer) {x = c.slot} {y = j},
      )

  deliver_all-accounted :
      (cs : List Completion) (d : Device)
      → let r = deliver_all decode d cs in (live r.0 j ≡ live d j) × (frees j r.1 ≡ 0)
  unfolding deliver_all frees
  deliver_all-accounted [] d = (refl, refl)
  deliver_all-accounted (c ∷ rest) d =
      let p = deliver decode d c in
      ground (
        arith,
        deliver-accounted d c,
        deliver_all-accounted rest p.0,
        frees-append j p.1 (deliver_all decode p.0 rest).1,
      )

  wait-Keeps : (events : ℕ → Handled) (retries : ℕ) → Keeps j (wait decode events retries)
  unfolding wait
  wait-Keeps events zero p = refl
  wait-Keeps events (suc retries) p =
      let h = events retries in
      let q = deliver_all decode p.device h.completions in
      let handled : Phase Body = record p { device = q.0; rc = h.rc; actions = p.actions ++ q.1 } in
      let reaped = for_slots reap_slot receive_queue_size 0 handled in
      ground (
        arith,
        deliver_all-accounted h.completions p.device,
        frees-append j p.actions q.1,
        for_slots-Keeps j reap_slot (reap_slot-Keeps j) receive_queue_size 0 handled,
        wait-Keeps events retries reaped,
      )

  -- Whatever libusb answers to the cancellations and whatever transfers end while the code waits,
  -- `freespace_terminateReceiveTransfers` leaves no transfer in any of the eight slots, and frees
  -- that of a slot exactly once if the slot had one, and never if it had none.
  pub terminate_frees_once :
      (results : ℕ → LibusbResult) (events : ℕ → Handled) (d : Device)
      → j < receive_queue_size
      → let p = terminate_receive_transfers decode results events d in
        (live p.device j ≡ 0) × (frees j p.actions ≡ live d j)
  unfolding terminate_receive_transfers frees
  terminate_frees_once results events d h = (gone, omega (arith, gone, kept))
    where
      start : Phase Body
      start = record { device = d; count = 0; rc = done 0; actions = [] }

      cancelled : Phase Body
      cancelled = for_slots (cancel_slot results) receive_queue_size 0 start

      waited : Phase Body
      waited = wait decode events (cancelled.count * 3) cancelled

      gone : live (for_slots clean_slot receive_queue_size 0 waited).device j ≡ 0
      gone = clean_all-live j receive_queue_size 0 waited (λ k. absurd (omega arith)) (omega arith)

      kept : accounted j (for_slots clean_slot receive_queue_size 0 waited) ≡ accounted j start
      kept =
          for_slots-Keeps j clean_slot (clean_slot-Keeps j) receive_queue_size 0 waited
          ∙ wait-Keeps events (cancelled.count * 3) cancelled
          ∙ for_slots-Keeps j (cancel_slot results) (cancel_slot-Keeps j results) receive_queue_size
              0 start
