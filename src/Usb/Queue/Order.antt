-- ===== src/Usb/Queue/Order.antt =====
-- Reading without a callback takes what was received out of the queue in the order of the ring.
use libfreespace.Common.{
  ℕ, zero, suc, ◌+◌, ◌%◌, ◌<◌, ◌≤◌, ◌≡◌, refl, ◌∙◌, true, false, List, [], ◌∷◌, Option, none, some,
  take, arith, Option-cases, inl, inr, ℤ, get_or-set_ne,
}
use libfreespace.Errors.{success}
use libfreespace.Usb.Types.{ReceiveTransfer, Device, receive_queue_size}
use libfreespace.Usb.Status.{transfer_status_to_freespace_error}
use libfreespace.Usb.Message.{Decode}
use libfreespace.Usb.Scan.{is_opened}
use libfreespace.Usb.Receive.{no_transfer, slot, Handled}
use libfreespace.Usb.Queue.{next_head, resubmit_head, head_slot, private_read}
use libfreespace.Usb.Queue.Drain.{IsRunning, resubmit_head-IsRunning}

-- what a transfer delivers: the code of its status and its bytes
unfoldable pub delivered : ReceiveTransfer → ℤ × Option (List ℕ)
delivered rt = elim rt.transfer [
  | none ↦ (success, none)
  | some t ↦ (transfer_status_to_freespace_error t.status, some (take t.actual_length rt.buffer))
]

-- what the slots deliver, `k` of them from a place in the ring on
unfoldable pub from_ring : ℕ → ℕ → Device → List (ℤ × Option (List ℕ))
unfolding delivered
from_ring zero head d = []
from_ring (suc k) head d = delivered (slot d head) ∷ from_ring k (next_head head) d

module _ {Body : Type 0} (decode : Decode Body) where
  -- the results of `k` calls of `freespace_private_read`; the list ends where a call crashes
  unfoldable pub read_times : Handled → ℕ → Device → ℕ → List (ℤ × Option (List ℕ))
  unfolding private_read
  read_times event zero d max_length = []
  read_times event (suc k) d max_length = elim (private_read decode event d max_length) [
    | none ↦ []
    | some r ↦ (r.rc, r.bytes) ∷ read_times event k r.device max_length
  ]

  -- The first slots of the ring are as in another device, and hold what was received.
  abbrev Holds : ℕ → Device → Device → Type 0
  Holds k d e =
      (i : ℕ)
      → i < k
      → let j = (d.receive_queue_head + i) % receive_queue_size in
        (slot d j ≡ slot e j) × ((slot e j).submitted ≡ false)

  resubmit_head-Holds :
      (k : ℕ) (d e : Device)
      → d.receive_queue_head < receive_queue_size
      → suc k ≤ receive_queue_size
      → Holds (suc k) d e
      → Holds k (resubmit_head d) e
  resubmit_head-Holds k d e h le holds i l =
      (kept ∙ (rw turn (holds (i + 1) (omega arith)).0), rw turn (holds (i + 1) (omega arith)).1)
    where
      turn :
          (next_head d.receive_queue_head + i) % receive_queue_size
          ≡ (d.receive_queue_head + (i + 1)) % receive_queue_size
      turn = ground arith

      kept :
          slot (resubmit_head d) ((next_head d.receive_queue_head + i) % receive_queue_size)
          ≡ slot d ((next_head d.receive_queue_head + i) % receive_queue_size)
      kept =
          get_or-set_ne d.receive_queue d.receive_queue_head _ _ no_transfer
            (λ same. absurd (omega (arith, same, turn)))

  reads_lem :
      (event : Handled) (k : ℕ) (d e : Device) (max_length : ℕ)
      → IsRunning d
      → is_opened d.state ≡ true
      → d.max_read_size ≤ max_length
      → k ≤ receive_queue_size
      → Holds k d e
      → read_times event k d max_length ≡ from_ring k d.receive_queue_head e
  unfolding read_times from_ring private_read IsRunning
  reads_lem event zero d e m v o s l holds = refl
  reads_lem event (suc k) d e m v o s l holds = elim (Option-cases (head_slot d).transfer) [
    | inl n ↦ absurd (ground (arith, n, v.2 d.receive_queue_head v.1))
    | inr (t, g) ↦
        let at0 : (d.receive_queue_head + 0) % receive_queue_size ≡ d.receive_queue_head =
          omega (arith, v.1) in
        let same : slot d d.receive_queue_head ≡ slot e d.receive_queue_head =
          rw at0 at (holds 0 (omega arith)).0 in
        let free : (slot e d.receive_queue_head).submitted ≡ false =
          rw at0 at (holds 0 (omega arith)).1 in
        let rest =
          reads_lem event k (resubmit_head d) e m (resubmit_head-IsRunning d v) o s (omega arith)
            (resubmit_head-Holds k d e v.1 l holds) in
        ground (arith, o, s, g, same, free, rest)
  ]

  -- On a running queue of an opened device, with a buffer that is large enough: `k` calls of
  -- `freespace_private_read`, at most eight, give the status codes and bytes of the `k` slots from
  -- the head on around the ring, if these slots hold what was received. No call waits or crashes.
  pub reads_in_order :
      (event : Handled) (k : ℕ) (d : Device) (max_length : ℕ)
      → IsRunning d
      → is_opened d.state ≡ true
      → d.max_read_size ≤ max_length
      → k ≤ receive_queue_size
      → ((i : ℕ)
          → i < k
          → (slot d ((d.receive_queue_head + i) % receive_queue_size)).submitted ≡ false)
      → read_times event k d max_length ≡ from_ring k d.receive_queue_head d
  reads_in_order event k d m v o s l free =
      reads_lem event k d d m v o s l (λ i h. (refl, free i h))
