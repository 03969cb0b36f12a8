-- ===== src/Tests/Transfers.antt =====
-- Examples for the receive queue and for sending of linux/freespace.c.
use libfreespace.Common.{
  ℕ, zero, suc, ◌+◌, ◌%◌, ◌<◌, ◌≡◌, ◌≢◌, refl, ◌⊎◌, List, [], ◌∷◌, take, Option, none, some, true,
  false, ℤ, pos, is_some, arith, length, ◌==◌, if◌then◌else◌,
}
use libfreespace.Errors.{success}
use libfreespace.Usb.Types.{
  Device, DeviceState, LibusbError, LibusbResult, done, failed, Transfer, TransferStatus,
  receive_queue_size,
}
use libfreespace.Usb.Message.{Message, Decode, Encode, Action}
use libfreespace.Usb.Table.{find_device_by_id}
use libfreespace.Usb.Receive.{Handled, slot, terminate_receive_transfers}
use libfreespace.Usb.Receive.Terminate.{live, frees, terminate_frees_once}
use libfreespace.Usb.Queue.{drain, drain_fuel, initiate_receive_transfers}
use libfreespace.Usb.Queue.Drain.{IsRunning, IsDrained, drain_ends}
use libfreespace.Usb.Queue.Initiate.{StartsOrStops, initiate_receive_transfers_lem}
use libfreespace.Usb.Queue.Order.{from_ring, read_times, reads_in_order}
use libfreespace.Usb.Session.{get_device_info}
use libfreespace.Usb.Send.{Write, Transferred, private_send, addressed, send_message}
use libfreespace.Usb.Send.Guards.{Delivers, send_message-success}
use libfreespace.Tests.Data.{opened_device, one_device}

-- A codec whose messages are one byte.
abbrev decode : Decode ℕ
decode bytes h_ver = (success, record { dest = 1; ver = h_ver; body = length bytes })

abbrev encode : Encode ℕ
encode m max_length = (pos 2, m.dest ∷ m.body ∷ [])

-- In every round the transfer of slot 1 ends as cancelled.
abbrev ended : ℕ → Handled
ended n = record {
  rc = done 0;
  completions =
      record {
        slot = 1;
        transfer = record { status = TransferStatus.cancelled; actual_length = 0 };
        bytes = [];
      }
      ∷ [];
}

terminate_frees_once_example :
    let p = terminate_receive_transfers decode (λ i. done 0) ended opened_device in
    (live p.device 1 ≡ 0) × (frees 1 p.actions ≡ live opened_device 1)
terminate_frees_once_example =
    terminate_frees_once decode 1 (λ i. done 0) ended opened_device (omega arith)

opened_device-IsRunning : IsRunning opened_device
unfolding IsRunning
opened_device-IsRunning = (refl, omega arith, λ i h. all i h)
  where
    all : (i : ℕ) → i < receive_queue_size → is_some (slot opened_device i).transfer ≡ true
    all i h = ground arith

drain_ends_example :
    IsDrained {Body = ℕ} (λ d b t. []) (drain (λ d b t. []) drain_fuel opened_device)
drain_ends_example = drain_ends (λ d b t. []) opened_device opened_device-IsRunning

abbrev fresh : ℕ → Option Transfer
fresh i = some record { status = TransferStatus.completed; actual_length = 0 }

-- The fourth submission fails.
abbrev submissions : ℕ → LibusbResult
submissions zero = done 0
submissions (suc n) = if n == 2 then failed LibusbError.io else done 0

initiate_receive_transfers_lem_example :
    (r : Device × ℤ × List (Action ℕ)) × (initiate_receive_transfers fresh submissions
        (λ d. terminate_receive_transfers decode (λ i. done 0) ended d)
        opened_device
      ≡ some r)
    × StartsOrStops submissions r
initiate_receive_transfers_lem_example =
    initiate_receive_transfers_lem decode (λ i. done 0) ended fresh submissions opened_device
      (λ k. refl) refl

received_in_ring :
    (i : ℕ)
    → i < 3
    → (slot opened_device ((opened_device.receive_queue_head + i) % receive_queue_size)).submitted
      ≡ false
received_in_ring zero h = refl
received_in_ring (suc zero) h = refl
received_in_ring (suc (suc zero)) h = refl
received_in_ring (suc (suc (suc i))) h = absurd (omega arith)

reads_in_order_example :
    read_times decode (ended 0) 3 opened_device 96 ≡ from_ring 3 6 opened_device
reads_in_order_example =
    reads_in_order decode (ended 0) 3 opened_device 96 opened_device-IsRunning refl (omega arith)
      (omega arith) received_in_ring

-- a bus that takes every byte
abbrev writes : Write → Transferred
writes w = record { rc = done 0; count = length w.bytes }

writes_nonneg : (w : Write) (n : ℕ) → (writes w).rc ≢ done (suc n)
writes_nonneg w n = ground arith

sent_ok : (private_send writes (one_device DeviceState.opened).devices 5 (1 ∷ 2 ∷ [])).0 ≡ success
unfolding private_send find_device_by_id
sent_ok = refl

abbrev message : Message ℕ
message = record { dest = 0; ver = 0; body = 8 }

message_ok :
    (send_message encode 4 22 writes (one_device DeviceState.opened).devices 5 message).0 ≡ success
unfolding send_message find_device_by_id get_device_info
message_ok = refl

send_message-success_example :
    let r = send_message encode 4 22 writes (one_device DeviceState.opened).devices 5 message in
    (h_ver : ℕ) × let (rc, bytes) = encode (addressed 4 message h_ver) 22 in
      ((rc ≡ success) × (r.1 ≡ none))
      ⊎ ((n : ℕ) × (rc ≡ pos (suc n))
          × Delivers writes (one_device DeviceState.opened).devices 5 (take (suc n) bytes) r.1)
send_message-success_example =
    send_message-success writes encode 4 22 (one_device DeviceState.opened).devices 5 message
      writes_nonneg message_ok
