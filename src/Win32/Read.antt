-- ===== src/Win32/Read.antt =====
-- Reading and flushing of win32/freespace_device.c.
pub mod Outcome
use libfreespace.Common.{
  ℕ, ◌+◌, Bool, true, false, List, [], ◌∷◌, ◌++◌, Option, none, some, if◌then◌else◌, take, ℤ, eq_ℤ,
}
use libfreespace.Errors.{success, error_io, error_timeout}
use libfreespace.Usb.Message.{Message, Decode}
use libfreespace.Win32.Types.{Interface, Device}
use libfreespace.Win32.Close.{Action, cancel_io}
use libfreespace.Win32.Receive.{
  LastError, Effect, Overlapped, completed, not_completed, is_pending, is_incomplete, Hotplug,
  handle_device_failure,
}

-- FREESPACE_MAX_INPUT_MESSAGE_SIZE
abbrev pub max_input_message_size : ℕ
max_input_message_size = 96

-- What a loop of `freespace_private_read` leaves: the interfaces, and bytes that came or an error
-- if it ends early.
pub data Progress : Type 0 where
  through : List Interface → Progress
  came : List Interface → List ℕ → Progress
  broke : List Interface → LastError → Progress

abbrev pub behind : Interface → Progress → Progress
behind s (through ss) = through (s ∷ ss)
behind s (came ss bytes) = came (s ∷ ss) bytes
behind s (broke ss e) = broke (s ∷ ss) e

-- The loop that starts the reads, from interface `i` on; `ReadFile` ends at once or with an error.
unfoldable pub start_from : (ℕ → Overlapped) → ℕ → List Interface → Progress
start_from calls i [] = through []
start_from calls i (s ∷ rest) =
    let later = start_from calls (i + 1) rest in
    if s.read_status then behind s later else elim (calls i) [
      | completed bytes ↦ came (record s { read_buffer = bytes } ∷ rest) bytes
      | not_completed e ↦
          if is_pending e
          then behind (record s { read_status = true }) later
          else broke (s ∷ rest) e
    ]

-- The loop that looks which read worked, from interface `i` on.
unfoldable pub check_from : (ℕ → Overlapped) → ℕ → List Interface → Progress
check_from results i [] = through []
check_from results i (s ∷ rest) =
    let later = check_from results (i + 1) rest in
    elim (results i) [
      | completed bytes ↦ came (record s { read_buffer = bytes; read_status = false } ∷ rest) bytes
      | not_completed e ↦ if is_incomplete e then behind s later else broke (s ∷ rest) e
    ]

-- what `WaitForMultipleObjects` tells
pub data Wait : Type 0 where
  wait_failed wait_timeout wait_signalled : Wait

-- A read's device, result, the bytes that it copies out, and effects.
pub record ReadRun (Body : Type 0) : Type 0 where
  pub device : Device
  pub rc : ℤ
  pub bytes : Option (List ℕ)
  pub effects : List (Effect Body)

module _ {Body : Type 0} (decode : Decode Body) (code : LastError → ℤ) (hotplug : Hotplug) where
  abbrev pub ended : Device → ℤ → ReadRun Body
  ended d rc = record { device = d; rc = rc; bytes = none; effects = [] }

  -- What a loop gives, with `next` for the case that it gets to its end.
  unfoldable pub resolve : ℕ → Device → Progress → (Device → ReadRun Body) → ReadRun Body
  unfolding handle_device_failure
  resolve max_length d (through ss) next = next (record d { interfaces = ss })
  resolve max_length d (came ss bytes) next = record {
    device = record d { interfaces = ss };
    rc = success;
    bytes = some (take max_length bytes);
    effects = [];
  }
  resolve max_length d (broke ss e) next =
      let f = handle_device_failure decode code hotplug (record d { interfaces = ss }) e in
      record { device = f.device; rc = f.rc; bytes = none; effects = f.effects }

  -- `freespace_private_read` on the device that is found
  unfoldable pub private_read :
      (ℕ → Overlapped) → Wait → (ℕ → Overlapped) → ℕ → Device → ReadRun Body
  unfolding start_from check_from resolve
  private_read calls wait results max_length d =
      resolve max_length d (start_from calls 0 d.interfaces) λ d'. elim wait [
        | wait_failed ↦ ended d' error_io
        | wait_timeout ↦ ended d' error_timeout
        | wait_signalled ↦
            resolve max_length d' (check_from results 0 d'.interfaces) (λ d''. ended d'' error_io)
      ]

  -- `freespace_readMessage` on the device that is found: the read, the result, and the message
  unfoldable pub read_message :
      (ℕ → Overlapped) → Wait → (ℕ → Overlapped) → Device → ReadRun Body × ℤ × Option (Message Body)
  unfolding private_read
  read_message calls wait results d =
      let r = private_read calls wait results max_input_message_size d in
      if eq_ℤ r.rc success
      then (elim r.bytes [
        | none ↦ (r, r.rc, none)
        | some bytes ↦ let (rc, message) = decode bytes d.hver in (r, rc, some message)
      ])
      else (r, r.rc, none)

-- the loop of `freespace_flush`
unfoldable pub flushed : List Interface → List Interface
flushed [] = []
flushed (s ∷ rest) = record s { read_status = false } ∷ flushed rest

unfoldable pub flush_cancels : List Interface → List Action
flush_cancels [] = []
flush_cancels (s ∷ rest) = cancel_io s.handle ∷ flush_cancels rest

-- `freespace_flush` on the device that is found
unfoldable pub flush : Device → Device × ℤ × List Action
unfolding flushed flush_cancels
flush d = (record d { interfaces = flushed d.interfaces }, success, flush_cancels d.interfaces)
