-- ===== src/Usb/Poll.antt =====
-- The event loop of linux/freespace.c: timeouts, polling, and the file descriptors to watch.
pub mod Earliest
use libfreespace.Common.{
  ℕ, ◌+◌, ◌*◌, ◌/◌, ◌%◌, ◌^◌, signed32, lt_ℤ, ◌≤◌, ◌<◌, ◌≡◌, Bool, true, false, ◌&&◌, List, [], ◌∷◌,
  map, Option, none, some, ltb, if◌then◌else◌, ℤ, pos, negsuc, arith, inl, inr, ◌⊎◌, refl,
}
use libfreespace.Errors.{success}
use libfreespace.Hotplug.{get_fd, timeout}
use libfreespace.Usb.Types.{LibusbError, LibusbResult, done, failed, Callback}
use libfreespace.Usb.Status.{libusb_to_freespace_error}
use libfreespace.Usb.Library.{Library}
use libfreespace.Usb.Scan.{Scanned, DeviceList, scan_devices}

-- What `libusb_get_next_timeout` returns: 0, 1 with the seconds and microseconds, or a code.
pub data NextTimeout : Type 0 where
  no_timeout : NextTimeout
  next : ℕ → ℕ → NextTimeout
  next_failed : LibusbError → NextTimeout

-- `freespace_getNextTimeout`: the timeout in ms and the result. The time that libusb asks for is
-- computed in the wider type of `tv_sec`, and what is kept of it is an `int`.
unfoldable pub get_next_timeout : Library → NextTimeout → ℤ × ℤ
get_next_timeout lib no_timeout =
    (if ltb 0 (timeout lib.hotplug) then pos (timeout lib.hotplug) else negsuc 0, success)
get_next_timeout lib (next sec usec) =
    let ms = signed32 ((sec * 1000 + usec / 1000) % 2 ^ 32) in
    (
      if ltb 0 (timeout lib.hotplug) && lt_ℤ (timeout lib.hotplug) ms
          then pos (timeout lib.hotplug)
          else ms,
      libusb_to_freespace_error (done 1),
    )
get_next_timeout lib (next_failed e) = (negsuc 0, libusb_to_freespace_error (failed e))

-- `freespace_perform`: what the scan leaves, and the result of `libusb_handle_events_timeout`
unfoldable pub perform_all : Library → List ℕ → Bool → DeviceList → LibusbResult → Scanned × ℤ
perform_all lib received eagain list handled =
    (scan_devices lib received eagain list, libusb_to_freespace_error handled)

-- a call of a callback for file descriptors; a removal has no events
pub data FdNotice : Type 0 where
  fd_added : Callback → ℤ → ℕ → FdNotice
  fd_removed : Callback → ℤ → FdNotice

-- `pollfd_added_cb`
unfoldable pub pollfd_added : Library → ℤ → ℕ → List FdNotice
pollfd_added lib fd events = elim lib.user_added_callback [
  | none ↦ []
  | some c ↦ fd_added c fd events ∷ []
]

-- `pollfd_removed_cb`
unfoldable pub pollfd_removed : Library → ℤ → List FdNotice
pollfd_removed lib fd = elim lib.user_removed_callback [ none ↦ [] | some c ↦ fd_removed c fd ∷ [] ]

-- `freespace_setFileDescriptorCallbacks`
unfoldable pub set_file_descriptor_callbacks : Library → Option Callback → Option Callback → Library
set_file_descriptor_callbacks lib added removed = record lib {
  user_added_callback = added;
  user_removed_callback = removed;
}

module _ (pollin : ℕ) where
  -- `freespace_syncFileDescriptors`; `fds` are those of `libusb_get_pollfds`, with their events.
  unfoldable pub sync_file_descriptors : Library → List (ℤ × ℕ) → List FdNotice
  sync_file_descriptors lib fds = elim lib.user_added_callback [
    | none ↦ []
    | some c ↦ fd_added c (get_fd lib.hotplug) pollin ∷ map (λ (p : ℤ × ℕ). fd_added c p.0 p.1) fds
  ]

-- the timeout in ms that libusb asks for, if any, before its conversion to an `int`
abbrev pub asked : NextTimeout → Option ℕ
asked no_timeout = none
asked (next sec usec) = some (sec * 1000 + usec / 1000)
asked (next_failed e) = none
