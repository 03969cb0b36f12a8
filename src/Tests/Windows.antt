-- ===== src/Tests/Windows.antt =====
-- Examples for the devices of win32/freespace_device.c and for `freespace_perform`.
use libfreespace.Common.{
  ℕ, ◌+◌, ◌-◌, ◌<◌, ◌≤◌, ◌≡◌, refl, true, false, List, [], ◌∷◌, ◌++◌, none, some, get_or, length,
  replicate, ltb, ◌==◌, if◌then◌else◌, ℤ, pos, arith,
}
use libfreespace.Errors.{success}
use libfreespace.Usb.Message.{Decode}
use libfreespace.Win32.Match.{DiscoveryCalls}
use libfreespace.Win32.Types.{existing, Device, Interface, blank}
use libfreespace.Win32.Close.{force_close, force_close_actions}
use libfreespace.Win32.Close.Release.{held_by, closed_by, force_close-releases}
use libfreespace.Win32.Receive.{
  LastError, io_pending, io_incomplete, device_not_connected, Hotplug, ReadCalls, Overlapped,
  completed, not_completed, device_perform,
}
use libfreespace.Win32.Receive.Listening.{Settles, device_perform-Settles}
use libfreespace.Win32.Open.{OpenCalls, open_device}
use libfreespace.Win32.Open.Outcome.{OpensOrReleases, open_device-OpensOrReleases}
use libfreespace.Win32.Send.{
  output_port, output_length, next_send_from, private_send, written, Waited,
}
use libfreespace.Win32.Send.Slots.{free_sends}
use libfreespace.Win32.Send.Prepare.{private_send-writes}
use libfreespace.Win32.Read.{wait_signalled, private_read}
use libfreespace.Win32.Read.Outcome.{Outcome, private_read-Outcome}
use libfreespace.Win32.Library.{DeviceCalls, perform}
use libfreespace.Win32.Library.Serviced.{PerformedServiced, perform-AllServiced}
use libfreespace.Tests.Managers.{device, manager, listed, interface_of}

-- A codec whose messages are their lengths.
abbrev decode : Decode ℕ
decode bytes h_ver = (success, record { dest = 1; ver = h_ver; body = length bytes })

abbrev code : LastError → ℤ
code e = pos 1167

abbrev hotplug : Hotplug
hotplug = some (1, 2)

abbrev opened : Device
opened = device 4 existing true

force_close-releases_example :
    (closed_by (force_close_actions opened) ≡ held_by opened) × (held_by (force_close opened) ≡ [])
force_close-releases_example = force_close-releases opened

-- Each read ends with two bytes, and the next one is pending.
abbrev results : ℕ → Overlapped
results i = completed (7 ∷ i ∷ [])

abbrev calls : ℕ → ReadCalls
calls i = record { immediate = (8 ∷ []) ∷ []; last_error = io_pending }

device_perform-Settles_example :
    Settles (device_perform decode code hotplug (λ i. none) results calls opened)
device_perform-Settles_example =
    device_perform-Settles decode code hotplug (λ i. none) results calls opened refl refl

-- The second interface cannot be bound.
abbrev open_calls : ℕ → OpenCalls
open_calls i = record {
  handle = 40 + i;
  binds = ltb i 1;
  sets_buffers = true;
  event = some (50 + i);
}

abbrev unopened_interface : Interface
unopened_interface = record (interface_of true) {
  handle = none;
  read_event = none;
  read_status = false;
}

abbrev unopened : Device
unopened = record opened {
  is_opened = false;
  interfaces = unopened_interface ∷ unopened_interface ∷ [];
}

open_device-OpensOrReleases_example :
    OpensOrReleases
      (open_device decode code hotplug 999 true open_calls (λ i. some (60 + i)) calls unopened)
open_device-OpensOrReleases_example =
    open_device-OpensOrReleases decode code hotplug 999 true open_calls (λ i. some (60 + i)) calls
      unopened refl

abbrev waited : Waited
waited = record { is_signalled = true; overlapped = some 4 }

a_send_is_free : next_send_from 0 opened.sends ≡ some 0
unfolding next_send_from
a_send_is_free = refl

four_bytes : (output_port opened).1 ≡ 4
unfolding output_port
four_bytes = refl

abbrev report : List ℕ
report = 1 ∷ 2 ∷ 3 ∷ []

abbrev long_report : List ℕ
long_report = 1 ∷ 2 ∷ 3 ∷ 4 ∷ 5 ∷ []

private_send-writes_example :
    let r = private_send (some 70) (written 4) waited opened report in
    (r.write
      ≡ some (
        (get_or opened.interfaces (output_port opened).0 blank).handle,
        report ++ replicate ((output_port opened).1 - length report) 0,
      ))
    × (free_sends r.device.sends ≡ free_sends opened.sends)
    × (output_length (get_or opened.interfaces (output_port opened).0 blank)
        ≡ (output_port opened).1)
    × ((j : ℕ)
        → j < length opened.interfaces
        → output_length (get_or opened.interfaces j blank) ≤ (output_port opened).1)
private_send-writes_example =
    private_send-writes (some 70) (written 4) waited opened report refl a_send_is_free refl
      (omega (arith, four_bytes)) (omega (arith, four_bytes))

-- The first read is not over yet, and at the second interface the device is not connected.
abbrev unplugged_results : ℕ → Overlapped
unplugged_results i = not_completed (if i == 0 then io_incomplete else device_not_connected)

private_read-Outcome_example :
    Outcome 96 (private_read decode code hotplug results wait_signalled unplugged_results 96 opened)
private_read-Outcome_example =
    private_read-Outcome decode code hotplug results wait_signalled unplugged_results 96 opened

abbrev discovery_calls : DiscoveryCalls
discovery_calls = record {
  is_signalled = true;
  is_pending = false;
  lists = true;
  complete = true;
  listed = listed ∷ [];
}

abbrev device_calls : ℕ → DeviceCalls
device_calls id = record { send_results = λ i. none; results = results; calls = calls }

perform-AllServiced_example :
    PerformedServiced (perform decode code discovery_calls device_calls manager)
perform-AllServiced_example = perform-AllServiced decode code discovery_calls device_calls manager
