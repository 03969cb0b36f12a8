-- ===== src/Tests/Instances.antt =====
-- An example for the states of the library on Windows.
use libfreespace.Common.{ℕ, ◌≡◌, refl, true, false, [], ◌∷◌, Option, none, some, length, ℤ, pos}
use libfreespace.DeviceTable.{device_api_table}
use libfreespace.Errors.{success}
use libfreespace.Usb.Message.{Decode, Encode}
use libfreespace.Win32.Match.{DiscoveryCalls}
use libfreespace.Win32.Types.{Manager}
use libfreespace.Win32.{filter_partially_removed, filter_ready, all_enumerated}
use libfreespace.Win32.Receive.{LastError, io_pending, not_completed, io_incomplete}
use libfreespace.Win32.Library.{
  InitCalls, discovery_thread_init, init, cleared, DeviceCalls, Performed, perform,
}
use libfreespace.Win32.Keep.{IsValid}
use libfreespace.Win32.Reach.{start, next, performs}
use libfreespace.Win32.Reach.Invariant.{manager-IsValid}
use libfreespace.Tests.Managers.{listed}

abbrev decode : Decode ℕ
decode bytes h_ver = (success, record { dest = 1; ver = h_ver; body = length bytes })

abbrev encode : Encode ℕ
encode m max_length = (pos 2, m.dest ∷ m.body ∷ [])

abbrev code : LastError → ℤ
code e = pos 1167

abbrev init_calls : InitCalls
init_calls = record { memory = true; timer = some 20; thread = true; event = some 21 }

abbrev begun : Manager
begun = record cleared {
  need_to_rescan_devices = true;
  discovery_event = some 20;
  perform_event = some 21;
}

begun-eq : (init init_calls none).0 ≡ some begun
unfolding init discovery_thread_init
begun-eq = refl

-- The first call finds a device.
abbrev discovery_calls : DiscoveryCalls
discovery_calls = record {
  is_signalled = false;
  is_pending = false;
  lists = true;
  complete = true;
  listed = listed ∷ [];
}

abbrev device_calls : ℕ → DeviceCalls
device_calls id = record {
  send_results = λ i. none;
  results = λ i. not_completed io_incomplete;
  calls = λ i. record { immediate = []; last_error = io_pending };
}

abbrev nothing : Performed ℕ
nothing = record { manager = cleared; rc = success; rescans = false; notices = []; effects = [] }

abbrev or_nothing : Option (Performed ℕ) → Performed ℕ
or_nothing none = nothing
or_nothing (some p) = p

performed-eq :
    perform decode code discovery_calls device_calls begun
    ≡ some (or_nothing (perform decode code discovery_calls device_calls begun))
unfolding perform device_api_table
performed-eq = refl

one_device :
    length (or_nothing (perform decode code discovery_calls device_calls begun)).manager.devices ≡ 1
unfolding perform filter_partially_removed filter_ready all_enumerated device_api_table
one_device = refl

manager-IsValid_example :
    IsValid (or_nothing (perform decode code discovery_calls device_calls begun)).manager
manager-IsValid_example =
    manager-IsValid decode encode code
      (or_nothing (perform decode code discovery_calls device_calls begun)).manager
      (next (start init_calls begun begun-eq) (
        performs discovery_calls device_calls
          (or_nothing (perform decode code discovery_calls device_calls begun)) performed-eq refl))
