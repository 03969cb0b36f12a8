-- ===== src/Tests/Nodes.antt =====
-- Examples for the devices of linux/freespace_hidraw.c.
use libfreespace.Common.{
  ℕ, ◌+◌, ◌<◌, ◌≡◌, refl, ◌==◌, ◌↔◌, true, false, List, [], ◌∷◌, ◌++◌, none, some, length, take,
  drop, pos, arith,
}
use libfreespace.Errors.{success}
use libfreespace.Slots.{maximum_device_count}
use libfreespace.DeviceTable.{device_api_table}
use libfreespace.DeviceTable.Lookup.{lookup_device}
use libfreespace.Usb.Message.{Decode}
use libfreespace.Hidraw.Types.{Context}
use libfreespace.Hidraw.Table.{slot}
use libfreespace.Hidraw.Table.Counts.{trues}
use libfreespace.Hidraw.Table.Valid.{IsValid}
use libfreespace.Hidraw.Session.{init, open_device, exit}
use libfreespace.Hidraw.Session.Frees.{freed, held_slots}
use libfreespace.Hidraw.Session.Exit.{exit-empties}
use libfreespace.Hidraw.Scan.{
  hid_string, string_found, find_api, probed, Entry, read_failed, scan_all_devices,
}
use libfreespace.Hidraw.Scan.Recognize.{string_found_lem, find_api-eq-lookup_device}
use libfreespace.Hidraw.Io.{ReadCall}
use libfreespace.Hidraw.Poll.{finished, PollCalls, after_poll, perform}
use libfreespace.Hidraw.Reach.{opens, performs, Reached, start, next, Reached-IsValid}

abbrev decode : Decode ℕ
decode bytes ver = (success, record { dest = 0; ver = ver; body = 0 })

abbrev no_reads : ℕ → List ReadCall
no_reads i = []

abbrev descriptor : List ℕ
descriptor = 5 ∷ 1 ∷ hid_string ++ 0xc0 ∷ []

abbrev dongle : Entry
dongle = record {
  is_hidraw = true;
  dev_num = some 4;
  path = 47 ∷ 100 ∷ [];
  accessible = true;
  probe = probed 0x1d5a 0xc001 descriptor;
  malloc = true;
}

abbrev started : Context
started = (init (record { init_rc = pos 3; fcntl_rc = pos 0; watch_rc = pos 1 })).ctx

-- `poll` finds nothing ready
abbrev idle : PollCalls
idle = record {
  entries = some (dongle ∷ []);
  nfds = pos 0;
  revents = λ j. record { readable = false; hung_up = false; other = false };
  event = read_failed true;
  rc = pos 0;
}

abbrev scanned : Context
scanned = (scan_all_devices started (some (dongle ∷ []))).ctx

abbrev plugged : Context
plugged = (open_device scanned (pos 0) (pos 7)).ctx

plugged-Reached : Reached decode plugged
unfolding perform after_poll
plugged-Reached =
    next
      (next (start (record { init_rc = pos 3; fcntl_rc = pos 0; watch_rc = pos 1 }) started refl) (
        performs no_reads 272 true idle
          (finished decode no_reads (scan_all_devices started (some (dongle ∷ []))) success) refl
          refl))
      (opens (pos 0) (pos 7) refl)

Reached-IsValid_example : IsValid plugged
Reached-IsValid_example = Reached-IsValid decode plugged plugged-Reached

exit-empties_example :
    (freed (exit plugged).1 ≡ held_slots maximum_device_count 0 plugged)
    × ((j : ℕ) → j < maximum_device_count → slot (exit plugged).0 j ≡ none)
    × ((exit plugged).0.num_devices ≡ 0)
    × (trues (exit plugged).0.connected_devices ≡ 0)
exit-empties_example = exit-empties plugged (Reached-IsValid decode plugged plugged-Reached)

-- the device's descriptor is ready
abbrev ready : PollCalls
ready = record idle {
  nfds = pos 1;
  revents = λ j. record { readable = j == 1; hung_up = false; other = false };
}

string_found_lem_example :
    (string_found descriptor ≡ true)
    ↔ ((i : ℕ) × (i + 6 < length descriptor) × (take 6 (drop i descriptor) ≡ hid_string))
string_found_lem_example = string_found_lem descriptor

find_api-eq-lookup_device_example :
    find_api device_api_table 0x1d5a 0xc001 ≡ lookup_device 0x1d5a 0xc001
find_api-eq-lookup_device_example = find_api-eq-lookup_device 0x1d5a 0xc001 (omega arith)
