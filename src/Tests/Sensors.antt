-- ===== src/Tests/Sensors.antt =====
-- Examples for the getters of common/freespace_util.c, the table of devices and the hotplug socket.
use libfreespace.Common.{
  ℕ, ◌≡◌, refl, List, [], ◌∷◌, none, some, Bool, true, ℤ, pos, negsuc, replicate, arith, ltb,
}
use libfreespace.Errors.{success}
use libfreespace.Motion.Extract.{Packet, MultiAxisSensor}
use libfreespace.Motion.Layout.{
  acceleration, magnetometer, ang_pos, describe, locate, locate-eq-describe,
}
use libfreespace.Motion.Bounds.{read, read_in_bounds}
use libfreespace.Motion.RoundTrip.{Sections, pack, here, there, encode, read-pack}
use libfreespace.DeviceTable.{device_api_table}
use libfreespace.DeviceTable.Lookup.{lookup_device, Finds, lookup_device_lem}
use libfreespace.Hotplug.{unopened, InitCalls}
use libfreespace.Hotplug.Debounce.{run, rescans, run-rescans}

-- A fraction stands for a float.
abbrev fraction : ℤ → ℕ → ℤ × ℕ
fraction v scale = (v, scale)

abbrev zeros : MultiAxisSensor (ℤ × ℕ)
zeros = record { w = (pos 0, 1); x = (pos 0, 1); y = (pos 0, 1); z = (pos 0, 1) }

-- an acceleration and a magnetometer reading in format 1
abbrev sections : Sections
sections = record {
  s0 = some (encode acceleration true (1, 2, 3));
  s1 = none;
  s2 = none;
  s3 = some (encode magnetometer true (500, 65535, 7));
  s4 = none;
  s5 = none;
  s6 = none;
  s7 = none;
}

abbrev packet : Packet
packet = pack 1 sections (replicate 32 0)

locate-eq-describe_example : locate magnetometer packet ≡ describe magnetometer packet
locate-eq-describe_example = locate-eq-describe magnetometer packet

read_in_bounds_example :
    (r : ℤ × MultiAxisSensor (ℤ × ℕ)) × (read fraction ang_pos packet zeros ≡ some r)
read_in_bounds_example = read_in_bounds fraction ang_pos packet zeros refl

read-pack_example :
    read fraction magnetometer packet zeros
    ≡ some (
      success,
      record { w = (pos 0, 1); x = (pos 500, 1000); y = (negsuc 0, 1000); z = (pos 7, 1000) },
    )
read-pack_example =
    read-pack fraction magnetometer 1 1000 sections (replicate 32 0) (500, 65535, 7) zeros refl
      (there (ground arith) refl
        (there (ground arith) tt (there (ground arith) tt (here refl refl refl))))
      (ground arith)

lookup_device_lem_example : Finds 0x1d5a 0xc010 device_api_table (lookup_device 0x1d5a 0xc010)
lookup_device_lem_example = lookup_device_lem 0x1d5a 0xc010

abbrev polls : List (List ℕ × Bool)
polls = ([], true) ∷ (120 ∷ [], true) ∷ ([], true) ∷ ([], true) ∷ []

run-rescans_example : run unopened polls ≡ rescans (ltb 0 unopened.delay) polls
run-rescans_example = run-rescans unopened polls

abbrev refused : InitCalls
refused = record {
  socket = pos 4;
  bind = negsuc 0;
  bind_eperm = true;
  setsockopt = pos 0;
  fcntl = pos 0;
}
