-- ===== src/Hidraw/Listing.antt =====
-- `freespace_getDeviceList` of linux/freespace_hidraw.c: it handles one inotify event, which may
-- add a device, before it lists the ids.
use libfreespace.Common.{ℕ, List, [], if◌then◌else◌, ℤ, eq_ℤ, pos_part}
use libfreespace.Errors.{success}
use libfreespace.Hidraw.Types.{Context, Outcome, outcome}
use libfreespace.Hidraw.Session.{list_ids}
use libfreespace.Hidraw.Scan.{Event, inotify_process}

-- `freespace_getDeviceList`: what it leaves and returns, and the ids that it writes
unfoldable pub get_device_list : ℕ → Context → Event → ℤ → Outcome × List ℤ
unfolding inotify_process list_ids
get_device_list buffer_size c occurred max_ids =
    let p = inotify_process buffer_size c occurred in
    if eq_ℤ p.rc success
    then (outcome p.ctx success p.notices, list_ids p.ctx.devices (pos_part max_ids))
    else (p, [])
