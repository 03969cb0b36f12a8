-- ===== src/Hidraw/Poll/Ends.antt =====
-- The loops of `freespace_perform` of linux/freespace_hidraw.c end.
use libfreespace.Common.{Bool, true, false}
use libfreespace.Hidraw.Poll.{Progress, unfinished}

-- not out of fuel
abbrev pub is_finished : {Body : Type 0} → Progress Body → Bool
is_finished unfinished = false
is_finished _ = true
