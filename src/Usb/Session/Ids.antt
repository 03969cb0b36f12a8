-- ===== src/Usb/Session/Ids.antt =====
-- Which ids `freespace_getDeviceList` lists.
use libfreespace.Common.{
  ℕ, zero, suc, ◌<◌, ◌≡◌, true, [], ◌∷◌, none, some, is_some, get_elem?, arith,
}
use libfreespace.Usb.Table.{Slots, find_device_by_id}
use libfreespace.Usb.Session.{list_ids}

-- Every id that `freespace_getDeviceList` writes is found in the table, and it writes no more ids
-- than there is room for.
pub list_ids-found :
    (ds : Slots) (room k : ℕ) {id : ℕ}
    → get_elem? (list_ids ds room) k ≡ some id
    → (is_some (find_device_by_id ds id) ≡ true) × (k < room)
unfolding list_ids find_device_by_id
list_ids-found [] room k h = absurd (ground arith)
list_ids-found (none ∷ rest) room k h = list_ids-found rest room k h
list_ids-found (some d ∷ rest) zero k h = absurd (ground arith)
list_ids-found (some d ∷ rest) (suc room) zero h = ground arith
list_ids-found (some d ∷ rest) (suc room) (suc k) h = ground (arith, list_ids-found rest room k h)
