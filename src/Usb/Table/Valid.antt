-- ===== src/Usb/Table/Valid.antt =====
-- The invariant of the table of devices, kept by every operation of linux/freespace.c on it.
use libfreespace.Common.{
  ℕ, zero, suc, ◌+◌, ◌<◌, ◌≤◌, ◌≡◌, refl, inl, inr, none, some, Option-cases, length, length-set,
  get_or, set, ℤ, arith,
}
use libfreespace.Errors.{success, error_invalid_device}
use libfreespace.Usb.Types.{Device}
use libfreespace.Usb.Table.{
  Table, initial, find_device_by_id, add, slot_of, clear_slot, remove, clear_from, clear_all,
}
use libfreespace.Slots.{
  maximum_device_count, occupied, IsFree, occupied-set-some, occupied-set-none, PointsToFree,
  following, following-PointsToFree, clear-PointsToFree,
}
use libfreespace.Usb.Table.Map.{Distinct, Distinct-set_some, Distinct-set_none, slot_of-some}

pub record IsValid (t : Table) : Type 0 where
  pub size : length t.devices ≡ maximum_device_count
  pub counted : t.num_devices ≡ occupied t.devices
  pub next : PointsToFree t.devices t.next_free_index
  pub distinct : Distinct t.devices

pub initial-IsValid : IsValid initial
unfolding initial
initial-IsValid = record { size = refl; counted = refl; next = (omega arith, refl); distinct = tt }

add_at-IsValid :
    (t : Table) (i : ℕ) (d : Device)
    → IsValid t
    → IsFree t.devices i
    → find_device_by_id t.devices d.id ≡ none
    → IsValid (record {
      devices = set t.devices i (some d);
      num_devices = t.num_devices + 1;
      next_free_index = following (set t.devices i (some d)) (t.num_devices + 1) i;
    })
add_at-IsValid t i d v f fresh =
    let l = length-set t.devices i (some d) in
    let c = occupied-set-some t.devices i d f in
    record {
      size = omega (arith, l, v.size);
      counted = omega (arith, c, v.counted);
      next =
          following-PointsToFree (set t.devices i (some d)) (t.num_devices + 1) i
            (omega (arith, l, v.size)) (omega (arith, c, v.counted)) (omega (arith, v.size, f.0));
      distinct = Distinct-set_some t.devices i d f fresh v.distinct;
    }

-- The cases of an addition: the table is full, or `nextFreeIndex` names a free slot.
pub add-cases {ℓ} :
    (P : Table × ℤ → Type ℓ) (t : Table) (d : Device)
    → (t.next_free_index ≡ none → P (t, error_invalid_device))
    → ((i : ℕ)
        → t.next_free_index ≡ some i
        → P (
          record {
            devices = set t.devices i (some d);
            num_devices = t.num_devices + 1;
            next_free_index = following (set t.devices i (some d)) (t.num_devices + 1) i;
          },
          success,
        ))
    → P (add t d)
unfolding add
add-cases P t d full free = elim (Option-cases t.next_free_index) [
  | inl e ↦ rw (e, add) (full e)
  | inr (i, e) ↦ rw (e, add) (free i e)
]

-- `addFreespaceDevice` keeps the invariant for a device whose id is new; in particular the search
-- for the next free slot ends.
pub add-IsValid :
    (t : Table) (d : Device)
    → IsValid t
    → find_device_by_id t.devices d.id ≡ none
    → IsValid (add t d).0
add-IsValid t d v fresh =
    add-cases (λ r. IsValid r.0) t d (λ e. v) (λ i e. add_at-IsValid t i d v (rw e at v.next) fresh)

pub clear_slot-IsValid :
    (t : Table) (i : ℕ) {d : Device}
    → get_or t.devices i none ≡ some d
    → i < maximum_device_count
    → IsValid t
    → IsValid (clear_slot t i)
unfolding clear_slot
clear_slot-IsValid t i {d} h hi v = record {
  size = omega (arith, length-set t.devices i none, v.size);
  counted = omega (arith, occupied-set-none t.devices i d h, v.counted);
  next = clear-PointsToFree t.devices i t.next_free_index (omega (arith, v.size)) v.next;
  distinct = Distinct-set_none t.devices i v.distinct;
}

-- `removeFreespaceDevice` keeps the invariant.
pub remove-IsValid : (t : Table) (id : ℕ) → IsValid t → IsValid (remove t id)
unfolding remove
remove-IsValid t id v = elim (Option-cases (slot_of t.devices id 0)) [
  | inl e ↦ rw (e, remove) v
  | inr (k, e) ↦
      let (n, d, en, l, g, di) = slot_of-some t.devices id 0 e in
      let same : k ≡ n = omega arith in
      rw (e, remove, same) (clear_slot-IsValid t n g (omega (arith, v.size)) v)
]

clear_from-IsValid :
    (rounds i : ℕ) (t : Table)
    → i + rounds ≤ maximum_device_count
    → IsValid t
    → IsValid (clear_from rounds i t)
unfolding clear_from
clear_from-IsValid zero i t h v = v
clear_from-IsValid (suc rounds) i t h v = elim (Option-cases (get_or t.devices i none)) [
  | inl e ↦ rw e (clear_from-IsValid rounds (i + 1) t (omega arith) v)
  | inr (d, e) ↦ rw e (
      clear_from-IsValid rounds (i + 1) (clear_slot t i) (omega arith)
        (clear_slot-IsValid t i e (omega arith) v))
]

-- The loop of `freespace_exit` keeps the invariant.
pub clear_all-IsValid : (t : Table) → IsValid t → IsValid (clear_all t)
unfolding clear_all
clear_all-IsValid t v = clear_from-IsValid maximum_device_count 0 t (omega arith) v
