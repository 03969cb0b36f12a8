-- ===== src/Hidraw/Keep.antt =====
-- The calls of linux/freespace_hidraw.c keep the invariant of its context.
use libfreespace.Common.{
  ℕ, zero, suc, ◌+◌, ◌<◌, ◌≡◌, refl, sym, subst, ◌∙◌, ◌⊎◌, true, false, Option, none, some,
  Bool-cases, Option-cases, inl, inr, get_or, get_or-set_self, replicate, set, set-set, ℤ, pos,
  arith, is_neg,
}
use libfreespace.Slots.{maximum_device_count, IsFree, following, occupied-lt}
use libfreespace.DeviceTable.{DeviceApi}
use libfreespace.Hidraw.Types.{DeviceState, unset, connected, opened, disconnected, Device, Context}
use libfreespace.Hidraw.Table.{
  slot, store, blank, closed, release_id, find_device_by_id, deallocate_device,
}
use libfreespace.Hidraw.Table.Counts.{is_live, live-le-occupied, assign_from-found}
use libfreespace.Hidraw.Table.Valid.{
  IsValid, slot-lt, store-IsValid, live_id, retired, retire-IsValid,
}
use libfreespace.Hidraw.Table.Change.{
  assign_id-assigned, allocate_new_device-refused, allocate_new_device-allocated, added-next,
  deallocate_device-removed, removed_at-store, deallocate_device-IsValid, added, added-IsValid,
}
use libfreespace.Hidraw.Session.{
  with_device, InotifyCalls, init, zeroed, open_at, close_at, disconnect,
}
use libfreespace.Hidraw.Scan.{
  Entry, filled, add_device, scan_device, known_from, is_freespace_device,
}

-- GET_DEVICE: a property of what follows it holds if it holds when there is no device, and for the
-- device of each slot.
pub with_device-cases {ℓ κ} :
    {R : Type ℓ} (P : R → Type κ) (c : Context) (id : ℤ) (missing : R) (body : ℕ → Device → R)
    → P missing
    → ((i : ℕ) (d : Device) → slot c i ≡ some d → P (body i d))
    → P (with_device c id missing body)
with_device-cases P c id missing body m b = elim (Option-cases (find_device_by_id c id)) [
  | inl e ↦ rw (e, with_device) m
  | inr (i, e) ↦ elim (Option-cases (slot c i)) [
    | inl f ↦ rw (e, with_device, f) m
    | inr (d, f) ↦ rw (e, with_device, f) (b i d f)
  ]
]

pub state-cases :
    (s : DeviceState) → (s ≡ unset) ⊎ ((s ≡ connected) ⊎ ((s ≡ opened) ⊎ (s ≡ disconnected)))
state-cases unset = inl refl
state-cases connected = inr (inl refl)
state-cases opened = inr (inr (inl refl))
state-cases disconnected = inr (inr (inr refl))

zeroed-IsValid : (fd wd : ℤ) → IsValid (record zeroed { inotify_fd = fd; inotify_wd = wd })
zeroed-IsValid fd wd = record {
  size = refl;
  counted = refl;
  next = (omega arith, refl);
  bits_size = refl;
  balanced = refl;
  settled = λ i d h. absurd (ground (arith, h, empty 16 i));
  marked = λ i d h l. absurd (ground (arith, h, empty 16 i));
  apart = λ i j d e h k l m q. absurd (ground (arith, h, empty 16 i));
}
  where
    empty : (n i : ℕ) → get_or (replicate {A = Option Device} n none) i none ≡ none
    empty zero i = refl
    empty (suc n) zero = refl
    empty (suc n) (suc i) = empty n i

pub init-IsValid : (calls : InotifyCalls) → IsValid (init calls).ctx
unfolding init
init-IsValid calls = elim (Bool-cases (is_neg calls.init_rc)) [
  | inl e ↦ rw e (zeroed-IsValid calls.init_rc (pos 0))
  | inr e ↦ elim (Bool-cases (is_neg calls.fcntl_rc)) [
    | inl f ↦ rw (e, f) (zeroed-IsValid calls.init_rc (pos 0))
    | inr f ↦ elim (Bool-cases (is_neg calls.watch_rc)) [
      | inl g ↦ rw (e, f, g) (zeroed-IsValid calls.init_rc calls.watch_rc)
      | inr g ↦ rw (e, f, g) (zeroed-IsValid calls.init_rc calls.watch_rc)
    ]
  ]
]

pub open_at-IsValid :
    (c : Context) (i : ℕ) (d : Device) (fd : ℤ)
    → IsValid c
    → slot c i ≡ some d
    → IsValid (open_at c i d fd).ctx
unfolding open_at
open_at-IsValid c i d fd v h = elim (state-cases d.state) [
  | inl e ↦ rw (e, open_at) v
  | inr (inl e) ↦ elim (Bool-cases (is_neg fd)) [
    | inl f ↦
        rw (e, open_at, f)
          (store-IsValid c i d (record d { fd = fd }) v h refl (v.settled i d h) refl)
    | inr f ↦
        rw (e, open_at, f)
          (store-IsValid c i d (record d { fd = fd; state = opened }) v h refl (cc) (rw e refl))
  ]
  | inr (inr (inl e)) ↦ rw (e, open_at) v
  | inr (inr (inr e)) ↦ rw (e, open_at) v
]

pub closed-id : (d : Device) → ((closed d).id ≡ d.id) × ((closed d).state ≡ d.state)
closed-id d = ground arith

pub close_at-IsValid :
    (c : Context) (i : ℕ) (d : Device) → IsValid c → slot c i ≡ some d → IsValid (close_at c i d).0
unfolding close_at
close_at-IsValid c i d v h = elim (state-cases d.state) [
  | inl e ↦ rw (e, close_at) v
  | inr (inl e) ↦ rw (e, close_at) v
  | inr (inr (inl e)) ↦
      rw (e, close_at)
        (store-IsValid c i d (record (closed d) { state = connected }) v h (closed-id d).0 (cc)
          (rw e refl))
  | inr (inr (inr e)) ↦ rw (e, close_at) (deallocate_device-IsValid c i d v h (rw e refl))
]

-- `_disconnect` of a device that is there first takes it out of use.
pub retire-disconnect :
    (c : Context) (i k : ℕ) (d : Device)
    → IsValid c
    → slot c i ≡ some d
    → d.id ≡ pos k
    → is_live d.state ≡ true
    → IsValid (retired c i k (record (closed d) { state = disconnected }))
retire-disconnect c i k d v h e l =
    retire-IsValid c i k d (record (closed d) { state = disconnected }) v h e l (closed-id d).0 refl

-- A connected device that is disconnected is freed.
disconnect-freed :
    (c : Context) (i k : ℕ) (d : Device)
    → IsValid c
    → slot c i ≡ some d
    → d.id ≡ pos k
    → is_live d.state ≡ true
    → IsValid (deallocate_device (retired c i k (closed d)) i).0
disconnect-freed c i k d v h e l =
    let gone = record (closed d) { state = disconnected } in
    let here = λ (x : Device). get_or-set_self c.devices i (some x) none (slot-lt c.devices i h) in
    let same =
      deallocate_device-removed (retired c i k (closed d)) i (here (closed d))
      ∙ removed_at-store c i k (closed d) gone
      ∙ sym (deallocate_device-removed (retired c i k gone) i (here gone)) in
    subst IsValid (sym same) (
      deallocate_device-IsValid (retired c i k gone) i gone (retire-disconnect c i k d v h e l)
        (here gone) refl)

pub disconnect-IsValid :
    (c : Context) (i : ℕ) (d : Device)
    → IsValid c
    → slot c i ≡ some d
    → IsValid (disconnect c i d).ctx
unfolding disconnect
disconnect-IsValid c i d v h = elim (state-cases d.state) [
  | inl e ↦ rw (e, disconnect) v
  | inr (inl e) ↦
      let (k, ek, bit) = live_id c i d v h (rw e refl) in
      rw (e, disconnect)
        (subst (λ id. IsValid (deallocate_device (release_id (store c i (closed d)) id) i).0)
          (sym ek) (disconnect-freed c i k d v h ek (rw e refl)))
  | inr (inr (inl e)) ↦
      let (k, ek, bit) = live_id c i d v h (rw e refl) in
      rw (e, disconnect)
        (subst
          (λ id. IsValid (release_id (store c i (record (closed d) { state = disconnected })) id))
          (sym ek) (retire-disconnect c i k d v h ek (rw e refl)))
  | inr (inr (inr e)) ↦ rw (e, disconnect) v
]

-- The context that an addition leaves, written as its code computes it.
stored-IsValid :
    (c : Context) (i k : ℕ) (a d : Device)
    → IsValid c
    → IsFree c.devices i
    → k < maximum_device_count
    → get_or c.connected_devices k false ≡ false
    → d.id ≡ pos k
    → d.state ≡ connected
    → let next = following (set c.devices i (some a)) (c.num_devices + 1) i in
      IsValid (record (added c i k d next) { devices = set (set c.devices i (some a)) i (some d) })
stored-IsValid c i k a d v f l bit ek st =
    let next = following (set c.devices i (some a)) (c.num_devices + 1) i in
    subst (λ ds. IsValid (record (added c i k d next) { devices = ds }))
      (sym (set-set c.devices i (some a) (some d)))
      (added-IsValid c i k d next v f l bit ek st (added-next c i a d v f))

-- With a free slot and memory, `_scanDevice` adds the device there, under the lowest id that is not
-- in use.
add_device-IsValid :
    (c : Context) (e : Entry) (dev_num : ℕ) (api : DeviceApi)
    → IsValid c
    → IsValid (add_device c e dev_num api).ctx
unfolding add_device
add_device-IsValid c e dev_num api v = elim (Option-cases c.next_free_index) [
  | inl n ↦ rw (allocate_new_device-refused c e.malloc (inl n), add_device) v
  | inr (i, n) ↦ elim (Bool-cases e.malloc) [
    | inr m ↦ rw (allocate_new_device-refused c e.malloc (inr m), add_device) v
    | inl m ↦
        let f : IsFree c.devices i = rw n at v.next in
        let (k, bit, l, g) = assign_from-found c.connected_devices v.bits_size (
          omega
            (arith, v.balanced, live-le-occupied c.devices, v.size, occupied-lt c.devices i f)) in
        let a = blank (c.num_devices + 1) in
        let c' = record c {
          num_devices = c.num_devices + 1;
          devices = set c.devices i (some a);
          next_free_index = following (set c.devices i (some a)) (c.num_devices + 1) i;
        } in
        rw (m, allocate_new_device-allocated c n, add_device, assign_id-assigned c' g)
          (stored-IsValid c i k a (filled a (pos k) dev_num e.path api) v f l bit refl refl)
  ]
]

pub scan_device-IsValid : (c : Context) (e : Entry) → IsValid c → IsValid (scan_device c e).ctx
unfolding scan_device
scan_device-IsValid c e v = elim (Option-cases e.dev_num) [
  | inl n ↦ rw (n, scan_device) v
  | inr (dev_num, n) ↦ elim (Option-cases (known_from c.devices 0 c.num_devices dev_num)) [
    | inr (rc, k) ↦ rw (n, scan_device, k) v
    | inl k ↦ elim (Bool-cases e.accessible) [
      | inr a ↦ rw (n, scan_device, k, a) v
      | inl a ↦ elim (Option-cases (is_freespace_device e.probe).1) [
        | inl p ↦ rw (n, scan_device, k, a, p) v
        | inr (api, p) ↦ rw (n, scan_device, k, a, p) (add_device-IsValid c e dev_num api v)
      ]
    ]
  ]
]
