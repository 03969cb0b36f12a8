-- ===== src/Hidraw/Table/Valid.antt =====
-- The invariant of the context of linux/freespace_hidraw.c, and the three changes that its
-- operations are made of.
use libfreespace.Common.{
  ℕ, zero, suc, ◌<◌, ◌≡◌, ◌≢◌, refl, sym, ap, ◌∙◌, true, false, List, [], ◌∷◌, Option, none, some,
  length, length-set, get_or, get_or-set, get_or-set_ne, set, ℤ, pos, negsuc, arith,
}
use native.Mathlib.Decide.{ℕ_discrete}
use libfreespace.Slots.{maximum_device_count, occupied, occupied-set, PointsToFree}
use libfreespace.Hidraw.Types.{unset, disconnected, Device, Context}
use libfreespace.Hidraw.Table.{slot, store}
use libfreespace.Hidraw.Table.Counts.{
  is_live, live, trues, live-set, trues-set, is_marked, is_marked-set_ne, get_or-true-lt,
}

-- The counts and the free index are right; every device has its state set; a device that is there
-- holds an id whose bit is set, no other such device has that id, and no other bit is set.
pub record IsValid (c : Context) : Type 0 where
  pub size : length c.devices ≡ maximum_device_count
  pub counted : c.num_devices ≡ occupied c.devices
  pub next : PointsToFree c.devices c.next_free_index
  pub bits_size : length c.connected_devices ≡ maximum_device_count
  pub balanced : trues c.connected_devices ≡ live c.devices
  pub settled : (i : ℕ) (d : Device) → slot c i ≡ some d → d.state ≢ unset
  pub marked :
      (i : ℕ) (d : Device)
      → slot c i ≡ some d
      → is_live d.state ≡ true
      → is_marked c.connected_devices d.id ≡ true
  pub apart :
      (i j : ℕ) (d e : Device)
      → slot c i ≡ some d
      → slot c j ≡ some e
      → is_live d.state ≡ true
      → is_live e.state ≡ true
      → d.id ≡ e.id
      → i ≡ j

pub slot-lt :
    (ds : List (Option Device)) (i : ℕ) {d : Device} → get_or ds i none ≡ some d → i < length ds
slot-lt [] i h = absurd (ground arith)
slot-lt (x ∷ rest) zero h = omega arith
slot-lt (x ∷ rest) (suc i) h = omega (arith, slot-lt rest i h)

pub store-PointsToFree :
    (ds : List (Option Device)) (i : ℕ) (o : Option ℕ) (d d' : Device)
    → get_or ds i none ≡ some d
    → PointsToFree ds o
    → PointsToFree (set ds i (some d')) o
store-PointsToFree ds i none d d' h f =
    ground (arith, slot-lt ds i h, occupied-set ds i (some d') (slot-lt ds i h))
store-PointsToFree ds i (some k) d d' h f = (
  omega (arith, length-set ds i (some d'), f.0),
  ground
      (arith, h, f.1, get_or-set ds i k (some d') none, ap (λ n. get_or ds n none) {x = i} {y = k}),
)

-- Every device that is there in the second context was there in the first, with its id.
abbrev pub Keeps : Context → Context → Type 0
Keeps c c' =
    (i : ℕ) (e : Device)
    → slot c' i ≡ some e
    → is_live e.state ≡ true
    → (d : Device) × (slot c i ≡ some d) × (is_live d.state ≡ true) × (d.id ≡ e.id)

pub Keeps-apart :
    (c c' : Context)
    → IsValid c
    → Keeps c c'
    → (i j : ℕ) (d e : Device) → slot c' i ≡ some d
    → slot c' j ≡ some e
    → is_live d.state ≡ true
    → is_live e.state ≡ true
    → d.id ≡ e.id
    → i ≡ j
Keeps-apart c c' v keep i j d e h k l m q =
    let (d0, h0, l0, q0) = keep i d h l in
    let (e0, k0, m0, r0) = keep j e k m in v.apart i j d0 e0 h0 k0 l0 m0 (q0 ∙ q ∙ sym r0)

store-Keeps :
    (c : Context) (i : ℕ) (d d' : Device)
    → slot c i ≡ some d
    → d'.id ≡ d.id
    → (is_live d'.state ≡ true → is_live d.state ≡ true)
    → Keeps c (store c i d')
store-Keeps c i d d' h same l j e k m = elim (ℕ_discrete i j) [
  | yes q ↦
      let there = slot-lt c.devices i h in
      (
        d,
        ap (slot c) (sym q) ∙ h,
        ground (arith, l, k, m, q, there, get_or-set c.devices i j (some d') none),
        ground (arith, same, k, q, there, get_or-set c.devices i j (some d') none),
      )
  | no q ↦ (e, sym (get_or-set_ne c.devices i j (some d') none q) ∙ k, m, refl)
]

-- A device is replaced by one with its id, and is there if it was.
pub store-IsValid :
    (c : Context) (i : ℕ) (d d' : Device)
    → IsValid c
    → slot c i ≡ some d
    → d'.id ≡ d.id
    → d'.state ≢ unset
    → is_live d'.state ≡ is_live d.state
    → IsValid (store c i d')
store-IsValid c i d d' v h same s l =
    let lt = slot-lt c.devices i h in
    record {
      size = omega (arith, length-set c.devices i (some d'), v.size);
      counted = ground (arith, h, v.counted, occupied-set c.devices i (some d') lt);
      next = store-PointsToFree c.devices i c.next_free_index d d' h v.next;
      bits_size = v.bits_size;
      balanced = ground (arith, h, l, v.balanced, live-set c.devices i (some d') lt);
      settled =
          λ j e k. ground (arith, k, s, get_or-set c.devices i j (some d') none, v.settled j e);
      marked = λ j e k m. ground (
        arith,
        k,
        m,
        h,
        same,
        l,
        get_or-set c.devices i j (some d') none,
        v.marked j e,
        v.marked i d h,
      );
      apart = Keeps-apart c (store c i d') v (store-Keeps c i d d' h same (λ x. sym l ∙ x));
    }

-- the id of a device that is there
pub live_id :
    (c : Context) (i : ℕ) (d : Device)
    → IsValid c
    → slot c i ≡ some d
    → is_live d.state ≡ true
    → (k : ℕ) × (d.id ≡ pos k) × (get_or c.connected_devices k false ≡ true)
live_id c i d v h l = go d.id (v.marked i d h l)
  where
    go :
        (id : ℤ)
        → is_marked c.connected_devices id ≡ true
        → (k : ℕ) × (id ≡ pos k) × (get_or c.connected_devices k false ≡ true)
    go (pos k) m = (k, refl, m)
    go (negsuc k) m = absurd (ground arith)

-- A device that is there is replaced by a disconnected one with its id, and the id is released.
abbrev pub retired : Context → ℕ → ℕ → Device → Context
retired c i k d' = record (store c i d') { connected_devices = set c.connected_devices k false }

pub retire-IsValid :
    (c : Context) (i k : ℕ) (d d' : Device)
    → IsValid c
    → slot c i ≡ some d
    → d.id ≡ pos k
    → is_live d.state ≡ true
    → d'.id ≡ d.id
    → d'.state ≡ disconnected
    → IsValid (retired c i k d')
retire-IsValid c i k d d' v h ek l same gone =
    let lt = slot-lt c.devices i h in
    let bits = c.connected_devices in
    let bit : get_or bits k false ≡ true = ap (is_marked bits) (sym ek) ∙ v.marked i d h l in
    let there = get_or-true-lt bits k bit in
    let keep = store-Keeps c i d d' h same (λ x. l) in
    record {
      size = omega (arith, length-set c.devices i (some d'), v.size);
      counted = ground (arith, h, v.counted, occupied-set c.devices i (some d') lt);
      next = store-PointsToFree c.devices i c.next_free_index d d' h v.next;
      bits_size = omega (arith, length-set bits k false, v.bits_size);
      balanced = ground (
        arith,
        h,
        l,
        gone,
        bit,
        v.balanced,
        live-set c.devices i (some d') lt,
        trues-set bits k false there,
      );
      settled =
          λ j e x. ground (arith, x, gone, get_or-set c.devices i j (some d') none, v.settled j e);
      marked = λ j e x m. elim (ℕ_discrete i j) [
        | yes q ↦
            absurd (ground (arith, x, m, gone, q, lt, get_or-set c.devices i j (some d') none))
        | no q ↦
            let old : slot c j ≡ some e = sym (get_or-set_ne c.devices i j (some d') none q) ∙ x in
            is_marked-set_ne bits k false e.id (λ p. q (v.apart i j d e h old l m (ek ∙ sym p)))
            ∙ v.marked j e old m
      ];
      apart = Keeps-apart c (retired c i k d') v keep;
    }
