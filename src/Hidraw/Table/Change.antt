-- ===== src/Hidraw/Table/Change.antt =====
-- Removal and addition of devices keep the invariant of the context of linux/freespace_hidraw.c.
use libfreespace.Common.{
  ℕ, zero, suc, ◌+◌, ◌-◌, ◌<◌, ◌≡◌, ◌≢◌, refl, sym, ap, subst, ◌∙◌, ◌⊎◌, Bool, true, false, List,
  [], ◌∷◌, Option, none, some, if◌then◌else◌, length, length-set, get_or, get_or-set,
  get_or-set_self, get_or-set_ne, set, set-set, is_some, pos, arith,
}
use native.Mathlib.Decide.{ℕ_discrete}
use libfreespace.Slots.{
  maximum_device_count, occupied-set, PointsToFree, following, following-PointsToFree,
  clear-PointsToFree, IsFree,
}
use libfreespace.Errors.{error_out_of_memory}
use libfreespace.Hidraw.Types.{connected, Device, Context}
use libfreespace.Hidraw.Table.{
  slot, blank, refused, allocated, allocate_new_device, deallocate_device, assign_id, assign_from,
}
use libfreespace.Hidraw.Table.Counts.{is_live, live-set, trues-set, is_marked, is_marked-set_ne}
use libfreespace.Hidraw.Table.Valid.{
  IsValid, slot-lt, Keeps, Keeps-apart, retired, store-PointsToFree,
}

set-none-Keeps : (c c' : Context) (i : ℕ) → c'.devices ≡ set c.devices i none → Keeps c c'
set-none-Keeps c c' i e j d h l = elim (ℕ_discrete i j) [
  | yes q ↦ absurd (
      ground (
        arith,
        q,
        h,
        ap (λ ds. get_or ds j none) e,
        get_or-set c.devices i j none none,
        cleared c.devices i,
      ))
  | no q ↦ (
    d,
    sym (get_or-set_ne c.devices i j none none q) ∙ sym (ap (λ ds. get_or ds j none) e) ∙ h,
    l,
    refl,
  )
]
  where
    cleared : (ds : List (Option Device)) (i : ℕ) → get_or (set ds i none) i none ≡ none
    cleared [] i = refl
    cleared (x ∷ rest) zero = refl
    cleared (x ∷ rest) (suc i) = cleared rest i

-- the context that a deallocation at slot `i` leaves
abbrev pub removed_at : Context → ℕ → Context
removed_at c i = record c {
  next_free_index = if is_some c.next_free_index then c.next_free_index else some i;
  devices = set c.devices i none;
  num_devices = c.num_devices - 1;
}

-- `_deallocateDevice` keeps the invariant if the device is not there any more.
pub deallocate_device-IsValid :
    (c : Context) (i : ℕ) (d : Device)
    → IsValid c
    → slot c i ≡ some d
    → is_live d.state ≡ false
    → IsValid (deallocate_device c i).0
unfolding deallocate_device
deallocate_device-IsValid c i d v h l =
    let lt = slot-lt c.devices i h in
    rw (h, deallocate_device)
      record {
        size = omega (arith, length-set c.devices i none, v.size);
        counted = ground (arith, h, v.counted, occupied-set c.devices i none lt);
        next = clear-PointsToFree c.devices i c.next_free_index lt v.next;
        bits_size = v.bits_size;
        balanced = ground (arith, h, l, v.balanced, live-set c.devices i none lt);
        settled = λ j e k. ground (arith, k, get_or-set c.devices i j none none, v.settled j e);
        marked = λ j e k m. ground (arith, k, m, get_or-set c.devices i j none none, v.marked j e);
        apart = Keeps-apart c (removed_at c i) v (set-none-Keeps c (removed_at c i) i refl);
      }

pub deallocate_device-removed :
    (c : Context) (i : ℕ) {d : Device}
    → slot c i ≡ some d
    → (deallocate_device c i).0 ≡ removed_at c i
unfolding deallocate_device
deallocate_device-removed c i h = rw (h, deallocate_device) refl

pub deallocate_device-none :
    (c : Context) (i : ℕ) → slot c i ≡ none → deallocate_device c i ≡ (c, [])
unfolding deallocate_device
deallocate_device-none c i h = rw (h, deallocate_device) refl

-- What stood in a slot that is freed does not matter.
pub removed_at-store :
    (c : Context) (i k : ℕ) (d e : Device)
    → removed_at (retired c i k d) i ≡ removed_at (retired c i k e) i
removed_at-store c i k d e =
    ap
      (λ (ds : List (Option Device)).
        record (removed_at (record c { connected_devices = set c.connected_devices k false }) i) {
          devices = ds;
        })
      (set-set c.devices i (some d) none ∙ sym (set-set c.devices i (some e) none))

-- The context after an addition at the free slot `i` with the id `k`.
abbrev pub added : Context → ℕ → ℕ → Device → Option ℕ → Context
added c i k d next = record c {
  num_devices = c.num_devices + 1;
  devices = set c.devices i (some d);
  connected_devices = set c.connected_devices k true;
  next_free_index = next;
}

added-apart :
    (c : Context) (i k : ℕ) (d : Device) (next : Option ℕ)
    → IsValid c
    → IsFree c.devices i
    → get_or c.connected_devices k false ≡ false
    → d.id ≡ pos k
    → (j j' : ℕ) (e e' : Device) → slot (added c i k d next) j ≡ some e
    → slot (added c i k d next) j' ≡ some e'
    → is_live e.state ≡ true
    → is_live e'.state ≡ true
    → e.id ≡ e'.id
    → j ≡ j'
added-apart c i k d next v f bit ek j j' e e' h h' l l' q = elim (ℕ_discrete i j) [
  | yes p ↦ elim (ℕ_discrete i j') [
    | yes p' ↦ sym p ∙ p'
    | no p' ↦ absurd (clash e' j' (old j' e' h' p') l' (sym q ∙ same j e p h))
  ]
  | no p ↦ elim (ℕ_discrete i j') [
    | yes p' ↦ absurd (clash e j (old j e h p) l (q ∙ same j' e' p' h'))
    | no p' ↦ v.apart j j' e e' (old j e h p) (old j' e' h' p') l l' q
  ]
]
  where
    old : (n : ℕ) (x : Device) → slot (added c i k d next) n ≡ some x → i ≢ n → slot c n ≡ some x
    old n x hx p = sym (get_or-set_ne c.devices i n (some d) none p) ∙ hx

    same : (n : ℕ) (x : Device) → i ≡ n → slot (added c i k d next) n ≡ some x → x.id ≡ pos k
    same n x p hx = ground (arith, p, hx, ek, f.0, get_or-set c.devices i n (some d) none)

    clash : (x : Device) (n : ℕ) → slot c n ≡ some x → is_live x.state ≡ true → x.id ≡ pos k → ⊥
    clash x n hx lx ex = cc (v.marked n x hx lx, ap (is_marked c.connected_devices) ex, bit)

pub added-IsValid :
    (c : Context) (i k : ℕ) (d : Device) (next : Option ℕ)
    → IsValid c
    → IsFree c.devices i
    → k < maximum_device_count
    → get_or c.connected_devices k false ≡ false
    → d.id ≡ pos k
    → d.state ≡ connected
    → PointsToFree (set c.devices i (some d)) next
    → IsValid (added c i k d next)
added-IsValid c i k d next v f hk bit ek st free =
    let bits = c.connected_devices in
    let lt = f.0 in
    let more = occupied-set c.devices i (some d) lt in
    let there : k < length bits = omega (arith, v.bits_size, hk) in
    record {
      size = omega (arith, length-set c.devices i (some d), v.size);
      counted = ground (arith, f.1, v.counted, more);
      next = free;
      bits_size = omega (arith, length-set bits k true, v.bits_size);
      balanced = ground (
        arith,
        f.1,
        st,
        bit,
        v.balanced,
        live-set c.devices i (some d) lt,
        trues-set bits k true there,
      );
      settled =
          λ j e x. ground (arith, x, st, get_or-set c.devices i j (some d) none, v.settled j e);
      marked = λ j e x m. elim (ℕ_discrete i j) [
        | yes q ↦ ground (
          arith,
          x,
          q,
          lt,
          ek,
          get_or-set c.devices i j (some d) none,
          get_or-set_self bits k true false there,
        )
        | no q ↦
            let old : slot c j ≡ some e = sym (get_or-set_ne c.devices i j (some d) none q) ∙ x in
            let bit_e = v.marked j e old m in
            let clash : e.id ≢ pos k = λ p. cc (bit_e, ap (is_marked bits) p, bit) in
            is_marked-set_ne bits k true e.id clash ∙ bit_e
      ];
      apart = added-apart c i k d next v f bit ek;
    }

-- The search behind the new slot goes over the device before its fields are set.
pub added-next :
    (c : Context) (i : ℕ) (a b : Device)
    → IsValid c
    → IsFree c.devices i
    → PointsToFree
        (set c.devices i (some b))
        (following (set c.devices i (some a)) (c.num_devices + 1) i)
added-next c i a b v f =
    let ds = set c.devices i (some a) in
    let next = following ds (c.num_devices + 1) i in
    let l = length-set c.devices i (some a) in
    subst (λ ds'. PointsToFree ds' next) (set-set c.devices i (some a) (some b))
      (store-PointsToFree ds i next a b (get_or-set_self c.devices i (some a) none f.0) (
        following-PointsToFree ds (c.num_devices + 1) i (omega (arith, l, v.size))
          (ground (arith, f.1, v.counted, occupied-set c.devices i (some a) f.0))
          (omega (arith, v.size, f.0))))

pub allocate_new_device-refused :
    (c : Context) (malloc : Bool)
    → (c.next_free_index ≡ none) ⊎ (malloc ≡ false)
    → allocate_new_device c malloc ≡ refused error_out_of_memory
unfolding allocate_new_device
allocate_new_device-refused c malloc h = ground arith

pub allocate_new_device-allocated :
    (c : Context) {i : ℕ}
    → c.next_free_index ≡ some i
    → allocate_new_device c true
      ≡ allocated
          (record c {
            num_devices = c.num_devices + 1;
            devices = set c.devices i (some (blank (c.num_devices + 1)));
            next_free_index =
                following
                  (set c.devices i (some (blank (c.num_devices + 1))))
                  (c.num_devices + 1)
                  i;
          })
          i
unfolding allocate_new_device
allocate_new_device-allocated c e = rw (e, allocate_new_device) refl

pub assign_id-assigned :
    (c : Context) {k : ℕ}
    → assign_from c.connected_devices maximum_device_count 0
      ≡ (pos k, set c.connected_devices k true)
    → assign_id c ≡ (pos k, record c { connected_devices = set c.connected_devices k true })
unfolding assign_id
assign_id-assigned c g = rw g refl
