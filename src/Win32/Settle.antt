-- ===== src/Win32/Settle.antt =====
-- What `checkDiscovery` of win32/freespace_deviceMgr.c makes of the devices behind its scan.
use libfreespace.Common.{
  ℕ, suc, ◌≤◌, ◌≡◌, ◌≢◌, refl, subst, sym, ap, ◌∙◌, inl, inr, Bool, true, false, List, [], ◌∷◌,
  if◌then◌else◌, Bool-cases, length, arith,
}
use libfreespace.Win32.Types.{Device, Manager}
use libfreespace.Win32.Close.{force_close, close}
use libfreespace.Slots.{maximum_device_count}
use libfreespace.Win32.{filter_sweep, filter_partially_removed, filter_ready}
use libfreespace.Win32.Sweep.{
  Lacks, HasDistinctIds, present, selected, filter_devices-selected, Lacks-selected,
}
use libfreespace.Win32.Discovery.{
  update, update_all, make_unavailable, make_available, remove_partially, add_ready,
}

-- The devices with `f` done to those that pass a test.
abbrev pub mapped : (Device → Bool) → (Device → Device) → List Device → List Device
mapped p f [] = []
mapped p f (d ∷ rest) = (if p d then f d else d) ∷ mapped p f rest

abbrev pub KeepsId : (Device → Device) → Type 0
KeepsId f = (d : Device) → (f d).id ≡ d.id

update-head :
    (f : Device → Device) (id : ℕ) (d : Device) (ds : List Device)
    → d.id ≡ id
    → update id f (d ∷ ds) ≡ f d ∷ ds
unfolding update
update-head f id d ds h = ground (arith, h)

update-skip :
    (f : Device → Device) (id : ℕ) (d : Device) (ds : List Device)
    → d.id ≢ id
    → update id f (d ∷ ds) ≡ d ∷ update id f ds
unfolding update
update-skip f id d ds h = ground (arith, h)

update_all-skip :
    (f : Device → Device) (d : Device) (out ds : List Device)
    → Lacks d.id out
    → update_all f out (d ∷ ds) ≡ d ∷ update_all f out ds
unfolding update_all
update_all-skip f d [] ds h = refl
update_all-skip f d (e ∷ rest) ds h =
    ap (update_all f rest) (update-skip f e.id d ds (λ k. h.0 (sym k)))
    ∙ update_all-skip f d rest (update e.id f ds) h.1

-- The change of each selected device, after another change of the same devices.
update_all-mapped :
    (p : Device → Bool) (f g : Device → Device) (ds : List Device)
    → KeepsId f
    → KeepsId g
    → HasDistinctIds ds
    → update_all f (selected p ds) (mapped p g ds) ≡ mapped p (λ d. f (g d)) ds
unfolding update_all
update_all-mapped p f g [] kf kg h = refl
update_all-mapped p f g (d ∷ rest) kf kg h =
    let apart = Lacks-selected p d.id rest h.0 in
    elim (Bool-cases (p d)) [
      | inl e ↦ rw e (
          ap (update_all f (selected p rest)) (update-head f d.id (g d) (mapped p g rest) (kg d))
          ∙ update_all-skip f (f (g d)) (selected p rest) (mapped p g rest)
              (subst (λ id. Lacks id (selected p rest)) (sym (kf (g d) ∙ kg d)) apart)
          ∙ ap (λ ds. f (g d) ∷ ds) (update_all-mapped p f g rest kf kg h.1))
      | inr e ↦ rw e (
          update_all-skip f d (selected p rest) (mapped p g rest) apart
          ∙ ap (λ ds. d ∷ ds) (update_all-mapped p f g rest kf kg h.1))
    ]

mapped_id : (p : Device → Bool) (ds : List Device) → mapped p (λ d. d) ds ≡ ds
mapped_id p [] = refl
mapped_id p (d ∷ rest) = elim (Bool-cases (p d)) [
  | inl e ↦ rw e (ap (λ ds. d ∷ ds) (mapped_id p rest))
  | inr e ↦ rw e (ap (λ ds. d ∷ ds) (mapped_id p rest))
]

update_all_lem :
    (p : Device → Bool) (f : Device → Device) (ds : List Device)
    → KeepsId f
    → HasDistinctIds ds
    → update_all f (selected p ds) ds ≡ mapped p f ds
update_all_lem p f ds k h =
    ap (update_all f (selected p ds)) (sym (mapped_id p ds))
    ∙ update_all-mapped p f (λ d. d) ds k (λ d. refl) h

pub length-mapped :
    (p : Device → Bool) (f : Device → Device) (ds : List Device)
    → length (mapped p f ds) ≡ length ds
length-mapped p f [] = refl
length-mapped p f (d ∷ rest) = ap suc (length-mapped p f rest)

choose-id : (b : Bool) (d e : Device) → d.id ≡ e.id → (if b then d else e).id ≡ e.id
choose-id true d e h = h
choose-id false d e h = refl

Lacks-mapped :
    (p : Device → Bool) (f : Device → Device) (id : ℕ) (ds : List Device)
    → KeepsId f
    → Lacks id ds
    → Lacks id (mapped p f ds)
Lacks-mapped p f id [] k h = tt
Lacks-mapped p f id (d ∷ rest) k h =
    (λ e. h.0 (sym (choose-id (p d) (f d) d (k d)) ∙ e), Lacks-mapped p f id rest k h.1)

pub HasDistinctIds-mapped :
    (p : Device → Bool) (f : Device → Device) (ds : List Device)
    → KeepsId f
    → HasDistinctIds ds
    → HasDistinctIds (mapped p f ds)
HasDistinctIds-mapped p f [] k h = tt
HasDistinctIds-mapped p f (d ∷ rest) k h = (
  subst (λ id. Lacks id (mapped p f rest)) (sym (choose-id (p d) (f d) d (k d)))
      (Lacks-mapped p f d.id rest k h.0),
  HasDistinctIds-mapped p f rest k h.1,
)

Lacks-present : (id : ℕ) (ds : List Device) → Lacks id ds → Lacks id (present ds)
Lacks-present id [] h = tt
Lacks-present id (d ∷ rest) h = elim (Bool-cases (filter_sweep d)) [
  | inl e ↦ rw e (Lacks-present id rest h.1)
  | inr e ↦ rw e (h.0, Lacks-present id rest h.1)
]

pub HasDistinctIds-present : (ds : List Device) → HasDistinctIds ds → HasDistinctIds (present ds)
HasDistinctIds-present [] h = tt
HasDistinctIds-present (d ∷ rest) h = elim (Bool-cases (filter_sweep d)) [
  | inl e ↦ rw e (HasDistinctIds-present rest h.1)
  | inr e ↦ rw e (Lacks-present d.id rest h.0, HasDistinctIds-present rest h.1)
]

pub length-present : (ds : List Device) → length (present ds) ≤ length ds
length-present [] = omega arith
length-present (d ∷ rest) = elim (Bool-cases (filter_sweep d)) [
  | inl e ↦ rw e (omega (arith, length-present rest))
  | inr e ↦ rw e (omega (arith, length-present rest))
]

pub close-KeepsId : KeepsId close
unfolding close force_close
close-KeepsId d = elim (Bool-cases d.is_opened) [ inl e ↦ rw e refl | inr e ↦ rw e refl ]

pub remove_partially-mapped :
    (m : Manager)
    → length m.devices ≤ maximum_device_count
    → HasDistinctIds m.devices
    → (remove_partially m).0.devices
      ≡ mapped filter_partially_removed (λ d. close (make_unavailable d)) m.devices
unfolding remove_partially
remove_partially-mapped m h u =
    let p = filter_partially_removed in
    let same = filter_devices-selected p maximum_device_count m.devices h in
    ap (λ out. update_all close out (update_all make_unavailable out m.devices)) same
    ∙ ap (update_all close (selected p m.devices))
        (update_all_lem p make_unavailable m.devices (λ d. refl) u)
    ∙ update_all-mapped p close make_unavailable m.devices close-KeepsId (λ d. refl) u

pub add_ready-mapped :
    (m : Manager)
    → length m.devices ≤ maximum_device_count
    → HasDistinctIds m.devices
    → (add_ready m).0.devices ≡ mapped filter_ready make_available m.devices
unfolding add_ready
add_ready-mapped m h u =
    ap (λ out. update_all make_available out m.devices)
      (filter_devices-selected filter_ready maximum_device_count m.devices h)
    ∙ update_all_lem filter_ready make_available m.devices (λ d. refl) u
