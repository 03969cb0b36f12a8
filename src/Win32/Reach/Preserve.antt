-- ===== src/Win32/Reach/Preserve.antt =====
-- What keeps the invariant of the device manager on Windows.
use libfreespace.Common.{
  ℕ, suc, ◌≡◌, refl, subst, sym, ap, ◌∙◌, inl, inr, Bool, true, false, not, List, [], ◌∷◌, Option,
  none, some, if◌then◌else◌, ◌||◌, Bool-cases, length, ℤ, eq_ℤ, ◌==◌, arith,
}
use libfreespace.Errors.{success}
use libfreespace.Usb.Message.{Decode}
use libfreespace.Win32.Types.{Device, Manager, Notice}
use libfreespace.Win32.{initialize, remove_devices, filter_sweep, get_device_by_id}
use libfreespace.Win32.Sweep.{Lacks, HasDistinctIds, present}
use libfreespace.Win32.Settle.{KeepsId, HasDistinctIds-present, length-present}
use libfreespace.Win32.Discovery.{
  Scanned, scanned, overflows, handle_changes, remove_partially, add_ready, update,
}
use libfreespace.Win32.Changes.{settle_all, handle_changes-settle_all, settle-id}
use libfreespace.Win32.Match.{DiscoveryCalls, scan_and_add_devices, check_discovery, initialize_all}
use libfreespace.Win32.Keep.{IsValid, AreBelow, Holds, scan_and_add_devices-Holds, update-IsValid}
use libfreespace.Win32.Calls.{with_device}
use libfreespace.Win32.Receive.{LastError, Hotplug}
use libfreespace.Win32.Library.{
  DeviceCalls, perform_devices, discovery_status_changed, check_discovery_if_changed,
}
use libfreespace.Win32.Reach.Ids.{device_perform-id}

-- The devices of two lists have the same ids, in order.
abbrev pub SameIds : List Device → List Device → Type 0
SameIds [] [] = Unit {0}
SameIds [] (e ∷ es) = ⊥
SameIds (d ∷ ds) [] = ⊥
SameIds (d ∷ ds) (e ∷ es) = (d.id ≡ e.id) × SameIds ds es

SameIds-length : (ds es : List Device) → SameIds ds es → length ds ≡ length es
SameIds-length [] [] h = refl
SameIds-length [] (e ∷ es) h = absurd h
SameIds-length (d ∷ ds) [] h = absurd h
SameIds-length (d ∷ ds) (e ∷ es) h = ap suc (SameIds-length ds es h.1)

SameIds-Lacks : (n : ℕ) (ds es : List Device) → SameIds ds es → Lacks n ds → Lacks n es
SameIds-Lacks n [] [] h l = tt
SameIds-Lacks n [] (e ∷ es) h l = absurd h
SameIds-Lacks n (d ∷ ds) [] h l = absurd h
SameIds-Lacks n (d ∷ ds) (e ∷ es) h l = ((λ q. l.0 (h.0 ∙ q)), SameIds-Lacks n ds es h.1 l.1)

SameIds-distinct : (ds es : List Device) → SameIds ds es → HasDistinctIds ds → HasDistinctIds es
SameIds-distinct [] [] h l = tt
SameIds-distinct [] (e ∷ es) h l = absurd h
SameIds-distinct (d ∷ ds) [] h l = absurd h
SameIds-distinct (d ∷ ds) (e ∷ es) h l =
    (subst (λ n. Lacks n es) h.0 (SameIds-Lacks d.id ds es h.1 l.0), SameIds-distinct ds es h.1 l.1)

SameIds-below : (n : ℕ) (ds es : List Device) → SameIds ds es → AreBelow n ds → AreBelow n es
SameIds-below n [] [] h l = tt
SameIds-below n [] (e ∷ es) h l = absurd h
SameIds-below n (d ∷ ds) [] h l = absurd h
SameIds-below n (d ∷ ds) (e ∷ es) h l = (omega (arith, h.0, l.0), SameIds-below n ds es h.1 l.1)

-- The invariant reads the ids only.
SameIds-IsValid :
    (m m' : Manager)
    → SameIds m.devices m'.devices
    → m.next_device_id ≡ m'.next_device_id
    → IsValid m
    → IsValid m'
SameIds-IsValid m m' h e v = record {
  size = omega (arith, SameIds-length m.devices m'.devices h, v.size);
  distinct = SameIds-distinct m.devices m'.devices h v.distinct;
  below =
      subst (λ n. AreBelow n m'.devices) e
        (SameIds-below m.next_device_id m.devices m'.devices h v.below);
}

initialize_all-SameIds : (ds : List Device) → SameIds ds (initialize_all ds)
unfolding initialize
initialize_all-SameIds [] = tt
initialize_all-SameIds (d ∷ rest) = (refl, initialize_all-SameIds rest)

settle_all-SameIds : (ds : List Device) → SameIds ds (settle_all ds)
settle_all-SameIds [] = tt
settle_all-SameIds (d ∷ rest) = (sym (settle-id d), settle_all-SameIds rest)

AreBelow-present : (n : ℕ) (ds : List Device) → AreBelow n ds → AreBelow n (present ds)
AreBelow-present n [] h = tt
AreBelow-present n (d ∷ rest) h = elim (Bool-cases (filter_sweep d)) [
  | inl e ↦ rw e (AreBelow-present n rest h.1)
  | inr e ↦ rw e (h.0, AreBelow-present n rest h.1)
]

present-IsValid : (m : Manager) → IsValid m → IsValid (record m { devices = present m.devices })
present-IsValid m v = record {
  size = omega (arith, length-present m.devices, v.size);
  distinct = HasDistinctIds-present m.devices v.distinct;
  below = AreBelow-present m.next_device_id m.devices v.below;
}

handle_changes-next : (m : Manager) → (handle_changes m).0.next_device_id ≡ m.next_device_id
unfolding handle_changes remove_devices remove_partially add_ready
handle_changes-next m = refl

handle_changes-IsValid : (m : Manager) → IsValid m → IsValid (handle_changes m).0
handle_changes-IsValid m v =
    let left = record m { devices = present m.devices } in
    SameIds-IsValid left (handle_changes m).0
      (subst (SameIds (present m.devices)) (sym (handle_changes-settle_all m v.size v.distinct))
        (settle_all-SameIds (present m.devices)))
      (sym (handle_changes-next m)) (present-IsValid m v)

-- the manager that a discovery leaves
abbrev pub Kept : Option (Manager × ℤ × Bool × List Notice) → Type 0
Kept none = Unit {0}
Kept (some (m, rc, rescans, notices)) = IsValid m

check_discovery-Kept :
    (m : Manager) (c : DiscoveryCalls) (status : ℤ) → IsValid m → Kept (check_discovery m c status)
unfolding check_discovery
check_discovery-Kept m c status v =
    let m0 = record m { devices = initialize_all m.devices } in
    let v0 = SameIds-IsValid m m0 (initialize_all-SameIds m.devices) refl v in
    let s = scan_and_add_devices m0 c.lists c.complete c.listed in
    elim (Bool-cases c.is_pending) [
      | inl e ↦ rw e v
      | inr e ↦ rw e (handled s (scan_and_add_devices-Holds m0 c.lists c.complete c.listed v0))
    ]
  where
    handled :
        (s : Scanned)
        → Holds s
        → Kept (elim s [
          | overflows ↦ none
          | scanned m' rc ↦
              let (m'', n, notices) = handle_changes m' in
              if eq_ℤ rc success
              then some (m'', status, not (n == 0), notices)
              else some (m', rc, true, [])
        ])
    handled overflows h = tt
    handled (scanned m' rc) h = elim (Bool-cases (eq_ℤ rc success)) [
      | inl e ↦ rw e (handle_changes-IsValid m' h)
      | inr e ↦ rw e h
    ]

discovery_status_changed-IsValid :
    (is_signalled : Bool) (m : Manager)
    → IsValid m
    → IsValid (discovery_status_changed is_signalled m).0
unfolding discovery_status_changed
discovery_status_changed-IsValid is_signalled m v =
    chosen (m.need_to_rescan_devices || is_signalled)
  where
    chosen :
        (b : Bool)
        → let p : Manager × Bool =
            if b then (record m { need_to_rescan_devices = false }, true) else (m, false) in
          IsValid p.0
    chosen true = record { size = v.size; distinct = v.distinct; below = v.below }
    chosen false = v

pub check_discovery_if_changed-Kept :
    (c : DiscoveryCalls) (m : Manager) → IsValid m → Kept (check_discovery_if_changed c m)
unfolding check_discovery_if_changed
check_discovery_if_changed-Kept c m v =
    changed (discovery_status_changed c.is_signalled m)
      (discovery_status_changed-IsValid c.is_signalled m v)
  where
    changed :
        (p : Manager × Bool)
        → IsValid p.0
        → Kept (
            if p.1
            then check_discovery p.0 c p.0.discovery_thread_status
            else some (p.0, p.0.discovery_thread_status, false, []))
    changed (m', true) h = check_discovery-Kept m' c m'.discovery_thread_status h
    changed (m', false) h = h

module _ {Body : Type 0} (decode : Decode Body) (code : LastError → ℤ) where
  perform_devices-SameIds :
      (hotplug : Hotplug) (at : ℕ → DeviceCalls) (ds : List Device)
      → SameIds ds (perform_devices decode code hotplug at ds).0
  unfolding perform_devices
  perform_devices-SameIds hotplug at [] = tt
  perform_devices-SameIds hotplug at (d ∷ rest) =
      let c = at d.id in
      (
        sym (device_perform-id decode code hotplug c.send_results c.results c.calls d),
        perform_devices-SameIds hotplug at rest,
      )

  pub perform_devices-IsValid :
      (hotplug : Hotplug) (at : ℕ → DeviceCalls) (m : Manager)
      → IsValid m
      → IsValid (record m { devices = (perform_devices decode code hotplug at m.devices).0 })
  perform_devices-IsValid hotplug at m v =
      SameIds-IsValid m _ (perform_devices-SameIds hotplug at m.devices) refl v

pub with_device-IsValid :
    {A : Type 0} (m : Manager) (id : ℕ) (missing : A) (f : Device → Device × A)
    → KeepsId (λ d. (f d).0)
    → IsValid m
    → IsValid (with_device m id missing f).0
unfolding with_device
with_device-IsValid {A = A} m id missing f k v = found (get_device_by_id m.devices id)
  where
    found :
        (o : Option Device)
        → let p : Manager × A = elim o [
          | none ↦ (m, missing)
          | some d ↦ (record m { devices = update d.id (λ e. (f e).0) m.devices }, (f d).1)
        ] in
          IsValid p.0
    found none = v
    found (some d) = update-IsValid (λ x. (f x).0) k d.id m v
