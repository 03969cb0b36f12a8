-- ===== src/Win32/Keep.antt =====
-- The invariant of the device manager of win32/freespace_deviceMgr.c, which the scan keeps.
use libfreespace.Common.{
  ℕ, suc, ◌+◌, ◌≤◌, ◌<◌, ◌≡◌, ◌≢◌, refl, subst, sym, ap, ◌∙◌, inl, inr, not, List, [], ◌∷◌, ◌++◌,
  Option, none, some, ◌==◌, ltb, is_some, get_or, if◌then◌else◌, Bool, true, false, Bool-cases,
  Option-cases, length, length-append, eq_ℤ, arith,
}
use libfreespace.Win32.Types.{Device, Manager, blank}
use libfreespace.Win32.Close.{force_close}
use libfreespace.Errors.{success, error_out_of_memory}
use libfreespace.Slots.{maximum_device_count}
use libfreespace.Win32.Sweep.{Lacks, HasDistinctIds}
use libfreespace.Win32.Settle.{KeepsId}
use libfreespace.DeviceTable.{DeviceApi, device_api_table}
use libfreespace.Win32.Match.{Listed, matched, scan_listed, scan_and_add_devices}
use libfreespace.Win32.Discovery.{
  update, Found, Scanned, scanned, overflows, seen_status, populate, enumerate, created, add_known,
  add_device, get_device_by_ref, add_new_device,
}

-- The ids are below a number.
abbrev pub AreBelow : ℕ → List Device → Type 0
AreBelow n [] = Unit {0}
AreBelow n (d ∷ rest) = (d.id < n) × AreBelow n rest

-- There are at most sixteen devices, each with its own id, and ids are still to be given from the
-- next one on.
pub record IsValid (m : Manager) : Type 0 where
  pub size : length m.devices ≤ maximum_device_count
  pub distinct : HasDistinctIds m.devices
  pub below : AreBelow m.next_device_id m.devices

abbrev pub Holds : Scanned → Type 0
Holds (scanned m rc) = IsValid m
Holds overflows = Unit {0}

module _ (f : Device → Device) (k : KeepsId f) (id : ℕ) where
  length-update : (ds : List Device) → length (update id f ds) ≡ length ds
  unfolding update
  length-update [] = refl
  length-update (d ∷ rest) = elim (Bool-cases (d.id == id)) [
    | inl e ↦ rw e refl
    | inr e ↦ rw e (ap suc (length-update rest))
  ]

  Lacks-update : (n : ℕ) (ds : List Device) → Lacks n ds → Lacks n (update id f ds)
  unfolding update
  Lacks-update n [] h = tt
  Lacks-update n (d ∷ rest) h = elim (Bool-cases (d.id == id)) [
    | inl e ↦ rw e ((λ q. h.0 (sym (k d) ∙ q)), h.1)
    | inr e ↦ rw e (h.0, Lacks-update n rest h.1)
  ]

  HasDistinctIds-update : (ds : List Device) → HasDistinctIds ds → HasDistinctIds (update id f ds)
  unfolding update
  HasDistinctIds-update [] h = tt
  HasDistinctIds-update (d ∷ rest) h = elim (Bool-cases (d.id == id)) [
    | inl e ↦ rw e (subst (λ n. Lacks n rest) (sym (k d)) h.0, h.1)
    | inr e ↦ rw e (Lacks-update d.id rest h.0, HasDistinctIds-update rest h.1)
  ]

  AreBelow-update : (n : ℕ) (ds : List Device) → AreBelow n ds → AreBelow n (update id f ds)
  unfolding update
  AreBelow-update n [] h = tt
  AreBelow-update n (d ∷ rest) h = elim (Bool-cases (d.id == id)) [
    | inl e ↦ rw e (subst (λ i. i < n) (sym (k d)) h.0, h.1)
    | inr e ↦ rw e (h.0, AreBelow-update n rest h.1)
  ]

  pub update-IsValid :
      (m : Manager) → IsValid m → IsValid (record m { devices = update id f m.devices })
  update-IsValid m v = record {
    size = omega (arith, length-update m.devices, v.size);
    distinct = HasDistinctIds-update m.devices v.distinct;
    below = AreBelow-update m.next_device_id m.devices v.below;
  }

AreBelow-suc : (n : ℕ) (ds : List Device) → AreBelow n ds → AreBelow (n + 1) ds
AreBelow-suc n [] h = tt
AreBelow-suc n (d ∷ rest) h = (omega (arith, h.0), AreBelow-suc n rest h.1)

AreBelow-last :
    (n : ℕ) (d : Device) (ds : List Device) → d.id < n → AreBelow n ds → AreBelow n (ds ++ d ∷ [])
AreBelow-last n d [] e h = (e, tt)
AreBelow-last n d (x ∷ rest) e h = (h.0, AreBelow-last n d rest e h.1)

Lacks-last :
    (n : ℕ) (d : Device) (ds : List Device) → d.id ≢ n → Lacks n ds → Lacks n (ds ++ d ∷ [])
Lacks-last n d [] e h = (e, tt)
Lacks-last n d (x ∷ rest) e h = (h.0, Lacks-last n d rest e h.1)

-- A device with the next id has an id of its own.
HasDistinctIds-last :
    (d : Device) (ds : List Device)
    → AreBelow d.id ds
    → HasDistinctIds ds
    → HasDistinctIds (ds ++ d ∷ [])
HasDistinctIds-last d [] b h = (tt, tt)
HasDistinctIds-last d (x ∷ rest) b h =
    (Lacks-last x.id d rest (omega (arith, b.0)) h.0, HasDistinctIds-last d rest b.1 h.1)

seen-id :
    (g : Device → Device)
    → KeepsId g
    → KeepsId (λ e. g (record e { status = seen_status e.status }))
seen-id g k d = k (record d { status = seen_status d.status })

add_known-Holds :
    (m : Manager) (f : Found) (i : ℕ) (d : Device) → IsValid m → Holds (add_known m f i d)
unfolding add_known force_close
add_known-Holds m f i d v =
    let s = get_or d.interfaces i blank in
    let keeps : (g : Device → Device)
        → KeepsId g
        → IsValid (record m {
          devices = update d.id (λ e. g (record e { status = seen_status e.status })) m.devices;
        }) =
      λ g k.
        update-IsValid (λ e. g (record e { status = seen_status e.status })) (seen-id g k) d.id m
          v in
    elim (Bool-cases (is_some s.handle)) [
      | inl a ↦ elim (Bool-cases f.handle_is_valid) [
        | inl b ↦ rw (a, b) (keeps (enumerate i) (λ e. refl))
        | inr b ↦ rw (a, b) (keeps force_close (λ e. refl))
      ]
      | inr a ↦ elim (Bool-cases (is_some s.device_path)) [
        | inl b ↦ rw (a, b) (keeps (enumerate i) (λ e. refl))
        | inr b ↦ elim (Bool-cases f.path_memory) [
          | inl c ↦ rw (a, b, c) (keeps (populate f i) (λ e. refl))
          | inr c ↦ rw (a, b, c) (keeps (λ e. e) (λ e. refl))
        ]
      ]
    ]

add_device-Holds :
    (m : Manager) (d : Device)
    → IsValid m
    → d.id ≡ m.next_device_id
    → Holds (add_device (record m { next_device_id = m.next_device_id + 1 }) d)
unfolding add_device
add_device-Holds m d v e = elim (Bool-cases (ltb (length m.devices) maximum_device_count)) [
  | inr a ↦ rw a tt
  | inl a ↦ rw a record {
    size = ground (arith, a, length-append m.devices (d ∷ []));
    distinct =
        HasDistinctIds-last d m.devices (subst (λ n. AreBelow n m.devices) (sym e) v.below)
          v.distinct;
    below =
        AreBelow-last (m.next_device_id + 1) d m.devices (omega (arith, e))
          (AreBelow-suc m.next_device_id m.devices v.below);
  }
]

-- the part of `addNewDevice` behind the search
add_found-Holds :
    (m : Manager) (f : Found) (i : ℕ) (o : Option Device)
    → IsValid m
    → Holds (elim o [
      | some d ↦ add_known m f i d
      | none ↦
          if not f.device_memory
          then scanned m error_out_of_memory
          else if not f.path_memory
          then scanned (record m { next_device_id = m.next_device_id + 1 }) error_out_of_memory
          else add_device
              (record m { next_device_id = m.next_device_id + 1 })
              (populate f i (created m f))
    ])
add_found-Holds m f i (some d) v = add_known-Holds m f i d v
add_found-Holds m f i none v = elim (Bool-cases (not f.device_memory)) [
  | inl c ↦ rw c v
  | inr c ↦ elim (Bool-cases (not f.path_memory)) [
    | inl p ↦
        rw (c, p)
          record {
            size = v.size;
            distinct = v.distinct;
            below = AreBelow-suc m.next_device_id m.devices v.below;
          }
    | inr p ↦ rw (c, p) (add_device-Holds m (populate f i (created m f)) v refl)
  ]
]

add_new_device-Holds : (m : Manager) (f : Found) → IsValid m → Holds (add_new_device m f)
unfolding add_new_device
add_new_device-Holds m f v = elim (Option-cases f.usage_index) [
  | inl a ↦ rw a v
  | inr (i, a) ↦ rw a (add_found-Holds m f i (get_device_by_ref m.devices f.unique_id) v)
]

Holds-then :
    (s : Scanned) (k : Manager → Scanned)
    → Holds s
    → ((m : Manager) → IsValid m → Holds (k m))
    → Holds (elim s [
      | overflows ↦ overflows
      | scanned m rc ↦ if eq_ℤ rc success then k m else scanned m rc
    ])
Holds-then overflows k h next = tt
Holds-then (scanned m rc) k h next = elim (Bool-cases (eq_ℤ rc success)) [
  | inl e ↦ rw e (next m h)
  | inr e ↦ rw e h
]

-- Wherever the scan ends without writing behind the array, failures included, the manager has at
-- most sixteen devices, each with its own id, and its next id is above them all, if that held
-- before.
scan_listed-Holds :
    (table : List DeviceApi) (complete : Bool) (listed : List Listed) (m : Manager)
    → IsValid m
    → Holds (scan_listed table m complete listed)
unfolding scan_listed
scan_listed-Holds table complete [] m v = v
scan_listed-Holds table complete (l ∷ rest) m v = elim (Bool-cases l.detail_memory) [
  | inr a ↦ rw a v
  | inl a ↦ elim (Bool-cases l.has_detail) [
    | inr b ↦ rw (a, b) v
    | inl b ↦ elim (Option-cases (matched table l)) [
      | inl n ↦ rw (a, b, n) (scan_listed-Holds table complete rest m v)
      | inr (f, n) ↦
          rw (a, b, n)
            (Holds-then (add_new_device m f) (λ m'. scan_listed table m' complete rest)
              (add_new_device-Holds m f v) (scan_listed-Holds table complete rest))
    ]
  ]
]

pub scan_and_add_devices-Holds :
    (m : Manager) (lists complete : Bool) (listed : List Listed)
    → IsValid m
    → Holds (scan_and_add_devices m lists complete listed)
unfolding scan_and_add_devices
scan_and_add_devices-Holds m true complete listed v =
    scan_listed-Holds device_api_table complete listed m v
scan_and_add_devices-Holds m false complete listed v = v
