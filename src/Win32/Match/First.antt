-- ===== src/Win32/Match/First.antt =====
-- `getDeviceAPI` of win32/freespace_discoveryDetail.c finds the first entry that an interface fits.
use Prim.Native.Nat.{bit_and}
use libfreespace.Common.{
  ℕ, zero, suc, ◌+◌, ◌<◌, ◌≡◌, refl, ap, ◌⊎◌, inl, inr, true, false, not, ◌&&◌, List, [], ◌∷◌,
  Option, none, some, ◌==◌, length, Bool-cases, arith,
}
use libfreespace.DeviceTable.{DeviceUsageApi, DeviceApi, device_api_table}
use libfreespace.DeviceTable.Lookup.{All}
use libfreespace.Win32.Types.{InterfaceInfo}
use libfreespace.Win32.Match.{usages, usage_index_from, get_device_api_index, get_device_api}

-- A usage of the table fits an interface; 0 stands for any number.
abbrev pub Fits : InterfaceInfo → DeviceUsageApi → Type 0
Fits info u =
    ((u.usage ≡ 0) ⊎ (u.usage ≡ info.usage))
    × ((u.usage_page ≡ 0) ⊎ (u.usage_page ≡ info.usage_page))

-- The first usage of the list that fits is this one.
abbrev pub FirstFit : InterfaceInfo → List DeviceUsageApi → ℕ → Type 0
FirstFit info [] j = ⊥
FirstFit info (u ∷ rest) zero = Fits info u
FirstFit info (u ∷ rest) (suc j) = (¬ (Fits info u)) × FirstFit info rest j

-- what the search from usage `i` on gives
abbrev pub Indexes : InterfaceInfo → ℕ → List DeviceUsageApi → Option ℕ → Type 0
Indexes info i us none = All (λ u. ¬ (Fits info u)) us
Indexes info i us (some k) = (j : ℕ) × ((k ≡ i + j) × FirstFit info us j)

Indexes-pass :
    (info : InterfaceInfo) (i : ℕ) (u : DeviceUsageApi) (us : List DeviceUsageApi) (o : Option ℕ)
    → ¬ (Fits info u)
    → Indexes info (i + 1) us o
    → Indexes info i (u ∷ us) o
Indexes-pass info i u us none n h = (n, h)
Indexes-pass info i u us (some k) n (j, (e, f)) = (suc j, (omega (arith, e), (n, f)))

-- The test of a `continue` for one of the two numbers.
Bool-any :
    (a b : ℕ)
    → ((not (a == 0) && not (a == b) ≡ true) × ¬ ((a ≡ 0) ⊎ (a ≡ b)))
      ⊎ ((not (a == 0) && not (a == b) ≡ false) × ((a ≡ 0) ⊎ (a ≡ b)))
Bool-any a b = elim (Bool-cases (a == 0)) [
  | inl e ↦ inr (rw e refl, inl (ground arith))
  | inr e ↦ elim (Bool-cases (a == b)) [
    | inl c ↦ inr (rw (e, c) refl, inr (ground arith))
    | inr c ↦ inl (rw (e, c) refl, λ h. elim h [ inl x ↦ ground arith | inr x ↦ ground arith ])
  ]
]

usage_index_from-Indexes :
    (info : InterfaceInfo) (i : ℕ) (us : List DeviceUsageApi)
    → Indexes info i us (usage_index_from i us info)
unfolding usage_index_from
usage_index_from-Indexes info i [] = tt
usage_index_from-Indexes info i (u ∷ us) =
    let ih = usage_index_from-Indexes info (i + 1) us in
    elim (Bool-any u.usage info.usage) [
      | inl (e, n) ↦ rw e (Indexes-pass info i u us _ (λ f. n f.0) ih)
      | inr (e, y) ↦ elim (Bool-any u.usage_page info.usage_page) [
        | inl (c, n) ↦ rw (e, c) (Indexes-pass info i u us _ (λ f. n f.1) ih)
        | inr (c, z) ↦ rw (e, c) (0, (omega arith, (y, z)))
      ]
    ]

index_lem :
    (info : InterfaceInfo) (api : DeviceApi)
    → Indexes info 0 (usages api) (get_device_api_index api info)
unfolding get_device_api_index
index_lem info api = usage_index_from-Indexes info 0 (usages api)

-- An entry serves an interface by its usage `j`.
abbrev pub ServesBy : InterfaceInfo → DeviceApi → ℕ → Type 0
ServesBy info api j =
    (info.id_vendor ≡ api.id_vendor)
    × ((bit_and info.id_product api.mask ≡ bit_and api.id_product api.mask)
        × FirstFit info (usages api) j)

-- No usage of the entry serves.
abbrev pub Fails : InterfaceInfo → DeviceApi → Type 0
Fails info api = (j : ℕ) → ¬ (ServesBy info api j)

-- The first entry of the list that serves is this one.
pub data FirstServes (info : InterfaceInfo) (api : DeviceApi) : List DeviceApi → Type 0 where
  here :
      {rest : List DeviceApi} (j : ℕ)
      → ServesBy info api j
      → get_device_api_index api info ≡ some j
      → j < length (usages api)
      → FirstServes info api (api ∷ rest)
  there :
      {other : DeviceApi} {rest : List DeviceApi}
      → Fails info other
      → FirstServes info api rest
      → FirstServes info api (other ∷ rest)

abbrev pub Chooses : InterfaceInfo → List DeviceApi → Option DeviceApi → Type 0
Chooses info table none = All (Fails info) table
Chooses info table (some api) = FirstServes info api table

Chooses-pass :
    (info : InterfaceInfo) (api : DeviceApi) (rest : List DeviceApi) (o : Option DeviceApi)
    → Fails info api
    → Chooses info rest o
    → Chooses info (api ∷ rest) o
Chooses-pass info api rest none n h = (n, h)
Chooses-pass info api rest (some a) n h = FirstServes.there n h

FirstFit-length :
    (info : InterfaceInfo) (us : List DeviceUsageApi) (j : ℕ) → FirstFit info us j → j < length us
FirstFit-length info [] j h = absurd h
FirstFit-length info (u ∷ rest) zero h = omega arith
FirstFit-length info (u ∷ rest) (suc j) h = omega (arith, FirstFit-length info rest j h.1)

none-FirstFit :
    (info : InterfaceInfo) (us : List DeviceUsageApi) (j : ℕ)
    → All (λ u. ¬ (Fits info u)) us
    → ¬ (FirstFit info us j)
none-FirstFit info [] j h f = f
none-FirstFit info (u ∷ rest) zero h f = h.0 f
none-FirstFit info (u ∷ rest) (suc j) h f = none-FirstFit info rest j h.1 f.1

index-cases :
    (info : InterfaceInfo) (api : DeviceApi) (o : Option ℕ)
    → get_device_api_index api info ≡ o
    → Indexes info 0 (usages api) o
    → ((o ≡ none) × ((j : ℕ) → ¬ (FirstFit info (usages api) j)))
      ⊎ ((j : ℕ) × ((o ≡ some j) × FirstFit info (usages api) j))
index-cases info api none e h = inl (refl, λ j. none-FirstFit info (usages api) j h)
index-cases info api (some k) e (j, (c, f)) = inr (j, (ap some (omega (arith, c)), f))

get_device_api-Chooses :
    (info : InterfaceInfo) (table : List DeviceApi) → Chooses info table (get_device_api table info)
unfolding get_device_api
get_device_api-Chooses info [] = tt
get_device_api-Chooses info (api ∷ rest) =
    let ih = get_device_api-Chooses info rest in
    let next = get_device_api rest info in
    elim (Bool-cases (info.id_vendor == api.id_vendor)) [
      | inr e ↦ rw e (Chooses-pass info api rest next (λ j s. ground arith) ih)
      | inl e ↦
          elim (Bool-cases (bit_and info.id_product api.mask == bit_and api.id_product api.mask)) [
            | inr d ↦ rw (e, d) (Chooses-pass info api rest next (λ j s. ground arith) ih)
            | inl d ↦
                elim (index-cases info api (get_device_api_index api info) refl
                  (index_lem info api)) [
                    | inl (n, none_fits) ↦
                        rw (e, d, n) (Chooses-pass info api rest next (λ j s. none_fits j s.1.1) ih)
                    | inr (j, (n, f)) ↦
                        rw (e, d, n)
                          (FirstServes.here j (ground arith, (ground arith, f)) n
                            (FirstFit-length info (usages api) j f))
                  ]
          ]
    ]

-- `getDeviceAPI` returns the first entry of the table of known devices that has the interface's
-- vendor and, under the entry's mask, its product, and one of whose usages fits, where 0 fits all;
-- it returns NULL exactly if no entry does. `getDeviceAPIIndex` then gives the first usage of the
-- entry that fits.
pub get_device_api_lem :
    (info : InterfaceInfo) → Chooses info device_api_table (get_device_api device_api_table info)
get_device_api_lem info = get_device_api-Chooses info device_api_table
