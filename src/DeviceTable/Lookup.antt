-- ===== src/DeviceTable/Lookup.antt =====
-- `lookupDevice` of linux/freespace.c: the search of the table of known devices.
use Prim.Native.Nat.{bit_and}
use libfreespace.Common.{
  ℕ, ◌≡◌, refl, Bool, true, false, not, ◌&&◌, List, [], ◌∷◌, Option, none, some, ◌==◌,
  if◌then◌else◌, Bool-cases, inl, inr, arith,
}
use libfreespace.DeviceTable.{DeviceApi, device_api_table}

-- The loop of `lookupDevice`: an entry is passed over by the first `continue` if the vendor
-- differs, and by the second if the product differs under the entry's mask.
unfoldable pub lookup : List DeviceApi → ℕ → ℕ → Option DeviceApi
lookup [] vendor product = none
lookup (api ∷ rest) vendor product =
    let next = lookup rest vendor product in
    if not (vendor == api.id_vendor)
    then next
    else if not (bit_and product api.mask == bit_and api.id_product api.mask)
    then next
    else some api

unfoldable pub lookup_device : ℕ → ℕ → Option DeviceApi
unfolding lookup
lookup_device vendor product = lookup device_api_table vendor product

-- an entry for these ids
abbrev pub Serves : ℕ → ℕ → DeviceApi → Type 0
Serves vendor product api =
    (vendor ≡ api.id_vendor) × (bit_and product api.mask ≡ bit_and api.id_product api.mask)

abbrev pub All {ℓ κ} : {A : Type ℓ} → (A → Type κ) → List A → Type κ
All P [] = Unit
All P (x ∷ xs) = P x × All P xs

pub data FirstMatch (vendor product : ℕ) (api : DeviceApi) : List DeviceApi → Type 0 where
  here :
      {rest : List DeviceApi}
      → Serves vendor product api
      → FirstMatch vendor product api (api ∷ rest)
  there :
      {other : DeviceApi} {rest : List DeviceApi}
      → ¬ (Serves vendor product other)
      → FirstMatch vendor product api rest
      → FirstMatch vendor product api (other ∷ rest)

abbrev pub Finds : ℕ → ℕ → List DeviceApi → Option DeviceApi → Type 0
Finds vendor product table none = All (λ api. ¬ (Serves vendor product api)) table
Finds vendor product table (some api) = FirstMatch vendor product api table

Finds-pass :
    (v p : ℕ) (api : DeviceApi) (rest : List DeviceApi) (o : Option DeviceApi)
    → ¬ (Serves v p api)
    → Finds v p rest o
    → Finds v p (api ∷ rest) o
Finds-pass v p api rest none n h = (n, h)
Finds-pass v p api rest (some a) n h = FirstMatch.there n h

lookup-Finds : (t : List DeviceApi) (v p : ℕ) → Finds v p t (lookup t v p)
unfolding lookup
lookup-Finds [] v p = tt
lookup-Finds (api ∷ rest) v p =
    let found = lookup-Finds rest v p in
    elim (Bool-cases (v == api.id_vendor)) [
      | inr e ↦ rw e (Finds-pass v p api rest (lookup rest v p) (λ s. ground arith) found)
      | inl e ↦ elim (Bool-cases (bit_and p api.mask == bit_and api.id_product api.mask)) [
        | inr d ↦ rw (e, d) (Finds-pass v p api rest (lookup rest v p) (λ s. ground arith) found)
        | inl d ↦ rw (e, d) (FirstMatch.here (ground arith))
      ]
    ]

-- `lookupDevice` returns the first entry of the table that has the device's vendor and, under the
-- entry's mask, its product; it returns NULL exactly if there is no such entry.
pub lookup_device_lem :
    (vendor product : ℕ) → Finds vendor product device_api_table (lookup_device vendor product)
unfolding lookup_device
lookup_device_lem vendor product = lookup-Finds device_api_table vendor product

-- The tests of `lookup` pass at the ids of the second entry.
abbrev serves : DeviceApi → DeviceApi → Bool
serves api e =
    e.id_vendor == api.id_vendor && bit_and e.id_product api.mask == bit_and api.id_product api.mask

-- `api` serves no entry of the list.
clear : DeviceApi → List DeviceApi → Bool
clear api [] = true
clear api (e ∷ rest) = not (serves api e) && clear api rest

distinct : List DeviceApi → Bool
distinct [] = true
distinct (api ∷ rest) = clear api rest && distinct rest

-- A lookup of the entry's own ids in the table gives the entry.
abbrev pub FindsItself : List DeviceApi → DeviceApi → Type 0
FindsItself table api = lookup table api.id_vendor api.id_product ≡ some api

lookup-pass :
    (api e : DeviceApi) (rest : List DeviceApi)
    → serves api e ≡ false
    → FindsItself rest e
    → FindsItself (api ∷ rest) e
unfolding lookup
lookup-pass api e rest n h = ground arith

All-FindsItself-cons :
    (api : DeviceApi) (t rest : List DeviceApi)
    → clear api rest ≡ true
    → All (FindsItself t) rest
    → All (FindsItself (api ∷ t)) rest
unfolding clear
All-FindsItself-cons api t [] c h = tt
All-FindsItself-cons api t (e ∷ rest) c h =
    (lookup-pass api e t (ground arith) h.0, All-FindsItself-cons api t rest (ground arith) h.1)

lookup-head : (api : DeviceApi) (rest : List DeviceApi) → FindsItself (api ∷ rest) api
unfolding lookup
lookup-head api rest = ground arith

distinct-FindsItself : (t : List DeviceApi) → distinct t ≡ true → All (FindsItself t) t
unfolding distinct
distinct-FindsItself [] d = tt
distinct-FindsItself (api ∷ rest) d = (
  lookup-head api rest,
  All-FindsItself-cons api rest rest (ground arith) (distinct-FindsItself rest (ground arith)),
)

table-distinct : distinct device_api_table ≡ true
unfolding distinct clear device_api_table
table-distinct = refl

-- No entry of the table of known devices is shadowed by an earlier one: the search at the ids of
-- each of the entries gives that entry.
pub table-FindsItself : All (FindsItself device_api_table) device_api_table
table-FindsItself = distinct-FindsItself device_api_table table-distinct
