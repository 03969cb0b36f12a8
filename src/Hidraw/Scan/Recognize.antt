-- ===== src/Hidraw/Scan/Recognize.antt =====
-- What the probe of linux/freespace_hidraw.c recognizes.
use libfreespace.Common.{
  ℕ, zero, suc, ◌+◌, ◌-◌, ◌<◌, ◌^◌, ◌≡◌, refl, sym, ap, ◌∙◌, ◌↔◌, true, List, [], ◌∷◌, Bool-cases,
  inl, inr, take, drop, length, arith,
}
use libfreespace.DeviceTable.{DeviceApi, device_api_table}
use libfreespace.DeviceTable.Lookup.{lookup, lookup_device}
use libfreespace.Hidraw.Scan.{hid_string, bytes_eq, search_from, string_found, find_api}

bytes_eq_iff : (xs ys : List ℕ) → (bytes_eq xs ys ≡ true) ↔ (xs ≡ ys)
bytes_eq_iff [] [] = (λ e. refl, λ e. refl)
bytes_eq_iff [] (y ∷ ys) = (λ e. absurd (ground arith), λ e. absurd (ground arith))
bytes_eq_iff (x ∷ xs) [] = (λ e. absurd (ground arith), λ e. absurd (ground arith))
bytes_eq_iff (x ∷ xs) (y ∷ ys) =
    let (there, back) = bytes_eq_iff xs ys in
    (λ e. ground (arith, there), λ e. ground (arith, back))

drop-drop : (i : ℕ) (xs : List ℕ) → drop i (drop 1 xs) ≡ drop (suc i) xs
drop-drop zero [] = refl
drop-drop (suc i) [] = refl
drop-drop i (x ∷ xs) = refl

search_from-found :
    (rounds : ℕ) (value : List ℕ)
    → search_from rounds value ≡ true
    → (i : ℕ) × (i < rounds) × (take 6 (drop i value) ≡ hid_string)
unfolding search_from
search_from-found zero value h = absurd (ground arith)
search_from-found (suc rounds) value h = elim (Bool-cases (bytes_eq hid_string (take 6 value))) [
  | inl e ↦ (0, omega arith, sym ((bytes_eq_iff hid_string (take 6 value)).0 e))
  | inr e ↦
      let (i, l, f) = search_from-found rounds (drop 1 value) (ground (arith, e, h)) in
      (suc i, omega arith, ap (take 6) (sym (drop-drop i value)) ∙ f)
]

search_from-finds :
    (rounds i : ℕ) (value : List ℕ)
    → i < rounds
    → take 6 (drop i value) ≡ hid_string
    → search_from rounds value ≡ true
unfolding search_from
search_from-finds zero i value l f = absurd (omega arith)
search_from-finds (suc rounds) zero value l f =
    ground (arith, (bytes_eq_iff hid_string (take 6 value)).1 (sym f))
search_from-finds (suc rounds) (suc i) value l f = ground (
  arith,
  search_from-finds rounds i (drop 1 value) (omega arith) (ap (take 6) (drop-drop i value) ∙ f),
)

-- The probe of a report descriptor succeeds exactly if the six bytes stand somewhere in it with at
-- least one byte behind them: at the very end of the descriptor they are not seen.
pub string_found_lem :
    (descriptor : List ℕ)
    → (string_found descriptor ≡ true)
      ↔ ((i : ℕ) × (i + 6 < length descriptor) × (take 6 (drop i descriptor) ≡ hid_string))
unfolding string_found
string_found_lem d = (
  λ h. let (i, l, f) = search_from-found (length d - 6) d h in (i, omega arith, f),
  λ (i, l, f). search_from-finds (length d - 6) i d (omega arith) f,
)

find_api-lookup :
    (table : List DeviceApi) (vendor product : ℕ)
    → vendor < 2 ^ 15
    → find_api table vendor product ≡ lookup table vendor product
unfolding find_api lookup
find_api-lookup [] vendor product h = refl
find_api-lookup (api ∷ rest) vendor product h =
    ground (arith, find_api-lookup rest vendor product h)

-- Both Linux backends choose the same entry of the table of devices for the same ids, if the vendor
-- is not negative as a signed 16-bit number.
pub find_api-eq-lookup_device :
    (vendor product : ℕ)
    → vendor < 2 ^ 15
    → find_api device_api_table vendor product ≡ lookup_device vendor product
unfolding lookup_device
find_api-eq-lookup_device vendor product h = find_api-lookup device_api_table vendor product h
