-- ===== src/Config/Lookup.antt =====
-- What the lookups in the configuration find, and when they find nothing.
use looprail_backend.Prelude.{
  ◌≡◌, refl, ◌⊎◌, inl, inr, true, false, none, some, String, List, [], ◌∷◌, ◌++◌, arith, ap,
  Bool-cases,
}
use looprail_backend.Prelude.Text.{same_upper}
use looprail_backend.Config.{
  AssetData, AssetKey, asset_attribute, WalletEntry, Found, found, failed, not_found, LookupError,
  no_search_criteria, matches, first_match, get_asset, CountryInfo, CountriesData,
  get_country_name_by_currency, get_country_code_by_currency,
}

abbrev pub All {ℓ} : {A : Type 0} → (A → Type ℓ) → List A → Type ℓ
All P [] = Unit
All P (x ∷ xs) = P x × All P xs

module _ {A K : Type 0} (attribute : A → K → String) (criteria : List (K × String)) where
  abbrev pub Misses : A → Type 0
  Misses a = matches attribute criteria a ≡ false

  -- `a` is the first of `items` that matches.
  abbrev pub IsFirst : List A → A → Type 0
  IsFirst items a =
      (before : List A) × (after : List A) × (items ≡ before ++ (a ∷ after))
      × All Misses before
      × (matches attribute criteria a ≡ true)

  first_match-found :
      (items : List A) (a : A) → first_match attribute criteria items ≡ found a → IsFirst items a
  first_match-found [] a h = cc
  first_match-found (b ∷ items) a h = elim (Bool-cases (matches attribute criteria b)) [
    | inl hit ↦ let e : b ≡ a = ground arith in ([], items, ap (λ x. x ∷ items) e, tt, ground arith)
    | inr miss ↦
        let (before, after, e, misses, hit) = first_match-found items a (ground arith) in
        (b ∷ before, after, ap (λ l. b ∷ l) e, (miss, misses), hit)
  ]

  first_match-failed :
      (items : List A) (e : LookupError)
      → first_match attribute criteria items ≡ failed e
      → All Misses items × (e ≡ not_found)
  first_match-failed [] e h = (tt, ground arith)
  first_match-failed (b ∷ items) e h = elim (Bool-cases (matches attribute criteria b)) [
    | inl hit ↦ ground arith
    | inr miss ↦ let rest = first_match-failed items e (ground arith) in ((miss, rest.0), rest.1)
  ]

abbrev pub Looked : WalletEntry → List (AssetKey × String) → Found AssetData → Type 0
Looked wallet criteria (found a) = IsFirst asset_attribute criteria wallet.assets a
Looked wallet criteria (failed not_found) = All (Misses asset_attribute criteria) wallet.assets
Looked wallet criteria (failed no_search_criteria) = criteria ≡ []

first_match-Looked :
    (wallet : WalletEntry) (criteria : List (AssetKey × String)) (r : Found AssetData)
    → first_match asset_attribute criteria wallet.assets ≡ r
    → Looked wallet criteria r
first_match-Looked wallet criteria (found a) e =
    first_match-found asset_attribute criteria wallet.assets a e
first_match-Looked wallet criteria (failed not_found) e =
    (first_match-failed asset_attribute criteria wallet.assets not_found e).0
first_match-Looked wallet criteria (failed no_search_criteria) e =
    cc ((first_match-failed asset_attribute criteria wallet.assets no_search_criteria e).1)

-- `Wallet.get` returns the first asset that meets all of the criteria; it reports that none was
-- found only if no asset meets them, and missing criteria only if there are none.
pub get_asset_first :
    (wallet : WalletEntry) (criteria : List (AssetKey × String))
    → Looked wallet criteria (get_asset wallet criteria)
unfolding get_asset
get_asset_first wallet [] = refl
get_asset_first wallet (c ∷ criteria) =
    first_match-Looked wallet (c ∷ criteria)
      (first_match asset_attribute (c ∷ criteria) wallet.assets) refl

-- The country's code and its name by a currency come from one entry: the first whose currency is
-- equal but for case, and both are missing if there is none.
pub country_lookups_agree :
    (countries : CountriesData) (currency : String)
    → ((get_country_code_by_currency countries currency ≡ none)
        × (get_country_name_by_currency countries currency ≡ none)
        × All (λ e. same_upper e.1.currency currency ≡ false) countries)
      ⊎ ((code : String) × (country : CountryInfo) × (before : CountriesData)
          × (after : CountriesData) × (countries ≡ before ++ ((code, country) ∷ after))
          × All (λ e. same_upper e.1.currency currency ≡ false) before
          × (same_upper country.currency currency ≡ true)
          × (get_country_code_by_currency countries currency ≡ some code)
          × (get_country_name_by_currency countries currency ≡ some country.name))
unfolding get_country_code_by_currency get_country_name_by_currency
country_lookups_agree [] currency = inl (refl, refl, tt)
country_lookups_agree ((key, c) ∷ rest) currency =
    elim (Bool-cases (same_upper c.currency currency)) [
      | inl hit ↦ inr (key, c, [], rest, refl, tt, hit, rw hit, rw hit)
      | inr miss ↦ elim (country_lookups_agree rest currency) [
        | inl (no_code, no_name, misses) ↦ inl (rw miss no_code, rw miss no_name, (miss, misses))
        | inr (code, country, before, after, e, misses, hit, one, two) ↦ inr (
          code,
          country,
          (key, c) ∷ before,
          after,
          ap (λ l. (key, c) ∷ l) e,
          (miss, misses),
          hit,
          rw miss one,
          rw miss two,
        )
      ]
    ]
