-- ===== src/Config/Tests.antt =====
-- The lookups at a small configuration.
use looprail_backend.Prelude.{◌≡◌, ◌⊎◌, ◌++◌, none, some, true, false, String, [], ◌∷◌}
use looprail_backend.Prelude.Text.{same_upper}
use looprail_backend.Config.{
  AssetData, AssetKey, WalletEntry, get_asset, CountryInfo, CountriesData,
  get_country_name_by_currency, get_country_code_by_currency,
}
use looprail_backend.Config.Lookup.{Looked, All, get_asset_first, country_lookups_agree}

abbrev usdc : AssetData
usdc = record {
  asset_id = "a1";
  blockrader_asset_id = some "br1";
  address = "0x1";
  symbol = "USDC";
}

abbrev cngn : AssetData
cngn = record { asset_id = "a2"; blockrader_asset_id = none; address = "0x2"; symbol = "cNGN" }

abbrev master : WalletEntry
master = record { wallet_id = "w"; wallet_name = "master_base_wallet"; assets = usdc ∷ cngn ∷ [] }

get_asset_first_example :
    Looked master
      ((AssetKey.symbol, "cNGN") ∷ [])
      (get_asset master ((AssetKey.symbol, "cNGN") ∷ []))
get_asset_first_example = get_asset_first master ((AssetKey.symbol, "cNGN") ∷ [])

abbrev nigeria : CountryInfo
nigeria = record { name = "Nigeria"; dial_code = "+234"; currency = "NGN"; enabled = true }

abbrev countries : CountriesData
countries = ("NG", nigeria) ∷ []

country_lookups_agree_example :
    ((get_country_code_by_currency countries "ngn" ≡ none)
      × (get_country_name_by_currency countries "ngn" ≡ none)
      × All (λ e. same_upper e.1.currency "ngn" ≡ false) countries)
    ⊎ ((code : String) × (country : CountryInfo) × (before : CountriesData)
        × (after : CountriesData) × (countries ≡ before ++ ((code, country) ∷ after))
        × All (λ e. same_upper e.1.currency "ngn" ≡ false) before
        × (same_upper country.currency "ngn" ≡ true)
        × (get_country_code_by_currency countries "ngn" ≡ some code)
        × (get_country_name_by_currency countries "ngn" ≡ some country.name))
country_lookups_agree_example = country_lookups_agree countries "ngn"
