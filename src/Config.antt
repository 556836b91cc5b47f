-- ===== src/Config.antt =====
-- The lookups of types/types.py (`BanksData`, `Wallet`, `WalletConfig`) and utils/country_utils.py
-- in the loaded configuration.
pub mod Lookup
mod Tests
use looprail_backend.Prelude.{
  Bool, true, false, ◌&&◌, Option, none, some, String, List, [], ◌∷◌, ◌++◌, str_eq, if◌then◌else◌,
}
use looprail_backend.Prelude.Text.{same_upper, is_upper_of}

-- the attributes of `AssetData` that callers search by, and that they read
pub record AssetData : Type 0 where
  pub asset_id : String
  pub blockrader_asset_id : Option String
  pub address : String
  pub symbol : String

pub data AssetKey : Type 0 where
  asset_id address symbol : AssetKey

-- `types.Wallet`
pub record WalletEntry : Type 0 where
  pub wallet_id : String
  pub wallet_name : String
  pub assets : List AssetData

pub data WalletKey : Type 0 where
  wallet_id wallet_name : WalletKey

abbrev pub asset_attribute : AssetData → AssetKey → String
asset_attribute a AssetKey.asset_id = a.asset_id
asset_attribute a AssetKey.address = a.address
asset_attribute a AssetKey.symbol = a.symbol

abbrev pub wallet_attribute : WalletEntry → WalletKey → String
wallet_attribute w WalletKey.wallet_id = w.wallet_id
wallet_attribute w WalletKey.wallet_name = w.wallet_name

pub data LookupError : Type 0 where
  no_search_criteria not_found : LookupError

pub data Found (A : Type 0) : Type 0 where
  found : A → Found A
  failed : LookupError → Found A

module _ {A K : Type 0} (attribute : A → K → String) where
  -- `all(getattr(item, key, None) == value for key, value in kwargs.items())`
  abbrev pub matches : List (K × String) → A → Bool
  matches [] a = true
  matches ((key, value) ∷ rest) a = str_eq (attribute a key) value && matches rest a

  -- the `for` loop, which returns the first match
  abbrev pub first_match : List (K × String) → List A → Found A
  first_match criteria [] = failed not_found
  first_match criteria (a ∷ rest) =
      if matches criteria a then found a else first_match criteria rest

-- `Wallet.get`
unfoldable pub get_asset : WalletEntry → List (AssetKey × String) → Found AssetData
get_asset wallet [] = failed no_search_criteria
get_asset wallet (c ∷ criteria) = first_match asset_attribute (c ∷ criteria) wallet.assets

-- `WalletConfig.get_wallet`
unfoldable pub get_wallet : List WalletEntry → List (WalletKey × String) → Found WalletEntry
get_wallet wallets [] = failed no_search_criteria
get_wallet wallets (c ∷ criteria) = first_match wallet_attribute (c ∷ criteria) wallets

pub record Bank : Type 0 where
  pub name : String
  pub code : Option String
  pub id : Option String

-- `BanksData.root`, in the order of its keys
abbrev pub BanksData : Type 0
BanksData = List (String × List Bank)

abbrev pub id_is : String → Bank → Bool
id_is id bank = elim bank.id [ none ↦ false | some i ↦ str_eq i id ]

abbrev pub with_id : String → List Bank → List Bank
with_id id [] = []
with_id id (b ∷ banks) = let rest = with_id id banks in if id_is id b then b ∷ rest else rest

-- `self.root.get(c_code, [])`, where the key is compared with `country_code.upper()`
abbrev pub banks_in : String → BanksData → List Bank
banks_in country_code [] = []
banks_in country_code ((key, banks) ∷ rest) =
    if is_upper_of country_code key then banks else banks_in country_code rest

abbrev pub in_all_countries : String → BanksData → List Bank
in_all_countries id [] = []
in_all_countries id ((_, banks) ∷ rest) = with_id id banks ++ in_all_countries id rest

-- `BanksData.get(country_code=…, id=…)`
unfoldable pub get_banks : BanksData → Option String → String → List Bank
get_banks root none id = in_all_countries id root
get_banks root (some country_code) id = with_id id (banks_in country_code root)

pub record CountryInfo : Type 0 where
  pub name : String
  pub dial_code : String
  pub currency : String
  pub enabled : Bool

-- `CountriesData.countries`, in the order of its keys
abbrev pub CountriesData : Type 0
CountriesData = List (String × CountryInfo)

-- `get_country_name_by_currency`
unfoldable pub get_country_name_by_currency : CountriesData → String → Option String
get_country_name_by_currency [] currency = none
get_country_name_by_currency ((_, country) ∷ rest) currency =
    if same_upper country.currency currency
    then some country.name
    else get_country_name_by_currency rest currency

-- `get_country_code_by_currency`
unfoldable pub get_country_code_by_currency : CountriesData → String → Option String
get_country_code_by_currency [] currency = none
get_country_code_by_currency ((code, country) ∷ rest) currency =
    if same_upper country.currency currency
    then some code
    else get_country_code_by_currency rest currency
