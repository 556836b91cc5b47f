-- ===== src/Wallet/World.antt =====
-- The rows of users, wallets and assets, and the services that the creation of a wallet calls.
use looprail_backend.Prelude.{
  ℕ, Bool, Option, none, some, String, List, [], ◌∷◌, ◌==◌, if◌then◌else◌,
}
use looprail_backend.Prelude.Text.{same_lower}
use looprail_backend.Database.{Database}

-- `AssetType`
pub data AssetType : Type 0 where
  usdc usdt cngn : AssetType

-- `AssetType(symbol.lower())`, where the symbol is one
unfoldable pub asset_type_of : String → Option AssetType
asset_type_of symbol =
    if same_lower symbol "usdc"
    then some usdc
    else (if same_lower symbol "usdt"
        then some usdt
        else (if same_lower symbol "cngn" then some cngn else none))

-- `AssetData` of the configuration
pub record ConfigAsset : Type 0 where
  pub asset_id : String
  pub name : String
  pub symbol : String
  pub address : String
  pub decimals : ℕ
  pub network : String
  pub standard : Option String
  pub precision : Option ℕ
  pub is_active : Bool

pub record User : Type 0 where
  pub id : ℕ
  pub ledger_identity_id : Option String

-- a row of `Wallet`; its name is made of the user's id
pub record WalletRow : Type 0 where
  pub id : ℕ
  pub user_id : ℕ
  pub address : String
  pub chain : String
  pub provider : String
  pub ledger_id : String
  pub derivation_path : Option String

-- a row of `Asset`, with the columns that are copied from the configuration
pub record AssetRow : Type 0 where
  pub id : ℕ
  pub wallet_id : ℕ
  pub ledger_balance_id : String
  pub asset_type : AssetType
  pub copied : ConfigAsset

pub record Books : Type 0 where
  pub users : List User
  pub wallets : List WalletRow
  pub assets : List AssetRow

-- `CreateBalanceRequest`, whose currency is the symbol in lower case
pub record BalanceRequest : Type 0 where
  pub ledger_id : String
  pub identity_id : Option String
  pub symbol : String

-- the address and the path of `WalletAddressResponse`
pub record ProviderWallet : Type 0 where
  pub address : String
  pub derivation_path : Option String

-- a call of the custody provider or the ledger, with its answer
pub data Call : Type 0 where
  address_generated : ℕ → Option ProviderWallet → Call
  balance_created : BalanceRequest → Option String → Call

-- the configuration, and the answers of the services, which may depend on all calls before
pub record Services : Type 0 where
  pub chain : String
  pub provider : String
  pub ledger_id : String
  pub config_assets : List ConfigAsset
  pub accepts : Books → Bool
  -- ids of new rows
  pub new_wallet_id : Books → ℕ
  pub new_asset_id : Books → ℕ
  pub generate_address : ℕ → List Call → Option ProviderWallet
  pub create_balance : BalanceRequest → List Call → Option String
  -- a rollback goes through
  pub rolls_back : List Call → Bool

pub data Failure : Type 0 where
  -- an AttributeError, at a user who is not there
  attribute_error : Failure
  no_provider_wallet wallet_not_saved no_ledger_balance asset_not_saved : Failure

pub record World : Type 0 where
  pub database : Database Books
  -- the latest first
  pub calls : List Call

abbrev pub find_user : ℕ → List User → Option User
find_user id [] = none
find_user id (u ∷ us) = let rest = find_user id us in if u.id == id then some u else rest
