-- ===== src/Wallet/Create.antt =====
-- `create_user_wallet` and its helpers.
use looprail_backend.Prelude.{ℕ, Option, none, some, String, List, [], ◌∷◌, ◌++◌, if◌then◌else◌}
use looprail_backend.Database.{save}
use looprail_backend.Action.{ok, err, Action, pure, or_fail, ◌>>=◌, ◌>>◌}
use looprail_backend.Wallet.World
use looprail_backend.Wallet.World.{
  AssetType, asset_type_of, ConfigAsset, User, WalletRow, AssetRow, Books, BalanceRequest,
  ProviderWallet, address_generated, balance_created, Services, Failure, World, find_user,
}

-- a new row is written, or the error is returned
unfoldable pub write : Services → Failure → Books → Action World Failure (Unit {0})
write env why books w =
    let (e, db) = save env.accepts books w.database in
    let w' : World = record w { database = db } in
    elim e [ none ↦ (ok tt, w') | some e' ↦ (err why, w') ]

-- `_get_user_data`
unfoldable pub get_user_data : ℕ → Action World Failure (Option User)
get_user_data user_id w = (ok (find_user user_id w.database.current.users), w)

-- the user, whose id is read whether or not there is one
unfoldable pub require_user : ℕ → Action World Failure User
require_user user_id = do user ← get_user_data user_id; or_fail World.attribute_error user

-- `_generate_provider_wallet`
unfoldable pub generate_provider_wallet : Services → User → Action World Failure ProviderWallet
generate_provider_wallet env user w =
    let answer = env.generate_address user.id w.calls in
    or_fail World.no_provider_wallet answer
      (record w { calls = address_generated user.id answer ∷ w.calls })

abbrev pub wallet_row : Services → User → ProviderWallet → ℕ → WalletRow
wallet_row env user provider id = record {
  id = id;
  user_id = user.id;
  address = provider.address;
  chain = env.chain;
  provider = env.provider;
  ledger_id = env.ledger_id;
  derivation_path = provider.derivation_path;
}

-- `_create_local_wallet`
unfoldable pub create_local_wallet :
    Services → User → ProviderWallet → Action World Failure WalletRow
create_local_wallet env user provider w =
    let books = w.database.current in
    let row = wallet_row env user provider (env.new_wallet_id books) in
    (do
      write env World.wallet_not_saved (record books { wallets = books.wallets ++ (row ∷ []) })
      pure row)
      w

-- a balance of the ledger for one asset
unfoldable pub open_balance : Services → User → ConfigAsset → Action World Failure String
open_balance env user asset w =
    let request : BalanceRequest = record {
      ledger_id = env.ledger_id;
      identity_id = user.ledger_identity_id;
      symbol = asset.symbol;
    } in
    let answer = env.create_balance request w.calls in
    or_fail World.no_ledger_balance answer
      (record w { calls = balance_created request answer ∷ w.calls })

-- the row of one asset with its balance
unfoldable pub add_asset :
    Services → WalletRow → AssetType → ConfigAsset → String → Action World Failure (Unit {0})
add_asset env wallet asset_type asset balance_id w =
    let books = w.database.current in
    let row : AssetRow = record {
      id = env.new_asset_id books;
      wallet_id = wallet.id;
      ledger_balance_id = balance_id;
      asset_type = asset_type;
      copied = asset;
    } in
    write env World.asset_not_saved (record books { assets = books.assets ++ (row ∷ []) }) w

-- an asset that is active, and whose symbol is a type
unfoldable pub supported_type : ConfigAsset → Option AssetType
supported_type asset = if asset.is_active then asset_type_of asset.symbol else none

-- the balance and the row of an asset that has a type
unfoldable pub add_supported :
    Services → User → WalletRow → ConfigAsset → Option AssetType → Action World Failure (Unit {0})
add_supported env user wallet asset none = pure tt
add_supported env user wallet asset (some asset_type) = do
  balance_id ← open_balance env user asset
  add_asset env wallet asset_type asset balance_id

-- one pass of the loop of `_create_ledger_balance`, which skips other assets
unfoldable pub create_asset_balance :
    Services → User → WalletRow → ConfigAsset → Action World Failure (Unit {0})
create_asset_balance env user wallet asset =
    add_supported env user wallet asset (supported_type asset)

-- `_create_ledger_balance`
unfoldable pub create_ledger_balance :
    Services → User → WalletRow → List ConfigAsset → Action World Failure (Unit {0})
create_ledger_balance env user wallet [] = pure tt
create_ledger_balance env user wallet (asset ∷ rest) =
    create_asset_balance env user wallet asset >> create_ledger_balance env user wallet rest

-- `_user_repository.rollback()`, whose error is only logged
abbrev pub roll_back : Services → World → World
roll_back env w =
    if env.rolls_back w.calls
    then record w { database = record { saved = w.database.saved; current = w.database.saved } }
    else w

-- an error of the action is returned after a rollback
unfoldable pub or_roll_back :
    {A : Type 0} → Services → Action World Failure A → Action World Failure A
or_roll_back env m w =
    let (o, w') = m w in elim o [ ok a ↦ (ok a, w') | err e ↦ (err e, roll_back env w') ]

-- `create_user_wallet`, which returns the manager itself
unfoldable pub create_user_wallet : Services → ℕ → Action World Failure (Unit {0})
create_user_wallet env user_id = do
  user ← require_user user_id
  provider ← or_roll_back env (generate_provider_wallet env user)
  wallet ← create_local_wallet env user provider
  or_roll_back env (create_ledger_balance env user wallet env.config_assets)
