-- ===== src/Wallet/Tests.antt =====
-- A wallet with two supported assets, and one whose balance the ledger refuses.
use looprail_backend.Prelude.{
  ℕ, ◌≡◌, ◌≢◌, refl, Bool, true, false, Option, none, some, String, List, [], ◌∷◌, ◌++◌, arith,
}
use looprail_backend.Action.{ok, err}
use looprail_backend.Wallet.World
use looprail_backend.Wallet.World.{
  ConfigAsset, User, WalletRow, AssetRow, Books, Services, Failure, World, Call, find_user,
}
use looprail_backend.Wallet.Create.{create_user_wallet}
use looprail_backend.Wallet.Undone.{undone, create_user_wallet-undone}
use looprail_backend.Wallet.Complete.{
  supported, copies, BelongTo, opened, balances, create_user_wallet_complete,
}

abbrev asset : String → Bool → ConfigAsset
asset symbol is_active = record {
  asset_id = symbol;
  name = symbol;
  symbol = symbol;
  address = "0x1";
  decimals = 6;
  network = "testnet";
  standard = none;
  precision = some 100;
  is_active = is_active;
}

abbrev services : Services
services = record {
  chain = "base";
  provider = "blockrader";
  ledger_id = "ldg";
  config_assets =
      asset "USDC" true ∷ asset "USDT" false ∷ asset "ETH" true ∷ asset "cNGN" true ∷ [];
  accepts = λ books. true;
  new_wallet_id = λ books. 3;
  new_asset_id = λ books. 4;
  generate_address = λ id calls. some (record { address = "0x2"; derivation_path = none });
  create_balance = λ request calls. some request.symbol;
  rolls_back = λ calls. true;
}

-- the ledger opens no second balance
abbrev refusing : Services
refusing = record services {
  create_balance = λ request calls. elim calls [
    | World.balance_created r o ∷ rest ↦ none
    | _ ↦ some request.symbol
  ];
}

abbrev books : Books
books = record {
  users = record { id = 7; ledger_identity_id = some "idt" } ∷ [];
  wallets = [];
  assets = [];
}

abbrev start : World
start = record { database = record { saved = books; current = books }; calls = [] }

create_user_wallet_complete_example :
    let w' = (create_user_wallet services 7 start).1 in
    (user : User) × (wallet : WalletRow) × (rows : List AssetRow) × ((find_user 7 books.users
        ≡ some user)
      × (wallet.user_id ≡ user.id)
      × (w'.database.current.wallets ≡ wallet ∷ [])
      × (w'.database.current.assets ≡ rows)
      × (copies rows ≡ supported services.config_assets)
      × BelongTo wallet.id rows
      × (opened w'.calls ≡ balances rows ++ []))
unfolding create_user_wallet looprail_backend.Action.◌>>=◌
    looprail_backend.Wallet.Create.require_user looprail_backend.Wallet.Create.get_user_data
    looprail_backend.Wallet.Create.or_roll_back
    looprail_backend.Wallet.Create.generate_provider_wallet
    looprail_backend.Wallet.Create.create_local_wallet looprail_backend.Wallet.Create.write
    looprail_backend.Database.save looprail_backend.Wallet.Create.create_ledger_balance
    looprail_backend.Wallet.Create.create_asset_balance looprail_backend.Wallet.Create.add_supported
    looprail_backend.Wallet.Create.supported_type World.asset_type_of
    looprail_backend.Prelude.Text.same_lower looprail_backend.Wallet.Create.open_balance
    looprail_backend.Wallet.Create.add_asset
create_user_wallet_complete_example = create_user_wallet_complete services 7 start refl

no_balance_known : ◌≢◌ {A = Failure} World.no_ledger_balance World.attribute_error
no_balance_known = λ h. ground arith

create_user_wallet-undone_example : (create_user_wallet refusing 7 start).1.database ≡ undone start
unfolding create_user_wallet looprail_backend.Action.◌>>=◌
    looprail_backend.Wallet.Create.require_user looprail_backend.Wallet.Create.get_user_data
    looprail_backend.Wallet.Create.or_roll_back
    looprail_backend.Wallet.Create.generate_provider_wallet
    looprail_backend.Wallet.Create.create_local_wallet looprail_backend.Wallet.Create.write
    looprail_backend.Database.save looprail_backend.Wallet.Create.create_ledger_balance
    looprail_backend.Wallet.Create.create_asset_balance looprail_backend.Wallet.Create.add_supported
    looprail_backend.Wallet.Create.supported_type World.asset_type_of
    looprail_backend.Prelude.Text.same_lower looprail_backend.Wallet.Create.open_balance
    looprail_backend.Wallet.Create.add_asset
create_user_wallet-undone_example =
    create_user_wallet-undone refusing 7 start World.no_ledger_balance (λ calls. refl) refl
      no_balance_known
