-- ===== src/Wallet/Complete.antt =====
-- What a wallet's creation leaves where it returns.
use looprail_backend.Prelude.{
  ℕ, ◌≡◌, ◌∙◌, sym, ap, refl, none, some, String, List, [], ◌∷◌, ◌++◌, arith, Option-cases, inl,
  inr,
}
use looprail_backend.Database.{save}
use looprail_backend.Action.{ok, Action, ◌>>=◌, bind_returns}
use looprail_backend.Wallet.World.{
  AssetType, ConfigAsset, User, WalletRow, AssetRow, ProviderWallet, BalanceRequest, Services,
  Failure, World, Call, balance_created, find_user,
}
use looprail_backend.Wallet.Create.{
  write, get_user_data, require_user, generate_provider_wallet, create_local_wallet, open_balance,
  add_asset, add_supported, supported_type, create_asset_balance, create_ledger_balance,
  or_roll_back, create_user_wallet,
}

-- the assets that get a balance, in their order
abbrev pub supported : List ConfigAsset → List ConfigAsset
supported [] = []
supported (a ∷ rest) =
    let others = supported rest in elim (supported_type a) [ none ↦ others | some t ↦ a ∷ others ]

supported-none :
    (a : ConfigAsset) (rest : List ConfigAsset)
    → supported_type a ≡ none
    → supported (a ∷ rest) ≡ supported rest
supported-none a rest h = ground arith

supported-some :
    (a : ConfigAsset) (rest : List ConfigAsset) (t : AssetType)
    → supported_type a ≡ some t
    → supported (a ∷ rest) ≡ a ∷ supported rest
supported-some a rest t h = ground arith

abbrev pub copies : List AssetRow → List ConfigAsset
copies [] = []
copies (r ∷ rows) = r.copied ∷ copies rows

-- the rows belong to the wallet
abbrev pub BelongTo : ℕ → List AssetRow → Type 0
BelongTo id [] = Unit {0}
BelongTo id (r ∷ rows) = (r.wallet_id ≡ id) × BelongTo id rows

-- the balances that the ledger opened, the latest first
abbrev pub opened : List Call → List String
opened [] = []
opened (c ∷ cs) =
    let rest = opened cs in elim c [ balance_created request (some id) ↦ id ∷ rest | _ ↦ rest ]

abbrev pub balances : List AssetRow → List String
balances [] = []
balances (r ∷ rows) = balances rows ++ (r.ledger_balance_id ∷ [])

-- between the worlds, these rows were added for the wallet, each with a balance that was opened for it
abbrev pub Added : ℕ → List ConfigAsset → World → World → List AssetRow → Type 0
Added wallet_id assets w w' rows =
    (w'.database.current.assets ≡ w.database.current.assets ++ rows)
    × (w'.database.current.wallets ≡ w.database.current.wallets)
    × (copies rows ≡ supported assets)
    × BelongTo wallet_id rows
    × (opened w'.calls ≡ balances rows ++ opened w.calls)

++_assoc : {A : Type 0} (xs ys zs : List A) → (xs ++ ys) ++ zs ≡ xs ++ (ys ++ zs)
++_assoc [] ys zs = refl
++_assoc (x ∷ xs) ys zs = ap (λ l. x ∷ l) (++_assoc xs ys zs)

++_empty : {A : Type 0} (xs : List A) → xs ++ [] ≡ xs
++_empty [] = refl
++_empty (x ∷ xs) = ap (λ l. x ∷ l) (++_empty xs)

module _ (env : Services) (user : User) (wallet : WalletRow) where
  one_added :
      (asset : ConfigAsset) (asset_type : AssetType) (w : World)
      → supported_type asset ≡ some asset_type
      → (create_asset_balance env user wallet asset w).0 ≡ ok tt
      → (r : AssetRow) × ((r.wallet_id ≡ wallet.id)
          × (r.copied ≡ asset)
          × (let w' = (create_asset_balance env user wallet asset w).1 in
              (w'.database.current.assets ≡ w.database.current.assets ++ (r ∷ []))
              × (w'.database.current.wallets ≡ w.database.current.wallets)
              × (opened w'.calls ≡ r.ledger_balance_id ∷ opened w.calls)))
  unfolding create_asset_balance add_supported open_balance add_asset write save ◌>>=◌
  one_added asset asset_type w known returns =
      let request : BalanceRequest = record {
        ledger_id = env.ledger_id;
        identity_id = user.ledger_identity_id;
        symbol = asset.symbol;
      } in
      elim (Option-cases (env.create_balance request w.calls)) [
        | inl refused ↦ ground arith
        | inr (id, given) ↦
            let row : AssetRow = record {
              id = env.new_asset_id w.database.current;
              wallet_id = wallet.id;
              ledger_balance_id = id;
              asset_type = asset_type;
              copied = asset;
            } in
            (row, (refl, refl, (ground arith, ground arith, ground arith)))
      ]

  none_added :
      (asset : ConfigAsset) (w : World)
      → supported_type asset ≡ none
      → create_asset_balance env user wallet asset w ≡ (ok tt, w)
  unfolding create_asset_balance add_supported
  none_added asset w h = ground arith

  -- the rows of the loop
  loop-Added :
      (assets : List ConfigAsset) (w : World)
      → (create_ledger_balance env user wallet assets w).0 ≡ ok tt
      → (rows : List AssetRow) × Added wallet.id assets w
          (create_ledger_balance env user wallet assets w).1
          rows
  unfolding create_ledger_balance
  loop-Added [] w returns = ([], (sym (++_empty w.database.current.assets), refl, refl, tt, refl))
  loop-Added (asset ∷ rest) w returns =
      let (u, (first, run)) =
        bind_returns (create_asset_balance env user wallet asset) _ w tt returns in
      let w1 = (create_asset_balance env user wallet asset w).1 in
      let (rows, (assets', wallets', copies', owned, opened')) =
        loop-Added rest w1 (sym (ap (λ r. r.0) run) ∙ returns) in
      elim (Option-cases (supported_type asset)) [
        | inl h ↦
            let same : w1 ≡ w = ap (λ r. r.1) (none_added asset w h) in
            rw run (
              rows,
              (
                assets' ∙ ap (λ v. v.database.current.assets ++ rows) same,
                wallets' ∙ ap (λ v. v.database.current.wallets) same,
                copies' ∙ sym (supported-none asset rest h),
                owned,
                opened' ∙ ap (λ v. balances rows ++ opened v.calls) same,
              ),
            )
        | inr (asset_type, h) ↦
            let (r, (mine, copied, (one, kept, given))) = one_added asset asset_type w h first in
            rw run (
              r ∷ rows,
              (
                assets'
                    ∙ ap (λ l. l ++ rows) one
                    ∙ ++_assoc w.database.current.assets (r ∷ []) rows,
                wallets' ∙ kept,
                ap (λ c. c ∷ copies rows) copied
                    ∙ ap (λ l. asset ∷ l) copies'
                    ∙ sym (supported-some asset rest asset_type h),
                (mine, owned),
                opened'
                    ∙ ap (λ l. balances rows ++ l) given
                    ∙ sym (++_assoc (balances rows) (r.ledger_balance_id ∷ []) (opened w.calls)),
              ),
            )
      ]

module _ (env : Services) where
  or_roll_back-returns :
      {A : Type 0} (m : Action World Failure A) (w : World) (a : A)
      → (or_roll_back env m w).0 ≡ ok a
      → or_roll_back env m w ≡ m w
  unfolding or_roll_back
  or_roll_back-returns m w a h = ground arith

  require_user-returns :
      (user_id : ℕ) (w : World) (user : User)
      → (require_user user_id w).0 ≡ ok user
      → ((require_user user_id w).1 ≡ w) × (find_user user_id w.database.current.users ≡ some user)
  unfolding require_user get_user_data ◌>>=◌
  require_user-returns user_id w user h = (ground arith, ground arith)

  generate-returns :
      (user : User) (w : World) (provider : ProviderWallet)
      → (or_roll_back env (generate_provider_wallet env user) w).0 ≡ ok provider
      → let w' = (or_roll_back env (generate_provider_wallet env user) w).1 in
        (w'.database ≡ w.database) × (opened w'.calls ≡ opened w.calls)
  unfolding or_roll_back generate_provider_wallet
  generate-returns user w provider h = (ground arith, ground arith)

  create_local_wallet-returns :
      (user : User) (provider : ProviderWallet) (w : World) (wallet : WalletRow)
      → (create_local_wallet env user provider w).0 ≡ ok wallet
      → let w' = (create_local_wallet env user provider w).1 in
        (wallet.user_id ≡ user.id)
        × (w'.database.current.wallets ≡ w.database.current.wallets ++ (wallet ∷ []))
        × (w'.database.current.assets ≡ w.database.current.assets)
        × (w'.calls ≡ w.calls)
  unfolding create_local_wallet write save ◌>>=◌
  create_local_wallet-returns user provider w wallet h =
      (ground arith, ground arith, ground arith, ground arith)

  -- Where the creation of a wallet returns, there is one wallet more, the user's, and one asset more for each active asset of the configuration whose symbol is known,
  -- in their order. These belong to the new wallet, and their balances are the ones that the ledger opened for it.
  pub create_user_wallet_complete :
      (user_id : ℕ) (w : World)
      → (create_user_wallet env user_id w).0 ≡ ok tt
      → let w' = (create_user_wallet env user_id w).1 in
        (user : User) × (wallet : WalletRow) × (rows : List AssetRow) × ((find_user user_id
              w.database.current.users
            ≡ some user)
          × (wallet.user_id ≡ user.id)
          × (w'.database.current.wallets ≡ w.database.current.wallets ++ (wallet ∷ []))
          × (w'.database.current.assets ≡ w.database.current.assets ++ rows)
          × (copies rows ≡ supported env.config_assets)
          × BelongTo wallet.id rows
          × (opened w'.calls ≡ balances rows ++ opened w.calls))
  unfolding create_user_wallet
  create_user_wallet_complete user_id w returns =
      let (user, (found, run1)) = bind_returns (require_user user_id) _ w tt returns in
      let returns1 = sym (ap (λ r. r.0) run1) ∙ returns in
      let (provider, (generated, run2)) =
        bind_returns (or_roll_back env (generate_provider_wallet env user)) _ _ tt returns1 in
      let returns2 = sym (ap (λ r. r.0) run2) ∙ returns1 in
      let (wallet, (created, run3)) =
        bind_returns (create_local_wallet env user provider) _ _ tt returns2 in
      let returns3 = sym (ap (λ r. r.0) run3) ∙ returns2 in
      let (same, known) = require_user-returns user_id w user found in
      let w1 = (require_user user_id w).1 in
      let (books, calls) = generate-returns user w1 provider generated in
      let before = books ∙ ap (λ v. v.database) same in
      let w2 = (or_roll_back env (generate_provider_wallet env user) w1).1 in
      let (mine, wallets, assets, calls') =
        create_local_wallet-returns user provider w2 wallet created in
      let w3 = (create_local_wallet env user provider w2).1 in
      let loop = create_ledger_balance env user wallet env.config_assets in
      let last = or_roll_back-returns loop w3 tt returns3 in
      let (rows, (assets', wallets', copied, owned, given)) =
        loop-Added env user wallet env.config_assets w3 (sym (ap (λ r. r.0) last) ∙ returns3) in
      rw (run1, run2, run3, last)
        (
          user,
          wallet,
          rows,
          (
            known,
            mine,
            wallets' ∙ wallets ∙ ap (λ d. d.current.wallets ++ (wallet ∷ [])) before,
            assets' ∙ ap (λ l. l ++ rows) (assets ∙ ap (λ d. d.current.assets) before),
            copied,
            owned,
            given
                ∙ ap (λ l. balances rows ++ l)
                    (ap (λ cs. opened cs) calls' ∙ calls ∙ ap (λ v. opened v.calls) same),
          ),
        )
