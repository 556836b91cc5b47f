-- ===== src/Wallet/Undone.antt =====
-- An error of the creation of a wallet undoes what it wrote.
use looprail_backend.Prelude.{
  ℕ, ◌≡◌, ◌≢◌, refl, true, Option, none, some, String, List, [], ◌∷◌, arith, inl, inr,
}
use looprail_backend.Database.{Database, save}
use looprail_backend.Action.{Result-cases, err, Action, ◌>>=◌}
use looprail_backend.Wallet.World
use looprail_backend.Wallet.World.{
  AssetType, ConfigAsset, User, WalletRow, AssetRow, Books, ProviderWallet, Services, Failure,
  World, Call,
}
use looprail_backend.Wallet.Create.{
  write, get_user_data, require_user, generate_provider_wallet, create_local_wallet, open_balance,
  add_asset, create_asset_balance, create_ledger_balance, add_supported, supported_type,
  or_roll_back, create_user_wallet,
}

-- nothing of the request is left in what it sees
abbrev pub undone : World → Database Books
undone w = record { saved = w.database.saved; current = w.database.saved }

-- nothing is committed
abbrev pub Uncommitted : {A : Type 0} → Action World Failure A → Type 0
Uncommitted m = (w : World) → (m w).1.database.saved ≡ w.database.saved

abbrev pub Undoes : {A : Type 0} → Action World Failure A → Type 0
Undoes m =
    (w : World) (e : Failure)
    → (m w).0 ≡ err e
    → e ≢ World.attribute_error
    → (m w).1.database ≡ undone w

bind-Uncommitted :
    {A B : Type 0} (m : Action World Failure A) (f : A → Action World Failure B)
    → Uncommitted m
    → ((a : A) → Uncommitted (f a))
    → Uncommitted (m >>= f)
unfolding ◌>>=◌
bind-Uncommitted m f first rest w = elim (Result-cases (m w).0) [
  | inl (a, h) ↦ ground (arith, first w, rest a (m w).1)
  | inr (e, h) ↦ ground (arith, first w)
]

bind-Undoes :
    {A B : Type 0} (m : Action World Failure A) (f : A → Action World Failure B)
    → Uncommitted m
    → Undoes m
    → ((a : A) → Undoes (f a))
    → Undoes (m >>= f)
unfolding ◌>>=◌
bind-Undoes m f kept first rest w e h known = elim (Result-cases (m w).0) [
  | inl (a, k) ↦ ground (arith, kept w, rest a (m w).1 e)
  | inr (e', k) ↦ ground (arith, first w e)
]

module _ (env : Services) where
  write-Uncommitted : (why : Failure) (books : Books) → Uncommitted (write env why books)
  unfolding write save
  write-Uncommitted why books w = ground arith

  create_local_wallet-Uncommitted :
      (user : User) (provider : ProviderWallet)
      → Uncommitted (create_local_wallet env user provider)
  unfolding create_local_wallet write save ◌>>=◌
  create_local_wallet-Uncommitted user provider w = ground arith

  open_balance-Uncommitted :
      (user : User) (asset : ConfigAsset) → Uncommitted (open_balance env user asset)
  unfolding open_balance
  open_balance-Uncommitted user asset w = ground arith

  add_asset-Uncommitted :
      (wallet : WalletRow) (asset_type : AssetType) (asset : ConfigAsset) (id : String)
      → Uncommitted (add_asset env wallet asset_type asset id)
  unfolding add_asset write save
  add_asset-Uncommitted wallet asset_type asset id w = ground arith

  add_supported-Uncommitted :
      (user : User) (wallet : WalletRow) (asset : ConfigAsset) (o : Option AssetType)
      → Uncommitted (add_supported env user wallet asset o)
  unfolding add_supported
  add_supported-Uncommitted user wallet asset none w = refl
  add_supported-Uncommitted user wallet asset (some asset_type) w =
      bind-Uncommitted (open_balance env user asset) _ (open_balance-Uncommitted user asset)
        (λ id. add_asset-Uncommitted wallet asset_type asset id) w

  create_asset_balance-Uncommitted :
      (user : User) (wallet : WalletRow) (asset : ConfigAsset)
      → Uncommitted (create_asset_balance env user wallet asset)
  unfolding create_asset_balance
  create_asset_balance-Uncommitted user wallet asset =
      add_supported-Uncommitted user wallet asset (supported_type asset)

  create_ledger_balance-Uncommitted :
      (user : User) (wallet : WalletRow) (assets : List ConfigAsset)
      → Uncommitted (create_ledger_balance env user wallet assets)
  unfolding create_ledger_balance
  create_ledger_balance-Uncommitted user wallet [] w = refl
  create_ledger_balance-Uncommitted user wallet (asset ∷ rest) w =
      bind-Uncommitted (create_asset_balance env user wallet asset) _
        (create_asset_balance-Uncommitted user wallet asset)
        (λ u. create_ledger_balance-Uncommitted user wallet rest) w

  -- an action whose errors are followed by a rollback
  or_roll_back-Undoes :
      {A : Type 0} (m : Action World Failure A)
      → ((cs : List Call) → env.rolls_back cs ≡ true)
      → Uncommitted m
      → Undoes (or_roll_back env m)
  unfolding or_roll_back
  or_roll_back-Undoes m works kept w e h known = ground (arith, kept w, works (m w).1.calls)

  or_roll_back-Uncommitted :
      {A : Type 0} (m : Action World Failure A) → Uncommitted m → Uncommitted (or_roll_back env m)
  unfolding or_roll_back
  or_roll_back-Uncommitted m kept w = ground (arith, kept w)

  create_local_wallet-Undoes :
      (user : User) (provider : ProviderWallet) → Undoes (create_local_wallet env user provider)
  unfolding create_local_wallet write save ◌>>=◌
  create_local_wallet-Undoes user provider w e h known = ground arith

  require_user-Undoes : (user_id : ℕ) → Undoes (require_user user_id)
  unfolding require_user get_user_data ◌>>=◌
  require_user-Undoes user_id w e h known = ground (arith, known)

  require_user-Uncommitted : (user_id : ℕ) → Uncommitted (require_user user_id)
  unfolding require_user get_user_data ◌>>=◌
  require_user-Uncommitted user_id w = ground arith

  generate-Uncommitted : (user : User) → Uncommitted (generate_provider_wallet env user)
  unfolding generate_provider_wallet
  generate-Uncommitted user w = ground arith

  -- While rollbacks go through, an error of the creation of a wallet, other than that of a user who is not there,
  -- leaves nothing in the database of what the request wrote: it is as it was before the request, and that is not changed.
  pub create_user_wallet-undone :
      (user_id : ℕ) (w : World) (e : Failure)
      → ((cs : List Call) → env.rolls_back cs ≡ true)
      → (create_user_wallet env user_id w).0 ≡ err e
      → e ≢ World.attribute_error
      → (create_user_wallet env user_id w).1.database ≡ undone w
  unfolding create_user_wallet
  create_user_wallet-undone user_id w e works =
      bind-Undoes (require_user user_id) _ (require_user-Uncommitted user_id)
        (require_user-Undoes user_id)
        (λ user.
          bind-Undoes (or_roll_back env (generate_provider_wallet env user)) _
            (or_roll_back-Uncommitted _ (generate-Uncommitted user))
            (or_roll_back-Undoes _ works (generate-Uncommitted user))
            (λ provider.
              bind-Undoes (create_local_wallet env user provider) _
                (create_local_wallet-Uncommitted user provider)
                (create_local_wallet-Undoes user provider)
                (λ wallet.
                  or_roll_back-Undoes _ works
                    (create_ledger_balance-Uncommitted user wallet env.config_assets))))
        w e
