-- ===== src/Transactions/Handlers.antt =====
-- usecases/withdrawal_handlers: the parameters that the handler of a method makes of the given ones, and the
-- transaction that it creates.
use looprail_backend.Prelude.{ℕ, Bool, Option}
use looprail_backend.Database.{Database}
use looprail_backend.Transactions
use looprail_backend.Transactions.{
  BaseTransactionParams, CryptoFields, WalletFields, BankFields, CreateTransactionParams,
  Transaction, Books,
}
use looprail_backend.Transactions.Create.{create_transaction}

-- `handle_bank_transfer`
unfoldable pub handle_bank_transfer :
    (Books → Bool)
    → ℕ
    → BaseTransactionParams
    → BankFields
    → Database Books
    → Option Transaction × Database Books
handle_bank_transfer accepts id b f db =
    create_transaction accepts id (Transactions.bank_transfer b f) db

-- `handle_external_wallet_transfer`, whose `CryptoTransactionParams` ignore the fields that a wallet
-- transfer adds
unfoldable pub handle_external_wallet_transfer :
    (Books → Bool)
    → ℕ
    → BaseTransactionParams
    → CryptoFields
    → WalletFields
    → Database Books
    → Option Transaction × Database Books
handle_external_wallet_transfer accepts id b c w db =
    create_transaction accepts id (Transactions.crypto b c) db
