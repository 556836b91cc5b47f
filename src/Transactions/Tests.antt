-- ===== src/Transactions/Tests.antt =====
-- A transfer to a wallet and to a bank, recorded.
use looprail_backend.Prelude.{some, ℕ, ◌≡◌, ◌≢◌, refl, Bool, true, false, none, [], ◌∷◌, pos, arith}
use looprail_backend.Database
use looprail_backend.Database.{Database}
use looprail_backend.Transactions
use looprail_backend.Transactions.{
  BaseTransactionParams, CryptoFields, WalletFields, BankFields, CreateTransactionParams,
  no_destination, TransactionStatus, Transaction, Books, bank_detail, get_transaction_by_id,
  update_transaction_status,
}
use looprail_backend.Transactions.Create
use looprail_backend.Transactions.Create.{prepare_transaction_data, create_transaction, detail_of}
use looprail_backend.Transactions.Handlers.{handle_external_wallet_transfer}
use looprail_backend.Transactions.Records.{
  Describes, details_for, details_of_kind, create_transaction-records,
  create_transaction-rolls_back, handle_external_wallet-records,
}

abbrev base : BaseTransactionParams
base = record {
  wallet_id = 1;
  asset_id = 2;
  transaction_type = "debit";
  payment_type = "debit";
  method = "bank-transfer";
  currency = "ngn";
  sender = "usr_1";
  receiver = "N/A";
  amount = record { coefficient = pos 5; scale = 0 };
  narration = none;
  fee = none;
  network = none;
  metadata = [];
  country = none;
  session_id = none;
}

abbrev bank : BankFields
bank = record {
  bank_code = "011";
  bank_name = "First";
  account_number = "0123456789";
  account_name = "Ada";
  provider = "paycrest";
  external_reference = none;
  rate = none;
}

abbrev to_bank : CreateTransactionParams
to_bank = Transactions.bank_transfer base bank

abbrev chain : CryptoFields
chain = record {
  transaction_hash = "pending_0x1";
  block_hash = none;
  block_number = none;
  gas_price = none;
  gas_fee = none;
  gas_used = none;
  chain_id = none;
  confirmations = 0;
  destination_wallet_address = none;
  memo = none;
}

abbrev wallet : WalletFields
wallet = record { wallet_address = "0xabc"; address_verified = false; contract_address = none }

abbrev no_books : Books
no_books = record { transactions = []; details = [] }

abbrev empty : Database Books
empty = record { saved = no_books; current = no_books }

abbrev always : Books → Bool
always _ = true

-- a database that takes no detail
abbrev only_rows : Books → Bool
only_rows b = elim b.details [ [] ↦ true | d ∷ ds ↦ false ]

create_transaction-records_example :
    let row = prepare_transaction_data 9 to_bank in
    let db' = (create_transaction always 9 to_bank empty).1 in
    (get_transaction_by_id 9 db' ≡ some row)
    × (row.status ≡ TransactionStatus.pending)
    × (row.base ≡ Transactions.base_of to_bank)
    × Describes to_bank row
    × (details_for 9 db'.current.details ≡ details_of_kind 9 to_bank)
    × (get_transaction_by_id 8 db' ≡ get_transaction_by_id 8 empty)
unfolding create_transaction Database.save Create.create_transaction_details detail_of
    get_transaction_by_id
create_transaction-records_example =
    create_transaction-records always 9 8 to_bank empty (prepare_transaction_data 9 to_bank) refl
      refl refl (λ e. omega (arith, e))

create_transaction-rolls_back_example :
    (create_transaction only_rows 9 to_bank empty).1.current ≡ no_books
unfolding create_transaction Database.save Create.create_transaction_details detail_of
create_transaction-rolls_back_example =
    create_transaction-rolls_back only_rows 9 to_bank empty refl refl

handle_external_wallet-records_example :
    ((Create.crypto_row 9 base chain).destination_data ≡ no_destination)
    × ((handle_external_wallet_transfer always 9 base chain wallet empty).1.current.details ≡ [])
unfolding handle_external_wallet_transfer create_transaction Database.save
    Create.create_transaction_details detail_of prepare_transaction_data
handle_external_wallet-records_example =
    handle_external_wallet-records always 9 base chain wallet empty (Create.crypto_row 9 base chain)
      refl refl

abbrev row : Transaction
row = Create.crypto_row 9 base chain

abbrev one_row : Database Books
one_row = record {
  saved = record { transactions = row ∷ []; details = [] };
  current = record { transactions = row ∷ []; details = [] };
}

eight_is_not_nine : ◌≢◌ {A = ℕ} 8 9
eight_is_not_nine e = omega arith
