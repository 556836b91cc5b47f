-- ===== src/Transactions/Create.antt =====
-- `TransactionUsecase.create_transaction`: the row, and then the detail of its kind.
use looprail_backend.Prelude.{
  ℕ, Bool, Option, none, some, String, [], ◌∷◌, ◌++◌, str_eq, if◌then◌else◌,
}
use looprail_backend.Database.{Database, DatabaseError, save}
use looprail_backend.Transactions
use looprail_backend.Transactions.{
  BaseTransactionParams, CryptoFields, CreateTransactionParams, base_of, DestinationData,
  no_destination, to_wallet, to_user, from_source, TransactionStatus, Transaction, Detail,
  PaycrestOrder, bank_detail, wallet_detail, internal_detail, deposit_detail, Books,
  update_transaction_status,
}

-- an address that is there and not empty
abbrev pub wallet_destination : CryptoFields → DestinationData
wallet_destination c = elim c.destination_wallet_address [
  | none ↦ no_destination
  | some a ↦ if str_eq a "" then no_destination else to_wallet a c.memo
]

-- The row of a crypto transaction. The first `isinstance` takes a wallet transfer too, so that the branch
-- for `WalletTransferParams` is never reached.
abbrev pub crypto_row : ℕ → BaseTransactionParams → CryptoFields → Transaction
crypto_row id b c = record {
  id = id;
  base = b;
  receiver = b.receiver;
  network = b.network;
  status = TransactionStatus.pending;
  chain = some c;
  destination_data = wallet_destination c;
  external_reference = none;
  ledger_transaction_id = none;
  error_message = none;
}

-- a row of another kind, which does not take the network
abbrev pub plain_row :
    ℕ → BaseTransactionParams → String → DestinationData → Option String → Transaction
plain_row id b receiver destination reference = record {
  id = id;
  base = b;
  receiver = receiver;
  network = none;
  status = TransactionStatus.pending;
  chain = none;
  destination_data = destination;
  external_reference = reference;
  ledger_transaction_id = none;
  error_message = none;
}

-- `_prepare_transaction_data`
unfoldable pub prepare_transaction_data : ℕ → CreateTransactionParams → Transaction
prepare_transaction_data id (Transactions.crypto b c) = crypto_row id b c
prepare_transaction_data id (Transactions.wallet_transfer b c w) = crypto_row id b c
prepare_transaction_data id (Transactions.bank_transfer b f) =
    plain_row id b b.receiver no_destination none
prepare_transaction_data id (Transactions.internal_transfer b f) =
    plain_row id b f.recipient_user_id
      (to_user f.recipient_user_id f.recipient_asset_id f.transfer_type) none
prepare_transaction_data id (Transactions.deposit b f) =
    plain_row id b b.receiver (from_source f.source_type f.source_reference f.provider)
      f.provider_reference

-- the columns that a new row leaves at their defaults
abbrev pub no_order : PaycrestOrder
no_order = record { txn_id = none; status = none }

-- the row of `_create_transaction_details`, where there is one
unfoldable pub detail_of : ℕ → CreateTransactionParams → Option Detail
detail_of id (Transactions.crypto b c) = none
detail_of id (Transactions.wallet_transfer b c w) = some (wallet_detail id w b.network c.memo)
detail_of id (Transactions.bank_transfer b f) = some (bank_detail id f b.session_id no_order)
detail_of id (Transactions.internal_transfer b f) = some (internal_detail id f)
detail_of id (Transactions.deposit b f) = some (deposit_detail id f)

-- `_create_transaction_details`
unfoldable pub create_transaction_details :
    (Books → Bool)
    → ℕ
    → CreateTransactionParams
    → Database Books
    → Option DatabaseError × Database Books
create_transaction_details accepts id params db = elim (detail_of id params) [
  | none ↦ (none, db)
  | some d ↦
      save accepts
        (record {
          transactions = db.current.transactions;
          details = db.current.details ++ (d ∷ []);
        })
        db
]

-- `create_transaction`, with the new row's id. The error of the last update is passed over.
unfoldable pub create_transaction :
    (Books → Bool)
    → ℕ
    → CreateTransactionParams
    → Database Books
    → Option Transaction × Database Books
create_transaction accepts id params db =
    let row = prepare_transaction_data id params in
    let (e, db') =
      save accepts
        (record {
          transactions = db.current.transactions ++ (row ∷ []);
          details = db.current.details;
        })
        db in
    elim e [
      | some e' ↦ (none, db')
      | none ↦
          let (f, db'') = create_transaction_details accepts id params db' in
          elim f [
            | none ↦ (some row, db'')
            | some f' ↦
                (none, (update_transaction_status accepts id TransactionStatus.failed none db'').1)
          ]
    ]
