-- ===== src/Transactions/Records.antt =====
-- What the creation of a transaction leaves in the database.
use looprail_backend.Prelude.{
  ℕ, ◌≡◌, ◌≢◌, ◌∙◌, sym, refl, Bool, Option, none, some, String, List, [], ◌∷◌, ◌++◌, arith,
  Option-cases, inl, inr, ◌==◌, ap, if◌then◌else◌, str_eq,
}
use looprail_backend.Database.{Database, save}
use looprail_backend.Transactions
use looprail_backend.Transactions.{
  BaseTransactionParams, CryptoFields, WalletFields, CreateTransactionParams, DestinationData,
  no_destination, TransactionStatus, Transaction, Detail, Books, find_row, put_row,
  get_transaction_by_id, update_row, update_transaction_status,
}
use looprail_backend.Transactions.Create.{
  crypto_row, prepare_transaction_data, detail_of, create_transaction_details, create_transaction,
}
use looprail_backend.Transactions.Handlers.{handle_external_wallet_transfer}

abbrev pub with_detail : Option Detail → List Detail → List Detail
with_detail none details = details
with_detail (some d) details = details ++ (d ∷ [])

created_row :
    (accepts : Books → Bool) (id : ℕ) (params : CreateTransactionParams) (db : Database Books)
    (row : Transaction)
    → (create_transaction accepts id params db).0 ≡ some row
    → row ≡ prepare_transaction_data id params
unfolding create_transaction create_transaction_details
created_row accepts id params db row h = ground arith

prepared :
    (id : ℕ) (params : CreateTransactionParams)
    → ((prepare_transaction_data id params).id ≡ id)
      × ((prepare_transaction_data id params).status ≡ TransactionStatus.pending)
unfolding prepare_transaction_data
prepared id params = ground arith

create_transaction-run :
    (accepts : Books → Bool) (id : ℕ) (params : CreateTransactionParams) (db : Database Books)
    (row : Transaction)
    → (create_transaction accepts id params db).0 ≡ some row
    → (row.id ≡ id)
      × (row.status ≡ TransactionStatus.pending)
      × ((create_transaction accepts id params db).1.current ≡ record {
        transactions = db.current.transactions ++ (row ∷ []);
        details = with_detail (detail_of id params) db.current.details;
      })
unfolding create_transaction create_transaction_details save
create_transaction-run accepts id params db row h = elim (Option-cases (detail_of id params)) [
  | inl plain ↦ (
    ground (arith, created_row accepts id params db row h, prepared id params),
    ground (arith, created_row accepts id params db row h, prepared id params),
    ground (arith, created_row accepts id params db row h),
  )
  | inr (d, e) ↦ (
    ground (arith, created_row accepts id params db row h, prepared id params),
    ground (arith, created_row accepts id params db row h, prepared id params),
    ground (arith, created_row accepts id params db row h),
  )
]

pub find_row-append :
    (id : ℕ) (rows : List Transaction) (t : Transaction)
    → find_row id rows ≡ none
    → t.id ≡ id
    → find_row id (rows ++ (t ∷ [])) ≡ some t
find_row-append id [] t h e = ground arith
find_row-append id (r ∷ rows) t h e =
    ground (arith, λ (k : find_row id rows ≡ none). find_row-append id rows t k e)

-- the details of one transaction
abbrev pub detail_id : Detail → ℕ
detail_id d = elim d [
  | Transactions.bank_detail k f session order ↦ k
  | Transactions.wallet_detail k w network memo ↦ k
  | Transactions.internal_detail k f ↦ k
  | Transactions.deposit_detail k f ↦ k
]

abbrev pub details_for : ℕ → List Detail → List Detail
details_for id [] = []
details_for id (d ∷ ds) =
    let rest = details_for id ds in if detail_id d == id then d ∷ rest else rest

details_for-append :
    (id : ℕ) (ds es : List Detail)
    → details_for id (ds ++ es) ≡ details_for id ds ++ details_for id es
details_for-append id [] es = refl
details_for-append id (d ∷ ds) es = ground (arith, details_for-append id ds es)

-- the destination on a chain, if there is an address that is not empty
abbrev pub to_address : Option String → Option String → DestinationData
to_address none memo = no_destination
to_address (some address) memo =
    if str_eq address "" then no_destination else Transactions.to_wallet address memo

wallet_destination-to_address :
    (b : BaseTransactionParams) (c : CryptoFields) (id : ℕ)
    → (crypto_row id b c).destination_data ≡ to_address c.destination_wallet_address c.memo
wallet_destination-to_address b c id = ground (arith, Option-cases c.destination_wallet_address)

-- who receives a transaction of each kind, and what its row has besides
abbrev pub Describes : CreateTransactionParams → Transaction → Type 0
Describes (Transactions.crypto b c) t =
    (t.receiver ≡ b.receiver)
    × (t.network ≡ b.network)
    × (t.chain ≡ some c)
    × (t.external_reference ≡ none)
    × (t.destination_data ≡ to_address c.destination_wallet_address c.memo)
Describes (Transactions.wallet_transfer b c w) t =
    (t.receiver ≡ b.receiver)
    × (t.network ≡ b.network)
    × (t.chain ≡ some c)
    × (t.external_reference ≡ none)
    × (t.destination_data ≡ to_address c.destination_wallet_address c.memo)
Describes (Transactions.bank_transfer b f) t =
    (t.receiver ≡ b.receiver)
    × (t.network ≡ none)
    × (t.chain ≡ none)
    × (t.external_reference ≡ none)
    × (t.destination_data ≡ no_destination)
Describes (Transactions.internal_transfer b f) t =
    (t.receiver ≡ f.recipient_user_id)
    × (t.network ≡ none)
    × (t.chain ≡ none)
    × (t.external_reference ≡ none)
    × (t.destination_data
        ≡ Transactions.to_user f.recipient_user_id f.recipient_asset_id f.transfer_type)
Describes (Transactions.deposit b f) t =
    (t.receiver ≡ b.receiver)
    × (t.network ≡ none)
    × (t.chain ≡ none)
    × (t.external_reference ≡ f.provider_reference)
    × (t.destination_data ≡ Transactions.from_source f.source_type f.source_reference f.provider)

-- the details that a transaction of each kind has
abbrev pub details_of_kind : ℕ → CreateTransactionParams → List Detail
details_of_kind id (Transactions.crypto b c) = []
details_of_kind id (Transactions.wallet_transfer b c w) =
    Transactions.wallet_detail id w b.network c.memo ∷ []
details_of_kind id (Transactions.bank_transfer b f) =
    Transactions.bank_detail id f b.session_id (record { txn_id = none; status = none }) ∷ []
details_of_kind id (Transactions.internal_transfer b f) = Transactions.internal_detail id f ∷ []
details_of_kind id (Transactions.deposit b f) = Transactions.deposit_detail id f ∷ []

prepared-Describes :
    (id : ℕ) (params : CreateTransactionParams)
    → let t = prepare_transaction_data id params in
      Describes params t × ((t.base ≡ Transactions.base_of params) × (t.id ≡ id))
unfolding prepare_transaction_data
prepared-Describes id (Transactions.crypto b c) =
    ((refl, refl, refl, refl, wallet_destination-to_address b c id), (refl, refl))
prepared-Describes id (Transactions.wallet_transfer b c w) =
    ((refl, refl, refl, refl, wallet_destination-to_address b c id), (refl, refl))
prepared-Describes id (Transactions.bank_transfer b f) =
    ((refl, refl, refl, refl, refl), (refl, refl))
prepared-Describes id (Transactions.internal_transfer b f) =
    ((refl, refl, refl, refl, refl), (refl, refl))
prepared-Describes id (Transactions.deposit b f) = ((refl, refl, refl, refl, refl), (refl, refl))

detail-details_for :
    (id : ℕ) (params : CreateTransactionParams)
    → details_for id (with_detail (detail_of id params) []) ≡ details_of_kind id params
unfolding detail_of
detail-details_for id (Transactions.crypto b c) = refl
detail-details_for id (Transactions.wallet_transfer b c w) = ground arith
detail-details_for id (Transactions.bank_transfer b f) = ground arith
detail-details_for id (Transactions.internal_transfer b f) = ground arith
detail-details_for id (Transactions.deposit b f) = ground arith

with_detail-append :
    (d : Option Detail) (ds : List Detail) → with_detail d ds ≡ ds ++ with_detail d []
with_detail-append none [] = refl
with_detail-append none (d ∷ ds) = ap (λ es. d ∷ es) (with_detail-append none ds)
with_detail-append (some d) ds = refl

find_row-append_ne :
    (id : ℕ) (rows : List Transaction) (t : Transaction)
    → t.id ≢ id
    → find_row id (rows ++ (t ∷ [])) ≡ find_row id rows
find_row-append_ne id [] t ne = ground arith
find_row-append_ne id (r ∷ rows) t ne = ground (arith, find_row-append_ne id rows t ne)

-- A transaction that is created under an id that no row and no detail has is read back by that id, pending, with the
-- parameters of the request and the receiver, network, reference and destination of its kind. It has the one detail of
-- its kind, or none if it is on the chain alone, and every other transaction is read as before.
pub create_transaction-records :
    (accepts : Books → Bool) (id other : ℕ) (params : CreateTransactionParams) (db : Database Books)
    (row : Transaction)
    → (create_transaction accepts id params db).0 ≡ some row
    → get_transaction_by_id id db ≡ none
    → details_for id db.current.details ≡ []
    → other ≢ id
    → let db' = (create_transaction accepts id params db).1 in
      (get_transaction_by_id id db' ≡ some row)
      × (row.status ≡ TransactionStatus.pending)
      × (row.base ≡ Transactions.base_of params)
      × Describes params row
      × (details_for id db'.current.details ≡ details_of_kind id params)
      × (get_transaction_by_id other db' ≡ get_transaction_by_id other db)
unfolding get_transaction_by_id
create_transaction-records accepts id other params db row h fresh alone ne =
    let (same_id, pending, books) = create_transaction-run accepts id params db row h in
    let is_row = created_row accepts id params db row h in
    let (described, (based, _)) = prepared-Describes id params in
    let rows = ap (λ x. x.transactions) books in
    let details =
      ap (λ x. details_for id x.details) books
      ∙ ap (details_for id) (with_detail-append (detail_of id params) db.current.details)
      ∙ details_for-append id db.current.details (with_detail (detail_of id params) [])
      ∙ ap (λ ds. ds ++ details_for id (with_detail (detail_of id params) [])) alone
      ∙ detail-details_for id params in
    (
      ap (find_row id) rows ∙ find_row-append id db.current.transactions row fresh same_id,
      pending,
      ap (λ t. t.base) is_row ∙ based,
      rw is_row described,
      details,
      ap (find_row other) rows
          ∙ find_row-append_ne other db.current.transactions row (λ e. ne (sym e ∙ same_id)),
    )

-- Where the creation fails, and no saved row has the new id, nothing of it remains: what the request sees is
-- again what a rollback goes back to. The row that is to be marked as failed is gone as well.
pub create_transaction-rolls_back :
    (accepts : Books → Bool) (id : ℕ) (params : CreateTransactionParams) (db : Database Books)
    → (create_transaction accepts id params db).0 ≡ none
    → find_row id db.saved.transactions ≡ none
    → (create_transaction accepts id params db).1.current ≡ db.saved
unfolding create_transaction create_transaction_details save update_transaction_status
    get_transaction_by_id
create_transaction-rolls_back accepts id params db h fresh = ground arith

-- A transfer to an external wallet that the handler records has no destination and no detail, whatever the
-- wallet of the given parameters is, unless these name a destination of the chain besides.
pub handle_external_wallet-records :
    (accepts : Books → Bool) (id : ℕ) (b : BaseTransactionParams) (c : CryptoFields)
    (w : WalletFields) (db : Database Books) (row : Transaction)
    → c.destination_wallet_address ≡ none
    → (handle_external_wallet_transfer accepts id b c w db).0 ≡ some row
    → (row.destination_data ≡ no_destination)
      × ((handle_external_wallet_transfer accepts id b c w db).1.current.details
          ≡ db.current.details)
unfolding handle_external_wallet_transfer create_transaction create_transaction_details save
    prepare_transaction_data detail_of
handle_external_wallet-records accepts id b c w db row empty h = ground arith

pub find_row-put_row :
    (t old : Transaction) (rows : List Transaction)
    → find_row t.id rows ≡ some old
    → find_row t.id (put_row t rows) ≡ some t
find_row-put_row t old [] h = ground arith
find_row-put_row t old (r ∷ rows) h =
    ground (arith, λ (k : find_row t.id rows ≡ some old). find_row-put_row t old rows k)

pub find_row-put_row_ne :
    (t : Transaction) (id : ℕ) (rows : List Transaction)
    → t.id ≢ id
    → find_row id (put_row t rows) ≡ find_row id rows
find_row-put_row_ne t id [] h = refl
find_row-put_row_ne t id (r ∷ rows) h = ground (arith, find_row-put_row_ne t id rows h)

pub find_row_id :
    (id : ℕ) (rows : List Transaction) (t : Transaction) → find_row id rows ≡ some t → t.id ≡ id
find_row_id id [] t h = ground arith
find_row_id id (r ∷ rows) t h = ground (arith, find_row_id id rows t)

-- An update of a status that goes through is seen by the next reading of that transaction, with the rest of its
-- row but the message as it was, and no other transaction is changed.
pub update_status-get :
    (accepts : Books → Bool) (id other : ℕ) (status : TransactionStatus) (message : Option String)
    (old : Transaction) (db : Database Books)
    → get_transaction_by_id id db ≡ some old
    → (update_transaction_status accepts id status message db).0 ≡ none
    → other ≢ id
    → let db' = (update_transaction_status accepts id status message db).1 in
      (get_transaction_by_id id db'
        ≡ some (record old {
          status = status;
          error_message = Transactions.or_else message old.error_message;
        }))
      × (get_transaction_by_id other db' ≡ get_transaction_by_id other db)
unfolding update_transaction_status update_row save get_transaction_by_id
update_status-get accepts id other status message old db found done ne =
    let rows = db.current.transactions in
    let changed : Transaction = record old {
      status = status;
      error_message = Transactions.or_else message old.error_message;
    } in
    let same = find_row_id id rows old found in
    let found' : find_row old.id rows ≡ some old = ground arith in
    let seen = find_row-put_row changed old rows found' in
    let kept = find_row-put_row_ne changed other rows (λ e. ne (sym e ∙ same)) in
    let seen' : find_row id (put_row changed rows) ≡ some changed = ground arith in
    (ground arith, ground arith)
