-- ===== src/Webhook/Paycrest.antt =====
-- `handle_paycrest_webhook`, over the transactions. The notification of a confirmed withdrawal is left out.
use looprail_backend.Prelude.{
  ℕ, Bool, Option, none, some, String, List, [], ◌∷◌, ◌==◌, ◌||◌, str_eq, if◌then◌else◌,
}
use looprail_backend.Database.{Database, DatabaseError, save}
use looprail_backend.Transactions.{
  TransactionStatus, Detail, bank_detail, Books, update_transaction_status,
}

pub data Reply : Type 0 where
  ignored not_found processed : Reply
  -- the event is none of `PaycrestOrderStatus`
  unknown_event : Reply

-- the transaction whose bank details have the order's id: `get_by_paycrest_txn_id`
unfoldable pub find_order : String → List Detail → Option ℕ
find_order txn_id [] = none
find_order txn_id (d ∷ ds) =
    let rest = find_order txn_id ds in
    elim d [
      | bank_detail id f session order ↦ elim order.txn_id [
        | none ↦ rest
        | some t ↦ if str_eq t txn_id then some id else rest
      ]
      | _ ↦ rest
    ]

-- the order's state in the bank details of one transaction
abbrev pub put_order : ℕ → String → List Detail → List Detail
put_order id event [] = []
put_order id event (d ∷ ds) =
    let rest = put_order id event ds in
    elim d [
      | bank_detail k f session order ↦
          if k == id
          then bank_detail k f session (record order { status = some event }) ∷ rest
          else bank_detail k f session order ∷ rest
      | other ↦ other ∷ rest
    ]

-- the values of `PaycrestOrderStatus`
unfoldable pub is_known : String → Bool
is_known event =
    str_eq event "validated"
    || str_eq event "refunded"
    || str_eq event "expired"
    || str_eq event "initiated"
    || str_eq event "pending"
    || str_eq event "settled"

-- the state of the order
unfoldable pub write_order :
    (Books → Bool) → ℕ → String → Database Books → Option DatabaseError × Database Books
write_order accepts id event db =
    save accepts
      (record {
        transactions = db.current.transactions;
        details = put_order id event db.current.details;
      })
      db

-- the status that an event decides, with its message
unfoldable pub decision : String → Option (TransactionStatus × Option String)
decision event =
    if str_eq event "validated"
    then some (TransactionStatus.completed, none)
    else (if str_eq event "refunded"
        then some (TransactionStatus.failed, some "Paycrest order refunded")
        else (if str_eq event "expired"
            then some (TransactionStatus.failed, some "Paycrest order expired")
            else none))

-- the status of the transaction, whose error is passed over
unfoldable pub decide :
    (Books → Bool)
    → ℕ
    → Option (TransactionStatus × Option String)
    → Database Books
    → Database Books
decide accepts id none db = db
decide accepts id (some (status, message)) db =
    (update_transaction_status accepts id status message db).1

-- what a rollback leaves
abbrev pub roll_back : Database Books → Database Books
roll_back db = record { saved = db.saved; current = db.saved }

-- `handle_paycrest_webhook`, once the event and the order's id are there. The state of an order takes no other text than
-- the known ones: the assignment or the flush fails, nothing is written, and no status follows from such an event.
unfoldable pub handle_order :
    (Books → Bool) → String → String → Database Books → Reply × Database Books
handle_order accepts event txn_id db = elim (find_order txn_id db.current.details) [
  | none ↦ (not_found, db)
  | some id ↦
      if is_known event
      then (processed, decide accepts id (decision event) (write_order accepts id event db).1)
      else (unknown_event, roll_back db)
]

abbrev pub filled : Option String → Option String
filled none = none
filled (some text) = if str_eq text "" then none else some text

-- `handle_paycrest_webhook`
unfoldable pub handle_paycrest_webhook :
    (Books → Bool) → Option String → Option String → Database Books → Reply × Database Books
handle_paycrest_webhook accepts event txn_id db = elim (filled txn_id) [
  | none ↦ (ignored, db)
  | some t ↦ elim (filled event) [ none ↦ (ignored, db) | some e ↦ handle_order accepts e t db ]
]
