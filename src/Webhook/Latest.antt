-- ===== src/Webhook/Latest.antt =====
-- The status of a transaction after the events of its order.
use looprail_backend.Prelude.{ℕ, ◌≡◌, Bool, none, some, String, List, [], ◌∷◌}
use looprail_backend.Database.{Database, commit}
use looprail_backend.Transactions.{Transaction, TransactionStatus, Books, find_row}
use looprail_backend.Webhook.Paycrest.{find_order, decision, handle_order}

-- the row has this status, and the order is still the row's
abbrev pub Stands : String → ℕ → TransactionStatus → Database Books → Type 0
Stands txn_id id status db =
    (find_order txn_id db.current.details ≡ some id)
    × ((t : Transaction) × ((find_row id db.current.transactions ≡ some t) × (t.status ≡ status)))

-- the last status that an event decides, or the first one; the events stand latest first
abbrev pub latest_status : List String → TransactionStatus → TransactionStatus
latest_status [] status = status
latest_status (event ∷ earlier) status = elim (decision event) [
  | none ↦ latest_status earlier status
  | some d ↦ d.0
]

module _ (accepts : Books → Bool) (txn_id : String) where
  -- the requests of the events one after another, the latest first in the list, each in a session of its own
  unfoldable pub deliver : List String → Database Books → Database Books
  deliver [] db = db
  deliver (event ∷ earlier) db = (handle_order accepts event txn_id (commit (deliver earlier db))).1
