-- ===== src/Deposits/Tests.antt =====
-- A deposit of 25 USDC, with a lock and a cache in memory.
use looprail_backend.Prelude.{
  ℕ, suc, ◌+◌, ◌≤◌, ◌≡◌, refl, Bool, true, false, Option, none, some, String, List, [], ◌∷◌, ◌++◌,
  pos, arith,
}
use looprail_backend.Config.{WalletEntry, AssetData}
use looprail_backend.Decimal.{Decimal}
use looprail_backend.Transactions.{
  BaseTransactionParams, DepositFields, TransactionStatus, Transaction, Books, find_row,
}
use looprail_backend.Lock.{Lock}
use looprail_backend.Lock.Memory.{server}
use looprail_backend.Deposits.StageLock.{StageLock, stage_lock, acquire_within}
use looprail_backend.Deposits.World
use looprail_backend.Deposits.World.{
  Event, WalletRow, AssetRow, Services, Call, World, LedgerRequest, acquired, released,
}
use looprail_backend.Deposits.Tasks.{
  process_deposit_success, process_deposit_swept_success, run_task,
}
use looprail_backend.Deposits.Released.{is_raised, Matched, task-releases}
use looprail_backend.Deposits.Answers.{Answers}
use looprail_backend.Deposits.Deliveries.{Settled, Undisturbed, swept-settles, swept_again-settles}
use looprail_backend.Deposits.Stages.{begun, Ends}
use looprail_backend.Deposits.Steps.{taken_view, task-follows}
use looprail_backend.Deposits.Lifecycle.{received_then_swept-completes}

abbrev deposits : Lock
deposits = record { prefix = "deposits"; ttl_seconds = 30 }

abbrev lock : StageLock
lock = stage_lock server (λ n. n) (λ _ s. s) deposits "0xabc" "b" 30 1

abbrev usdc : AssetData
usdc = record { asset_id = "a1"; blockrader_asset_id = some "b1"; address = "0xa"; symbol = "USDC" }

abbrev master : WalletEntry
master = record { wallet_id = "w1"; wallet_name = "master"; assets = usdc ∷ [] }

abbrev amount : Decimal
amount = record { coefficient = pos 25; scale = 0 }

abbrev event : Event
event = record {
  reference = "ref";
  sender_address = "0x1";
  recipient_address = "0x2";
  amount = "25";
  fee = none;
  currency = "USDC";
  hash = some "0xabc";
  session_id = none;
  narration = "Credit of 25 USDC";
  source_wallet_id = "w1";
  source_asset_id = "a1";
}

abbrev wallet : WalletRow
wallet = record { id = 4; owner = "usr_7" }

abbrev asset : AssetRow
asset = record { id = 5; symbol = "USDC"; ledger_balance_id = some "bal" }

-- an id above all others
abbrev next_id : List Transaction → ℕ
next_id [] = 0
next_id (t ∷ ts) = suc (t.id + next_id ts)

above-next_id : (rows : List Transaction) (id : ℕ) → next_id rows ≤ id → find_row id rows ≡ none
above-next_id [] id h = refl
above-next_id (t ∷ ts) id h = ground (arith, λ (k : next_id ts ≤ id). above-next_id ts id k)

fresh-next_id : (rows : List Transaction) → find_row (next_id rows) rows ≡ none
fresh-next_id rows = above-next_id rows (next_id rows) (omega arith)

abbrev services : Services
services = record {
  wallets = master ∷ [];
  countries = [];
  read_decimal = λ text. some amount;
  find_wallet = λ address. World.one wallet;
  find_asset = λ wallet_id asset_id. World.one asset;
  accepts = λ books. true;
  new_id = λ books. next_id books.transactions;
  record_transaction = λ request calls. some "entry";
  commit_inflight = λ id calls. true;
  rewritten = λ t books. none;
  notifies = λ calls. true;
}

abbrev base : BaseTransactionParams
base = record {
  wallet_id = 4;
  asset_id = 5;
  transaction_type = "credit";
  payment_type = "credit";
  method = "blockchain";
  currency = "USDC";
  sender = "0x1";
  receiver = "usr_7";
  amount = amount;
  narration = some "Credit of 25 USDC";
  fee = none;
  network = none;
  metadata = [];
  country = none;
  session_id = none;
}

abbrev fields : DepositFields
fields = record {
  source_type = "blockchain";
  source_reference = some "0x1";
  provider = some "blockradar";
  provider_reference = none;
  deposit_stage = "received";
}

answers : Answers services event
unfolding looprail_backend.Config.get_wallet looprail_backend.Config.get_asset
    looprail_backend.Deposits.Params.params_from_event looprail_backend.Prelude.Text.same_lower
    looprail_backend.Decimal.lt looprail_backend.Decimal.of_ℕ
    looprail_backend.Config.get_country_name_by_currency
answers = record {
  entry = master;
  source = usdc;
  wallet = wallet;
  asset = asset;
  balance = "bal";
  amount = amount;
  base = base;
  fields = fields;
  entry_found = refl;
  source_found = refl;
  wallet_found = refl;
  asset_found = refl;
  balance_there = refl;
  balance_filled = refl;
  amount_read = refl;
  params_valid = refl;
  id_fresh = λ b. fresh-next_id b.transactions;
  accepts_all = λ b. refl;
  ledger_id = λ request calls. "entry";
  recorded_all = λ request calls. refl;
  committed_all = λ id calls. refl;
}

undisturbed : Undisturbed lock
unfolding acquire_within looprail_backend.Lock.acquire_from looprail_backend.Lock.try_acquire
    looprail_backend.Lock.get_state looprail_backend.Deposits.StageLock.set_stage
    looprail_backend.Lock.set_state
undisturbed = record { free = λ s. refl; kept = λ s. refl; cached = λ stage s. refl }

abbrev no_books : Books
no_books = record { transactions = []; details = [] }

abbrev start : World lock
start = record {
  database = record { saved = no_books; current = no_books };
  store = λ key. none;
  calls = [];
}

task-releases_example :
    (let (o, w') = process_deposit_success lock services event start in
      is_raised o ≡ false → Matched [] w'.calls)
    × (let (o, w') = process_deposit_swept_success lock services event start in
        is_raised o ≡ false → Matched [] w'.calls)
task-releases_example = task-releases lock services event start

swept-settles_example :
    (t : Transaction) × (request : LedgerRequest) × Settled lock services event answers start
      (run_task lock (process_deposit_swept_success lock services event) start)
      t
      request
unfolding acquire_within looprail_backend.Lock.acquire_from looprail_backend.Lock.try_acquire
    looprail_backend.Lock.get_state World.find_one
swept-settles_example = swept-settles lock services event answers start refl refl refl

swept_again-settles_example :
    let w1 = run_task lock (process_deposit_swept_success lock services event) start in
    let w2 = run_task lock (process_deposit_swept_success lock services event) w1 in
    (t : Transaction) × (u : Transaction) × (first : LedgerRequest) × (second : LedgerRequest)
    × (Settled lock services event answers start w1 t first
        × Settled lock services event answers w1 w2 u second)
unfolding looprail_backend.Lock.get_state World.find_one
swept_again-settles_example =
    swept_again-settles lock services event answers undisturbed "0xabc" start refl refl refl refl

received_then_swept-completes_example :
    let w' =
      run_task lock
        (process_deposit_swept_success lock services event)
        (run_task lock (process_deposit_success lock services event) start) in
    (t : Transaction) × (request : LedgerRequest) × ((w'.database.saved.transactions ≡ t ∷ [])
      × (t.status ≡ TransactionStatus.completed)
      × (t.external_reference ≡ some "ref")
      × (w'.calls
          ≡ released
            ∷ World.staged "swept"
            ∷ World.committed t.ledger_transaction_id true
            ∷ acquired
            ∷ released
            ∷ World.staged "received"
            ∷ World.recorded request t.ledger_transaction_id
            ∷ acquired
            ∷ [])
      × (lock.get_state w'.store ≡ some "swept"))
unfolding World.find_one
received_then_swept-completes_example =
    received_then_swept-completes lock services event answers undisturbed start refl refl
      (λ calls. refl)

task-follows_example :
    Ends begun
      (taken_view lock services event start)
      (process_deposit_success lock services event start).1
    × Ends begun
        (taken_view lock services event start)
        (process_deposit_swept_success lock services event start).1
unfolding acquire_within looprail_backend.Lock.acquire_from looprail_backend.Lock.try_acquire
task-follows_example = task-follows lock services event start refl
