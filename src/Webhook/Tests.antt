-- ===== src/Webhook/Tests.antt =====
-- An order that is confirmed and then refunded, and a withdrawal whose hold the ledger does not commit.
use looprail_backend.Prelude.{◌≡◌, refl, Bool, true, false, none, some, [], ◌∷◌, pos}
use looprail_backend.Database.{Database}
use looprail_backend.Transactions
use looprail_backend.Transactions.{
  BaseTransactionParams, BankFields, Transaction, Detail, Books, bank_detail,
}
use looprail_backend.Transactions.Create.{plain_row}
use looprail_backend.Lock.{Lock}
use looprail_backend.Lock.Memory.{server}
use looprail_backend.Deposits.StageLock.{StageLock, stage_lock}
use looprail_backend.Deposits.World
use looprail_backend.Deposits.World.{Event, Services, World}
use looprail_backend.Webhook.Paycrest.{handle_paycrest_webhook, Reply}

abbrev base : BaseTransactionParams
base = record {
  wallet_id = 1;
  asset_id = 2;
  transaction_type = "debit";
  payment_type = "debit";
  method = "bank-transfer";
  currency = "ngn";
  sender = "usr_1";
  receiver = "N/A";
  amount = record { coefficient = pos 5; scale = 0 };
  narration = none;
  fee = none;
  network = none;
  metadata = [];
  country = none;
  session_id = none;
}

abbrev bank : BankFields
bank = record {
  bank_code = "011";
  bank_name = "First";
  account_number = "0123456789";
  account_name = "Ada";
  provider = "paycrest";
  external_reference = none;
  rate = none;
}

abbrev row : Transaction
row = record (plain_row 9 base "N/A" Transactions.no_destination none) {
  ledger_transaction_id = some "hold";
}

abbrev books : Books
books = record {
  transactions = row ∷ [];
  details = bank_detail 9 bank none (record { txn_id = some "order"; status = none }) ∷ [];
}

abbrev database : Database Books
database = record { saved = books; current = books }

abbrev always : Books → Bool
always _ = true

no_id_ignored : (handle_paycrest_webhook always (some "validated") none database).0 ≡ Reply.ignored
unfolding handle_paycrest_webhook
no_id_ignored = refl

abbrev withdrawals : Lock
withdrawals = record { prefix = "withdrawals"; ttl_seconds = 30 }

abbrev lock : StageLock
lock = stage_lock server (λ n. n) (λ _ s. s) withdrawals "0xabc" "b" 0 1

abbrev event : Event
event = record {
  reference = "ref";
  sender_address = "0x1";
  recipient_address = "0x2";
  amount = "25";
  fee = none;
  currency = "USDC";
  hash = some "0xabc";
  session_id = none;
  narration = "";
  source_wallet_id = "w1";
  source_asset_id = "a1";
}

-- a ledger that commits nothing
abbrev services : Services
services = record {
  wallets = [];
  countries = [];
  read_decimal = λ text. none;
  find_wallet = λ address. World.missing;
  find_asset = λ wallet_id asset_id. World.missing;
  accepts = always;
  new_id = λ b. 0;
  record_transaction = λ request calls. none;
  commit_inflight = λ id calls. false;
  rewritten = λ t books. none;
  notifies = λ calls. true;
}

abbrev start : World lock
start = record { database = database; store = λ key. none; calls = [] }
