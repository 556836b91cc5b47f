-- ===== src/Lib.antt =====
-- LoopRail backend: wallets, deposits and withdrawals of a payments service.
--
-- The service is a FastAPI application (main.py, api/) whose routers call use cases (usecases/). These
-- work over repositories of a SQL database (infrastructure/repositories/), over Redis
-- (infrastructure/redis.py) and over HTTP clients of a ledger, a custody provider and a payment
-- provider (infrastructure/services/). Workers of a queue (services/) execute withdrawals and record
-- deposits. This library models the parts that hold money and sessions. All paths are below src/ of the
-- repository.
--
--   Redis, Redis/Memory   infrastructure/redis.py. The server is the interface `RedisServer`, whose laws
--                         are what SET, GET and DEL promise; `Transactions` is MULTI with EXEC.
--                         `Redis/Memory` is a function from keys that fills both.
--   Lock                  infrastructure/services/lock_service.py, over that interface. The loop of
--                         `acquire` runs on fuel, one unit per pass.
--   AuthLock              infrastructure/services/auth_lock_service.py, over the same interface with the
--                         commands on counters, `Counters`.
--   Otp                   models/otp_model.py and usecases/otp_usecases.py over Redis. `Otp/Verify` is
--                         `verify_otp_dep` of api/dependencies/auth_deps.py, with `Otp/Verify/Attempts`
--                         and `Otp/Verify/Outcomes` for what follows.
--   Decimal               Python's decimal with 28 digits and ROUND_HALF_EVEN, as far as amounts use it.
--   Config                the lookups of types/types.py and utils/country_utils.py.
--   Withdrawal            usecases/wallet_usecases.py. `World` has the data, the services that a withdrawal
--                         calls, and the record of the calls that it makes; `Amounts`, `Balance`, `Params`
--                         and `Initiate` are `initiate_withdrawal` from top to bottom, and `Execute` is
--                         `execute_withdrawal_processing` with its helpers. `Checks`, `Holds`, `Covered`,
--                         `Payout` and `Payments` hold the theorems.
--   Database              the session of infrastructure/db.py and the writes of models/base.py, for tables of
--                         any kind.
--   Session               models/session_model.py, the repositories of sessions and refresh tokens,
--                         usecases/session_usecases.py and the handler of "/token" in
--                         api/versions/v1/handlers/auth_router.py (`Session/Token`).
--   Transactions          dtos/transaction_dtos.py, models/transaction_model.py,
--                         usecases/transaction_usecases.py and usecases/withdrawal_handlers/. A withdrawal
--                         takes the transaction that a handler creates as an answer of its services.
--   Deposits              services/deposits/tasks.py with utils/transaction_utils.py. `StageLock` is what a task
--                         relies on of its lock, and `Lock` behind it; `World` has the data, the state and
--                         the actions; `Params`, `Initialize` and `Tasks` are the code. `Counting` and
--                         `Released` follow the lock, `Answers`, `Runs`, `Settling`, `Deliveries` and
--                         `Lifecycle` the courses on which all services answer, and `Stages`, `Moves` and `Steps` an
--                         abstract machine of the stages.
--   RateLimit             api/rate_limiters/limiters.py. `Server` has the configuration and what the limits rely
--                         on of Redis, `Check` the checks; `Window`, `Retry` and `Tokens` hold the theorems on
--                         the window by address of mail and the bucket by IP address.
--   Action                methods that change a state and return a value or an error.
--   Wallet                the creation of a user's wallet in usecases/wallet_usecases.py with
--                         models/wallet_model.py. `World` has the rows and services, `Create` the code;
--                         `Undone` and `Complete` hold the theorems.
--   Webhook               the handler of an order's events in api/versions/v1/handlers/webhook_router.py
--                         (`Paycrest`, with its theorem in `Latest`), and that of a successful withdrawal in
--                         api/webhooks/handlers.py (`Withdraw`).
--   Users                 models/user_model.py, infrastructure/repositories/user_repository.py and
--                         usecases/user_usecases.py. `World` has the rows with the searches, `Accounts` the
--                         methods; `Register` and `Password` hold the theorems.
--   Pkce                  usecases/security_usecases.py: the challenges before a login by passcode.
--
-- State. A Redis client passes the server's store on. A use case of a withdrawal is an `Action`: it takes
-- the record of all calls so far, and gives an outcome (a value, an error, or an exception) and the longer
-- record. The answers of repositories and services are functions of that record, so each may change
-- between two calls. The use cases of sessions and transactions take the database as their request sees
-- it, with what a rollback goes back to. A task of a deposit changes a `World`: the database, the lock's store
-- and the record of its calls of the lock and the ledger; its actions return, refuse or raise. The methods
-- on users and wallets do so with a record of their calls of the cache or of the providers. Asynchronous
-- calls run in the order in which they are awaited.
--
-- Numbers. Amounts are decimals; the ledger's balances are whole minor units, where the client has floats.
-- Moments are whole numbers of seconds, and of microseconds in `RateLimit`. Only `acquire` runs on fuel, with its clock as an argument:
-- `acquire_total` shows how much is enough. The other loops are recursions on lists.
-- The tokens of a rate limit are whole fractions of one, where the code has floats. The UUIDs of rows are numbers,
-- except in `Withdrawal`, where they are texts.
--
-- Not modelled: the JSON forms and their validation except where a failure changes the course, logging,
-- mail and notifications, narrations, and the case folding of texts that are not ASCII. SHA-256, Argon2
-- and the OTP's hash are functions that are passed in. The HTTP clients, JWT, the decorator
-- of the rate limits, the other webhook handlers and the verification of signatures are left out, of the
-- users the wallet's set-up and the public view, and of a deposit's task the notifications:
-- that they go through or raise is a parameter, with which the end of the session differs. The keys of `Pkce` do
-- not expire, nor do those of the window of a rate limit, which outlive its scores.
pub mod Prelude
pub mod Redis
pub mod Lock
pub mod AuthLock
pub mod Otp
pub mod Decimal
pub mod Config
pub mod Withdrawal
pub mod Database
pub mod Session
pub mod Transactions
pub mod Deposits
pub mod RateLimit
pub mod Action
pub mod Wallet
pub mod Webhook
pub mod Users
pub mod Pkce
