-- ===== src/Withdrawal.antt =====
-- usecases/wallet_usecases.py: a withdrawal is initiated on request and executed by a worker.
pub mod World
pub mod Amounts
pub mod Balance
pub mod Params
pub mod Initiate
pub mod Checks
pub mod Holds
pub mod Covered
pub mod Execute
pub mod Payout
pub mod Payments
mod Tests
