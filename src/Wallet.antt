-- ===== src/Wallet.antt =====
-- The creation of a user's wallet in usecases/wallet_usecases.py, and the reading of its assets.
pub mod World
pub mod Create
pub mod Undone
pub mod Complete
mod Tests
