-- ===== src/Deposits.antt =====
-- services/deposits/tasks.py: the tasks that record a deposit and settle it.
pub mod StageLock
pub mod World
pub mod Params
pub mod Initialize
pub mod Tasks
pub mod Counting
pub mod Released
pub mod Answers
pub mod Runs
pub mod Settling
pub mod Deliveries
pub mod Lifecycle
pub mod Stages
pub mod Moves
pub mod Steps
mod Tests
