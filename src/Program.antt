-- ===== src/Program.antt =====
-- program/src: the accounts, the calls of other programs, and the handlers.
pub mod Account
pub mod Solvency
pub mod Deadline
pub mod Step
pub mod Restock
pub mod Buy
pub mod Deposit
pub mod Create
pub mod Buyback
pub mod Settle
pub mod Refund
pub mod Withdraw
pub mod Deliver
pub mod Lifecycle
pub mod Scene
pub mod Dispatch
mod Tests
pub mod Events
pub mod Assets
pub mod Loads
