-- ===== src/Core.antt =====
-- packages/gacha-core: the constants, the account layouts and the draw rules that the program and the
-- Rust SDK share.
pub mod Constants
pub mod State
pub mod Draw
pub mod Stock
pub mod Quote
pub mod Layout
pub mod Asset
pub mod Seeds
