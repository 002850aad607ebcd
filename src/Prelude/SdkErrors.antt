-- ===== src/Prelude/SdkErrors.antt =====
-- packages/gacha-rust/src/lib.rs, `Error`.

pub data SdkError : Type 0 where
  invalid_account invalid_argument invalid_proof wrong_pool not_pending : SdkError
  not_settled not_next_in_queue missing_inventory invalid_item invalid_asset : SdkError
  invalid_pool_status pending_purchases transaction_too_large : SdkError
