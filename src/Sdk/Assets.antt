-- ===== src/Sdk/Assets.antt =====
-- packages/gacha-rust/src/lib.rs, `Asset::from_account`, over the parser of gacha-core.
use solana_gacha.Prelude.{ℕ, List, Option, none, some, Result, ok, err, sdk}
use solana_gacha.Prelude.SdkErrors.{invalid_asset}
use solana_gacha.Core.State.{Pubkey}
use solana_gacha.Core.Asset.{CoreAsset, core_asset}
use solana_gacha.Sdk.{Host, Asset}
pub mod Laws
mod Tests

abbrev pub collection_address : Host → Option (List ℕ) → Option Pubkey
collection_address h none = none
collection_address h (some key) = some (h.key_of key)

-- The client's asset of a header; the parser's error is one of the client's.
abbrev pub asset_of_header : Host → Pubkey → Result CoreAsset → Result Asset
asset_of_header h address (ok header) = ok (record {
  address = address;
  owner = h.key_of header.owner;
  collection = collection_address h header.collection;
})
asset_of_header h address (err e) = err (sdk invalid_asset)

-- `Asset::from_account`, on the bytes of the account.
unfoldable pub asset_from_account : Host → Pubkey → Pubkey → List ℕ → Result Asset
asset_from_account h address owner d = asset_of_header h address (core_asset (h.key_bytes owner) d)
