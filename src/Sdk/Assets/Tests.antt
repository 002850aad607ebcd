-- ===== src/Sdk/Assets/Tests.antt =====
-- Runs of the client's reading of an asset.
use solana_gacha.Prelude.{◌≡◌, refl, [], ◌∷◌, some, ok, err, sdk, arith, replicate}
use solana_gacha.Prelude.SdkErrors.{invalid_asset}
use solana_gacha.Bytes.{le_bytes, length-le_bytes}
use solana_gacha.Bytes.Values.{le_value, le_value-le_bytes}
use solana_gacha.Core.Asset.{core_id, core_asset, collection_part}
use solana_gacha.Core.Asset.Laws.{asset_bytes}
use solana_gacha.Program.Assets.{transfer_instruction}
use solana_gacha.Sdk.{Host}
use solana_gacha.Sdk.Scene.{host}
use solana_gacha.Sdk.Assets.{asset_from_account}
use solana_gacha.Sdk.Assets.Laws.{authority_of, collection_key, asset_from_account-asset_bytes}

-- A client whose keys are numbers of 32 bytes, but for the Core program's.
abbrev asset_host : Host
asset_host = record host { core = le_value core_id; key_bytes = le_bytes 32; key_of = le_value }

wrong_owner : asset_from_account asset_host 99 5 (1 ∷ replicate 65 0) ≡ err (sdk invalid_asset)
unfolding asset_from_account core_asset collection_part
wrong_owner = refl

asset_from_account-asset_bytes_example :
    asset_from_account asset_host 99 asset_host.core
      (asset_bytes (le_bytes 32 10) (authority_of asset_host (collection_key 98)) (7 ∷ []))
    ≡ ok (record { address = 99; owner = 10; collection = some 98 })
asset_from_account-asset_bytes_example =
    asset_from_account-asset_bytes asset_host 99 10 (collection_key 98) (7 ∷ []) refl
      (length-le_bytes 32 10, le_value-le_bytes 32 10 (omega arith))
      (length-le_bytes 32 98, le_value-le_bytes 32 98 (omega arith))

-- The transfer of an asset without a collection names the Core program in its place.
transferred :
    (transfer_instruction asset_host (record {
      payer = 50;
      authority = 10;
      new_owner = 50;
      asset = 99;
      collection = asset_host.core;
    })).bytes
    ≡ 14 ∷ 0 ∷ []
unfolding transfer_instruction
transferred = refl
