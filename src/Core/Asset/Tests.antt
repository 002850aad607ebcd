-- ===== src/Core/Asset/Tests.antt =====
-- Runs of the parser of packages/gacha-core/src/asset.rs.
use solana_gacha.Prelude.{◌≡◌, refl, ◌∷◌, none, ok, replicate}
use solana_gacha.Core.Asset.{core_id, core_asset, collection_part}

no_collection :
    core_asset core_id (1 ∷ replicate 33 0)
    ≡ ok (record { owner = replicate 32 0; collection = none })
unfolding core_asset collection_part
no_collection = refl
