-- ===== src/Core/Constants.antt =====
-- packages/gacha-core/src/constants.rs.
use solana_gacha.Prelude.{ℕ, ◌+◌, ◌*◌, ◌/◌}

abbrev pub pool_version : ℕ
pool_version = 1

abbrev pub item_version : ℕ
item_version = 1

abbrev pub pull_version : ℕ
pull_version = 1

abbrev pub pool_paused : ℕ
pool_paused = 0

abbrev pub pool_active : ℕ
pool_active = 1

abbrev pub pool_retired : ℕ
pool_retired = 2

abbrev pub max_tiers : ℕ
max_tiers = 8

abbrev pub max_count : ℕ
max_count = 10

abbrev pub tier_len : ℕ
tier_len = 8

abbrev pub pool_len : ℕ
pool_len = 192 + max_tiers * tier_len

abbrev pub item_len : ℕ
item_len = 72

abbrev pub outcome_len : ℕ
outcome_len = 33

abbrev pub pull_len : ℕ
pull_len = 120 + max_count * outcome_len

abbrev pub status_pending : ℕ
status_pending = 0

abbrev pub status_settled : ℕ
status_settled = 1

-- An outcome's tier byte once its item has been delivered.
abbrev pub delivered : ℕ
delivered = 0xff

-- The index suffix of a pool: blocks of eight counts and 64 tier tags.
abbrev pub tags_per_block : ℕ
tags_per_block = 64

abbrev pub counts_len : ℕ
counts_len = max_tiers * 4

abbrev pub block_len : ℕ
block_len = counts_len + tags_per_block

-- `positions.div_ceil(64) * 96`
abbrev pub inventory_space : ℕ → ℕ
inventory_space positions = (positions + 63) / tags_per_block * block_len
