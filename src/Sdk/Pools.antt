-- ===== src/Sdk/Pools.antt =====
-- packages/gacha-rust/src/lib.rs, `Pool` and `CreatePool`: decoding a pool, what can be bought or
-- withdrawn, and its instructions.
use solana_gacha.Prelude.{
  ℕ, zero, suc, ◌+◌, ◌-◌, ◌*◌, ◌/◌, min, List, [], ◌∷◌, ◌++◌, Bool, true, false, Option, none, some,
  ◌==◌, ◌||◌, ◌&&◌, ltb, leb, not, if◌then◌else◌, length, get_or, set, replicate, tabulate, Result,
  ok, err, sdk, reject_if, require, ok_or, checked_sub, ◌>>=◌, ◌>>◌,
}
use solana_gacha.Prelude.SdkErrors.{
  invalid_account, invalid_argument, wrong_pool, not_pending, not_next_in_queue, invalid_item,
  invalid_asset, invalid_pool_status, pending_purchases,
}
use solana_gacha.Bytes.{le_bytes}
use solana_gacha.Core.Constants.{
  max_tiers, max_count, pool_len, pool_version, pool_paused, pool_active, pool_retired,
  status_pending, inventory_space,
}
use solana_gacha.Core.State.{Pubkey, Tier, Pool, tiers, empty_tier, refund_total, remaining}
use solana_gacha.Inventory.View.{tag}
use solana_gacha.Program.Account.{Contents, pool_data, data_len}
use solana_gacha.Program.Create.{contains_zero, is_none}
use solana_gacha.Core.Seeds.{pool_seed, pull_seed, item_seed}
use solana_gacha.Sdk.{
  Host, PoolSnapshot, PullSnapshot, ItemSnapshot, Asset, Instruction, instruction, collection_of,
  check, rw_meta, ro_meta, token_instruction,
}
pub mod Laws
mod Tests

abbrev pub pool_address : Host → Pubkey → ℕ → Pubkey × ℕ
pool_address h authority id =
    h.find_program_address (pool_seed ∷ h.key_bytes authority ∷ le_bytes 8 id ∷ [])

abbrev pub pull_address : Host → Pubkey → List ℕ → Pubkey × ℕ
pull_address h pool client_seed =
    h.find_program_address (pull_seed ∷ h.key_bytes pool ∷ client_seed ∷ [])

abbrev pub item_address : Host → Pubkey → ℕ → ℕ → Pubkey × ℕ
item_address h pool tier position =
    h.find_program_address (item_seed ∷ h.key_bytes pool ∷ (tier ∷ []) ∷ le_bytes 4 position ∷ [])

-- `header.tiers().iter().any(|t| t.weight() == 0)`
unfoldable pub any_weightless : List Tier → Bool
any_weightless [] = false
any_weightless (t ∷ ts) = (t.weight == 0) || any_weightless ts

-- The loop over the positions: how many items each tier has.
unfoldable pub tally : List ℕ → ℕ → ℕ → Result (List ℕ)
tally d tier_count zero = ok (replicate max_tiers 0)
tally d tier_count (suc n) = do
  counts ← tally d tier_count n
  let t = tag d n
  reject_if (ltb tier_count t) (sdk invalid_account)
  ok (if ltb 0 t then set counts (t - 1) (get_or counts (t - 1) 0 + 1) else counts)

-- `tiers().iter().zip(remaining).any(|(tier, n)| tier.remaining() != n)`
unfoldable pub any_other : List Tier → List ℕ → Bool
any_other [] counts = false
any_other (t ∷ ts) [] = false
any_other (t ∷ ts) (c ∷ cs) = not (t.remaining == c) || any_other ts cs

unfoldable pub pool_from_account : Host → Pubkey → Pubkey → Contents → Result PoolSnapshot
unfolding refund_total
pool_from_account h address owner body = do
  check h owner body pool_len pool_version
  elim body [
    | pool_data p d ↦ do
      let derived = pool_address h p.authority p.id
      reject_if
          (p.tier_count == 0
            || ltb max_tiers p.tier_count
            || ltb pool_retired p.status
            || (not (length d == 0) && not (length d == inventory_space p.inventory_version))
            || not (derived.0 == address && (derived.1 == p.bump))
            || not (p.vault == h.ata address p.payment_mint)
            || p.price == 0
            || p.bond_per_draw == 0
            || p.deadline_slots == 0
            || is_none (refund_total p.price p.bond_per_draw max_count)
            || any_weightless (tiers p))
          (sdk invalid_account)
      counts ← tally d p.tier_count (if length d == 0 then 0 else p.inventory_version)
      reject_if (not (length d == 0) && any_other (tiers p) counts) (sdk invalid_account)
      ok (record { address = address; header = p; index = d })
    | _ ↦ err (sdk invalid_account)
  ]

abbrev pub is_active : PoolSnapshot → Bool
is_active s = s.header.status == pool_active

abbrev pub is_retired : PoolSnapshot → Bool
is_retired s = not (s.header.status == pool_paused) && not (s.header.status == pool_active)

pub spendable_balance : PoolSnapshot → ℕ → Result ℕ
unfolding refund_total
spendable_balance s vault_balance = do
  reserved ←
      ok_or (refund_total s.header.price s.header.bond_per_draw s.header.pending_draws)
        (sdk invalid_account)
  ok (vault_balance - reserved)

-- A pool without a bond would make the code divide by zero; `pool_from_account` refuses one.
pub available_draws : PoolSnapshot → ℕ → Result ℕ
available_draws s vault_balance = if not (is_active s) then ok 0 else (do
  stock ← ok_or (checked_sub (remaining s.header) s.header.pending_draws) (sdk invalid_account)
  free ← spendable_balance s vault_balance
  ok (min (min stock (free / s.header.bond_per_draw)) max_count))
