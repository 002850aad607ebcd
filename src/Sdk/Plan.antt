-- ===== src/Sdk/Plan.antt =====
-- packages/gacha-rust/src/lib.rs, `Pool::settle` and `Settlement`: the items of a settlement, planned by the
-- client from a full snapshot.
use solana_gacha.Prelude.{
  ℕ, zero, suc, ◌+◌, ◌-◌, List, [], ◌∷◌, ◌++◌, Bool, true, false, Option, none, some, ◌==◌, ◌&&◌,
  ltb, not, if◌then◌else◌, length, get_or, set, replicate, tabulate, Result, ok, err, panic, sdk,
  reject_if, require, ok_or, ◌>>=◌, ◌>>◌,
}
use solana_gacha.Prelude.SdkErrors.{invalid_account, missing_inventory, invalid_proof}
use solana_gacha.Core.Constants.{max_tiers, inventory_space}
use solana_gacha.Core.State.{Pubkey, Pool}
use solana_gacha.Core.Draw.{draw}
use solana_gacha.Inventory.View.{tag}
use solana_gacha.Inventory.Positions.{remove_at}
use solana_gacha.Sdk.{
  Host, PoolSnapshot, PullSnapshot, Instruction, AccountMeta, instruction, rw_meta,
}
use solana_gacha.Sdk.Pools.{item_address}
use solana_gacha.Sdk.Orders.{check_pending}
pub mod Laws
pub mod Accepts
pub mod Chain
pub mod Reached
mod Tests

-- The positions of each tier's items below `n`, in order.
unfoldable pub scan : List ℕ → ℕ → ℕ → Result (List (List ℕ))
scan d tier_count zero = ok (replicate tier_count [])
scan d tier_count (suc n) = do
  candidates ← scan d tier_count n
  let t = tag d n
  let pushed = set candidates (t - 1) (get_or candidates (t - 1) [] ++ (n ∷ []))
  reject_if (ltb 0 t && not (ltb (t - 1) (length candidates))) panic
  ok (if ltb 0 t then pushed else candidates)

-- `Draw`
pub record Planned : Type 0 where
  pub tier : ℕ
  pub position : ℕ
  pub item : Pubkey

abbrev pub tier_counts : List (List ℕ) → List ℕ
tier_counts candidates = tabulate (λ t. length (get_or candidates t [])) 0 max_tiers

abbrev pub or_invalid : Result (ℕ × ℕ) → Result (ℕ × ℕ)
or_invalid (ok r) = ok r
or_invalid (err e) = err (sdk invalid_account)

-- The loop over the draws, `n` of them left, from draw `i` on.
unfoldable pub plan : Host → Pubkey → Pool → List ℕ → ℕ → ℕ → List (List ℕ) → Result (List Planned)
plan h address p beta i zero candidates = ok []
plan h address p beta i (suc n) candidates = do
  (tier, rank) ← or_invalid (draw p (h.sha256 (beta ∷ (i ∷ []) ∷ [])) (tier_counts candidates))
  let entries = get_or candidates tier []
  require (ltb rank (length entries)) panic
  let position = get_or entries rank 0
  draws ← plan h address p beta (i + 1) n (set candidates tier (remove_at rank entries))
  ok (
      record { tier = tier; position = position; item = (item_address h address tier position).0 }
      ∷ draws)

pub record Settlement : Type 0 where
  pub pool : Pubkey
  pub pull : Pubkey
  pub buyer : Pubkey
  pub operator : Pubkey
  pub proof : List ℕ
  pub draws : List Planned

unfoldable pub settle_order : Host → PoolSnapshot → PullSnapshot → List ℕ → Result Settlement
settle_order h s l proof = do
  check_pending s l
  reject_if (not (length s.index == inventory_space s.header.inventory_version))
      (sdk missing_inventory)
  beta ←
      ok_or
        (h.verify proof s.header.operator
          (h.sha256 (h.key_bytes l.address ∷ l.header.client_seed ∷ [])))
        (sdk invalid_proof)
  candidates ← scan s.index s.header.tier_count l.header.inventory_version
  draws ← plan h s.address s.header beta 0 l.header.count candidates
  ok (record {
    pool = s.address;
    pull = l.address;
    buyer = l.header.buyer;
    operator = s.header.operator;
    proof = proof;
    draws = draws;
  })

-- `Settlement::instruction`
abbrev pub item_metas : List Planned → List AccountMeta
item_metas [] = []
item_metas (d ∷ ds) = rw_meta d.item false ∷ item_metas ds

abbrev pub settlement_instruction : Host → Settlement → Instruction
settlement_instruction h s =
    instruction h (20 ∷ s.proof)
      (rw_meta s.operator false ∷ rw_meta s.pool false ∷ rw_meta s.pull false ∷ item_metas s.draws)
