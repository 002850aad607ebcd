-- ===== src/Sdk/Pulls.antt =====
-- packages/gacha-rust/src/lib.rs, `Pull`, `Item` and the delivery of awards.
use solana_gacha.Prelude.{
  ℕ, suc, ◌+◌, List, [], ◌∷◌, ◌++◌, Bool, true, false, Option, none, some, ◌==◌, ◌&&◌, ◌||◌, ltb,
  leb, not, if◌then◌else◌, length, get_or, tabulate, Result, ok, err, sdk, reject_if, ◌>>=◌, ◌>>◌,
}
use solana_gacha.Prelude.SdkErrors.{invalid_account, invalid_item, invalid_asset, not_settled}
use solana_gacha.Core.Constants.{
  max_tiers, max_count, pull_len, pull_version, item_len, item_version, status_pending,
  status_settled, delivered,
}
use solana_gacha.Core.State.{Pubkey, Pull, Award, outcome}
use solana_gacha.Program.Account.{Contents, pull_data, item_data}
use solana_gacha.Sdk.{
  Host, PullSnapshot, ItemSnapshot, Asset, Instruction, instruction, collection_of, check, rw_meta,
  ro_meta,
}
use solana_gacha.Sdk.Pools.{pull_address, item_address}
use solana_gacha.Sdk.Batches.{batches}
use solana_gacha.Sdk.Plan.{Planned, Settlement, settlement_instruction}
pub mod Delivery
pub mod Laws
mod Tests

-- An award that is neither delivered nor of one of the eight tiers.
unfoldable pub any_bad : List Award → Bool
any_bad [] = false
any_bad (a ∷ rest) = (not (a.tier == delivered) && leb max_tiers a.tier) || any_bad rest

abbrev pub awards : Pull → List Award
awards l = tabulate (outcome l) 0 l.count

-- The checks of `Pull::from_account` past the length and the version.
unfoldable pub check_pull : Host → Pubkey → Contents → Result PullSnapshot
check_pull h address (pull_data l) = do
  reject_if (ltb status_settled l.status || l.count == 0 || ltb max_count l.count)
      (sdk invalid_account)
  let derived = pull_address h l.pool l.client_seed
  reject_if (not (derived.0 == address && (derived.1 == l.bump))) (sdk invalid_account)
  reject_if (not (l.status == status_pending) && any_bad (awards l)) (sdk invalid_account)
  ok (record { address = address; header = l })
check_pull h address _ = err (sdk invalid_account)

unfoldable pub pull_from_account : Host → Pubkey → Pubkey → Contents → Result PullSnapshot
unfolding check_pull
pull_from_account h address owner body = do
  check h owner body pull_len pull_version
  check_pull h address body

unfoldable pub item_from_account : Host → Pubkey → Pubkey → Contents → Result ItemSnapshot
item_from_account h address owner body = do
  check h owner body item_len item_version
  elim body [
    | item_data i ↦ do
      reject_if (leb max_tiers i.tier) (sdk invalid_account)
      let derived = item_address h i.pool i.tier i.position
      reject_if (not (derived.0 == address && (derived.1 == i.bump))) (sdk invalid_account)
      ok (record { address = address; header = i })
    | _ ↦ err (sdk invalid_account)
  ]

pub record Outcome : Type 0 where
  pub asset : Pubkey
  pub tier : Option ℕ

abbrev pub to_outcome : Award → Outcome
to_outcome a = record { asset = a.asset; tier = if a.tier == delivered then none else some a.tier }

-- `Pull::outcomes`
unfoldable pub outcomes : PullSnapshot → Result (List Outcome)
outcomes l = do
  reject_if (l.header.status == status_pending) (sdk not_settled)
  ok (tabulate (λ i. to_outcome (outcome l.header i)) 0 l.header.count)

-- The function `deliver`.
unfoldable pub deliver_order :
    Host → Pubkey → Pubkey → Pubkey → Asset → ℕ → Pubkey → Result Instruction
deliver_order h pool pull buyer a index payer = do
  reject_if (not (a.owner == pool)) (sdk invalid_asset)
  ok (
      instruction h (21 ∷ index ∷ []) (
        rw_meta payer true
        ∷ ro_meta pool false
        ∷ rw_meta pull false
        ∷ rw_meta buyer false
        ∷ rw_meta a.address false
        ∷ ro_meta (collection_of h a) false
        ∷ ro_meta h.core false
        ∷ ro_meta h.system false
        ∷ []))

-- The outcomes not delivered yet, with their places, from `i` on.
pub undelivered : ℕ → List Outcome → List (ℕ × Pubkey)
undelivered i [] = []
undelivered i (o ∷ rest) =
    let later = undelivered (suc i) rest in
    elim o.tier [ none ↦ later | some t ↦ (i, o.asset) ∷ later ]

-- The deliveries of awards, each with its place and its asset.
unfoldable pub deliveries :
    Host
    → Pubkey
    → Pubkey
    → Pubkey
    → List (ℕ × Pubkey)
    → List Asset
    → Pubkey
    → Result (List Instruction)
deliveries h pool pull buyer [] assets payer = ok []
deliveries h pool pull buyer (x ∷ rest) [] payer = ok []
deliveries h pool pull buyer ((i, asset) ∷ rest) (a ∷ assets) payer = do
  reject_if (not (asset == a.address)) (sdk invalid_asset)
  one ← deliver_order h pool pull buyer a i payer
  others ← deliveries h pool pull buyer rest assets payer
  ok (one ∷ others)

-- `Pull::deliver`
pub deliver_batches : Host → PullSnapshot → List Asset → Pubkey → Result (List (List Instruction))
deliver_batches h l assets payer = do
  all ← outcomes l
  let pending = undelivered 0 all
  reject_if (not (length pending == length assets)) (sdk invalid_asset)
  instructions ← deliveries h l.header.pool l.address l.header.buyer pending assets payer
  batches h [] instructions payer

-- `items.iter().zip(&self.draws).any(|(item, d)| item.address != d.item)`
unfoldable pub any_misplaced : List ItemSnapshot → List Planned → Bool
any_misplaced [] draws = false
any_misplaced (i ∷ items) [] = false
any_misplaced (i ∷ items) (d ∷ draws) = not (i.address == d.item) || any_misplaced items draws

-- The places of the items, with their assets.
unfoldable pub placed : ℕ → List ItemSnapshot → List (ℕ × Pubkey)
placed n [] = []
placed n (i ∷ items) = (n, i.header.asset) ∷ placed (suc n) items

-- `Settlement::instructions`
unfoldable pub settlement_batches :
    Host → Settlement → List ItemSnapshot → List Asset → Pubkey → Result (List (List Instruction))
settlement_batches h s items assets payer = do
  reject_if (not (length items == length s.draws) || any_misplaced items s.draws) (sdk invalid_item)
  reject_if (not (length assets == length items)) (sdk invalid_asset)
  instructions ← deliveries h s.pool s.pull s.buyer (placed 0 items) assets payer
  batches h (settlement_instruction h s ∷ []) instructions payer
