-- ===== src/Sdk/Rpc.antt =====
-- packages/gacha-rust/src/rpc.rs: the reads of the RPC client, and what it prepares from them.
-- An account's bytes are decoded as Program/Loads does.
use solana_gacha.Prelude.{
  ℕ, zero, suc, ◌+◌, List, [], ◌∷◌, Bool, true, false, not, ◌==◌, ◌||◌, ltb, Option, none, some,
  length, take, if◌then◌else◌, Result, ok, err, sdk, panic, missing_account, reject_if, ok_or,
  ◌>>=◌, ◌>>◌,
}
use solana_gacha.Prelude.SdkErrors.{invalid_account}
use solana_gacha.Core.Constants.{pool_len, pull_len}
use solana_gacha.Core.State.{Pubkey}
use solana_gacha.Program.Loads.{decode_pool, decode_pull, decode_item}
use solana_gacha.Sdk.{Host, PoolSnapshot, PullSnapshot, ItemSnapshot, Asset, Instruction}
use solana_gacha.Sdk.Assets.{asset_from_account}
use solana_gacha.Sdk.Orders.{Order, Purchase, Quote, buy_order, buyback_order, refund_order}
use solana_gacha.Sdk.Plan.{Planned, settle_order}
use solana_gacha.Sdk.Pools.{pool_from_account}
use solana_gacha.Sdk.Pulls.{
  Outcome, outcomes, pull_from_account, item_from_account, deliver_batches, settlement_batches,
}
pub mod Laws
mod Tests

-- An account of a response: its owner as `parse` reads it, and its data as `decode` does.
pub record UiAccount : Type 0 where
  pub owner : Option Pubkey
  pub decoded : Option (List ℕ)

pub record Response : Type 0 where
  pub slot : ℕ
  pub value : List (Option UiAccount)

-- `get_multiple_ui_accounts_with_config` of the RPC library: the number of the call, since answers change
-- over time, the keys, the minimum slot and the length of the slice. A failed transport is `external`.
abbrev pub Rpc : Type 0
Rpc = ℕ → List Pubkey → Option ℕ → Option ℕ → Result Response

-- `minimum.is_some_and(|slot| response.context.slot < slot)`
abbrev pub is_behind : Option ℕ → ℕ → Bool
is_behind none slot = false
is_behind (some minimum) slot = ltb slot minimum

abbrev pub unpack_one : Pubkey → Option UiAccount → Result (Pubkey × List ℕ)
unpack_one key none = err (missing_account key)
unpack_one key (some a) = do
  owner ← ok_or a.owner (sdk invalid_account)
  bytes ← ok_or a.decoded (sdk invalid_account)
  ok (owner, bytes)

pub unpack : List Pubkey → List (Option UiAccount) → Result (List (Pubkey × List ℕ))
unpack [] values = ok []
unpack (k ∷ keys) [] = ok []
unpack (k ∷ keys) (v ∷ values) = do
  first ← unpack_one k v
  others ← unpack keys values
  ok (first ∷ others)

-- `Client::read`
pub read : Rpc → ℕ → List Pubkey → Option ℕ → Option ℕ → Result (ℕ × List (Pubkey × List ℕ))
read rpc call keys minimum slice = do
  response ← rpc call keys minimum slice
  reject_if (not (length response.value == length keys) || is_behind minimum response.slot)
      (sdk invalid_account)
  accounts ← unpack keys response.value
  ok (response.slot, accounts)

-- `accounts[i]`
abbrev pub account_at : List (Pubkey × List ℕ) → ℕ → Result (Pubkey × List ℕ)
account_at [] i = err panic
account_at (a ∷ rest) zero = ok a
account_at (a ∷ rest) (suc i) = account_at rest i

-- `Client::fetch_pool`
pub fetch_pool : Host → Rpc → Pubkey → Result PoolSnapshot
fetch_pool h rpc address = do
  (_, accounts) ← read rpc 0 (address ∷ []) none none
  (owner, bytes) ← account_at accounts 0
  pool_from_account h address owner (decode_pool bytes)

-- The first read of `snapshot` and `deliver`: the pull, with the slot.
pub discover : Host → Rpc → Pubkey → Result (ℕ × PullSnapshot)
discover h rpc address = do
  (slot, accounts) ← read rpc 0 (address ∷ []) none none
  (owner, bytes) ← account_at accounts 0
  pull ← pull_from_account h address owner (decode_pull bytes)
  ok (slot, pull)

-- `Client::fetch_pull`
pub fetch_pull : Host → Rpc → Pubkey → Result PullSnapshot
fetch_pull h rpc address = do
  (_, accounts) ← read rpc 0 (address ∷ []) none none
  (owner, bytes) ← account_at accounts 0
  pull_from_account h address owner (decode_pull bytes)

pub fetch_item : Host → Rpc → Pubkey → Result ItemSnapshot
fetch_item h rpc address = do
  (_, accounts) ← read rpc 0 (address ∷ []) none none
  (owner, bytes) ← account_at accounts 0
  item_from_account h address owner (decode_item bytes)

-- `Client::buy`
pub client_buy : Host → Rpc → Pubkey → Order → Result Purchase
client_buy h rpc pool order = do
  (_, accounts) ← read rpc 0 (pool ∷ []) none (some pool_len)
  (owner, bytes) ← account_at accounts 0
  snapshot ← pool_from_account h pool owner (decode_pool bytes)
  buy_order h snapshot order

-- `Client::buyback`
pub client_buyback : Host → Rpc → Quote → List ℕ → Pubkey → Result (List Instruction)
client_buyback h rpc quote signature payer = do
  (_, accounts) ← read rpc 0 (quote.pool ∷ quote.asset ∷ []) none (some pool_len)
  (owner, bytes) ← account_at accounts 0
  pool ← pool_from_account h quote.pool owner (decode_pool bytes)
  (holder, header) ← account_at accounts 1
  asset ← asset_from_account h quote.asset holder header
  buyback_order h pool quote signature asset payer

pub read_assets : Host → List Pubkey → List (Pubkey × List ℕ) → Result (List Asset)
read_assets h [] accounts = ok []
read_assets h (k ∷ keys) [] = ok []
read_assets h (k ∷ keys) ((owner, bytes) ∷ accounts) = do
  first ← asset_from_account h k owner bytes
  others ← read_assets h keys accounts
  ok (first ∷ others)

-- `Client::assets`
pub fetch_assets : Host → Rpc → ℕ → List Pubkey → Option ℕ → Result (List Asset)
fetch_assets h rpc call [] minimum = ok []
fetch_assets h rpc call (k ∷ keys) minimum = do
  (_, accounts) ← read rpc call (k ∷ keys) minimum (some 66)
  read_assets h (k ∷ keys) accounts

abbrev pub first_asset : List Asset → Result Asset
first_asset [] = err panic
first_asset (a ∷ rest) = ok a

pub fetch_asset : Host → Rpc → Pubkey → Result Asset
fetch_asset h rpc address = do assets ← fetch_assets h rpc 0 (address ∷ []) none; first_asset assets

-- The pool's data of a snapshot: all of it, or the header.
abbrev pub pool_part : Bool → List ℕ → Result (List ℕ)
pool_part true bytes = ok bytes
pool_part false bytes =
    reject_if (ltb (length bytes) pool_len) (sdk invalid_account) >> ok (take pool_len bytes)

-- `Client::snapshot`: the pull names its pool, then one read has both.
pub fetch_snapshot : Host → Rpc → Pubkey → Bool → Result (PoolSnapshot × PullSnapshot × ℕ)
fetch_snapshot h rpc address inventory = do
  (slot, discovered) ← discover h rpc address
  let slice = if inventory then none else some pull_len
  (later, accounts) ← read rpc 1 (discovered.header.pool ∷ address ∷ []) (some slot) slice
  (owner, bytes) ← account_at accounts 0
  part ← pool_part inventory bytes
  pool ← pool_from_account h discovered.header.pool owner (decode_pool part)
  (holder, body) ← account_at accounts 1
  pull ← pull_from_account h address holder (decode_pull body)
  ok (pool, pull, later)

-- `Client::refund`
pub client_refund : Host → Rpc → Pubkey → Pubkey → Result (List Instruction)
client_refund h rpc address payer = do
  (pool, pull, _) ← fetch_snapshot h rpc address false
  refund_order h pool pull payer

-- The assets of the outcomes that are not delivered yet.
pub owed_assets : List Outcome → List Pubkey
owed_assets [] = []
owed_assets (o ∷ rest) =
    let others = owed_assets rest in elim o.tier [ none ↦ others | some t ↦ o.asset ∷ others ]

-- `Client::deliver`
pub client_deliver : Host → Rpc → Pubkey → Pubkey → Result (List (List Instruction))
client_deliver h rpc address payer = do
  (slot, pull) ← discover h rpc address
  all ← outcomes pull
  assets ← fetch_assets h rpc 1 (owed_assets all) (some slot)
  deliver_batches h pull assets payer

abbrev pub item_keys : List Planned → List Pubkey
item_keys [] = []
item_keys (d ∷ ds) = d.item ∷ item_keys ds

pub read_items : Host → List Pubkey → List (Pubkey × List ℕ) → Result (List ItemSnapshot)
read_items h [] accounts = ok []
read_items h (k ∷ keys) [] = ok []
read_items h (k ∷ keys) ((owner, bytes) ∷ accounts) = do
  first ← item_from_account h k owner (decode_item bytes)
  others ← read_items h keys accounts
  ok (first ∷ others)

abbrev pub asset_keys : List ItemSnapshot → List Pubkey
asset_keys [] = []
asset_keys (i ∷ items) = i.header.asset ∷ asset_keys items

-- `Client::settle`
pub client_settle : Host → Rpc → Pubkey → List ℕ → Pubkey → Result (List (List Instruction))
client_settle h rpc address proof payer = do
  (pool, pull, slot) ← fetch_snapshot h rpc address true
  plan ← settle_order h pool pull proof
  (later, accounts) ← read rpc 2 (item_keys plan.draws) (some slot) none
  items ← read_items h (item_keys plan.draws) accounts
  assets ← fetch_assets h rpc 3 (asset_keys items) (some later)
  settlement_batches h plan items assets payer
