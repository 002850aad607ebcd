-- ===== src/Sdk/Orders.antt =====
-- packages/gacha-rust/src/lib.rs: the instructions that a client sends to a pool.
use solana_gacha.Prelude.{
  ℕ, zero, suc, ◌+◌, ◌*◌, ◌^◌, List, [], ◌∷◌, ◌++◌, Bool, true, false, ◌==◌, ◌||◌, ◌&&◌, ltb, leb,
  not, if◌then◌else◌, length, get_or, tabulate, Result, ok, err, sdk, reject_if, ◌>>=◌, ◌>>◌,
}
use solana_gacha.Prelude.SdkErrors.{
  invalid_account, invalid_argument, wrong_pool, not_pending, not_next_in_queue, invalid_item,
  invalid_asset, invalid_pool_status, pending_purchases,
}
use solana_gacha.Bytes.{le_bytes}
use solana_gacha.Core.Constants.{max_tiers, max_count, pool_retired, status_pending}
use solana_gacha.Core.State.{Pubkey, refund_total}
use solana_gacha.Program.Create.{contains_zero, is_none}
use solana_gacha.Sdk.{
  Host, PoolSnapshot, PullSnapshot, ItemSnapshot, Asset, Instruction, instruction, collection_of,
  rw_meta, ro_meta, token_instruction,
}
use solana_gacha.Sdk.Pools.{pool_address, pull_address, item_address, is_active, is_retired}
mod Tests

-- `Buy`, and the `Purchase` that it prepares.
pub record Order : Type 0 where
  pub buyer : Pubkey
  pub count : ℕ
  pub client_seed : List ℕ

pub record Purchase : Type 0 where
  pub pull : Pubkey
  pub sent : Instruction

unfoldable pub buy_order : Host → PoolSnapshot → Order → Result Purchase
buy_order h s o = do
  reject_if (not (is_active s)) (sdk invalid_pool_status)
  reject_if (o.count == 0 || ltb max_count o.count) (sdk invalid_argument)
  let derived = pull_address h s.address o.client_seed
  ok (record {
    pull = derived.0;
    sent =
        instruction h
          (10
            ∷ o.count
            ∷ (o.client_seed ++ (le_bytes 4 s.header.inventory_version ++ (derived.1 ∷ []))))
          (rw_meta o.buyer true
            ∷ rw_meta s.address false
            ∷ rw_meta derived.0 false
            ∷ rw_meta (h.ata o.buyer s.header.payment_mint) false
            ∷ rw_meta s.header.vault false
            ∷ ro_meta h.token false
            ∷ ro_meta h.system false
            ∷ []);
  })

-- `Pool::deposit`
pub deposit_order : Host → PoolSnapshot → ℕ → Asset → Result Instruction
deposit_order h s tier a = do
  reject_if (is_retired s) (sdk invalid_pool_status)
  reject_if (leb s.header.tier_count tier) (sdk invalid_argument)
  reject_if (not (a.owner == s.header.authority)) (sdk invalid_asset)
  let derived = item_address h s.address tier s.header.inventory_version
  ok (
      instruction h (1 ∷ tier ∷ derived.1 ∷ []) (
        rw_meta s.header.authority true
        ∷ rw_meta s.address false
        ∷ rw_meta derived.0 false
        ∷ rw_meta a.address false
        ∷ ro_meta (collection_of h a) false
        ∷ ro_meta h.core false
        ∷ ro_meta h.system false
        ∷ []))

-- `BuybackQuote`; the expiry is the 64-bit word of an i64.
pub record Quote : Type 0 where
  pub pool : Pubkey
  pub asset : Pubkey
  pub price : ℕ
  pub expires_at : ℕ
  pub tier : ℕ

-- `expires_at <= 0` on an i64 word.
abbrev pub is_past : ℕ → Bool
is_past t = t == 0 || leb (2 ^ 63) t

unfoldable pub buyback_order :
    Host → PoolSnapshot → Quote → List ℕ → Asset → Pubkey → Result (List Instruction)
buyback_order h s q signature a payer = do
  reject_if (not (is_active s)) (sdk invalid_pool_status)
  reject_if (not (q.pool == s.address)) (sdk wrong_pool)
  reject_if (leb s.header.tier_count q.tier || q.price == 0 || is_past q.expires_at)
      (sdk invalid_argument)
  reject_if (not (q.asset == a.address) || (a.owner == s.address)) (sdk invalid_asset)
  let derived = item_address h s.address q.tier s.header.inventory_version
  ok (
      h.create_ata payer a.owner s.header.payment_mint
      ∷ instruction h
          (12
            ∷ q.tier
            ∷ (le_bytes 8 q.price ++ (le_bytes 8 q.expires_at ++ (signature ++ (derived.1 ∷ [])))))
          (rw_meta payer true
            ∷ ro_meta a.owner true
            ∷ rw_meta s.address false
            ∷ rw_meta derived.0 false
            ∷ rw_meta a.address false
            ∷ ro_meta (collection_of h a) false
            ∷ rw_meta s.header.vault false
            ∷ rw_meta (h.ata a.owner s.header.payment_mint) false
            ∷ ro_meta h.core false
            ∷ ro_meta h.token false
            ∷ ro_meta h.system false
            ∷ [])
      ∷ [])

-- `Pool::reclaim`
pub reclaim_order : Host → PoolSnapshot → ItemSnapshot → Asset → Result Instruction
reclaim_order h s i a = do
  reject_if (not (is_retired s)) (sdk invalid_pool_status)
  reject_if (not (s.header.pending_draws == 0)) (sdk pending_purchases)
  reject_if
      (not (i.header.pool == s.address)
        || leb s.header.tier_count i.header.tier
        || leb s.header.inventory_version i.header.position
        || not (i.header.asset == a.address))
      (sdk invalid_item)
  reject_if (not (a.owner == s.address)) (sdk invalid_asset)
  ok (
      instruction h (4 ∷ []) (
        rw_meta s.header.authority true
        ∷ rw_meta s.address false
        ∷ rw_meta i.address false
        ∷ rw_meta a.address false
        ∷ ro_meta (collection_of h a) false
        ∷ ro_meta h.core false
        ∷ ro_meta h.system false
        ∷ []))

-- `Pool::set_status`, `PoolStatus` being its byte.
pub status_order : Host → PoolSnapshot → ℕ → Result Instruction
status_order h s status = do
  reject_if (is_retired s && not (status == pool_retired)) (sdk invalid_pool_status)
  ok (
      instruction h (3 ∷ status ∷ [])
        (ro_meta s.header.authority true ∷ rw_meta s.address false ∷ []))

-- `Pool::withdraw`
abbrev pub withdraw_order : Host → PoolSnapshot → Pubkey → ℕ → Instruction
withdraw_order h s destination amount = instruction h (2 ∷ le_bytes 8 amount) (
    ro_meta s.header.authority true
    ∷ ro_meta s.address false
    ∷ rw_meta s.header.vault false
    ∷ rw_meta destination false
    ∷ ro_meta h.token false
    ∷ [])

-- `Pool::pending`
unfoldable pub check_pending : PoolSnapshot → PullSnapshot → Result (Unit {0})
check_pending s l = do
  reject_if (not (l.header.pool == s.address)) (sdk wrong_pool)
  reject_if (not (l.header.status == status_pending)) (sdk not_pending)
  reject_if (not (l.header.index == s.header.next_settle)) (sdk not_next_in_queue)
  reject_if (ltb s.header.inventory_version l.header.inventory_version) (sdk invalid_account)

-- `Pool::refund`
unfoldable pub refund_order :
    Host → PoolSnapshot → PullSnapshot → Pubkey → Result (List Instruction)
refund_order h s l payer = do
  check_pending s l
  ok (
      h.create_ata payer l.header.buyer s.header.payment_mint
      ∷ instruction h (11 ∷ []) (
          rw_meta s.address false
          ∷ rw_meta l.address false
          ∷ rw_meta l.header.buyer false
          ∷ rw_meta s.header.vault false
          ∷ rw_meta (h.ata l.header.buyer s.header.payment_mint) false
          ∷ ro_meta h.token false
          ∷ [])
      ∷ [])

-- `CreatePool`
pub record Creation : Type 0 where
  pub id : ℕ
  pub price : ℕ
  pub deadline_slots : ℕ
  pub bond_per_draw : ℕ
  pub bond : ℕ
  pub weights : List ℕ

-- The bytes of eight weights, those past the list zero.
abbrev pub weight_bytes : List ℕ → ℕ → List ℕ
weight_bytes ws zero = []
weight_bytes [] (suc n) = le_bytes 4 0 ++ weight_bytes [] n
weight_bytes (w ∷ ws) (suc n) = le_bytes 4 w ++ weight_bytes ws n

unfoldable pub create_data : Creation → ℕ → List ℕ
create_data c bump =
    0
    ∷ (le_bytes 8 c.id
        ++ (le_bytes 8 c.price
            ++ (le_bytes 8 c.deadline_slots
                ++ (le_bytes 8 c.bond_per_draw
                    ++ (length c.weights ∷ (weight_bytes c.weights max_tiers ++ (bump ∷ [])))))))

-- `CreatePool::instructions`
unfoldable pub create_order : Host → Creation → Pubkey → Pubkey → Pubkey → Result (List Instruction)
unfolding refund_total
create_order h c authority operator payment_mint = do
  reject_if
      (length c.weights == 0
        || ltb max_tiers (length c.weights)
        || contains_zero c.weights
        || c.price == 0
        || c.deadline_slots == 0
        || c.bond_per_draw == 0
        || is_none (refund_total c.price c.bond_per_draw max_count)
        || not (h.is_valid operator))
      (sdk invalid_argument)
  let derived = pool_address h authority c.id
  ok (
      h.create_ata authority derived.0 payment_mint
      ∷ instruction h (create_data c derived.1) (
          rw_meta authority true
          ∷ rw_meta derived.0 false
          ∷ ro_meta operator false
          ∷ ro_meta payment_mint false
          ∷ ro_meta (h.ata derived.0 payment_mint) false
          ∷ ro_meta h.system false
          ∷ [])
      ∷ (if ltb 0 c.bond
          then token_instruction h (h.ata authority payment_mint) (h.ata derived.0 payment_mint)
              authority c.bond
            ∷ []
          else []))
