-- ===== src/Program/Settle.antt =====
-- program/src/operator/settle.rs, and `draw` of program/src/inventory.rs.
pub mod Round
pub mod Queue
pub mod Accepts
use solana_gacha.Prelude.{
  ℕ, zero, suc, ◌+◌, ◌-◌, List, [], ◌∷◌, ◌++◌, Bool, true, false, Option, ◌==◌, ltb, leb, Result,
  ok, err, gacha, ◌>>=◌, ◌>>◌, require, reject_if, ok_or, add_word, sub_word, ◌&&◌, if◌then◌else◌,
  length, get_or, set, take, not_enough_account_keys, invalid_instruction_data, not_mutable,
  pool_mismatch, invalid_pull_status, not_next_in_queue, deadline_passed, invalid_operator,
  invalid_item_count, invalid_item, invalid_proof,
}
use solana_gacha.Core.Constants.{status_pending, status_settled}
use solana_gacha.Core.State.{Pubkey, Tier, Pool, Item, Pull, Award, empty_tier, tiers, set_outcome}
use solana_gacha.Core.Stock.{take_remaining}
use solana_gacha.Core.Draw.{draw}
use solana_gacha.Inventory.{counts, take_item}
use solana_gacha.Program.Events.{event_bytes, settle_fields}
use solana_gacha.Program.Account.{
  AccountInfo, Env, Call, emit, load_pool, load_pull, load_item, close,
}

pub record SettleAccounts : Type 0 where
  pub operator : AccountInfo
  pub pool : AccountInfo
  pub pull : AccountInfo
  pub items : List AccountInfo

-- `items @ .., event_authority, program`: all but the last two.
unfoldable pub split_items : List AccountInfo → Result (List AccountInfo)
split_items [] = err not_enough_account_keys
split_items (_ ∷ []) = err not_enough_account_keys
split_items (_ ∷ _ ∷ []) = ok []
split_items (a ∷ b ∷ c ∷ rest) = do items ← split_items (b ∷ c ∷ rest); ok (a ∷ items)

unfoldable pub check_items : Env → List AccountInfo → Result (Unit {0})
check_items env [] = ok tt
check_items env (item ∷ items) = do
  require item.is_writable (gacha not_mutable)
  _ ← load_item env item
  check_items env items

unfoldable pub settle_accounts : Env → List AccountInfo → Result SettleAccounts
unfolding split_items check_items
settle_accounts env (operator ∷ pool ∷ pull ∷ rest) = do
  items ← split_items rest
  require (operator.is_writable && pool.is_writable && pull.is_writable) (gacha not_mutable)
  (p, _) ← load_pool env pool
  l ← load_pull env pull
  require (p.operator == operator.key) (gacha invalid_operator)
  require (l.pool == pool.key) (gacha pool_mismatch)
  require (l.status == status_pending) (gacha invalid_pull_status)
  require (l.index == p.next_settle) (gacha not_next_in_queue)
  reject_if (ltb l.deadline_slot env.slot) (gacha deadline_passed)
  require (length items == l.count) (gacha invalid_item_count)
  check_items env items
  ok (record { operator = operator; pool = pool; pull = pull; items = items })
settle_accounts env _ = err not_enough_account_keys

-- The 80 bytes of the proof.
abbrev pub settle_instruction : List ℕ → Result (List ℕ)
settle_instruction bytes = require (length bytes == 80) invalid_instruction_data >> ok bytes

-- What the draws change: the pool's tiers, the index, the pull's awards, the operator's lamports, and
-- the draw's own copy of the eligible counts.
pub record Drawing : Type 0 where
  pub pool : Pool
  pub index : List ℕ
  pub pull : Pull
  pub lamports : ℕ
  pub eligible : List ℕ

-- One round of the loop over the item accounts.
unfoldable pub draw_one : Env → Pubkey → List ℕ → ℕ → AccountInfo → Drawing → Result Drawing
draw_one env pool_key beta i account s = do
  let hash = env.sha256 (beta ∷ (i ∷ []) ∷ [])
  (tier, rank) ← draw s.pool hash s.eligible
  (position, index) ← take_item s.index tier rank
  left ← sub_word (get_or s.eligible tier 0) 1
  item ← load_item env account
  require (item.pool == pool_key && item.tier == tier && item.position == position)
      (gacha invalid_item)
  lamports ← close account s.lamports
  pool ← take_remaining s.pool tier
  ok (record {
    pool = pool;
    index = index;
    pull = set_outcome s.pull i tier item.asset;
    lamports = lamports;
    eligible = set s.eligible tier left;
  })

unfoldable pub draw_loop : Env → Pubkey → List ℕ → ℕ → List AccountInfo → Drawing → Result Drawing
draw_loop env pool_key beta i [] s = ok s
draw_loop env pool_key beta i (account ∷ rest) s = do
  s' ← draw_one env pool_key beta i account s
  draw_loop env pool_key beta (i + 1) rest s'

-- `inventory::draw`
unfoldable pub draw_all :
    Env → Pool → List ℕ → Pull → Pubkey → List AccountInfo → ℕ → List ℕ → Result Drawing
draw_all env p index l pool_key items lamports beta = do
  eligible ← counts index l.inventory_version
  draw_loop env pool_key beta 0 items
      (record { pool = p; index = index; pull = l; lamports = lamports; eligible = eligible })

pub record Settled : Type 0 where
  pub pool : Pool
  pub index : List ℕ
  pub pull : Pull
  pub lamports : ℕ
  pub calls : List Call

abbrev pub award_bytes : Env → List Award → List ℕ
award_bytes env [] = []
award_bytes env (a ∷ rest) = a.tier ∷ (env.key_bytes a.asset ++ award_bytes env rest)

abbrev pub settle_event : Env → SettleAccounts → List ℕ → List ℕ → List ℕ → Pull → ℕ → Call
settle_event env a alpha proof beta l count = emit (
    event_bytes env.key_bytes (
      settle_fields a.pool.key a.pull.key alpha proof beta
        (award_bytes env (take count l.outcomes))))

-- The queue after the awards are recorded.
unfoldable pub advance : Drawing → ℕ → Result (Pool × Pull)
advance s count = do
  pending ← sub_word s.pool.pending_draws count
  next ← add_word 64 s.pull.index 1
  ok (
    record s.pool { pending_draws = pending; next_settle = next },
    record s.pull { status = status_settled },
  )

unfoldable pub settle : Env → SettleAccounts → List ℕ → Result Settled
settle env a proof = do
  (p, index) ← load_pool env a.pool
  l ← load_pull env a.pull
  let count = length a.items
  let alpha = env.sha256 (env.key_bytes a.pull.key ∷ l.client_seed ∷ [])
  beta ← ok_or (env.verify proof p.operator alpha) (gacha invalid_proof)
  s ← draw_all env p index l a.pool.key a.items a.operator.lamports beta
  (p', l') ← advance s count
  env.invoke (settle_event env a alpha proof beta l' count)
  ok (record {
    pool = p';
    index = s.index;
    pull = l';
    lamports = s.lamports;
    calls = settle_event env a alpha proof beta l' count ∷ [];
  })
