-- ===== src/Program/Refund.antt =====
-- program/src/player/refund.rs.
pub mod Laws
mod Tests
use solana_gacha.Prelude.{
  ℕ, suc, ◌+◌, ◌-◌, List, [], ◌∷◌, ◌++◌, Bool, true, false, Option, ◌==◌, ltb, leb, Result, ok, err,
  gacha, ◌>>=◌, ◌>>◌, require, reject_if, add_word, sub_word, ◌&&◌, if◌then◌else◌,
  not_enough_account_keys, not_mutable, pool_mismatch, invalid_pull_status, not_next_in_queue,
  deadline_not_reached, invalid_buyer, invalid_token_address,
}
use solana_gacha.Core.Constants.{status_pending}
use solana_gacha.Core.State.{Pubkey, Pool, Pull, refund_amount}
use solana_gacha.Program.Events.{event_bytes, refund_fields}
use solana_gacha.Program.Account.{
  AccountInfo, Env, Call, token_transfer, emit, load_pool, load_pull, load_token, close,
}
use solana_gacha.Bytes.{le_bytes}

pub record RefundAccounts : Type 0 where
  pub pool : AccountInfo
  pub pull : AccountInfo
  pub buyer : AccountInfo
  pub vault : AccountInfo
  pub buyer_ata : AccountInfo

unfoldable pub refund_accounts : Env → List AccountInfo → Result RefundAccounts
refund_accounts env (pool ∷ pull ∷ buyer ∷ vault ∷ buyer_ata ∷ _ ∷ _ ∷ _ ∷ []) = do
  require (pool.is_writable && pull.is_writable && buyer.is_writable) (gacha not_mutable)
  (p, _) ← load_pool env pool
  l ← load_pull env pull
  require (l.pool == pool.key) (gacha pool_mismatch)
  require (l.status == status_pending) (gacha invalid_pull_status)
  require (l.index == p.next_settle) (gacha not_next_in_queue)
  reject_if (leb env.slot l.deadline_slot) (gacha deadline_not_reached)
  require (l.buyer == buyer.key) (gacha invalid_buyer)
  require (p.vault == vault.key) (gacha invalid_token_address)
  ata ← load_token env buyer_ata
  require (ata.owner == l.buyer) (gacha invalid_token_address)
  ok (record { pool = pool; pull = pull; buyer = buyer; vault = vault; buyer_ata = buyer_ata })
refund_accounts env _ = err not_enough_account_keys

-- What a refund leaves: the pool, the buyer's lamports with the closed pull's rent, and the calls.
pub record Refunded : Type 0 where
  pub pool : Pool
  pub buyer_lamports : ℕ
  pub calls : List Call

-- The pool after the reservation is released, and what the buyer is paid.
pub release : Pool → Pull → Result (ℕ × Pool)
release p l = do
  amount ← refund_amount p l.count
  pending ← sub_word p.pending_draws l.count
  next ← add_word 64 l.index 1
  ok (amount, record p { pending_draws = pending; next_settle = next })

abbrev pub refund_event : Env → RefundAccounts → ℕ → Call
refund_event env a amount =
    emit (event_bytes env.key_bytes (refund_fields a.pool.key a.pull.key amount))

unfoldable pub refund : Env → RefundAccounts → Result Refunded
refund env a = do
  (p, _) ← load_pool env a.pool
  l ← load_pull env a.pull
  (amount, p') ← release p l
  let transfer = token_transfer a.vault.key a.buyer_ata.key a.pool.key amount
  env.invoke transfer
  lamports ← close a.pull a.buyer.lamports
  env.invoke (refund_event env a amount)
  ok (record {
    pool = p';
    buyer_lamports = lamports;
    calls = transfer ∷ refund_event env a amount ∷ [];
  })
