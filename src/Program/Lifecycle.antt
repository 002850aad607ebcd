-- ===== src/Program/Lifecycle.antt =====
-- program/src/admin/lifecycle.rs, `SetStatus`.
use solana_gacha.Prelude.{
  ℕ, ◌≤◌, ◌≡◌, ap, refl, List, [], ◌∷◌, ◌++◌, ◌&&◌, ◌==◌, ltb, not, length, get_or, Result, ok, err,
  gacha, ◌>>=◌, ◌>>◌, require, reject_if, arith, not_enough_account_keys, invalid_instruction_data,
  not_signer, not_mutable, invalid_authority, invalid_pool_status,
}
use solana_gacha.Core.Constants.{pool_retired}
use solana_gacha.Core.State.{Pool}
use solana_gacha.Program.Events.{event_bytes, set_status_fields}
use solana_gacha.Program.Account.{AccountInfo, Env, Call, emit, load_pool}
pub mod Laws
pub mod Reclaim
mod Tests

pub record StatusAccounts : Type 0 where
  pub authority : AccountInfo
  pub pool : AccountInfo

pub status_accounts : Env → List AccountInfo → Result StatusAccounts
status_accounts env (authority ∷ pool ∷ _ ∷ _ ∷ []) = do
  require authority.is_signer (gacha not_signer)
  require pool.is_writable (gacha not_mutable)
  (p, _) ← load_pool env pool
  require (p.authority == authority.key) (gacha invalid_authority)
  ok (record { authority = authority; pool = pool })
status_accounts env _ = err not_enough_account_keys

unfoldable pub status_instruction : List ℕ → Result ℕ
status_instruction bytes = do
  require (length bytes == 1) invalid_instruction_data
  reject_if (ltb pool_retired (get_or bytes 0 0)) invalid_instruction_data
  ok (get_or bytes 0 0)

-- The pool that a change of status leaves, and its event.
pub record Changed : Type 0 where
  pub pool : Pool
  pub calls : List Call

abbrev pub status_event : Env → StatusAccounts → ℕ → Call
status_event env a status = emit (event_bytes env.key_bytes (set_status_fields a.pool.key status))

unfoldable pub set_status : Env → StatusAccounts → ℕ → Result Changed
set_status env a status = do
  (p, _) ← load_pool env a.pool
  reject_if (p.status == pool_retired && not (status == pool_retired)) (gacha invalid_pool_status)
  env.invoke (status_event env a status)
  ok (record { pool = record p { status = status }; calls = status_event env a status ∷ [] })

-- A retired pool stays retired.
set_status_retired :
    (env : Env) (a : StatusAccounts) (bytes : List ℕ) {p : Pool} {d : List ℕ} {status : ℕ}
    {c : Changed}
    → load_pool env a.pool ≡ ok (p, d)
    → p.status ≡ pool_retired
    → status_instruction bytes ≡ ok status
    → set_status env a status ≡ ok c
    → c.pool ≡ p
unfolding set_status status_instruction
set_status_retired env a bytes {p} {d} {status} {c} loads retired parsed h =
    let shape : c.pool ≡ record p { status = status } = ground (arith, loads) in
    let same : status ≡ p.status = ground (arith, loads, parsed) in rw (shape, same) refl
