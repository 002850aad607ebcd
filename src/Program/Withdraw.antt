-- ===== src/Program/Withdraw.antt =====
-- program/src/admin/withdraw.rs, with `pay` of program/src/helpers.rs.
use solana_gacha.Prelude.{
  ℕ, ◌+◌, ◌-◌, ◌*◌, ◌^◌, ◌≤◌, ◌≡◌, List, [], ◌∷◌, ◌++◌, Bool, ◌==◌, ltb, length, Result, ok, err,
  gacha, ◌>>=◌, ◌>>◌, require, reject_if, arith, Result-cases, inl, inr, not_enough_account_keys,
  invalid_instruction_data, not_signer, invalid_authority, invalid_token_address,
  insufficient_balance,
}
use solana_gacha.Core.State.{Pool, refund_amount, refund_total}
use solana_gacha.Core.Draw.{u64_at}
use solana_gacha.Program.Events.{event_bytes, withdraw_fields}
use solana_gacha.Program.Account.{
  AccountInfo, TokenAccount, Env, Call, token_transfer, emit, load_pool, load_token, spendable,
}
use solana_gacha.Bytes.{le_bytes}
use solana_gacha.Program.Solvency.{IsSolvent, refund_each}
mod Tests

pub record WithdrawAccounts : Type 0 where
  pub authority : AccountInfo
  pub pool : AccountInfo
  pub vault : AccountInfo
  pub destination : AccountInfo

pub withdraw_accounts : Env → List AccountInfo → Result WithdrawAccounts
withdraw_accounts env (authority ∷ pool ∷ vault ∷ destination ∷ _ ∷ _ ∷ _ ∷ []) = do
  require authority.is_signer (gacha not_signer)
  (p, _) ← load_pool env pool
  require (p.authority == authority.key) (gacha invalid_authority)
  require (p.vault == vault.key) (gacha invalid_token_address)
  ok (record { authority = authority; pool = pool; vault = vault; destination = destination })
withdraw_accounts env _ = err not_enough_account_keys

abbrev pub withdraw_instruction : List ℕ → Result ℕ
withdraw_instruction bytes =
    require (length bytes == 8) invalid_instruction_data >> ok (u64_at bytes 0)

abbrev pub withdraw_event : Env → WithdrawAccounts → ℕ → Call
withdraw_event env a amount = emit (event_bytes env.key_bytes (withdraw_fields a.pool.key amount))

-- The calls that a withdrawal makes; it changes no account of the program.
pub withdraw : Env → WithdrawAccounts → ℕ → Result (List Call)
withdraw env a amount = do
  (p, _) ← load_pool env a.pool
  free ← spendable env p a.vault
  reject_if (ltb free amount) (gacha insufficient_balance)
  let transfer = token_transfer a.vault.key a.destination.key a.pool.key amount
  env.invoke transfer
  env.invoke (withdraw_event env a amount)
  ok (transfer ∷ withdraw_event env a amount ∷ [])

-- A withdrawal that succeeds has loaded the pool and the vault's token account; its amount is
-- within the vault's balance, and what is left covers every pending refund.
pub withdraw-ok :
    (env : Env) (a : WithdrawAccounts) (amount : ℕ) {calls : List Call}
    → withdraw env a amount ≡ ok calls
    → (p : Pool) × (d : List ℕ) × (token : TokenAccount) × (load_pool env a.pool ≡ ok (p, d))
      × (load_token env a.vault ≡ ok token)
      × (amount ≤ token.amount)
      × IsSolvent p (token.amount - amount)
unfolding withdraw refund_amount refund_total
withdraw-ok env a amount h = elim (Result-cases (load_pool env a.pool)) [
  | inr (e, bad) ↦ absurd (ground (arith, bad))
  | inl ((p, d), pool) ↦ elim (Result-cases (load_token env a.vault)) [
    | inr (e, bad) ↦ absurd (ground (arith, bad))
    | inl (token, vault) ↦
        (p, d, token, pool, vault, ground (arith, pool, vault), ground (arith, pool, vault))
  ]
]
