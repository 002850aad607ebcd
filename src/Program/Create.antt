-- ===== src/Program/Create.antt =====
-- program/src/admin/create_pool.rs.
use solana_gacha.Prelude.{
  ℕ, zero, suc, ◌+◌, ◌*◌, List, [], ◌∷◌, ◌++◌, ◌==◌, ◌&&◌, ◌||◌, ltb, Bool, true, false, Option,
  none, some, length, get_or, take, tabulate, Result, ok, err, gacha, ◌>>=◌, ◌>>◌, require,
  reject_if, ok_or, not_enough_account_keys, invalid_instruction_data, not_signer, not_mutable,
  invalid_pool_params, invalid_seeds, invalid_token_address,
}
use solana_gacha.Bytes.{u32_at}
use solana_gacha.Core.Constants.{max_tiers, max_count, pool_len}
use solana_gacha.Core.State.{Pool, new_pool, refund_total}
use solana_gacha.Core.Seeds.{pool_seeds}
use solana_gacha.Core.Draw.{u64_at}
use solana_gacha.Program.Events.{event_bytes, create_pool_fields}
use solana_gacha.Program.Account.{
  AccountInfo, Env, Call, emit, check_uninitialized, create_pda, invoke_all,
}
use solana_gacha.Bytes.{le_bytes}
pub mod Laws
mod Tests

pub record CreatePoolAccounts : Type 0 where
  pub authority : AccountInfo
  pub pool : AccountInfo
  pub operator : AccountInfo
  pub payment_mint : AccountInfo
  pub vault : AccountInfo

pub create_pool_accounts : Env → List AccountInfo → Result CreatePoolAccounts
create_pool_accounts env (authority ∷ pool ∷ operator ∷ payment_mint ∷ vault ∷ _ ∷ _ ∷ _ ∷ []) = do
  require authority.is_signer (gacha not_signer)
  require pool.is_writable (gacha not_mutable)
  check_uninitialized env pool
  ok (record {
    authority = authority;
    pool = pool;
    operator = operator;
    payment_mint = payment_mint;
    vault = vault;
  })
create_pool_accounts env _ = err not_enough_account_keys

pub record CreatePoolInstruction : Type 0 where
  pub id : ℕ
  pub price : ℕ
  pub deadline_slots : ℕ
  pub bond_per_draw : ℕ
  pub tier_count : ℕ
  pub weights : List ℕ
  pub bump : ℕ

-- `weights[..tier_count].contains(&0)`
unfoldable pub contains_zero : List ℕ → Bool
contains_zero [] = false
contains_zero (w ∷ ws) = (w == 0) || contains_zero ws

abbrev pub is_none : Option ℕ → Bool
is_none none = true
is_none (some n) = false

-- The instruction checks, on the decoded numbers.
unfoldable pub check_params : CreatePoolInstruction → Result CreatePoolInstruction
check_params i = do
  reject_if (i.tier_count == 0 || ltb max_tiers i.tier_count) (gacha invalid_pool_params)
  reject_if (contains_zero (take i.tier_count i.weights)) (gacha invalid_pool_params)
  reject_if (i.price == 0 || i.bond_per_draw == 0 || i.deadline_slots == 0)
      (gacha invalid_pool_params)
  reject_if (is_none (refund_total i.price i.bond_per_draw max_count)) (gacha invalid_pool_params)
  ok i

unfoldable pub create_pool_instruction : List ℕ → Result CreatePoolInstruction
unfolding check_params
create_pool_instruction bytes = do
  require (length bytes == 66) invalid_instruction_data
  check_params (record {
    id = u64_at bytes 0;
    price = u64_at bytes 8;
    deadline_slots = u64_at bytes 16;
    bond_per_draw = u64_at bytes 24;
    tier_count = get_or bytes 32 0;
    weights = tabulate (λ i. u32_at bytes (33 + i * 4)) 0 max_tiers;
    bump = get_or bytes 65 0;
  })

-- The new pool, without an index, and the calls.
pub record Created : Type 0 where
  pub pool : Pool
  pub index : List ℕ
  pub calls : List Call

abbrev pub create_pool_event : Env → CreatePoolAccounts → Call
create_pool_event env a = emit (event_bytes env.key_bytes (create_pool_fields a.pool.key))

unfoldable pub create_pool : Env → CreatePoolAccounts → CreatePoolInstruction → Result Created
create_pool env a i = do
  key ←
      ok_or (env.create_program_address (pool_seeds env.key_bytes a.authority.key i.id i.bump))
        (gacha invalid_seeds)
  require (key == a.pool.key) (gacha invalid_seeds)
  require (a.vault.key == env.ata key a.payment_mint.key) (gacha invalid_token_address)
  invoke_all env (create_pda env a.authority a.pool pool_len)
  env.invoke (create_pool_event env a)
  ok (record {
    pool =
        new_pool i.bump a.authority.key a.operator.key a.payment_mint.key a.vault.key i.id i.price
          i.deadline_slots i.bond_per_draw (take i.tier_count i.weights);
    index = [];
    calls = create_pda env a.authority a.pool pool_len ++ (create_pool_event env a ∷ []);
  })
