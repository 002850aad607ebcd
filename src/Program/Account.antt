-- ===== src/Program/Account.antt =====
-- program/src/state.rs and helpers.rs: checked views of accounts, and what the program calls.
-- An account's data is taken decoded. The length that each layout has is kept, since the views
-- compare it; a version byte of raw data is that of zeroed bytes.
use solana_gacha.Prelude.{
  ℕ, ◌+◌, ◌-◌, List, [], ◌∷◌, ◌++◌, Bool, Option, ◌==◌, ltb, leb, length, Result, ok, err, gacha,
  ◌>>=◌, ◌>>◌, require, ok_or, checked_add, checked_sub, arithmetic_overflow, if◌then◌else◌, ◌&&◌,
  invalid_account_owner, invalid_account_length, invalid_version, already_initialized,
  invalid_token_address, insufficient_balance,
}
use solana_gacha.Core.Constants.{
  pool_len, item_len, pull_len, pool_version, item_version, pull_version, inventory_space,
}
use solana_gacha.Core.State.{Pubkey, Pool, Item, Pull, refund_amount}

-- The fields of a token account that the program reads.
pub record TokenAccount : Type 0 where
  pub mint : Pubkey
  pub owner : Pubkey
  pub amount : ℕ

pub data Contents : Type 0 where
  raw : ℕ → Contents
  pool_data : Pool → List ℕ → Contents
  item_data : Item → Contents
  pull_data : Pull → Contents
  token_data : TokenAccount → Contents

pub record AccountInfo : Type 0 where
  pub key : Pubkey
  pub is_signer : Bool
  pub is_writable : Bool
  pub owner : Pubkey
  pub lamports : ℕ
  pub body : Contents

-- The calls of other programs, and the events. `asset_transfer` (program/src/assets.rs) has the payer, the
-- authority, the new owner, the asset and the collection.
pub data Call : Type 0 where
  token_transfer : Pubkey → Pubkey → Pubkey → ℕ → Call
  asset_transfer : Pubkey → Pubkey → Pubkey → Pubkey → Pubkey → Call
  create_account : Pubkey → Pubkey → ℕ → ℕ → Call
  fund : Pubkey → Pubkey → ℕ → Call
  allocate : Pubkey → ℕ → Call
  assign : Pubkey → Call
  emit : List ℕ → Call

-- What the program takes from the runtime and from the libraries that it calls. `invoke` says how a
-- call of another program ends, `realloc` what a resized account holds behind the pool's header.
-- `unix_timestamp` is an i64, as the 64-bit word of its two's complement.
pub record Env : Type 0 where
  pub program_id : Pubkey
  pub system_program : Pubkey
  pub token_program : Pubkey
  pub slot : ℕ
  pub unix_timestamp : ℕ
  pub minimum_balance : ℕ → ℕ
  pub key_bytes : Pubkey → List ℕ
  pub create_program_address : List (List ℕ) → Option Pubkey
  pub sha256 : List (List ℕ) → List ℕ
  pub verify : List ℕ → Pubkey → List ℕ → Option (List ℕ)
  pub verify_strict : Pubkey → List ℕ → List ℕ → Bool
  pub ata : Pubkey → Pubkey → Pubkey
  pub realloc : List ℕ → ℕ → Result (List ℕ)
  pub invoke : Call → Result (Unit {0})

unfoldable pub invoke_all : Env → List Call → Result (Unit {0})
invoke_all env [] = ok tt
invoke_all env (c ∷ cs) = do env.invoke c; invoke_all env cs

abbrev pub data_len : Contents → ℕ
data_len (raw n) = n
data_len (pool_data p d) = pool_len + length d
data_len (item_data i) = item_len
data_len (pull_data p) = pull_len
data_len (token_data t) = 165

abbrev pub version_byte : Contents → ℕ
version_byte (raw n) = 0
version_byte (pool_data p d) = p.version
version_byte (item_data i) = i.version
version_byte (pull_data p) = p.version
version_byte (token_data t) = 0

-- The part of `load` that is the same for each layout.
unfoldable pub check_account : Env → AccountInfo → ℕ → ℕ → Result (Unit {0})
check_account env a minimum version = do
  require (a.owner == env.program_id) (gacha invalid_account_owner)
  require (leb minimum (data_len a.body)) (gacha invalid_account_length)
  require (version_byte a.body == version) (gacha invalid_version)

-- `Pool::load`; the second part is the availability index past the header.
unfoldable pub load_pool : Env → AccountInfo → Result (Pool × List ℕ)
unfolding check_account
load_pool env a = do
  check_account env a pool_len pool_version
  elim a.body [
    | pool_data p d ↦
        require (length d == inventory_space p.inventory_version) (gacha invalid_account_length)
        >> ok (p, d)
    | _ ↦ err (gacha invalid_account_length)
  ]

unfoldable pub load_item : Env → AccountInfo → Result Item
unfolding check_account
load_item env a = do
  check_account env a item_len item_version
  elim a.body [ item_data i ↦ ok i | _ ↦ err (gacha invalid_account_length) ]

unfoldable pub load_pull : Env → AccountInfo → Result Pull
unfolding check_account
load_pull env a = do
  check_account env a pull_len pull_version
  elim a.body [ pull_data p ↦ ok p | _ ↦ err (gacha invalid_account_length) ]

-- `TokenAccount::load`: the contents of a token account are decoded already, and no other contents are
-- taken to have its 165 bytes.
unfoldable pub load_token : Env → AccountInfo → Result TokenAccount
load_token env a = do
  require (a.owner == env.token_program) (gacha invalid_token_address)
  elim a.body [ token_data t ↦ ok t | _ ↦ err (gacha invalid_token_address) ]

abbrev pub check_uninitialized : Env → AccountInfo → Result (Unit {0})
check_uninitialized env a =
    require (a.owner == env.system_program && (data_len a.body == 0)) (gacha already_initialized)

-- `create_pda`: the calls that it makes.
unfoldable pub create_pda : Env → AccountInfo → AccountInfo → ℕ → List Call
create_pda env payer account space =
    let lamports = env.minimum_balance space in
    let missing = lamports - account.lamports in
    if account.lamports == 0
    then create_account payer.key account.key lamports space ∷ []
    else ((if ltb 0 missing then fund payer.key account.key missing ∷ [] else [])
        ++ (allocate account.key space ∷ assign account.key ∷ []))

-- `close`: the receiver's new balance.
unfoldable pub close : AccountInfo → ℕ → Result ℕ
close account to_lamports = ok_or (checked_add 64 to_lamports account.lamports) arithmetic_overflow

-- The vault's balance left after reserving every pending refund and penalty.
abbrev pub spendable : Env → Pool → AccountInfo → Result ℕ
spendable env p vault = do
  token ← load_token env vault
  reserved ← refund_amount p p.pending_draws
  ok_or (checked_sub token.amount reserved) (gacha insufficient_balance)
