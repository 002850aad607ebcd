-- ===== src/Sdk.antt =====
-- packages/gacha-rust/src/lib.rs: the snapshots, the native instructions and what they share.
use solana_gacha.Prelude.{
  ℕ, List, [], ◌∷◌, ◌++◌, Bool, true, false, Option, none, some, ◌==◌, ◌||◌, ltb, not, Result, ok,
  err, sdk, reject_if, ◌>>=◌, ◌>>◌,
}
use solana_gacha.Prelude.SdkErrors.{invalid_account}
use solana_gacha.Core.State.{Pubkey, Pool, Pull, Item}
use solana_gacha.Program.Account.{Contents, data_len, version_byte}
use solana_gacha.Bytes.{le_bytes}
pub mod Scene
pub mod Pools
pub mod Orders
pub mod Plan
pub mod Batches
pub mod Pulls
pub mod Wire
pub mod Assets
pub mod Rpc

pub record AccountMeta : Type 0 where
  pub pubkey : Pubkey
  pub is_signer : Bool
  pub is_writable : Bool

pub record Instruction : Type 0 where
  pub program_id : Pubkey
  pub accounts : List AccountMeta
  pub bytes : List ℕ

-- The addresses the client knows, and what it takes from the libraries that it calls; the last two are
-- of the message of instructions with a payer.
pub record Host : Type 0 where
  pub program : Pubkey
  pub token : Pubkey
  pub system : Pubkey
  pub core : Pubkey
  pub event_authority : Pubkey
  pub key_bytes : Pubkey → List ℕ
  pub key_of : List ℕ → Pubkey
  pub find_program_address : List (List ℕ) → Pubkey × ℕ
  pub ata : Pubkey → Pubkey → Pubkey
  pub create_ata : Pubkey → Pubkey → Pubkey → Instruction
  pub is_valid : Pubkey → Bool
  pub verify : List ℕ → Pubkey → List ℕ → Option (List ℕ)
  pub sha256 : List (List ℕ) → List ℕ
  pub num_required_signatures : List Instruction → Pubkey → ℕ
  pub serialize : List Instruction → Pubkey → List ℕ

-- `Pool`: the header, and the index past it, if it was fetched.
pub record PoolSnapshot : Type 0 where
  pub address : Pubkey
  pub header : Pool
  pub index : List ℕ

pub record PullSnapshot : Type 0 where
  pub address : Pubkey
  pub header : Pull

pub record ItemSnapshot : Type 0 where
  pub address : Pubkey
  pub header : Item

pub record Asset : Type 0 where
  pub address : Pubkey
  pub owner : Pubkey
  pub collection : Option Pubkey

abbrev pub unwrap_or : Option Pubkey → Pubkey → Pubkey
unwrap_or none k = k
unwrap_or (some c) k = c

-- The collection's account of a transfer.
abbrev pub collection_of : Host → Asset → Pubkey
collection_of h a = unwrap_or a.collection h.core

abbrev pub check : Host → Pubkey → Contents → ℕ → ℕ → Result (Unit {0})
check h owner body minimum version =
    reject_if
      (not (owner == h.program)
        || ltb (data_len body) minimum
        || not (version_byte body == version))
      (sdk invalid_account)

abbrev pub rw_meta : Pubkey → Bool → AccountMeta
rw_meta key signer = record { pubkey = key; is_signer = signer; is_writable = true }

abbrev pub ro_meta : Pubkey → Bool → AccountMeta
ro_meta key signer = record { pubkey = key; is_signer = signer; is_writable = false }

abbrev pub instruction : Host → List ℕ → List AccountMeta → Instruction
instruction h bytes accounts = record {
  program_id = h.program;
  accounts = accounts ++ (ro_meta h.event_authority false ∷ ro_meta h.program false ∷ []);
  bytes = bytes;
}

-- SPL Token `Transfer`.
abbrev pub token_instruction : Host → Pubkey → Pubkey → Pubkey → ℕ → Instruction
token_instruction h from to authority amount = record {
  program_id = h.token;
  accounts = rw_meta from false ∷ rw_meta to false ∷ ro_meta authority true ∷ [];
  bytes = 3 ∷ le_bytes 8 amount;
}
