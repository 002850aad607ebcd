-- ===== src/Program/Loads.antt =====
-- program/src/state.rs: `load` and `load_new` on an account's bytes, as the macro `load!` writes them.
-- `load_mut` makes the checks of `load`.
use solana_gacha.Prelude.{
  ℕ, ◌+◌, List, Bool, true, ◌==◌, leb, ltb, length, drop, if◌then◌else◌, Result, ok, gacha, require,
  ◌>>=◌, ◌>>◌, invalid_account_owner, invalid_account_length, invalid_version, already_initialized,
}
use solana_gacha.Bytes.Values.{le_value}
use solana_gacha.Core.Constants.{
  pool_len, item_len, pull_len, pool_version, item_version, pull_version, inventory_space,
}
use solana_gacha.Core.State.{Pubkey}
use solana_gacha.Core.Layout.{
  RawPool, RawItem, RawPull, get_byte, over_pool, over_item, over_pull, pool_view, item_view,
  pull_view,
}
use solana_gacha.Program.Account.{Env, Contents, raw, pool_data, item_data, pull_data}
pub mod Laws
mod Tests

pub load_raw_pool : Env → Pubkey → List ℕ → Result RawPool
load_raw_pool env owner d = do
  require (owner == env.program_id) (gacha invalid_account_owner)
  require (leb pool_len (length d)) (gacha invalid_account_length)
  let this = over_pool d
  require (get_byte this.version == pool_version) (gacha invalid_version)
  require (length d == pool_len + inventory_space (le_value this.inventory_version))
      (gacha invalid_account_length)
  ok this

pub load_raw_item : Env → Pubkey → List ℕ → Result RawItem
load_raw_item env owner d = do
  require (owner == env.program_id) (gacha invalid_account_owner)
  require (leb item_len (length d)) (gacha invalid_account_length)
  let this = over_item d
  require (get_byte this.version == item_version) (gacha invalid_version)
  require (length d == item_len) (gacha invalid_account_length)
  ok this

pub load_raw_pull : Env → Pubkey → List ℕ → Result RawPull
load_raw_pull env owner d = do
  require (owner == env.program_id) (gacha invalid_account_owner)
  require (leb pull_len (length d)) (gacha invalid_account_length)
  let this = over_pull d
  require (get_byte this.version == pull_version) (gacha invalid_version)
  require (length d == pull_len) (gacha invalid_account_length)
  ok this

-- `load_new`: an account of the layout's length with a version of zero.
pub check_new : Env → Pubkey → List ℕ → ℕ → List ℕ → Result (Unit {0})
check_new env owner d size version = do
  require (owner == env.program_id) (gacha invalid_account_owner)
  require (length d == size) (gacha invalid_account_length)
  require (get_byte version == 0) (gacha already_initialized)

pub load_new_pool : Env → Pubkey → List ℕ → Result RawPool
load_new_pool env owner d = do
  check_new env owner d pool_len (over_pool d).version
  ok (over_pool d)

pub load_new_item : Env → Pubkey → List ℕ → Result RawItem
load_new_item env owner d = do
  check_new env owner d item_len (over_item d).version
  ok (over_item d)

pub load_new_pull : Env → Pubkey → List ℕ → Result RawPull
load_new_pull env owner d = do
  check_new env owner d pull_len (over_pull d).version
  ok (over_pull d)

-- The decoded contents of bytes that are a pool's account, or are too short for one; likewise those of
-- a pull and of an item, whose accounts have one length.
abbrev pub decode_pool : List ℕ → Contents
decode_pool d =
    if ltb (length d) pool_len
    then raw (length d)
    else pool_data (pool_view (over_pool d)) (drop pool_len d)

abbrev pub decode_pull : List ℕ → Contents
decode_pull d = if length d == pull_len then pull_data (pull_view (over_pull d)) else raw (length d)

abbrev pub decode_item : List ℕ → Contents
decode_item d = if length d == item_len then item_data (item_view (over_item d)) else raw (length d)
