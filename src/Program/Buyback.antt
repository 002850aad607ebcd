-- ===== src/Program/Buyback.antt =====
-- program/src/player/buyback.rs, with `pay` of program/src/helpers.rs.
use solana_gacha.Prelude.{
  ℕ, ◌+◌, ◌%◌, ◌^◌, List, [], ◌∷◌, ◌++◌, Bool, ◌==◌, ◌&&◌, ltb, leb, length, get_or, take, drop,
  Result, ok, err, gacha, ◌>>=◌, ◌>>◌, require, reject_if, not_enough_account_keys,
  invalid_instruction_data, not_signer, not_mutable, invalid_pool_status, invalid_token_address,
  quote_expired, invalid_quote, insufficient_balance,
}
use solana_gacha.Bytes.{le_bytes}
use solana_gacha.Core.Constants.{pool_active}
use solana_gacha.Core.Draw.{u64_at}
use solana_gacha.Core.Quote.{buyback_message}
use solana_gacha.Program.Events.{event_bytes, buyback_fields}
use solana_gacha.Program.Account.{
  AccountInfo, Env, Call, asset_transfer, token_transfer, emit, load_pool, load_token, spendable,
}
use solana_gacha.Program.Restock.{Restocked, check_restock, restock}
pub mod Laws
mod Tests

pub record BuybackAccounts : Type 0 where
  pub payer : AccountInfo
  pub seller : AccountInfo
  pub pool : AccountInfo
  pub item : AccountInfo
  pub asset : AccountInfo
  pub collection : AccountInfo
  pub vault : AccountInfo
  pub destination : AccountInfo

pub buyback_accounts : Env → List AccountInfo → Result BuybackAccounts
buyback_accounts env
      (payer ∷ seller ∷ pool ∷ item ∷ asset ∷ collection ∷ vault ∷ destination ∷ _ ∷ _ ∷ _ ∷ _ ∷ _
        ∷ []) =
    do
      require (payer.is_signer && seller.is_signer) (gacha not_signer)
      require (pool.is_writable && item.is_writable) (gacha not_mutable)
      (p, _) ← load_pool env pool
      require (p.status == pool_active) (gacha invalid_pool_status)
      require (p.vault == vault.key) (gacha invalid_token_address)
      t ← load_token env destination
      require (t.owner == seller.key) (gacha invalid_token_address)
      ok (record {
        payer = payer;
        seller = seller;
        pool = pool;
        item = item;
        asset = asset;
        collection = collection;
        vault = vault;
        destination = destination;
      })
buyback_accounts env _ = err not_enough_account_keys

pub record BuybackInstruction : Type 0 where
  pub tier : ℕ
  pub price : ℕ
  pub expires_at : ℕ
  pub signature : List ℕ
  pub bump : ℕ

-- `a >= b` on i64 words: the order of the words with the sign bit flipped.
abbrev pub signed_le : ℕ → ℕ → Bool
signed_le a b = leb ((a + 2 ^ 63) % 2 ^ 64) ((b + 2 ^ 63) % 2 ^ 64)

unfoldable pub buyback_instruction : Env → List ℕ → Result BuybackInstruction
buyback_instruction env bytes = do
  require (length bytes == 82) invalid_instruction_data
  reject_if (signed_le (u64_at bytes 9) env.unix_timestamp) (gacha quote_expired)
  ok (record {
    tier = get_or bytes 0 0;
    price = u64_at bytes 1;
    expires_at = u64_at bytes 9;
    signature = take 64 (drop 17 bytes);
    bump = get_or bytes 81 0;
  })

abbrev pub buyback_event : Env → BuybackAccounts → ℕ → ℕ → Call
buyback_event env a price position =
    emit (
      event_bytes env.key_bytes (buyback_fields a.pool.key a.asset.key a.seller.key price position))

unfoldable pub buyback : Env → BuybackAccounts → BuybackInstruction → Result Restocked
buyback env a i = do
  (p, _) ← load_pool env a.pool
  reject_if (leb p.tier_count i.tier) (gacha invalid_quote)
  let message =
      buyback_message (env.key_bytes a.pool.key) (env.key_bytes a.asset.key) i.price i.expires_at
        i.tier
  require (env.verify_strict p.authority i.signature message) (gacha invalid_quote)
  free ← spendable env p a.vault
  reject_if (ltb free i.price) (gacha insufficient_balance)
  position ← check_restock env p a.pool.key a.item i.tier i.bump
  let custody = asset_transfer a.payer.key a.seller.key a.pool.key a.asset.key a.collection.key
  env.invoke custody
  r ← restock env a.payer a.pool a.item a.asset.key i.tier i.bump
  let payment = token_transfer a.vault.key a.destination.key a.pool.key i.price
  env.invoke payment
  env.invoke (buyback_event env a i.price position)
  ok (record r {
    calls = custody ∷ (r.calls ++ (payment ∷ buyback_event env a i.price position ∷ []));
  })
