-- ===== src/Core/Quote/Laws.antt =====
-- What a signed message of packages/gacha-core/src/lib.rs commits to.
use solana_gacha.Prelude.{
  ℕ, ◌^◌, ◌<◌, ◌≡◌, sym, ◌∙◌, refl, List, length, append-injective, cons-injective,
}
use solana_gacha.Bytes.{le_bytes, length-le_bytes, le_bytes_injective}
use solana_gacha.Core.Quote.{buyback_message, quote_tag, program_id_bytes}

-- Two quotes with keys of 32 bytes and 64-bit numbers that have the same message are the same
-- quote: the message determines the pool, the asset, the price, the expiry and the tier.
pub buyback_message-injective :
    {pool pool' asset asset' : List ℕ} {price price' expires expires' tier tier' : ℕ}
    → length pool ≡ 32
    → length pool' ≡ 32
    → length asset ≡ 32
    → length asset' ≡ 32
    → price < 2 ^ 64
    → price' < 2 ^ 64
    → expires < 2 ^ 64
    → expires' < 2 ^ 64
    → buyback_message pool asset price expires tier
      ≡ buyback_message pool' asset' price' expires' tier'
    → (pool ≡ pool') × (asset ≡ asset') × (price ≡ price') × (expires ≡ expires') × (tier ≡ tier')
unfolding buyback_message
buyback_message-injective {pool} {pool'} {asset} {asset'} {price} {price'} {expires} {expires'} lp
      lp' la la' hp hp' he he' e =
    let (_, e1) = append-injective quote_tag quote_tag refl e in
    let (_, e2) = append-injective program_id_bytes program_id_bytes refl e1 in
    let (pools, e3) = append-injective pool pool' (lp ∙ sym lp') e2 in
    let (assets, e4) = append-injective asset asset' (la ∙ sym la') e3 in
    let (prices, e5) =
      append-injective (le_bytes 8 price) (le_bytes 8 price')
        (length-le_bytes 8 price ∙ sym (length-le_bytes 8 price')) e4 in
    let (times, e6) =
      append-injective (le_bytes 8 expires) (le_bytes 8 expires')
        (length-le_bytes 8 expires ∙ sym (length-le_bytes 8 expires')) e5 in
    (
      pools,
      assets,
      le_bytes_injective 8 price price' hp hp' prices,
      le_bytes_injective 8 expires expires' he he' times,
      (cons-injective e6).0,
    )
