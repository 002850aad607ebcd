-- ===== src/Sdk/Wire/Quotes.antt =====
-- packages/gacha-rust/src/lib.rs and program/src/player/buyback.rs: the data of a buyback is what the
-- program reads.
use solana_gacha.Prelude.{
  ℕ, ◌<◌, ◌≡◌, ap, sym, ◌∙◌, List, [], ◌∷◌, ◌++◌, arith, length, get_or, drop, take, true, false,
  Bool-cases, inl, inr, ◌==◌, ◌||◌, not, ok, leb, eq→==, length-append,
}
use solana_gacha.Bytes.{le_bytes, byte_limit}
use solana_gacha.Bytes.Values.{get_or-append_right, take-append}
use solana_gacha.Core.State.{Pubkey}
use solana_gacha.Core.Draw.{u64_at}
use solana_gacha.Program.Account.{Env}
use solana_gacha.Program.Buyback.{buyback_instruction, signed_le}
use solana_gacha.Sdk.{Host, PoolSnapshot, Asset, Instruction}
use solana_gacha.Sdk.Pools.{item_address, is_active}
use solana_gacha.Sdk.Orders.{Quote, is_past, buyback_order}
use solana_gacha.Sdk.Wire.Numbers.{u64_at-le_bytes}
use solana_gacha.Sdk.Wire.Creation.{second_bytes, sent_second}

abbrev pub buyback_data : Quote → List ℕ → ℕ → List ℕ
buyback_data q signature bump =
    q.tier ∷ (le_bytes 8 q.price ++ (le_bytes 8 q.expires_at ++ (signature ++ (bump ∷ []))))

buyback_data_read :
    (env : Env) (q : Quote) (signature : List ℕ) (bump : ℕ)
    → length signature ≡ 64
    → q.price < byte_limit 8
    → q.expires_at < byte_limit 8
    → signed_le q.expires_at env.unix_timestamp ≡ false
    → buyback_instruction env (buyback_data q signature bump)
      ≡ ok (record {
        tier = q.tier;
        price = q.price;
        expires_at = q.expires_at;
        signature = signature;
        bump = bump;
      })
unfolding buyback_instruction u64_at
buyback_data_read env q signature bump sized price expiry early =
    let bytes = buyback_data q signature bump in
    let tail = signature ++ (bump ∷ []) in
    let long : (length bytes == 82) ≡ true =
      eq→== (length bytes) 82 (omega (arith, length-append signature (bump ∷ []))) in
    let expires = u64_at-le_bytes q.expires_at [] expiry in
    let signed : take 64 tail ≡ signature =
      ap (λ n. take n tail) (sym sized) ∙ take-append signature (bump ∷ []) in
    let last : get_or tail 64 0 ≡ bump =
      get_or-append_right signature (bump ∷ []) 64 0 0 (omega arith) in
    rw (long, expires, early)
      (λ i. ok (record {
        tier = q.tier;
        price = u64_at-le_bytes q.price [] price i;
        expires_at = q.expires_at;
        signature = signed i;
        bump = last i;
      }))

buyback_order-bytes :
    (h : Host) (s : PoolSnapshot) (q : Quote) (signature : List ℕ) (a : Asset) (payer : Pubkey)
    {sent : List Instruction}
    → buyback_order h s q signature a payer ≡ ok sent
    → second_bytes sent
      ≡ 12 ∷ buyback_data q signature (item_address h s.address q.tier s.header.inventory_version).1
unfolding buyback_order
buyback_order-bytes h s q signature a payer run = elim (Bool-cases (is_active s)) [
  | inr idle ↦ absurd (ground (arith, idle))
  | inl active ↦ elim (Bool-cases (q.pool == s.address)) [
    | inr other ↦ absurd (ground (arith, active, other))
    | inl same ↦
        elim (Bool-cases (leb s.header.tier_count q.tier || q.price == 0 || is_past q.expires_at)) [
          | inl bad ↦ absurd (ground (arith, active, same, bad))
          | inr good ↦ elim (Bool-cases (not (q.asset == a.address) || (a.owner == s.address))) [
            | inl held ↦ absurd (ground (arith, active, same, good, held))
            | inr owned ↦
                let made = rw (active, same, good, owned) at run in ap sent_second (sym made)
          ]
        ]
  ]
]

-- When the client's `buyback_order` comes out for a signature of 64 bytes and 64-bit words that
-- are not expired by the program's clock, its second instruction has the discriminator of a
-- buyback, and the program's parser reads the quote's tier, price and expiry, the signature and
-- the derived bump.
pub buyback_order-buyback_instruction :
    (env : Env) (h : Host) (s : PoolSnapshot) (q : Quote) (signature : List ℕ) (a : Asset)
    (payer : Pubkey) {sent : List Instruction}
    → length signature ≡ 64
    → q.price < byte_limit 8
    → q.expires_at < byte_limit 8
    → signed_le q.expires_at env.unix_timestamp ≡ false
    → buyback_order h s q signature a payer ≡ ok sent
    → (get_or (second_bytes sent) 0 0 ≡ 12)
      × (buyback_instruction env (drop 1 (second_bytes sent))
          ≡ ok (record {
            tier = q.tier;
            price = q.price;
            expires_at = q.expires_at;
            signature = signature;
            bump = (item_address h s.address q.tier s.header.inventory_version).1;
          }))
buyback_order-buyback_instruction env h s q signature a payer sized price expiry early run =
    let bytes = buyback_order-bytes h s q signature a payer run in
    (
      ap (λ (l : List ℕ). get_or l 0 0) bytes,
      ap (λ (l : List ℕ). buyback_instruction env (drop 1 l)) bytes
          ∙ buyback_data_read env q signature
              (item_address h s.address q.tier s.header.inventory_version).1 sized price expiry
              early,
    )
