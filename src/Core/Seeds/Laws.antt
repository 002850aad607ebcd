-- ===== src/Core/Seeds/Laws.antt =====
-- packages/gacha-core/src/state.rs: no two accounts have the same seeds, put one after the other.
use solana_gacha.Prelude.{
  ℕ, ◌<◌, ◌≡◌, ap, sym, refl, ◌∙◌, drop, List, [], ◌∷◌, ◌++◌, length, length-append,
  append-injective, cons-injective, arith,
}
use solana_gacha.Bytes.{le_bytes, byte_limit, le_bytes_injective}
use solana_gacha.Bytes.Values.{concat}
use solana_gacha.Core.State.{Pubkey}
use solana_gacha.Core.Seeds.{pool_seeds, pull_seeds, item_seeds}

-- The accounts whose addresses the program derives.
pub data Derived : Type 0 where
  of_pool : (authority : Pubkey) (id bump : ℕ) → Derived
  of_pull : (pool : Pubkey) (client_seed : List ℕ) (bump : ℕ) → Derived
  of_item : (pool : Pubkey) (tier position bump : ℕ) → Derived

-- A public key is the number of its 32 bytes.
abbrev pub seeds : Derived → List (List ℕ)
seeds (of_pool authority id bump) = pool_seeds (le_bytes 32) authority id bump
seeds (of_pull pool client_seed bump) = pull_seeds (le_bytes 32) pool client_seed bump
seeds (of_item pool tier position bump) = item_seeds (le_bytes 32) pool tier position bump

-- The parts have the sizes of their types.
abbrev pub IsSized : Derived → Type 0
IsSized (of_pool authority id bump) = (authority < byte_limit 32) × (id < byte_limit 8)
IsSized (of_pull pool client_seed bump) = (pool < byte_limit 32) × (length client_seed ≡ 32)
IsSized (of_item pool tier position bump) = (pool < byte_limit 32) × (position < byte_limit 4)

abbrev width : Derived → ℕ
width (of_pool authority id bump) = 45
width (of_pull pool client_seed bump) = 69
width (of_item pool tier position bump) = 42

length-seeds : (a : Derived) → IsSized a → length (concat (seeds a)) ≡ width a
length-seeds (of_pool authority id bump) h = refl
length-seeds (of_pull pool client_seed bump) (k, h) =
    omega (arith, length-append client_seed (bump ∷ []))
length-seeds (of_item pool tier position bump) h = refl

equal_widths :
    (a b : Derived)
    → IsSized a
    → IsSized b
    → concat (seeds a) ≡ concat (seeds b)
    → width a ≡ width b
equal_widths a b ha hb e = omega (arith, ap length e, length-seeds a ha, length-seeds b hb)

-- What stands behind the seed's word.
key_and_rest :
    {j k : Pubkey} {xs ys : List ℕ}
    → j < byte_limit 32
    → k < byte_limit 32
    → le_bytes 32 j ++ xs ≡ le_bytes 32 k ++ ys
    → (j ≡ k) × (xs ≡ ys)
key_and_rest {j} {k} hj hk e =
    let (keys, rest) = append-injective (le_bytes 32 j) (le_bytes 32 k) refl e in
    (le_bytes_injective 32 j k hj hk keys, rest)

-- With keys of 32 bytes, 64-bit ids, 32-bit positions and client seeds of 32 bytes, two derived
-- accounts with the same bytes of seeds, one after the other, are the same pool, pull or item with
-- the same bump.
pub concat-seeds-injective :
    (a b : Derived) → IsSized a → IsSized b → concat (seeds a) ≡ concat (seeds b) → a ≡ b
concat-seeds-injective (of_pool j id bump) (of_pool k id' bump') (hj, hi) (hk, hi') e =
    let (keys, rest) = key_and_rest hj hk (ap (drop 4) e) in
    let (ids, bumps) = append-injective (le_bytes 8 id) (le_bytes 8 id') refl rest in
    let same = le_bytes_injective 8 id id' hi hi' ids in
    λ i. of_pool (keys i) (same i) ((cons-injective bumps).0 i)
concat-seeds-injective (of_pull j seed bump) (of_pull k seed' bump') (hj, hs) (hk, hs') e =
    let (keys, rest) = key_and_rest hj hk (ap (drop 4) e) in
    let (same, bumps) = append-injective seed seed' (hs ∙ sym hs') rest in
    λ i. of_pull (keys i) (same i) ((cons-injective bumps).0 i)
concat-seeds-injective (of_item j tier position bump) (of_item k tier' position' bump') (hj, hp)
      (hk, hp') e =
    let (keys, rest) = key_and_rest hj hk (ap (drop 4) e) in
    let (tiers, more) = cons-injective rest in
    let (places, bumps) = append-injective (le_bytes 4 position) (le_bytes 4 position') refl more in
    let same = le_bytes_injective 4 position position' hp hp' places in
    λ i. of_item (keys i) (tiers i) (same i) ((cons-injective bumps).0 i)
concat-seeds-injective (of_pool j id bump) (of_pull k seed' bump') ha hb e =
    absurd (omega (arith, equal_widths (of_pool j id bump) (of_pull k seed' bump') ha hb e))
concat-seeds-injective (of_pool j id bump) (of_item k tier' position' bump') ha hb e =
    absurd
      (omega (arith, equal_widths (of_pool j id bump) (of_item k tier' position' bump') ha hb e))
concat-seeds-injective (of_pull j seed bump) (of_pool k id' bump') ha hb e =
    absurd (omega (arith, equal_widths (of_pull j seed bump) (of_pool k id' bump') ha hb e))
concat-seeds-injective (of_pull j seed bump) (of_item k tier' position' bump') ha hb e =
    absurd
      (omega (arith, equal_widths (of_pull j seed bump) (of_item k tier' position' bump') ha hb e))
concat-seeds-injective (of_item j tier position bump) (of_pool k id' bump') ha hb e =
    absurd
      (omega (arith, equal_widths (of_item j tier position bump) (of_pool k id' bump') ha hb e))
concat-seeds-injective (of_item j tier position bump) (of_pull k seed' bump') ha hb e =
    absurd
      (omega (arith, equal_widths (of_item j tier position bump) (of_pull k seed' bump') ha hb e))
