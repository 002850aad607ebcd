-- ===== src/Core/Layout/Laws.antt =====
-- packages/gacha-core/src/state.rs: an account's bytes and the record that the getters read from them
-- determine each other, and the structs have the lengths that the source asserts.
use solana_gacha.Prelude.{
  ℕ, zero, suc, ◌%◌, ◌*◌, ◌<◌, ◌≡◌, ap, refl, sym, ◌∙◌, List, [], ◌∷◌, arith, length, replicate,
}
use mathlib.Core.Path.{ap₂}
use solana_gacha.Bytes.{le_bytes, byte_limit}
use solana_gacha.Bytes.Values.{
  le_value, concat, chunks, lengths, sum, le_value-le_bytes, chunks-concat, length-concat,
}
use solana_gacha.Core.Constants.{max_tiers, tier_len}
use solana_gacha.Core.State.{Tier, Pool, Item, Award, Pull}
use solana_gacha.Core.Layout.{
  RawTier, RawPool, RawItem, RawPull, put_word, put_long, put_key, all_tier_bytes, pool_fields,
  pool_widths, pool_bytes, over_tiers, pool_of, over_pool, all_tier_views, pool_view,
}

-- The structs whose getters read a record.
abbrev pub raw_tiers : List Tier → List RawTier
raw_tiers [] = []
raw_tiers (t ∷ ts) =
    record { weight = put_word t.weight; remaining = put_word t.remaining } ∷ raw_tiers ts

abbrev pub raw_pool : Pool → RawPool
raw_pool p = record {
  version = le_bytes 1 p.version;
  bump = le_bytes 1 p.bump;
  tier_count = le_bytes 1 p.tier_count;
  status = le_bytes 1 p.status;
  inventory_version = put_word p.inventory_version;
  authority = put_key p.authority;
  operator = put_key p.operator;
  payment_mint = put_key p.payment_mint;
  vault = put_key p.vault;
  id = put_long p.id;
  price = put_long p.price;
  deadline_slots = put_long p.deadline_slots;
  bond_per_draw = put_long p.bond_per_draw;
  pending_draws = put_long p.pending_draws;
  next_index = put_long p.next_index;
  next_settle = put_long p.next_settle;
  tiers = raw_tiers p.all_tiers;
}

abbrev pub raw_item : Item → RawItem
raw_item i = record {
  version = le_bytes 1 i.version;
  bump = le_bytes 1 i.bump;
  tier = le_bytes 1 i.tier;
  padding = 0 ∷ [];
  position = put_word i.position;
  pool = put_key i.pool;
  asset = put_key i.asset;
}

abbrev pub raw_awards : List Award → List (List ℕ)
raw_awards [] = []
raw_awards (a ∷ rest) = (a.tier ∷ put_key a.asset) ∷ raw_awards rest

abbrev pub raw_pull : Pull → RawPull
raw_pull p = record {
  version = le_bytes 1 p.version;
  bump = le_bytes 1 p.bump;
  status = le_bytes 1 p.status;
  count = le_bytes 1 p.count;
  inventory_version = put_word p.inventory_version;
  index = put_long p.index;
  deadline_slot = put_long p.deadline_slot;
  pool = put_key p.pool;
  buyer = put_key p.buyer;
  client_seed = p.client_seed;
  outcomes = raw_awards p.outcomes;
}

-- The records whose numbers fit the structs' arrays.
abbrev pub TiersFit : List Tier → Type 0
TiersFit [] = Unit {0}
TiersFit (t ∷ ts) = (t.weight < byte_limit 4) × (t.remaining < byte_limit 4) × TiersFit ts

pub record PoolFits (p : Pool) : Type 0 where
  pub version : p.version < 256
  pub bump : p.bump < 256
  pub tier_count : p.tier_count < 256
  pub status : p.status < 256
  pub inventory_version : p.inventory_version < byte_limit 4
  pub authority : p.authority < byte_limit 32
  pub operator : p.operator < byte_limit 32
  pub payment_mint : p.payment_mint < byte_limit 32
  pub vault : p.vault < byte_limit 32
  pub id : p.id < byte_limit 8
  pub price : p.price < byte_limit 8
  pub deadline_slots : p.deadline_slots < byte_limit 8
  pub bond_per_draw : p.bond_per_draw < byte_limit 8
  pub pending_draws : p.pending_draws < byte_limit 8
  pub next_index : p.next_index < byte_limit 8
  pub next_settle : p.next_settle < byte_limit 8
  pub all_tiers : TiersFit p.all_tiers
  pub tier_number : length p.all_tiers ≡ max_tiers

-- A number that fits is read back.
byte_fits : (v : ℕ) → v < 256 → v % 256 ≡ v
byte_fits v h = omega arith

word_fits : (v : ℕ) → v < byte_limit 4 → le_value (put_word v) ≡ v
word_fits v h = le_value-le_bytes 4 v h

long_fits : (v : ℕ) → v < byte_limit 8 → le_value (put_long v) ≡ v
long_fits v h = le_value-le_bytes 8 v h

key_fits : (v : ℕ) → v < byte_limit 32 → le_value (put_key v) ≡ v
key_fits v h = le_value-le_bytes 32 v h

tier_bytes_lengths :
    (ts : List Tier) → lengths (all_tier_bytes (raw_tiers ts)) ≡ replicate (length ts) tier_len
tier_bytes_lengths [] = refl
tier_bytes_lengths (t ∷ ts) = ap (λ (l : List ℕ). 8 ∷ l) (tier_bytes_lengths ts)

raw_tiers-view :
    (ts : List Tier)
    → TiersFit ts
    → all_tier_views (over_tiers (all_tier_bytes (raw_tiers ts))) ≡ ts
raw_tiers-view [] h = refl
raw_tiers-view (t ∷ ts) (w, r, others) =
    let e1 : le_value (put_word t.weight) ≡ t.weight = word_fits t.weight w in
    let e2 : le_value (put_word t.remaining) ≡ t.remaining = word_fits t.remaining r in
    let first : record {
      weight = le_value (put_word t.weight);
      remaining = le_value (put_word t.remaining);
    }
        ≡ t =
      λ i. record { weight = e1 i; remaining = e2 i } in
    ap₂ ◌∷◌ first (raw_tiers-view ts others)

sum-replicate : (n w : ℕ) → sum (replicate n w) ≡ n * w
sum-replicate zero w = omega arith
sum-replicate (suc n) w = omega (arith, sum-replicate n w)

lengths-pool_fields :
    (p : Pool) → length p.all_tiers ≡ max_tiers → lengths (pool_fields (raw_pool p)) ≡ pool_widths
lengths-pool_fields p h =
    ap (λ n. 1 ∷ 1 ∷ 1 ∷ 1 ∷ 4 ∷ 32 ∷ 32 ∷ 32 ∷ 32 ∷ 8 ∷ 8 ∷ 8 ∷ 8 ∷ 8 ∷ 8 ∷ 8 ∷ n ∷ [])
      (length-concat (all_tier_bytes (raw_tiers p.all_tiers))
        ∙ ap sum (tier_bytes_lengths p.all_tiers)
        ∙ ap (λ n. sum (replicate n tier_len)) h)

cut_tiers :
    (ts : List Tier)
    → length ts ≡ max_tiers
    → chunks (replicate max_tiers tier_len) (concat (all_tier_bytes (raw_tiers ts)))
      ≡ all_tier_bytes (raw_tiers ts)
cut_tiers ts h =
    ap (λ (ws : List ℕ). chunks ws (concat (all_tier_bytes (raw_tiers ts))))
      (ap (λ k. replicate k tier_len) (sym h) ∙ sym (tier_bytes_lengths ts))
    ∙ chunks-concat (all_tier_bytes (raw_tiers ts))

raw_pool-view : (p : Pool) → PoolFits p → pool_view (pool_of (pool_fields (raw_pool p))) ≡ p
raw_pool-view p fits =
    let stored =
      ap (λ (fs : List (List ℕ)). all_tier_views (over_tiers fs))
        (cut_tiers p.all_tiers fits.tier_number)
      ∙ raw_tiers-view p.all_tiers fits.all_tiers in
    λ i. record {
      version = byte_fits p.version fits.version i;
      bump = byte_fits p.bump fits.bump i;
      tier_count = byte_fits p.tier_count fits.tier_count i;
      status = byte_fits p.status fits.status i;
      inventory_version = word_fits p.inventory_version fits.inventory_version i;
      authority = key_fits p.authority fits.authority i;
      operator = key_fits p.operator fits.operator i;
      payment_mint = key_fits p.payment_mint fits.payment_mint i;
      vault = key_fits p.vault fits.vault i;
      id = long_fits p.id fits.id i;
      price = long_fits p.price fits.price i;
      deadline_slots = long_fits p.deadline_slots fits.deadline_slots i;
      bond_per_draw = long_fits p.bond_per_draw fits.bond_per_draw i;
      pending_draws = long_fits p.pending_draws fits.pending_draws i;
      next_index = long_fits p.next_index fits.next_index i;
      next_settle = long_fits p.next_settle fits.next_settle i;
      all_tiers = stored i;
    }

-- A pool whose numbers fit its fields is read back from its bytes.
over_pool-pool_bytes : (p : Pool) → PoolFits p → pool_view (over_pool (pool_bytes (raw_pool p))) ≡ p
unfolding over_pool pool_bytes
over_pool-pool_bytes p fits =
    let split : chunks pool_widths (concat (pool_fields (raw_pool p))) ≡ pool_fields (raw_pool p) =
      ap (λ (ws : List ℕ). chunks ws (concat (pool_fields (raw_pool p))))
        (sym (lengths-pool_fields p fits.tier_number))
      ∙ chunks-concat (pool_fields (raw_pool p)) in
    ap (λ (fs : List (List ℕ)). pool_view (pool_of fs)) split ∙ raw_pool-view p fits
