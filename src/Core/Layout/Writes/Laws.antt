-- ===== src/Core/Layout/Writes/Laws.antt =====
-- packages/gacha-core/src/state.rs: the writes on a struct of byte arrays are those on the record that
-- its getters read.
use solana_gacha.Prelude.{
  ℕ, zero, suc, ◌%◌, le→not-ltb, lt→ltb, ◌==◌, ◌&&◌, ◌≤◌, ◌<◌, ◌≡◌, ap, refl, sym, ◌∙◌, List, [],
  ◌∷◌, ◌++◌, arith, length, get_or, set, take, drop, replicate, map_ok, ok,
}
use solana_gacha.Bytes.{byte_limit, AllBelow}
use solana_gacha.Bytes.Values.{le_value-le_bytes}
use solana_gacha.Core.Constants.{
  max_tiers, max_count, delivered, outcome_len, pool_len, pull_len, item_len,
}
use solana_gacha.Core.State.{
  Pubkey, Tier, Award, new_pool, new_item, new_pull, weighted, set_outcome, mark_delivered,
  all_delivered, all_are_delivered, empty_tier, empty_award,
}
use solana_gacha.Core.Layout.{
  RawTier, RawPull, get_byte, put_byte, put_key, over_pool, over_item, over_pull, all_tier_views,
  pool_view, item_view, pull_view, all_award_views, award_view,
}
use solana_gacha.Core.Layout.Writes.{
  write_tiers, set_weights, set_pool, set_item, set_pull, put_outcome, put_delivered,
  outcomes_delivered, every_delivered,
}

abbrev pub zero_tiers : ℕ → List RawTier
zero_tiers n = replicate n (record { weight = 0 ∷ 0 ∷ 0 ∷ 0 ∷ []; remaining = 0 ∷ 0 ∷ 0 ∷ 0 ∷ [] })

zero_tiers-view : (n : ℕ) → all_tier_views (zero_tiers n) ≡ weighted [] n
zero_tiers-view zero = refl
zero_tiers-view (suc n) = ap (λ (l : List Tier). empty_tier ∷ l) (zero_tiers-view n)

-- The tiers in use take the weights, the others keep their zeros.
set_weights-view :
    (weights : List ℕ) (n : ℕ)
    → length weights ≤ n
    → AllBelow (byte_limit 4) weights
    → all_tier_views (
        set_weights (take (length weights) (zero_tiers n)) weights
        ++ drop (length weights) (zero_tiers n))
      ≡ weighted weights n
set_weights-view [] n h small = zero_tiers-view n
set_weights-view (w ∷ weights) zero h small = absurd (omega arith)
set_weights-view (w ∷ weights) (suc n) h (first, others) =
    let e = le_value-le_bytes 4 w first in
    let rest = set_weights-view weights n (omega arith) others in
    λ i. record { weight = e i; remaining = 0 } ∷ rest i

write_tiers_zeroed :
    (weights : List ℕ)
    → length weights ≤ max_tiers
    → write_tiers (zero_tiers max_tiers) (length weights % 256) weights
      ≡ ok (
          set_weights (take (length weights) (zero_tiers max_tiers)) weights
          ++ drop (length weights) (zero_tiers max_tiers))
unfolding write_tiers
write_tiers_zeroed weights few =
    let small : length weights % 256 ≡ length weights = omega arith in
    rw (small, le→not-ltb max_tiers (length weights) few)

-- On the zeroed bytes of a new account, with at most eight weights and numbers that fit their
-- fields, `Pool::set_inner` does not panic, and the getters then read the new pool that the rest
-- of the development takes.
pub set_pool_zeroed :
    (bump : ℕ) (authority operator payment_mint vault : Pubkey)
    (id price deadline_slots bond_per_draw : ℕ) (weights : List ℕ)
    → length weights ≤ max_tiers
    → (authority < byte_limit 32)
      × (operator < byte_limit 32)
      × (payment_mint < byte_limit 32)
      × (vault < byte_limit 32)
    → (id < byte_limit 8)
      × (price < byte_limit 8)
      × (deadline_slots < byte_limit 8)
      × (bond_per_draw < byte_limit 8)
    → AllBelow (byte_limit 4) weights
    → map_ok pool_view (
        set_pool
          (over_pool (replicate pool_len 0))
          bump
          authority
          operator
          payment_mint
          vault
          id
          price
          deadline_slots
          bond_per_draw
          weights)
      ≡ ok (
          new_pool bump authority operator payment_mint vault id price deadline_slots bond_per_draw
            weights)
unfolding set_pool over_pool new_pool
set_pool_zeroed bump authority operator payment_mint vault id price deadline_slots bond_per_draw
      weights few (k1, k2, k3, k4) (l1, l2, l3, l4) words =
    let count : length weights % 256 ≡ length weights = omega arith in
    let stored = set_weights-view weights max_tiers few words in
    rw (write_tiers_zeroed weights few) (λ i. ok (record {
      version = 1;
      bump = bump;
      tier_count = count i;
      status = 0;
      inventory_version = 0;
      authority = le_value-le_bytes 32 authority k1 i;
      operator = le_value-le_bytes 32 operator k2 i;
      payment_mint = le_value-le_bytes 32 payment_mint k3 i;
      vault = le_value-le_bytes 32 vault k4 i;
      id = le_value-le_bytes 8 id l1 i;
      price = le_value-le_bytes 8 price l2 i;
      deadline_slots = le_value-le_bytes 8 deadline_slots l3 i;
      bond_per_draw = le_value-le_bytes 8 bond_per_draw l4 i;
      pending_draws = 0;
      next_index = 0;
      next_settle = 0;
      all_tiers = stored i;
    }))

set_item_zeroed :
    (bump tier position : ℕ) (pool asset : Pubkey)
    → position < byte_limit 4
    → (pool < byte_limit 32) × (asset < byte_limit 32)
    → item_view (set_item (over_item (replicate item_len 0)) bump tier position pool asset)
      ≡ new_item bump tier position pool asset
unfolding set_item over_item new_item
set_item_zeroed bump tier position pool asset small (k1, k2) = λ i. record {
  version = 1;
  bump = bump;
  tier = tier;
  position = le_value-le_bytes 4 position small i;
  pool = le_value-le_bytes 32 pool k1 i;
  asset = le_value-le_bytes 32 asset k2 i;
}

set_pull_zeroed :
    (bump count inventory_version index deadline_slot : ℕ) (pool buyer : Pubkey)
    (client_seed : List ℕ)
    → inventory_version < byte_limit 4
    → (index < byte_limit 8) × (deadline_slot < byte_limit 8)
    → (pool < byte_limit 32) × (buyer < byte_limit 32)
    → pull_view (
        set_pull
          (over_pull (replicate pull_len 0))
          bump
          count
          inventory_version
          index
          deadline_slot
          pool
          buyer
          client_seed)
      ≡ new_pull bump count inventory_version index deadline_slot pool buyer client_seed
unfolding set_pull over_pull new_pull
set_pull_zeroed bump count inventory_version index deadline_slot pool buyer client_seed small
      (l1, l2) (k1, k2) =
    λ i. record {
      version = 1;
      bump = bump;
      status = 0;
      count = count;
      inventory_version = le_value-le_bytes 4 inventory_version small i;
      index = le_value-le_bytes 8 index l1 i;
      deadline_slot = le_value-le_bytes 8 deadline_slot l2 i;
      pool = le_value-le_bytes 32 pool k1 i;
      buyer = le_value-le_bytes 32 buyer k2 i;
      client_seed = client_seed;
      outcomes = replicate max_count empty_award;
    }

-- The writes of an award.
all_award_views-set :
    (os : List (List ℕ)) (i : ℕ) (o : List ℕ)
    → all_award_views (set os i o) ≡ set (all_award_views os) i (award_view o)
all_award_views-set [] i o = refl
all_award_views-set (x ∷ os) zero o = refl
all_award_views-set (x ∷ os) (suc i) o =
    ap (λ (l : List Award). award_view x ∷ l) (all_award_views-set os i o)

put_outcome_lem :
    (p : RawPull) (i tier : ℕ) (asset : Pubkey)
    → i < length p.outcomes
    → asset < byte_limit 32
    → map_ok pull_view (put_outcome p i tier asset) ≡ ok (set_outcome (pull_view p) i tier asset)
unfolding put_outcome
put_outcome_lem p i tier asset inside small =
    let e = le_value-le_bytes 32 asset small in
    let stored : all_award_views (set p.outcomes i (tier ∷ put_key asset))
        ≡ set (all_award_views p.outcomes) i (record { tier = tier; asset = asset }) =
      all_award_views-set p.outcomes i (tier ∷ put_key asset)
      ∙ ap (λ a. set (all_award_views p.outcomes) i (record { tier = tier; asset = a })) e in
    rw (lt→ltb i (length p.outcomes) inside)
      (λ j. ok (record (pull_view p) { outcomes = stored j }))

every_delivered_lem :
    (os : List (List ℕ)) → every_delivered os ≡ all_are_delivered (all_award_views os)
every_delivered_lem [] = refl
every_delivered_lem (o ∷ os) = ap (λ b. (get_byte o == delivered) && b) (every_delivered_lem os)

take-all_award_views :
    (n : ℕ) (os : List (List ℕ)) → all_award_views (take n os) ≡ take n (all_award_views os)
take-all_award_views zero os = refl
take-all_award_views (suc n) [] = refl
take-all_award_views (suc n) (o ∷ os) =
    ap (λ (l : List Award). award_view o ∷ l) (take-all_award_views n os)

outcomes_delivered_lem :
    (p : RawPull)
    → get_byte p.count ≤ length p.outcomes
    → outcomes_delivered p ≡ ok (all_delivered (pull_view p))
unfolding outcomes_delivered
outcomes_delivered_lem p h = rw (le→not-ltb (length p.outcomes) (get_byte p.count) h) (
    ap ok (
      every_delivered_lem (take (get_byte p.count) p.outcomes)
      ∙ ap all_are_delivered (take-all_award_views (get_byte p.count) p.outcomes)))

-- The key behind a tier byte stays when the byte is overwritten.
get_or-all_award_views :
    (os : List (List ℕ)) (i : ℕ)
    → i < length os
    → get_or (all_award_views os) i empty_award ≡ award_view (get_or os i [])
get_or-all_award_views [] i h = absurd (omega arith)
get_or-all_award_views (o ∷ os) zero h = refl
get_or-all_award_views (o ∷ os) (suc i) h = get_or-all_award_views os i (omega arith)

put_byte-award_view :
    (o : List ℕ)
    → length o ≡ outcome_len
    → award_view (put_byte o delivered) ≡ record { tier = delivered; asset = (award_view o).asset }
put_byte-award_view [] h = absurd (omega arith)
put_byte-award_view (b ∷ o) h = refl

put_delivered_lem :
    (p : RawPull) (i : ℕ)
    → i < length p.outcomes
    → length (get_or p.outcomes i []) ≡ outcome_len
    → map_ok pull_view (put_delivered p i) ≡ ok (mark_delivered (pull_view p) i)
unfolding put_delivered
put_delivered_lem p i inside sized =
    let o = get_or p.outcomes i [] in
    let stored : all_award_views (set p.outcomes i (put_byte o delivered))
        ≡ (mark_delivered (pull_view p) i).outcomes =
      all_award_views-set p.outcomes i (put_byte o delivered)
      ∙ ap (set (all_award_views p.outcomes) i) (put_byte-award_view o sized)
      ∙ ap
          (λ (a : Award).
            set (all_award_views p.outcomes) i (record { tier = delivered; asset = a.asset }))
          (sym (get_or-all_award_views p.outcomes i inside)) in
    rw (lt→ltb i (length p.outcomes) inside)
      (λ j. ok (record (pull_view p) { outcomes = stored j }))

-- On a pull's bytes, with an outcome's place inside the array and of the outcome's length, a count
-- within the array and an asset of 32 bytes, `set_outcome` and `mark_delivered` do not panic and
-- read as the writes of the award's record, and `all_delivered` on the bytes is that on the
-- record.
pub outcome_writes-pull_view :
    (p : RawPull) (i tier : ℕ) (asset : Pubkey)
    → i < length p.outcomes
    → length (get_or p.outcomes i []) ≡ outcome_len
    → get_byte p.count ≤ length p.outcomes
    → asset < byte_limit 32
    → (map_ok pull_view (put_outcome p i tier asset) ≡ ok (set_outcome (pull_view p) i tier asset))
      × (map_ok pull_view (put_delivered p i) ≡ ok (mark_delivered (pull_view p) i))
      × (outcomes_delivered p ≡ ok (all_delivered (pull_view p)))
outcome_writes-pull_view p i tier asset inside sized stored small = (
  put_outcome_lem p i tier asset inside small,
  put_delivered_lem p i inside sized,
  outcomes_delivered_lem p stored,
)
