-- ===== src/Program/Create/Laws.antt =====
-- The pool that program/src/admin/create_pool.rs makes.
use solana_gacha.Prelude.{
  ℕ, zero, suc, ◌≤◌, ◌<◌, ◌≡◌, ap, sym, refl, ◌∙◌, List, [], ◌∷◌, false, length, get_or, take, ok,
  arith,
}
use solana_gacha.Core.Constants.{max_tiers, pool_paused}
use solana_gacha.Core.State.{Tier, Pool, new_pool, tiers, weighted, empty_tier}
use solana_gacha.Inventory.View.{tag, available, empty-IsStocked}
use solana_gacha.Program.Account.{Env}
use solana_gacha.Program.Create.{
  CreatePoolAccounts, CreatePoolInstruction, contains_zero, check_params, create_pool_instruction,
  Created, create_pool,
}
use solana_gacha.Program.Step.{IsInStep}

contains_zero-positive :
    (ws : List ℕ) (t : ℕ) → contains_zero ws ≡ false → t < length ws → 0 < get_or ws t 0
unfolding contains_zero
contains_zero-positive [] t h b = absurd (omega arith)
contains_zero-positive (w ∷ ws) zero h b = ground arith
contains_zero-positive (w ∷ ws) (suc t) h b =
    contains_zero-positive ws t (ground arith) (omega arith)

get_or-weighted :
    (ws : List ℕ) (n t : ℕ)
    → get_or (weighted ws n) t empty_tier
      ≡ record { weight = (get_or (weighted ws n) t empty_tier).weight; remaining = 0 }
get_or-weighted ws zero t = refl
get_or-weighted [] (suc n) zero = refl
get_or-weighted [] (suc n) (suc t) = get_or-weighted [] n t
get_or-weighted (w ∷ ws) (suc n) zero = refl
get_or-weighted (w ∷ ws) (suc n) (suc t) = get_or-weighted ws n t

weight-weighted :
    (ws : List ℕ) (n t : ℕ) → t < n → (get_or (weighted ws n) t empty_tier).weight ≡ get_or ws t 0
weight-weighted ws zero t h = absurd (omega arith)
weight-weighted [] (suc n) zero h = refl
weight-weighted [] (suc n) (suc t) h = weight-weighted [] n t (omega arith) ∙ refl
weight-weighted (w ∷ ws) (suc n) zero h = refl
weight-weighted (w ∷ ws) (suc n) (suc t) h = weight-weighted ws n t (omega arith)

length-take-weighted : (ws : List ℕ) (k n : ℕ) → k ≤ n → length (take k (weighted ws n)) ≡ k
length-take-weighted ws zero n h = refl
length-take-weighted ws (suc k) zero h = absurd (omega arith)
length-take-weighted [] (suc k) (suc n) h = ap suc (length-take-weighted [] k n (omega arith))
length-take-weighted (w ∷ ws) (suc k) (suc n) h = ap suc (length-take-weighted ws k n (omega arith))

length-take : (ws : List ℕ) (k : ℕ) → k ≤ length ws → length (take k ws) ≡ k
length-take ws zero h = refl
length-take [] (suc k) h = absurd (omega arith)
length-take (w ∷ ws) (suc k) h = ap suc (length-take ws k (omega arith))

-- What the checks on the instruction's data ensure.
pub record IsParams (i : CreatePoolInstruction) : Type 0 where
  pub some_tiers : 0 < i.tier_count
  pub few_tiers : i.tier_count ≤ max_tiers
  pub eight : length i.weights ≡ max_tiers
  pub positive : contains_zero (take i.tier_count i.weights) ≡ false
  pub priced : 0 < i.price
  pub bonded : 0 < i.bond_per_draw
  pub timed : 0 < i.deadline_slots

create_pool_instruction-ok :
    (bytes : List ℕ) {i : CreatePoolInstruction} → create_pool_instruction bytes ≡ ok i → IsParams i
unfolding create_pool_instruction check_params
create_pool_instruction-ok bytes {i} h = record {
  some_tiers = ground arith;
  few_tiers = ground arith;
  eight = ground arith;
  positive = ground arith;
  priced = ground arith;
  bonded = ground arith;
  timed = ground arith;
}

-- A new pool.
pub record IsCreated (i : CreatePoolInstruction) (c : Created) : Type 0 where
  pub in_step : IsInStep c.pool c.index
  pub weights_given :
      (t : ℕ)
      → t < i.tier_count
      → (get_or c.pool.all_tiers t empty_tier).weight ≡ get_or i.weights t 0
  pub tiers_given : length (tiers c.pool) ≡ i.tier_count
  pub paused : c.pool.status ≡ pool_paused
  pub no_index : c.index ≡ []
  pub no_pending : c.pool.pending_draws ≡ 0
  pub no_queue : c.pool.next_settle ≡ c.pool.next_index

get_or-take : (ws : List ℕ) (k t : ℕ) → t < k → get_or (take k ws) t 0 ≡ get_or ws t 0
get_or-take ws zero t h = absurd (omega arith)
get_or-take [] (suc k) t h = refl
get_or-take (w ∷ ws) (suc k) zero h = refl
get_or-take (w ∷ ws) (suc k) (suc t) h = get_or-take ws k t (omega arith)

-- The tiers of a new pool.
new_pool-IsInStep :
    (bump authority operator mint vault id price deadline bond : ℕ) (ws : List ℕ)
    → length ws ≤ max_tiers
    → contains_zero ws ≡ false
    → IsInStep (new_pool bump authority operator mint vault id price deadline bond ws) []
unfolding new_pool tag available
new_pool-IsInStep bump authority operator mint vault id price deadline bond ws few positive =
    let used : length (take (length ws) (weighted ws max_tiers)) ≡ length ws =
      length-take-weighted ws (length ws) max_tiers few in
    record {
      stocked = empty-IsStocked;
      room = omega (arith, used, few);
      tagged = λ q. omega arith;
      counted = λ t b. ap (λ (x : Tier). x.remaining) (get_or-weighted ws max_tiers t);
      weighted = λ t b.
          rw (weight-weighted ws max_tiers t (omega (arith, b, used, few)))
            (contains_zero-positive ws t positive (omega (arith, b, used)));
    }

-- A pool that `create_pool` makes of parsed instruction data is paused, with no index and no
-- pending draws, the number of tiers and the weights asked for, nothing remaining in any tier, a
-- positive weight for each tier in use, and its header in step with the empty index.
pub create_pool-ok :
    (env : Env) (a : CreatePoolAccounts) (bytes : List ℕ) {i : CreatePoolInstruction} {c : Created}
    → create_pool_instruction bytes ≡ ok i
    → create_pool env a i ≡ ok c
    → IsCreated i c
unfolding create_pool new_pool
create_pool-ok env a bytes {i} {c} parsed h =
    let g : IsParams i = create_pool_instruction-ok bytes parsed in
    let ws : List ℕ = take i.tier_count i.weights in
    let len : length ws ≡ i.tier_count =
      length-take i.weights i.tier_count (omega (arith, g.eight, g.few_tiers)) in
    let made : c.pool
        ≡ new_pool i.bump a.authority.key a.operator.key a.payment_mint.key a.vault.key i.id i.price
            i.deadline_slots i.bond_per_draw ws =
      ground arith in
    let index : c.index ≡ [] = ground arith in
    record {
      in_step =
          rw (made, index)
            (new_pool-IsInStep i.bump a.authority.key a.operator.key a.payment_mint.key a.vault.key
              i.id i.price i.deadline_slots i.bond_per_draw ws (omega (arith, len, g.few_tiers))
              g.positive);
      weights_given = λ t b.
          ap (λ (x : Pool). (get_or x.all_tiers t empty_tier).weight) made
          ∙ weight-weighted ws max_tiers t (omega (arith, b, g.few_tiers))
          ∙ get_or-take i.weights i.tier_count t b;
      tiers_given =
          ap (λ (x : Pool). length (tiers x)) made
          ∙ length-take-weighted ws (length ws) max_tiers (omega (arith, len, g.few_tiers))
          ∙ len;
      paused = ap (λ (x : Pool). x.status) made;
      no_index = index;
      no_pending = ap (λ (x : Pool). x.pending_draws) made;
      no_queue = ap (λ (x : Pool). x.next_settle) made ∙ sym (ap (λ (x : Pool). x.next_index) made);
    }
