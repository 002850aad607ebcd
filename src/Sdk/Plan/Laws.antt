-- ===== src/Sdk/Plan/Laws.antt =====
-- The client's plan of a settlement always comes out, and it names the accounts that the program draws.
use solana_gacha.Prelude.{
  ℕ, zero, suc, ◌+◌, ◌-◌, ◌%◌, ◌≤◌, ◌<◌, ◌≡◌, ◌≢◌, ap, sym, refl, ◌∙◌, List, [], ◌∷◌, true, ok,
  arith, ◌==◌, ◌>>=◌, inl, inr, length, get_or, get_or_out, set, take, get_or-tabulate, length-set,
  Bool-cases, ltb, ==→eq, not-==→ne, cons-injective, get_or-set_self, get_or-set_ne, ltb→lt,
  not-ltb→le, lt→ltb,
}
use mathlib.Core.Path.{ap₂}
use solana_gacha.Core.Constants.{max_tiers}
use solana_gacha.Core.State.{Pubkey, Pool, Pull, Tier, tiers, empty_tier}
use solana_gacha.Core.Stock.Laws.{with_remaining, take_remaining-ok}
use solana_gacha.Core.Draw.{u64_at, eligible_weight, pick_tier, draw_tier, draw}
use solana_gacha.Inventory.View.{tag, is_tag, available}
use solana_gacha.Inventory.Positions.{
  positions, remove_at, length-positions, get_or-positions, positions-Cleared,
  positions-Cleared_other,
}
use solana_gacha.Program.Settle.{Drawing}
use solana_gacha.Program.Settle.Round.{IsPinned}
use solana_gacha.Program.Settle.Accepts.{IsRound, next_drawing}
use solana_gacha.Program.Step.{IsInStep}
use solana_gacha.Sdk.{Host}
use solana_gacha.Sdk.Pools.{item_address}
use solana_gacha.Sdk.Plan.{tier_counts, or_invalid, plan}

-- A draw looks at nothing of the tiers but their weights.
pub weights : List Tier → List ℕ
weights [] = []
weights (t ∷ ts) = t.weight ∷ weights ts

eligible_weight-weights :
    (ts us : List Tier) (cs : List ℕ)
    → weights ts ≡ weights us
    → eligible_weight ts cs ≡ eligible_weight us cs
unfolding weights eligible_weight
eligible_weight-weights [] [] cs e = refl
eligible_weight-weights [] (u ∷ us) cs e = absurd (omega (arith, ap (λ (l : List ℕ). length l) e))
eligible_weight-weights (t ∷ ts) [] cs e = absurd (omega (arith, ap (λ (l : List ℕ). length l) e))
eligible_weight-weights (t ∷ ts) (u ∷ us) [] e = refl
eligible_weight-weights (t ∷ ts) (u ∷ us) (c ∷ cs) e =
    let (same, others) = cons-injective e in rw (same, eligible_weight-weights ts us cs others) refl

pick_tier-weights :
    (ts us : List Tier) (cs : List ℕ) (i roll : ℕ)
    → weights ts ≡ weights us
    → pick_tier ts cs i roll ≡ pick_tier us cs i roll
unfolding weights pick_tier
pick_tier-weights [] [] cs i roll e = refl
pick_tier-weights [] (u ∷ us) cs i roll e = absurd (omega (arith, ap (λ (l : List ℕ). length l) e))
pick_tier-weights (t ∷ ts) [] cs i roll e = absurd (omega (arith, ap (λ (l : List ℕ). length l) e))
pick_tier-weights (t ∷ ts) (u ∷ us) cs i roll e =
    let (same, others) = cons-injective e in
    rw
      (
        same,
        pick_tier-weights ts us cs (i + 1) roll others,
        pick_tier-weights ts us cs (i + 1) (roll - u.weight) others,
      )
      refl

draw-weights :
    (p q : Pool) (hash cs : List ℕ)
    → weights (tiers p) ≡ weights (tiers q)
    → draw p hash cs ≡ draw q hash cs
unfolding draw draw_tier
draw-weights p q hash cs e =
    rw
      (
        eligible_weight-weights (tiers p) (tiers q) cs e,
        pick_tier-weights (tiers p) (tiers q) cs 0 (u64_at hash 0 % eligible_weight (tiers q) cs) e,
      )
      refl

list-ext :
    (xs ys : List ℕ)
    → length xs ≡ length ys
    → ((i : ℕ) → i < length xs → get_or xs i 0 ≡ get_or ys i 0)
    → xs ≡ ys
list-ext [] [] h e = refl
list-ext [] (y ∷ ys) h e = absurd (omega arith)
list-ext (x ∷ xs) [] h e = absurd (omega arith)
list-ext (x ∷ xs) (y ∷ ys) h e =
    ap₂ ◌∷◌ (e 0 (omega arith)) (list-ext xs ys (omega arith) (λ i b. e (suc i) (omega arith)))

-- The candidates are the available positions of each tier below the cutoff.
pub record IsScanned (s : Drawing) (cutoff : ℕ) (candidates : List (List ℕ)) : Type 0 where
  pub sized : length candidates ≡ length (tiers s.pool)
  pub listed : (t : ℕ) → t < length candidates → get_or candidates t [] ≡ positions s.index t cutoff

pub weights-set :
    (ts : List Tier) (k n m : ℕ)
    → weights (take n (set ts k (with_remaining (get_or ts k empty_tier) m))) ≡ weights (take n ts)
unfolding weights
weights-set ts k zero m = refl
weights-set [] k (suc n) m = refl
weights-set (t ∷ ts) zero (suc n) m = refl
weights-set (t ∷ ts) (suc k) (suc n) m = ap (λ (l : List ℕ). t.weight ∷ l) (weights-set ts k n m)

-- A position without an item of a tier in use.
positions_none : (d : List ℕ) (k t n : ℕ) → ((q : ℕ) → tag d q ≤ k) → k ≤ t → available d t n ≡ 0
unfolding available is_tag
positions_none d k t zero h b = refl
positions_none d k t (suc n) h b = ground (arith, positions_none d k t n h b, h n)

module _ (h : Host) (address : Pubkey) (p : Pool) (beta : List ℕ) (i : ℕ) {s : Drawing} {cutoff : ℕ}
    {candidates : List (List ℕ)} (pin : IsPinned s s.pool.inventory_version cutoff)
    (step : IsInStep s.pool s.index) (scanned : IsScanned s cutoff candidates)
    (weighed : weights (tiers p) ≡ weights (tiers s.pool)) where
  counts-eligible : tier_counts candidates ≡ s.eligible
  counts-eligible = list-ext (tier_counts candidates) s.eligible (sym pin.sized) (λ t b.
      get_or-tabulate (λ u. length (get_or candidates u [])) 0 max_tiers t 0 b
      ∙ ap (λ u. length (get_or candidates u [])) (omega arith)
      ∙ elim (Bool-cases (ltb t (length candidates))) [
        | inl in_use ↦
            ap (λ (l : List ℕ). length l) (scanned.listed t (ltb→lt t (length candidates) in_use))
            ∙ length-positions s.index t cutoff
            ∙ sym (pin.eligible_ok t b)
        | inr out ↦
            ap (λ (l : List ℕ). length l)
              (get_or_out candidates t [] (not-ltb→le t (length candidates) out))
            ∙ sym (
                pin.eligible_ok t b
                ∙ positions_none s.index (length (tiers s.pool)) t cutoff step.tagged
                    (omega (arith, scanned.sized, not-ltb→le t (length candidates) out)))
      ])

  module _ (r : IsRound s cutoff (h.sha256 (beta ∷ (i ∷ []) ∷ []))) where
    entries : get_or candidates r.tier [] ≡ positions s.index r.tier cutoff
    entries = scanned.listed r.tier (omega (arith, scanned.sized, r.used))

    abbrev pub next_candidates : List (List ℕ)
    next_candidates = set candidates r.tier (remove_at r.rank (get_or candidates r.tier []))

    pub next-IsScanned :
        (pull : Pull) (lamports : ℕ)
        → IsScanned (next_drawing r pull lamports) cutoff next_candidates
    next-IsScanned pull lamports =
        let (_, _, same, _, _, _) = take_remaining-ok s.pool r.tier r.lowered in
        let left : List ℕ = remove_at r.rank (get_or candidates r.tier []) in
        let size : length (set candidates r.tier left) ≡ length candidates =
          length-set candidates r.tier left in
        let inside : r.tier < length candidates = omega (arith, scanned.sized, r.used) in
        record {
          sized = size ∙ scanned.sized ∙ sym same;
          listed = λ t b. elim (Bool-cases (t == r.tier)) [
            | inl e ↦
                let here : t ≡ r.tier = ==→eq t r.tier e in
                rw here (
                  get_or-set_self candidates r.tier left [] inside
                  ∙ ap (remove_at r.rank) entries
                  ∙ ap (λ (k : ℕ). remove_at k (positions s.index r.tier cutoff)) (sym r.ranked)
                  ∙ sym (
                      positions-Cleared s.index r.index r.tier r.position cutoff r.cleared r.tagged
                        r.before))
            | inr e ↦
                let ne : t ≢ r.tier = not-==→ne t r.tier e in
                get_or-set_ne candidates r.tier t left [] (λ c. ne (sym c))
                ∙ scanned.listed t (omega (arith, b, size))
                ∙ sym (
                    positions-Cleared_other s.index r.index r.tier t r.position cutoff r.cleared
                      r.tagged ne)
          ];
        }

    pub plan-next :
        (n : ℕ)
        → plan h address p beta i (suc n) candidates ≡ (
            plan h address p beta (i + 1) n next_candidates >>= λ draws. ok (
              record {
                tier = r.tier;
                position = r.position;
                item = (item_address h address r.tier r.position).0;
              }
              ∷ draws))
    unfolding plan
    plan-next n =
        let hash : List ℕ = h.sha256 (beta ∷ (i ∷ []) ∷ []) in
        let run : or_invalid (draw p hash (tier_counts candidates)) ≡ ok (r.tier, r.rank) =
          ap or_invalid (
            draw-weights p s.pool hash (tier_counts candidates) weighed
            ∙ ap (draw s.pool hash) counts-eligible
            ∙ r.drawn) in
        let many : length (get_or candidates r.tier []) ≡ available s.index r.tier cutoff =
          ap (λ (l : List ℕ). length l) entries ∙ length-positions s.index r.tier cutoff in
        let fits : ltb r.rank (length (get_or candidates r.tier [])) ≡ true =
          lt→ltb r.rank (length (get_or candidates r.tier [])) (
            omega
              (arith, many, r.below, pin.eligible_ok r.tier (omega (arith, r.used, step.room)))) in
        let place : get_or (get_or candidates r.tier []) r.rank 0 ≡ r.position =
          ap (λ (l : List ℕ). get_or l r.rank 0) entries
          ∙ ap (λ (k : ℕ). get_or (positions s.index r.tier cutoff) k 0) (sym r.ranked)
          ∙ get_or-positions s.index r.tier r.position cutoff r.tagged r.before in
        rw (run, fits, place) refl
