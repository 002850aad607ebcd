-- ===== src/Program/Step.antt =====
-- The pool's header in step with its availability index: program/src/inventory.rs keeps both.
pub mod Laws
use solana_gacha.Prelude.{
  ℕ, zero, suc, ◌+◌, ◌-◌, ◌*◌, ◌≤◌, ◌<◌, ◌≡◌, ◌≢◌, ap, sym, refl, ◌∙◌, List, [], ◌∷◌, length,
  get_or, set, take, ◌==◌, if◌then◌else◌, ltb, arith, Bool-cases, ==→eq, not-==→ne, inl, inr,
  get_or-set_self, get_or-set_ne,
}
use solana_gacha.Core.Constants.{max_tiers}
use solana_gacha.Core.State.{Tier, Pool, tiers, remaining, sum_remaining, empty_tier}
use solana_gacha.Core.Stock.Laws.{with_remaining}
use solana_gacha.Inventory.View.{tag, is_tag, available, available-update, IsStocked}
use solana_gacha.Inventory.Stock.{
  stock, total, total-ext, total-suc, total-available, stock-Cleared,
}
use solana_gacha.Inventory.Remove.{Cleared}
use solana_gacha.Inventory.Append.Laws.{Stocked}

-- Each tier in use has a weight, and as many items remaining as the index has available.
pub record IsInStep (p : Pool) (d : List ℕ) : Type 0 where
  pub stocked : IsStocked d p.inventory_version
  pub room : length (tiers p) ≤ max_tiers
  pub tagged : (q : ℕ) → tag d q ≤ length (tiers p)
  pub counted :
      (t : ℕ)
      → t < length (tiers p)
      → (get_or p.all_tiers t empty_tier).remaining ≡ available d t p.inventory_version
  pub weighted : (t : ℕ) → t < length (tiers p) → 0 < (get_or p.all_tiers t empty_tier).weight

sum_remaining-total :
    (ts : List Tier) (n : ℕ)
    → sum_remaining (take n ts)
      ≡ total (λ t. (get_or ts t empty_tier).remaining) (length (take n ts))
unfolding sum_remaining
sum_remaining-total ts zero = unfold total in refl
sum_remaining-total [] (suc n) = unfold total in refl
sum_remaining-total (x ∷ ts) (suc n) = omega (
  arith,
  sum_remaining-total ts n,
  total-suc (λ t. (get_or (x ∷ ts) t empty_tier).remaining) (length (take n ts)),
)

-- The stock that the header counts is that of the index.
pub remaining-eq-stock :
    {p : Pool} {d : List ℕ} (s : IsInStep p d) → remaining p ≡ stock d p.inventory_version
unfolding remaining
remaining-eq-stock {p} {d} s =
    sum_remaining-total p.all_tiers p.tier_count
    ∙ total-ext (λ t. (get_or p.all_tiers t empty_tier).remaining)
        (λ t. available d t p.inventory_version) (length (tiers p)) s.counted
    ∙ total-available d (length (tiers p)) p.inventory_version s.tagged

-- Clearing the position of an item takes it from its tier.
pub available-Cleared :
    (d d' : List ℕ) (p tier u n : ℕ)
    → Cleared d d' p
    → tag d p ≡ suc tier
    → p < n
    → available d' u n + (if u == tier then 1 else 0) ≡ available d u n
unfolding is_tag
available-Cleared d d' p tier u n c here b =
    let others : (q : ℕ) → q ≢ p → tag d' q ≡ tag d q = λ q ne. c q ∙ ground (arith, ne) in
    let gone : tag d' p ≡ 0 = c p ∙ ground arith in
    ground (arith, available-update d d' u p others n, gone, here)

-- Stocking an empty position adds the item to its tier.
pub available-Stocked :
    (d d' : List ℕ) (p tier u n : ℕ)
    → Stocked d d' p tier
    → tag d p ≡ 0
    → p < n
    → available d' u n ≡ available d u n + (if u == tier then 1 else 0)
unfolding is_tag
available-Stocked d d' p tier u n c empty b =
    let others : (q : ℕ) → q ≢ p → tag d' q ≡ tag d q = λ q ne. c q ∙ ground (arith, ne) in
    let here : tag d' p ≡ suc tier = c p ∙ ground arith in
    ground (arith, available-update d d' u p others n, empty, here)

pub get_or-with_remaining :
    (ts : List Tier) (k t m : ℕ)
    → k < length ts
    → get_or (set ts k (with_remaining (get_or ts k empty_tier) m)) t empty_tier
      ≡ (if t == k then with_remaining (get_or ts k empty_tier) m else get_or ts t empty_tier)
get_or-with_remaining ts k t m h = elim (Bool-cases (t == k)) [
  | inl e ↦
      rw (e, ==→eq t k e)
        (get_or-set_self ts k (with_remaining (get_or ts k empty_tier) m) empty_tier h)
  | inr e ↦ rw e (
      get_or-set_ne ts k t (with_remaining (get_or ts k empty_tier) m) empty_tier
        (λ c. not-==→ne t k e (sym c)))
]

-- The status and the queue's numbers do not matter.
pub kept-IsInStep :
    {p p' : Pool} {d : List ℕ}
    → IsInStep p d
    → p' ≡ record p {
      status = p'.status;
      pending_draws = p'.pending_draws;
      next_index = p'.next_index;
      next_settle = p'.next_settle;
    }
    → IsInStep p' d
kept-IsInStep s e = rw e (record {
  stocked = s.stocked;
  room = s.room;
  tagged = s.tagged;
  counted = s.counted;
  weighted = s.weighted;
})
