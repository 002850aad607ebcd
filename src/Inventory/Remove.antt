-- ===== src/Inventory/Remove.antt =====
-- `Inventory::remove`: on the index of a pool it clears exactly the given position, and refuses one
-- that does not hold an available item of the tier.
use solana_gacha.Prelude.{
  ℕ, suc, ◌+◌, ◌-◌, ◌*◌, ◌/◌, ◌^◌, ◌≤◌, ◌<◌, ◌≡◌, ◌≢◌, ◌∙◌, ap, List, arith, ◌==◌, if◌then◌else◌,
  inl, inr, Bool-cases, ==→eq, not-==→ne, eq→==, lt→ltb, length, get_or, set, length-set, ok, err,
  gacha, invalid_item, true,
}
use solana_gacha.Core.Constants.{max_tiers}
use solana_gacha.Bits.Lowest.{lowest}
use solana_gacha.Bits.Cover.{hit}
use solana_gacha.Inventory.{blocks, remove}
use solana_gacha.Inventory.Nodes.{lower_nodes-ok}
use solana_gacha.Inventory.Update.{hit_position, IsIndexed-update}
use solana_gacha.Inventory.View.{
  slot, tag, is_tag, entry, available-le, available_mono_le, available-add-one, IsIndexed,
  IsStocked, tag-set_self, tag-set_ne, entry-set, slot_in_range,
}

-- `d'` is `d` with the one position cleared.
abbrev pub Cleared : List ℕ → List ℕ → ℕ → Type 0
Cleared d d' p = (q : ℕ) → tag d' q ≡ (if q == p then 0 else tag d q)

module _ {d : List ℕ} {k : ℕ} (i : IsIndexed d k) (p t : ℕ) (here : tag d p ≡ suc t) where
  pub count_positive : (m : ℕ) → 0 < m → m ≤ k → t < max_tiers → hit m (p / 64 + 1) ≤ entry d m t
  count_positive m pm bm h =
      unfold is_tag in
      (ground (
        arith,
        i.sums m t pm bm h,
        hit_position m p,
        available-add-one d t p,
        here,
        available_mono_le d t (64 * (m - lowest m)) p,
        available_mono_le d t (p + 1) (64 * m),
        available_mono_le d t (64 * (m - lowest m)) (64 * m),
      ))

  pub entry_small : (m : ℕ) → 0 < m → m ≤ k → t < max_tiers → entry d m t < 2 ^ 32
  entry_small m pm bm h =
      omega (arith, i.sums m t pm bm h, available-le d t (64 * m), i.small, i.within)

-- Lowering the counts of a position's cover after clearing its tag.
pub clear-IsIndexed :
    {d d' : List ℕ} {k : ℕ} (i : IsIndexed d k) (p t : ℕ)
    → tag d p ≡ suc t
    → t < max_tiers
    → length d' ≡ length d
    → ((q : ℕ) → q ≢ p → tag d' q ≡ tag d q)
    → tag d' p ≡ 0
    → ((m u : ℕ)
        → 0 < m
        → m ≤ k
        → u < max_tiers
        → entry d' m u + (if u == t then hit m (p / 64 + 1) else 0) ≡ entry d m u)
    → IsIndexed d' k
clear-IsIndexed {d} {d'} i p t here h len others gone entries =
    IsIndexed-update i p len others (omega arith)
      (λ m u pm bm hu. ground (arith, entries m u pm bm hu, here, gone))

-- The index after a change that clears one position.
module _ (d d' : List ℕ) (p : ℕ) (others : (q : ℕ) → q ≢ p → tag d' q ≡ tag d q)
    (gone : tag d' p ≡ 0) where
  pub IsStocked-clear :
      {version : ℕ}
      → IsStocked d version
      → IsIndexed d' (blocks d)
      → length d' ≡ length d
      → IsStocked d' version
  IsStocked-clear s indexed len = record {
    indexed = rw (ap (λ (n : ℕ). n / 96) len) indexed;
    sized = len ∙ s.sized;
    unused = λ q b. elim (Bool-cases (q == p)) [
      | inl e ↦ rw (==→eq q p e) gone
      | inr e ↦ others q (not-==→ne q p e) ∙ s.unused q b
    ];
  }

  pub Cleared-intro : Cleared d d' p
  Cleared-intro q = elim (Bool-cases (q == p)) [
    | inl e ↦ rw e (ap (tag d') (==→eq q p e) ∙ gone)
    | inr e ↦ rw e (others q (not-==→ne q p e))
  ]

-- On the index of a pool, `remove` of a position that holds an available item of the tier
-- succeeds, clears that position and no other, and leaves a well-formed index.
pub remove-ok :
    {d : List ℕ} {version : ℕ} (s : IsStocked d version) (p t : ℕ)
    → t < max_tiers
    → tag d p ≡ suc t
    → (d' : List ℕ) × (remove d p t ≡ ok d') × IsStocked d' version × Cleared d d' p
unfolding remove
remove-ok {d} {version} s p t h here =
    let i : IsIndexed d (blocks d) = s.indexed in
    let inside : slot p < length d = slot_in_range d p t here in
    let d0 : List ℕ = set d (slot p) 0 in
    let len : length d0 ≡ length d = length-set d (slot p) 0 in
    let same : blocks d0 ≡ blocks d = ap (λ (n : ℕ). n / 96) len in
    let old : (m u : ℕ) → 0 < m → u < max_tiers → entry d0 m u ≡ entry d m u = entry-set d p 0 in
    let positive : (m : ℕ)
        → 0 < m
        → m ≤ blocks d0
        → (hit m (p / 64 + 1) ≤ entry d0 m t) × (entry d0 m t < 2 ^ 32) =
      λ m pm bm. rw (old m t pm h) (
        count_positive i p t here m pm (rw (← same) bm) h,
        entry_small i p t here m pm (rw (← same) bm) h,
      ) in
    let (d', run, low) =
      lower_nodes-ok (blocks d + 1) d0 (p / 64 + 1) t (omega arith) (rw same (omega arith))
        (omega arith) h (rw same i.small) positive in
    let others : (q : ℕ) → q ≢ p → tag d' q ≡ tag d q =
      λ q ne. low.same_tags q ∙ tag-set_ne d p q 0 ne in
    let gone : tag d' p ≡ 0 = low.same_tags p ∙ tag-set_self d p 0 inside in
    let indexed : IsIndexed d' (blocks d) =
      clear-IsIndexed i p t here h (low.same_length ∙ len) others gone
        (λ m u pm bm hu. low.entries m u pm (rw same bm) hu ∙ old m u pm hu) in
    let found : (get_or d (slot p) 0 == t + 1) ≡ true =
      eq→== (get_or d (slot p) 0) (t + 1) (unfold tag in (here ∙ omega arith)) in
    (
      d',
      rw (lt→ltb (slot p) (length d) inside, found) run,
      IsStocked-clear d d' p others gone s indexed (low.same_length ∙ len),
      Cleared-intro d d' p others gone,
    )

-- A position that does not hold an available item of the tier is refused.
pub remove_missing :
    (d : List ℕ) (p t : ℕ) → tag d p ≢ suc t → remove d p t ≡ err (gacha invalid_item)
unfolding remove tag
remove_missing d p t ne = ground arith
