-- ===== src/Inventory/Update.antt =====
-- A change of one position's tag with the matching change of the counts keeps the index right.
use solana_gacha.Prelude.{
  ℕ, ◌+◌, ◌-◌, ◌*◌, ◌/◌, ◌≤◌, ◌<◌, ◌≡◌, ◌≢◌, List, arith, ◌==◌, if◌then◌else◌, ltb, inl, inr,
  Bool-cases, ==→eq, not-==→ne, length,
}
use solana_gacha.Core.Constants.{max_tiers}
use solana_gacha.Bits.Lowest.{lowest}
use solana_gacha.Bits.Cover.{hit}
use solana_gacha.Inventory.View.{tag, is_tag, entry, available-update, IsIndexed}

-- A node counts a position if the position lies before its end and not before its start.
pub hit_position :
    (n p : ℕ)
    → hit n (p / 64 + 1) + (if ltb p (64 * (n - lowest n)) then 1 else 0)
      ≡ (if ltb p (64 * n) then 1 else 0)
unfolding hit
hit_position n p = ground arith

module _ {d d' : List ℕ} {k : ℕ} (i : IsIndexed d k) (p : ℕ) where
  pub IsIndexed-update :
      length d' ≡ length d
      → ((q : ℕ) → q ≢ p → tag d' q ≡ tag d q)
      → tag d' p ≤ max_tiers
      → ((m u : ℕ)
          → 0 < m
          → m ≤ k
          → u < max_tiers
          → entry d' m u + (if tag d p == u + 1 then hit m (p / 64 + 1) else 0)
            ≡ entry d m u + (if tag d' p == u + 1 then hit m (p / 64 + 1) else 0))
      → IsIndexed d' k
  IsIndexed-update len others small entries = record {
    whole = rw len i.whole;
    small = rw len i.small;
    within = rw len i.within;
    tags_ok = λ q. elim (Bool-cases (q == p)) [
      | inl e ↦ rw (==→eq q p e) small
      | inr e ↦ rw (others q (not-==→ne q p e)) (i.tags_ok q)
    ];
    sums = λ m u pm bm hu.
        unfold is_tag in
        (ground (
          arith,
          entries m u pm bm hu,
          i.sums m u pm bm hu,
          hit_position m p,
          available-update d d' u p others (64 * m),
          available-update d d' u p others (64 * (m - lowest m)),
        ));
  }
