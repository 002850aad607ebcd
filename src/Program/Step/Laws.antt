-- ===== src/Program/Step/Laws.antt =====
-- Restocking, drawing and reclaiming keep the header in step with the index.
use solana_gacha.Prelude.{
  ℕ, zero, suc, ◌+◌, ◌-◌, ◌≤◌, ◌<◌, ◌≡◌, ap, ◌∙◌, List, [], ◌∷◌, length, get_or, take, ◌==◌,
  if◌then◌else◌, ltb, Bool, ok, arith, Bool-cases, ==→eq, inl, inr,
}
use solana_gacha.Core.State.{Tier, Pool, empty_tier}
use solana_gacha.Core.Stock.{take_remaining}
use solana_gacha.Core.Stock.Laws.{with_remaining, take_remaining-ok}
use solana_gacha.Inventory.View.{tag, is_tag, available-add-one, available, IsStocked}
use solana_gacha.Inventory.Remove.{Cleared}
use solana_gacha.Program.Restock.Laws.{IsRestocked}
use solana_gacha.Program.Step.{
  IsInStep, available-Cleared, available-Stocked, get_or-with_remaining,
}

length-take-le : (ts : List Tier) (n : ℕ) → length (take n ts) ≤ length ts
length-take-le ts zero = omega arith
length-take-le [] (suc n) = omega arith
length-take-le (x ∷ ts) (suc n) = omega (arith, length-take-le ts n)

-- A position with a tag lies before the pool's next position.
tagged_before :
    {d : List ℕ} {version q x : ℕ} (s : IsStocked d version) → tag d q ≡ suc x → q < version
tagged_before {d} {version} {q} {x} s here = elim (Bool-cases (ltb q version)) [
  | inl h ↦ ground arith
  | inr h ↦ ground (arith, s.unused q)
]

abbrev flag : Bool → ℕ
flag b = if b then 1 else 0

is_tag_zero : (t : ℕ) → is_tag t 0 ≡ 0
unfolding is_tag
is_tag_zero t = ground arith

module _ {p p' : Pool} {d d' : List ℕ} {tier : ℕ} (s : IsInStep p d) where
  pub restocked-IsInStep : IsRestocked p d p' d' tier → IsInStep p' d'
  restocked-IsInStep r =
      let version : p'.inventory_version ≡ p.inventory_version + 1 =
        ap (λ (q : Pool). q.inventory_version) r.kept in
      let fits : tier < length p.all_tiers =
        omega (arith, r.in_use, length-take-le p.all_tiers p.tier_count) in
      let same : (t : ℕ)
          → get_or p'.all_tiers t empty_tier ≡ (
              if t == tier
              then with_remaining (get_or p.all_tiers tier empty_tier)
                  ((get_or p.all_tiers tier empty_tier).remaining + 1)
              else get_or p.all_tiers t empty_tier) =
        λ t.
          ap (λ (ts : List Tier). get_or ts t empty_tier) r.tier_set
          ∙ get_or-with_remaining p.all_tiers tier t
              ((get_or p.all_tiers tier empty_tier).remaining + 1) fits in
      let empty : tag d p.inventory_version ≡ 0 =
        s.stocked.unused p.inventory_version (omega arith) in
      let stocked_more : (t : ℕ)
          → available d' t (p.inventory_version + 1)
            ≡ available d t p.inventory_version + (if t == tier then 1 else 0) =
        λ t.
          available-Stocked d d' p.inventory_version tier t (p.inventory_version + 1) r.stocked
            empty (omega arith)
          ∙ omega (
            arith,
            available-add-one d t p.inventory_version,
            ap (is_tag t) empty ∙ is_tag_zero t,
          ) in
      record {
        stocked = rw version r.indexed;
        room = omega (arith, r.tiers_kept, s.room);
        tagged = λ q. ground (arith, r.stocked q, s.tagged q, r.in_use, r.tiers_kept);
        counted = λ t b. rw version (elim (Bool-cases (t == tier)) [
          | inl e ↦
              rw (same t, e)
                (omega (
                  arith,
                  stocked_more t,
                  ap flag e,
                  s.counted tier r.in_use,
                  ap (λ (i : ℕ). available d i p.inventory_version) (==→eq t tier e),
                ))
          | inr e ↦
              rw (same t, e)
                (omega
                  (arith, stocked_more t, ap flag e, s.counted t (omega (arith, r.tiers_kept))))
        ]);
        weighted = λ t b. elim (Bool-cases (t == tier)) [
          | inl e ↦ rw (same t, e) (s.weighted tier r.in_use)
          | inr e ↦ rw (same t, e) (s.weighted t (omega (arith, r.tiers_kept)))
        ];
      }

  pub taken-IsInStep :
      (q : ℕ)
      → Cleared d d' q
      → tag d q ≡ suc tier
      → IsStocked d' p.inventory_version
      → take_remaining p tier ≡ ok p'
      → IsInStep p' d'
  taken-IsInStep q c here stocked run =
      let (used, _, tiers_kept, kept, tier_set, some) = take_remaining-ok p tier run in
      let version : p'.inventory_version ≡ p.inventory_version =
        ap (λ (q : Pool). q.inventory_version) kept in
      let fits : tier < length p.all_tiers =
        omega (arith, used, length-take-le p.all_tiers p.tier_count) in
      let same : (t : ℕ)
          → get_or p'.all_tiers t empty_tier ≡ (
              if t == tier
              then with_remaining (get_or p.all_tiers tier empty_tier)
                  ((get_or p.all_tiers tier empty_tier).remaining - 1)
              else get_or p.all_tiers t empty_tier) =
        λ t.
          ap (λ (ts : List Tier). get_or ts t empty_tier) tier_set
          ∙ get_or-with_remaining p.all_tiers tier t
              ((get_or p.all_tiers tier empty_tier).remaining - 1) fits in
      let cleared_less : (t : ℕ)
          → available d' t p.inventory_version + (if t == tier then 1 else 0)
            ≡ available d t p.inventory_version =
        λ t.
          available-Cleared d d' q tier t p.inventory_version c here
            (tagged_before s.stocked here) in
      record {
        stocked = rw version stocked;
        room = omega (arith, tiers_kept, s.room);
        tagged = λ q. ground (arith, c q, s.tagged q, tiers_kept);
        counted = λ t b. rw version (elim (Bool-cases (t == tier)) [
          | inl e ↦
              rw (same t, e)
                (omega (
                  arith,
                  some,
                  cleared_less t,
                  ap flag e,
                  s.counted tier used,
                  ap (λ (i : ℕ). available d i p.inventory_version) (==→eq t tier e),
                ))
          | inr e ↦
              rw (same t, e)
                (omega (arith, cleared_less t, ap flag e, s.counted t (omega (arith, tiers_kept))))
        ]);
        weighted = λ t b. elim (Bool-cases (t == tier)) [
          | inl e ↦ rw (same t, e) (s.weighted tier used)
          | inr e ↦ rw (same t, e) (s.weighted t (omega (arith, tiers_kept)))
        ];
      }
