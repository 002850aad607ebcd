-- ===== src/Inventory/Nodes.antt =====
-- The two `while node <= self.blocks()` loops of program/src/inventory.rs: they change by one exactly
-- the counts of the nodes that cover the block of the first node.
use solana_gacha.Prelude.{
  ℕ, zero, suc, ◌+◌, ◌-◌, ◌*◌, ◌/◌, ◌^◌, ◌≤◌, ◌<◌, ◌≡◌, ◌≢◌, ◌⊎◌, ◌∙◌, ap, refl, List, arith, ◌==◌,
  if◌then◌else◌, leb, inl, inr, Bool-cases, ==→eq, not-==→ne, le→leb, lt→ltb, leb→le, not-leb→lt,
  length, ok, true,
}
use solana_gacha.Core.Constants.{max_tiers, block_len}
use solana_gacha.Bytes.{put_u32, length-put_u32}
use solana_gacha.Bits.Lowest.{lowest, lowest_bounds, low_bit-eq-lowest}
use solana_gacha.Bits.Cover.{hit, hit_next}
use solana_gacha.Inventory.{set_count, raise_nodes, lower_nodes, blocks}
use solana_gacha.Inventory.Counts.{count-ok}
use solana_gacha.Inventory.View.{tag, entry, tag-written, entry-written_self, entry-written_ne}

pub set_count-ok :
    (d : List ℕ) (n t v : ℕ)
    → 0 < n
    → n * 96 ≤ length d
    → t < max_tiers
    → set_count d n t v ≡ ok (put_u32 d ((n - 1) * block_len + t * 4) v)
unfolding set_count
set_count-ok d n t v p b h =
    let e : leb 1 n ≡ true = le→leb 1 n p in
    let r : leb ((n - 1) * 96 + t * 4 + 4) (length d) ≡ true =
      le→leb ((n - 1) * 96 + t * 4 + 4) (length d) (omega arith) in
    rw (e, r)

-- `d'` is `d` but for the counts of tier `t` in the nodes that cover the block before `i`.
pub record IsLowered (d d' : List ℕ) (i t : ℕ) : Type 0 where
  pub same_length : length d' ≡ length d
  pub same_tags : (p : ℕ) → tag d' p ≡ tag d p
  pub entries :
      (m u : ℕ)
      → 0 < m
      → m ≤ blocks d
      → u < max_tiers
      → entry d' m u + (if u == t then hit m i else 0) ≡ entry d m u

pub record IsRaised (d d' : List ℕ) (i t : ℕ) : Type 0 where
  pub same_length : length d' ≡ length d
  pub same_tags : (p : ℕ) → tag d' p ≡ tag d p
  pub entries :
      (m u : ℕ)
      → 0 < m
      → m ≤ blocks d
      → u < max_tiers
      → entry d' m u ≡ entry d m u + (if u == t then hit m i else 0)

hit_self : (i : ℕ) → 0 < i → hit i i ≡ 1
unfolding hit
hit_self i p = ground (arith, lowest_bounds i p)

pub hit_above : (m i : ℕ) → m < i → hit m i ≡ 0
unfolding hit
hit_above m i h = ground arith

pub hit_le_one : (m i : ℕ) → hit m i ≤ 1
unfolding hit
hit_le_one m i = ground arith

-- How the cover of a block splits into its first node and the cover of the next node.
hit_split :
    (m i : ℕ)
    → 0 < m
    → 0 < i
    → ((m ≡ i) × (hit m i ≡ 1) × (hit m (i + lowest i) ≡ 0))
      ⊎ ((m ≢ i) × (hit m i ≡ hit m (i + lowest i)))
hit_split m i pm pi = elim (Bool-cases (m == i)) [
  | inl e ↦
      let q : m ≡ i = ==→eq m i e in
      inl (q, rw q (hit_self i pi), hit_above m (i + lowest i) (omega (arith, lowest_bounds i pi)))
  | inr e ↦ inr (not-==→ne m i e, hit_next m i pm pi ∙ rw e)
]

module _ (d : List ℕ) (i t v : ℕ) (p : 0 < i) (b : i ≤ blocks d) (h : t < max_tiers) where
  abbrev pub next_bytes : List ℕ
  next_bytes = put_u32 d ((i - 1) * block_len + t * 4) v

  pub entry-next_bytes :
      (m u : ℕ)
      → v < 2 ^ 32
      → 0 < m
      → u < max_tiers
      → ((m ≡ i) × (u ≡ t) × (entry next_bytes m u ≡ v))
        ⊎ (((m ≢ i) ⊎ (u ≢ t)) × (entry next_bytes m u ≡ entry d m u))
  entry-next_bytes m u small pm hu = elim (Bool-cases (m == i)) [
    | inr e ↦
        let ne : (m ≢ i) ⊎ (u ≢ t) = inl (not-==→ne m i e) in
        inr (ne, entry-written_ne d i t v p (omega arith) h m u pm hu ne)
    | inl e ↦ elim (Bool-cases (u == t)) [
      | inr g ↦
          let ne : (m ≢ i) ⊎ (u ≢ t) = inr (not-==→ne u t g) in
          inr (ne, entry-written_ne d i t v p (omega arith) h m u pm hu ne)
      | inl g ↦
          let em : m ≡ i = ==→eq m i e in
          let eu : u ≡ t = ==→eq u t g in
          inl (em, eu, rw (em, eu) (entry-written_self d i t v p (omega arith) h small))
    ]
  ]

  IsLowered-step :
      {d' : List ℕ}
      → v + 1 ≡ entry d i t
      → v < 2 ^ 32
      → IsLowered next_bytes d' (i + lowest i) t
      → IsLowered d d' i t
  IsLowered-step {d'} e small low = record {
    same_length = low.same_length ∙ length-put_u32 d ((i - 1) * block_len + t * 4) v;
    same_tags = λ q. low.same_tags q ∙ tag-written d i t v p (omega arith) h q;
    entries = λ m u pm bm hu.
        let same : blocks next_bytes ≡ blocks d =
          ap (λ (n : ℕ). n / 96) (length-put_u32 d ((i - 1) * block_len + t * 4) v) in
        ground (
          arith,
          low.entries m u pm (rw same bm) hu,
          hit_split m i pm p,
          entry-next_bytes m u small pm hu,
          e,
          (λ (a : m ≡ i). ap (λ (k : ℕ). entry d k t) a),
          (λ (a : u ≡ t). ap (λ (k : ℕ). entry d m k) a),
        );
  }

  IsRaised-step :
      {d' : List ℕ}
      → v ≡ entry d i t + 1
      → v < 2 ^ 32
      → IsRaised next_bytes d' (i + lowest i) t
      → IsRaised d d' i t
  IsRaised-step {d'} e small up = record {
    same_length = up.same_length ∙ length-put_u32 d ((i - 1) * block_len + t * 4) v;
    same_tags = λ q. up.same_tags q ∙ tag-written d i t v p (omega arith) h q;
    entries = λ m u pm bm hu.
        let same : blocks next_bytes ≡ blocks d =
          ap (λ (n : ℕ). n / 96) (length-put_u32 d ((i - 1) * block_len + t * 4) v) in
        ground (
          arith,
          up.entries m u pm (rw same bm) hu,
          hit_split m i pm p,
          entry-next_bytes m u small pm hu,
          e,
          (λ (a : m ≡ i). ap (λ (k : ℕ). entry d k t) a),
          (λ (a : u ≡ t). ap (λ (k : ℕ). entry d m k) a),
        );
  }

  pub blocks-next_bytes : blocks next_bytes ≡ blocks d
  blocks-next_bytes = ap (λ (n : ℕ). n / 96) (length-put_u32 d ((i - 1) * block_len + t * 4) v)

-- Subtracting one along the nodes, where every count on the way is positive.
pub lower_nodes-ok :
    (fuel : ℕ) (d : List ℕ) (i t : ℕ)
    → 0 < fuel
    → blocks d + 1 < i + fuel
    → 0 < i
    → t < max_tiers
    → blocks d < 2 ^ 26
    → ((m : ℕ) → 0 < m → m ≤ blocks d → (hit m i ≤ entry d m t) × (entry d m t < 2 ^ 32))
    → (d' : List ℕ) × (lower_nodes fuel d i t ≡ ok d') × IsLowered d d' i t
unfolding lower_nodes
lower_nodes-ok zero d i t f b p h s pos = absurd (omega arith)
lower_nodes-ok (suc fuel) d i t f b p h s pos = elim (Bool-cases (leb i (blocks d))) [
  | inr e ↦ (
    d,
    rw e,
    record {
      same_length = refl;
      same_tags = λ p. refl;
      entries =
          λ m u pm bm hu. ground (arith, hit_above m i (omega (arith, not-leb→lt i (blocks d) e)));
    },
  )
  | inl e ↦
      let bi : i ≤ blocks d = leb→le i (blocks d) e in
      let v : ℕ = entry d i t - 1 in
      let some_left : 1 ≤ entry d i t = omega (arith, hit_self i p, pos i p bi) in
      let back : v + 1 ≡ entry d i t = omega arith in
      let small : v < 2 ^ 32 = omega (arith, pos i p bi) in
      let d1 : List ℕ = next_bytes d i t v p bi h in
      let same : blocks d1 ≡ blocks d = blocks-next_bytes d i t v p bi h in
      let below : (m : ℕ)
          → 0 < m
          → m ≤ blocks d1
          → (hit m (i + lowest i) ≤ entry d1 m t) × (entry d1 m t < 2 ^ 32) =
        λ m pm bm. ground (
          arith,
          hit_split m i pm p,
          entry-next_bytes d i t v p bi h m t small pm h,
          pos m pm (rw (← same) bm),
        ) in
      let up : i < i + lowest i = omega (arith, lowest_bounds i p) in
      let (d', run, low) =
        lower_nodes-ok fuel d1 (i + lowest i) t (omega arith) (rw same (omega arith)) (omega arith)
          h (rw same s) below in
      (
        d',
        rw
            (
              e,
              count-ok d i t p (omega arith) h,
              le→leb 1 (entry d i t) some_left,
              set_count-ok d i t v p (omega arith) h,
              low_bit-eq-lowest i p (omega arith),
            )
            run,
        IsLowered-step d i t v p bi h back small low,
      )
]

-- Adding one along the nodes.
pub raise_nodes-ok :
    (fuel : ℕ) (d : List ℕ) (i t : ℕ)
    → 0 < fuel
    → blocks d + 1 < i + fuel
    → 0 < i
    → t < max_tiers
    → blocks d < 2 ^ 26
    → ((m : ℕ) → 0 < m → m ≤ blocks d → entry d m t + hit m i < 2 ^ 32)
    → (d' : List ℕ) × (raise_nodes fuel d i t ≡ ok d') × IsRaised d d' i t
unfolding raise_nodes
raise_nodes-ok zero d i t f b p h s room = absurd (omega arith)
raise_nodes-ok (suc fuel) d i t f b p h s room = elim (Bool-cases (leb i (blocks d))) [
  | inr e ↦ (
    d,
    rw e,
    record {
      same_length = refl;
      same_tags = λ p. refl;
      entries =
          λ m u pm bm hu. ground (arith, hit_above m i (omega (arith, not-leb→lt i (blocks d) e)));
    },
  )
  | inl e ↦
      let bi : i ≤ blocks d = leb→le i (blocks d) e in
      let v : ℕ = entry d i t + 1 in
      let small : v < 2 ^ 32 = omega (arith, hit_self i p, room i p bi) in
      let d1 : List ℕ = next_bytes d i t v p bi h in
      let same : blocks d1 ≡ blocks d = blocks-next_bytes d i t v p bi h in
      let below : (m : ℕ) → 0 < m → m ≤ blocks d1 → entry d1 m t + hit m (i + lowest i) < 2 ^ 32 =
        λ m pm bm. ground (
          arith,
          hit_split m i pm p,
          entry-next_bytes d i t v p bi h m t small pm h,
          room m pm (rw (← same) bm),
        ) in
      let up : i < i + lowest i = omega (arith, lowest_bounds i p) in
      let (d', run, raised) =
        raise_nodes-ok fuel d1 (i + lowest i) t (omega arith) (rw same (omega arith)) (omega arith)
          h (rw same s) below in
      (
        d',
        rw
            (
              e,
              count-ok d i t p (omega arith) h,
              lt→ltb v (2 ^ 32) small,
              set_count-ok d i t v p (omega arith) h,
              low_bit-eq-lowest i p (omega arith),
            )
            run,
        IsRaised-step d i t v p bi h refl small raised,
      )
]
