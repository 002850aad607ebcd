-- ===== src/Inventory/Descend.antt =====
-- The search of `Inventory::take` over the Fenwick nodes: it stops at the block that holds the item of
-- the requested rank, and has lowered exactly the counts of the nodes that cover this block.
use solana_gacha.Prelude.{
  ℕ, zero, suc, ◌+◌, ◌-◌, ◌*◌, ◌/◌, ◌^◌, ◌≤◌, ◌<◌, ◌≡◌, ◌≢◌, ◌⊎◌, ◌∙◌, ap, refl, List, arith, ◌==◌,
  if◌then◌else◌, leb, ltb, inl, inr, Bool-cases, ne→not-==, le→leb, leb→le, not-leb→lt, length, ok,
  false,
}
use solana_gacha.Core.Constants.{max_tiers, block_len}
use solana_gacha.Bytes.{length-put_u32}
use solana_gacha.Bits.Lowest.{lowest}
use solana_gacha.Bits.Cover.{
  hit, two-pow-suc, two_pow_pos, lowest_aligned, lowest_window, mul-two-pow-suc,
}
use solana_gacha.Inventory.{count, Cursor, descend, descend_step, blocks}
use solana_gacha.Inventory.Counts.{count-ok}
use solana_gacha.Inventory.Nodes.{set_count-ok, next_bytes, entry-next_bytes, hit_above}
use solana_gacha.Inventory.View.{tag, entry, available, available-le, tag-written, IsIndexed}

-- The step of a search with `j` rounds left.
abbrev pub step_of : ℕ → ℕ
step_of zero = 0
step_of (suc j) = 2 ^ j

step_of-half : (j : ℕ) → step_of (suc j) / 2 ≡ step_of j
step_of-half zero = omega arith
step_of-half (suc j) = omega (arith, two-pow-suc j)

-- `hit`, for the nodes between two bounds.
abbrev pub window_hit : ℕ → ℕ → ℕ → ℕ → ℕ
window_hit lo hi m i = if ltb lo m then (if ltb m hi then hit m i else 0) else 0

-- Among the aligned nodes of a window, those of its right half and its middle node.
module _ (j q m b : ℕ) (low : q * 2 ^ suc j ≤ b) where
  hit_middle : b < q * 2 ^ suc j + 2 ^ j → hit (q * 2 ^ suc j + 2 ^ j) (b + 1) ≡ 1
  unfolding hit
  hit_middle h = ground (arith, lowest_aligned j q, two_pow_pos j)

  hit_right :
      b < q * 2 ^ suc j + 2 ^ j
      → q * 2 ^ suc j + 2 ^ j < m
      → m < q * 2 ^ suc j + 2 ^ suc j
      → hit m (b + 1) ≡ 0
  unfolding hit
  hit_right h above below =
      let base : (2 * q + 1) * 2 ^ j ≡ q * 2 ^ suc j + 2 ^ j = omega (arith, mul-two-pow-suc q j) in
      let w : (2 * q + 1) * 2 ^ j + lowest m ≤ m =
        lowest_window j (2 * q + 1) m (omega arith) (omega (arith, two-pow-suc j)) in
      ground arith

module _ {d : List ℕ} (i : IsIndexed d (blocks d)) (t : ℕ) (h : t < max_tiers) (r0 : ℕ) where
  -- How many items of the tier lie in the first `n` blocks.
  abbrev pub before : ℕ → ℕ
  before n = available d t (64 * n)

  pub record IsAt (j q : ℕ) (c : Cursor) : Type 0 where
    pub aligned : c.node ≡ q * 2 ^ j
    pub inside : c.node ≤ blocks d
    pub ranked : before c.node + c.rank ≡ r0
    pub ends : (r0 < before (c.node + 2 ^ j)) ⊎ (blocks d < c.node + 2 ^ j)
    pub same_length : length c.bytes ≡ length d
    pub same_tags : (p : ℕ) → tag c.bytes p ≡ tag d p
    pub fresh :
        (m : ℕ) → c.node < m → m < c.node + 2 ^ j → m ≤ blocks d → entry c.bytes m t ≡ entry d m t

  pub record IsFound (j : ℕ) (c c' : Cursor) : Type 0 where
    pub from : c.node ≤ c'.node
    pub to : c'.node < c.node + 2 ^ j
    pub inside : c'.node ≤ blocks d
    pub ranked : before c'.node + c'.rank ≡ r0
    pub ends : (c'.node ≡ blocks d) ⊎ (r0 < before (c'.node + 1))
    pub same_length : length c'.bytes ≡ length d
    pub same_tags : (p : ℕ) → tag c'.bytes p ≡ tag d p
    pub entries :
        (m u : ℕ)
        → 0 < m
        → m ≤ blocks d
        → u < max_tiers
        → entry c'.bytes m u
            + (if u == t then window_hit c.node (c.node + 2 ^ j) m (c'.node + 1) else 0)
          ≡ entry c.bytes m u

  -- The middle node of the window counts the items of the left half.
  middle_count :
      (j q : ℕ) (c : Cursor)
      → IsAt (suc j) q c
      → c.node + 2 ^ j ≤ blocks d
      → entry c.bytes (c.node + 2 ^ j) t + before c.node ≡ before (c.node + 2 ^ j)
  middle_count j q c a b =
      let n : ℕ = c.node + 2 ^ j in
      let same : entry c.bytes n t ≡ entry d n t =
        a.fresh n (omega (arith, two_pow_pos j)) (omega (arith, two-pow-suc j, two_pow_pos j)) b in
      let low : lowest n ≡ 2 ^ j = rw a.aligned (lowest_aligned j q) in
      let start : n - lowest n ≡ c.node = omega arith in
      rw same (rw start at (i.sums n t (omega (arith, two_pow_pos j)) b h))

  -- The window goes on behind its middle node.
  module _ (j q : ℕ) (c : Cursor) (a : IsAt (suc j) q c) (b : c.node + 2 ^ j ≤ blocks d) where
    abbrev moved : Cursor
    moved = record c { node = c.node + 2 ^ j; rank = c.rank - entry c.bytes (c.node + 2 ^ j) t }

    moved-IsAt : entry c.bytes (c.node + 2 ^ j) t ≤ c.rank → IsAt j (2 * q + 1) moved
    moved-IsAt le = record {
      aligned = omega (arith, a.aligned, mul-two-pow-suc q j);
      inside = b;
      ranked = omega (arith, middle_count j q c a b, a.ranked);
      ends = rw halves at a.ends;
      same_length = a.same_length;
      same_tags = a.same_tags;
      fresh = λ m lo hi bm. a.fresh m (omega arith) (omega (arith, two-pow-suc j)) bm;
    }
      where
        halves : c.node + 2 ^ suc j ≡ c.node + 2 ^ j + 2 ^ j
        halves = omega (arith, two-pow-suc j)

    moved-IsFound : (c' : Cursor) → IsFound j moved c' → IsFound (suc j) c c'
    moved-IsFound c' f = record {
      from = omega (arith, f.from);
      to = omega (arith, f.to, two-pow-suc j);
      inside = f.inside;
      ranked = f.ranked;
      ends = f.ends;
      same_length = f.same_length;
      same_tags = f.same_tags;
      entries = λ m u pm bm hu.
          ground (arith, f.entries m u pm bm hu, two-pow-suc j, f.from, hit_above m (c'.node + 1));
    }

  -- The window ends before its middle node, which lies past the last block.
  module _ (j q : ℕ) (c : Cursor) (a : IsAt (suc j) q c) (b : blocks d < c.node + 2 ^ j) where
    cut-IsAt : IsAt j (2 * q) c
    cut-IsAt = record {
      aligned = omega (arith, a.aligned, mul-two-pow-suc q j);
      inside = a.inside;
      ranked = a.ranked;
      ends = inr b;
      same_length = a.same_length;
      same_tags = a.same_tags;
      fresh = λ m lo hi bm. a.fresh m lo (omega (arith, two-pow-suc j)) bm;
    }

    cut-IsFound : (c' : Cursor) → IsFound j c c' → IsFound (suc j) c c'
    cut-IsFound c' f = record {
      from = f.from;
      to = omega (arith, f.to, two-pow-suc j);
      inside = f.inside;
      ranked = f.ranked;
      ends = f.ends;
      same_length = f.same_length;
      same_tags = f.same_tags;
      entries = λ m u pm bm hu. ground (arith, f.entries m u pm bm hu, two-pow-suc j);
    }

  -- The item lies in the left half of the window, and its middle node is lowered.
  module _ (j q : ℕ) (c : Cursor) (a : IsAt (suc j) q c) (b : c.node + 2 ^ j ≤ blocks d) (v : ℕ)
      (e : v + 1 ≡ entry c.bytes (c.node + 2 ^ j) t) where
    middle_pos : 0 < c.node + 2 ^ j
    middle_pos = omega (arith, two_pow_pos j)

    same_blocks : blocks c.bytes ≡ blocks d
    same_blocks = ap (λ (n : ℕ). n / 96) a.same_length

    middle_inside : c.node + 2 ^ j ≤ blocks c.bytes
    middle_inside = rw same_blocks b

    abbrev lowered : Cursor
    lowered = record c {
      bytes = next_bytes c.bytes (c.node + 2 ^ j) t v middle_pos middle_inside h;
    }

    v_small : v < 2 ^ 32
    v_small =
        omega (arith, middle_count j q c a b, available-le d t (64 * (c.node + 2 ^ j)), i.small)

    lowered-entry :
        (m u : ℕ)
        → 0 < m
        → u < max_tiers
        → ((m ≡ c.node + 2 ^ j) × (u ≡ t) × (entry lowered.bytes m u ≡ v))
          ⊎ (((m ≢ c.node + 2 ^ j) ⊎ (u ≢ t)) × (entry lowered.bytes m u ≡ entry c.bytes m u))
    lowered-entry m u pm hu =
        entry-next_bytes c.bytes (c.node + 2 ^ j) t v middle_pos middle_inside h m u v_small pm hu

    lowered-IsAt : c.rank ≤ v → IsAt j (2 * q) lowered
    lowered-IsAt le = record {
      aligned = omega (arith, a.aligned, mul-two-pow-suc q j);
      inside = a.inside;
      ranked = a.ranked;
      ends = inl (omega (arith, middle_count j q c a b, a.ranked));
      same_length =
          length-put_u32 c.bytes ((c.node + 2 ^ j - 1) * block_len + t * 4) v ∙ a.same_length;
      same_tags = λ p.
          tag-written c.bytes (c.node + 2 ^ j) t v middle_pos (omega (arith, middle_inside)) h p
          ∙ a.same_tags p;
      fresh = λ m lo hi bm.
          let old : entry c.bytes m t ≡ entry d m t =
            a.fresh m lo (omega (arith, two-pow-suc j)) bm in
          ground (arith, lowered-entry m t (omega arith) h, old);
    }

    lowered-IsFound : (c' : Cursor) → IsFound j lowered c' → IsFound (suc j) c c'
    lowered-IsFound c' f = record {
      from = f.from;
      to = omega (arith, f.to, two-pow-suc j);
      inside = f.inside;
      ranked = f.ranked;
      ends = f.ends;
      same_length = f.same_length;
      same_tags = f.same_tags;
      entries = λ m u pm bm hu. ground (
        arith,
        f.entries m u pm bm hu,
        two-pow-suc j,
        lowered-entry m u pm hu,
        e,
        middle m,
        right m,
        (λ (x : m ≡ c.node + 2 ^ j). ap (λ (k : ℕ). entry c.bytes k u) x),
        (λ (x : u ≡ t). ap (λ (k : ℕ). entry c.bytes (c.node + 2 ^ j) k) x),
      );
    }
      where
        low : q * 2 ^ suc j ≤ c'.node
        low = omega (arith, a.aligned, f.from)

        high : c'.node < q * 2 ^ suc j + 2 ^ j
        high = omega (arith, a.aligned, f.to)

        middle : (m : ℕ) → m ≡ c.node + 2 ^ j → hit m (c'.node + 1) ≡ 1
        middle m x =
            let y : m ≡ q * 2 ^ suc j + 2 ^ j = omega (arith, a.aligned) in
            rw y (hit_middle j q m c'.node low high)

        right : (m : ℕ) → c.node + 2 ^ j < m → m < c.node + 2 ^ suc j → hit m (c'.node + 1) ≡ 0
        right m x y =
            hit_right j q m c'.node low high (omega (arith, a.aligned)) (omega (arith, a.aligned))

  -- One round keeps the place of the search, and what the later rounds find is found from here.
  step-ok :
      (j q : ℕ) (c : Cursor)
      → IsAt (suc j) q c
      → (c1 : Cursor) × (q1 : ℕ) × (descend_step (blocks d) t (2 ^ j) c ≡ ok c1)
        × IsAt j q1 c1
        × ((c' : Cursor) → IsFound j c1 c' → IsFound (suc j) c c')
  unfolding descend_step
  step-ok j q c a = elim (Bool-cases (leb (c.node + 2 ^ j) (blocks d))) [
    | inr out ↦
        let b : blocks d < c.node + 2 ^ j = not-leb→lt (c.node + 2 ^ j) (blocks d) out in
        (c, 2 * q, rw out, cut-IsAt j q c a b, cut-IsFound j q c a b)
    | inl fits ↦
        let b : c.node + 2 ^ j ≤ blocks d = leb→le (c.node + 2 ^ j) (blocks d) fits in
        let k : ℕ = entry c.bytes (c.node + 2 ^ j) t in
        let pos : 0 < c.node + 2 ^ j = omega (arith, two_pow_pos j) in
        let room : (c.node + 2 ^ j) * 96 ≤ length c.bytes = omega (arith, a.same_length, i.whole) in
        let read : count c.bytes (c.node + 2 ^ j) t ≡ ok k =
          count-ok c.bytes (c.node + 2 ^ j) t pos room h in
        elim (Bool-cases (leb k c.rank)) [
          | inl skip ↦ (
            moved j q c a b,
            2 * q + 1,
            rw (fits, read, skip),
            moved-IsAt j q c a b (leb→le k c.rank skip),
            moved-IsFound j q c a b,
          )
          | inr stay ↦
              let over : c.rank < k = not-leb→lt k c.rank stay in
              let e : k - 1 + 1 ≡ k = omega arith in
              (
                lowered j q c a b (k - 1) e,
                2 * q,
                rw (
                  fits,
                  read,
                  stay,
                  le→leb 1 k (omega arith),
                  set_count-ok c.bytes (c.node + 2 ^ j) t (k - 1) pos room h,
                ),
                lowered-IsAt j q c a b (k - 1) e (omega arith),
                lowered-IsFound j q c a b (k - 1) e,
              )
        ]
  ]

  -- The whole search.
  pub descend-ok :
      (j q fuel : ℕ) (c : Cursor)
      → j < fuel
      → IsAt j q c
      → (c' : Cursor) × (descend fuel (blocks d) t (step_of j) c ≡ ok c') × IsFound j c c'
  unfolding descend
  descend-ok j q zero c f a = absurd (omega arith)
  descend-ok zero q (suc fuel) c f a = (
    c,
    refl,
    record {
      from = omega arith;
      to = omega arith;
      inside = a.inside;
      ranked = a.ranked;
      ends = omega (arith, a.ends, a.inside);
      same_length = a.same_length;
      same_tags = a.same_tags;
      entries = λ m u pm bm hu. ground arith;
    },
  )
  descend-ok (suc j) q (suc fuel) c f a =
      let (c1, q1, run, a1, back) = step-ok j q c a in
      let (c', rest, found) = descend-ok j q1 fuel c1 (omega arith) a1 in
      let nz : (2 ^ j == 0) ≡ false = ne→not-== (2 ^ j) 0 (omega (arith, two_pow_pos j)) in
      (c', rw (nz, run, step_of-half j) rest, back c' found)
