-- ===== src/Inventory/Counts.antt =====
-- `Inventory::counts`: on an indexed array it returns, without a panic, how many items of each tier
-- are available before the cutoff.
use solana_gacha.Prelude.{
  ℕ, zero, suc, ◌+◌, ◌-◌, ◌*◌, ◌/◌, ◌%◌, ◌^◌, ◌≤◌, ◌<◌, ◌≡◌, ◌≢◌, ◌∙◌, ap, refl, List, ◌∷◌, arith,
  ◌==◌, if◌then◌else◌, ltb, leb, inl, inr, Bool-cases, ==→eq, not-==→ne, le→leb, lt→ltb, length,
  get_or, set, take, drop, tabulate, tabulate-ext, get_or-tabulate, set-tabulate, drop-cons, ok,
  ne→not-==, true, false, ltb→lt, not-ltb→le,
}
use solana_gacha.Core.Constants.{max_tiers}
use solana_gacha.Bits.{clear_low_bit}
use solana_gacha.Bits.Lowest.{lowest, lowest_bounds, clear_lowest}
use solana_gacha.Inventory.{count, add_counts, prefix_loop, prefix_counts, tally_tags, counts}
use solana_gacha.Inventory.View.{
  tag, is_tag, available, available-le, available-add-one, entry, IsIndexed,
}

pub count-ok :
    (d : List ℕ) (n t : ℕ)
    → 0 < n
    → n * 96 ≤ length d
    → t < max_tiers
    → count d n t ≡ ok (entry d n t)
unfolding count entry
count-ok d n t p b h =
    let e : leb 1 n ≡ true = le→leb 1 n p in
    let r : leb ((n - 1) * 96 + t * 4 + 4) (length d) ≡ true =
      le→leb ((n - 1) * 96 + t * 4 + 4) (length d) (omega arith) in
    rw (e, r)

-- One round of the loop adds the node's counts, tier by tier.
add_counts-tabulate :
    (d : List ℕ) (n : ℕ) (f g : ℕ → ℕ)
    → 0 < n
    → n * 96 ≤ length d
    → ((t : ℕ) → t < max_tiers → (f t + entry d n t ≡ g t) × (g t < 2 ^ 32))
    → (k m : ℕ) → k + m ≤ max_tiers
    → add_counts d n k (tabulate f k m) ≡ ok (tabulate g k m)
unfolding add_counts
add_counts-tabulate d n f g p b h k zero r = refl
add_counts-tabulate d n f g p b h k (suc m) r =
    let (e, small) = h k (omega arith) in
    let fits : ltb (f k + entry d n k) (2 ^ 32) ≡ true =
      lt→ltb (f k + entry d n k) (2 ^ 32) (omega arith) in
    rw (
      count-ok d n k p b (omega arith),
      fits,
      (let a : k + 1 ≡ suc k = omega arith in a),
      add_counts-tabulate d n f g p b h (suc k) m (omega arith),
      e,
    )

clear_low_bit-eq : (n : ℕ) → 0 < n → clear_low_bit n ≡ n - lowest n
clear_low_bit-eq n p = omega (arith, clear_lowest n p)

-- The loop over the nodes that make up a prefix of whole blocks.
prefix_loop-ok :
    {d : List ℕ} {k : ℕ} (i : IsIndexed d k) (fuel n : ℕ) (f g : ℕ → ℕ)
    → n ≤ k
    → n < fuel
    → ((t : ℕ) → t < max_tiers → (f t + available d t (64 * n) ≡ g t) × (g t < 2 ^ 32))
    → prefix_loop fuel d n (tabulate f 0 max_tiers) ≡ ok (tabulate g 0 max_tiers)
unfolding prefix_loop
prefix_loop-ok i zero n f g b e h = absurd (omega arith)
prefix_loop-ok {d} i (suc fuel) n f g b e h = elim (Bool-cases (n == 0)) [
  | inl z ↦ rw z (ap ok (tabulate-ext f g 0 max_tiers (at_zero (==→eq n 0 z))))
  | inr s ↦
      rw (s, round (positive s))
        (prefix_loop-ok i fuel (clear_low_bit n) next g
          (omega (arith, clear_low_bit-eq n (positive s)))
          (omega (arith, clear_low_bit-eq n (positive s), lowest_bounds n (positive s)))
          (later (positive s)))
]
  where
    next : ℕ → ℕ
    next t = f t + entry d n t

    positive : (n == 0) ≡ false → 0 < n
    positive s = let ne : n ≢ 0 = not-==→ne n 0 s in omega arith

    at_zero : n ≡ 0 → (t : ℕ) → t < 0 + 8 → f t ≡ g t
    at_zero z t r =
        let a : available d t (64 * n) ≤ 64 * n = available-le d t (64 * n) in
        omega (arith, (h t (omega arith)).0)

    later :
        0 < n
        → (t : ℕ) → t < max_tiers
        → (next t + available d t (64 * clear_low_bit n) ≡ g t) × (g t < 2 ^ 32)
    later p t r = rw (clear_low_bit-eq n p) (omega (arith, h t r, i.sums n t p b r))

    round : 0 < n → add_counts d n 0 (tabulate f 0 max_tiers) ≡ ok (tabulate next 0 max_tiers)
    round p =
        add_counts-tabulate d n f next p (omega (arith, i.whole, i.within))
          (λ t r. (refl, omega (arith, h t r, i.sums n t p b r))) 0 8 (omega arith)

-- The counts of whole blocks.
pub prefix_counts-ok :
    {d : List ℕ} {k : ℕ} (i : IsIndexed d k) (n : ℕ)
    → n ≤ k
    → prefix_counts d n ≡ ok (tabulate (λ t. available d t (64 * n)) 0 max_tiers)
unfolding prefix_counts
prefix_counts-ok {d} i n b =
    prefix_loop-ok i (n + 1) n (λ t. 0) (λ t. available d t (64 * n)) b (omega arith)
      (λ t r. (omega arith, omega (arith, available-le d t (64 * n), i.small, i.within)))

tag_count :
    (d : List ℕ) (q x : ℕ)
    → tag d q ≡ suc x
    → (t : ℕ) → (if t == x then available d x q + 1 else available d t q) ≡ available d t (q + 1)
unfolding is_tag
tag_count d q x e t = elim (Bool-cases (t == x)) [
  | inl y ↦ ground (arith, available-add-one d t q, ap (λ (u : ℕ). available d u q) (==→eq t x y))
  | inr y ↦ ground (arith, available-add-one d t q)
]

tag_zero : (d : List ℕ) (q : ℕ) → tag d q ≡ 0 → (t : ℕ) → available d t q ≡ available d t (q + 1)
unfolding is_tag
tag_zero d q e t = ground (arith, available-add-one d t q)

-- One tag of the loop over the last, partial block.
tally_tags-cons :
    (x : ℕ) (tags : List ℕ) (f g : ℕ → ℕ)
    → x ≤ 8
    → (x ≡ 0 → (t : ℕ) → t < 0 + 8 → f t ≡ g t)
    → ((y : ℕ) → x ≡ suc y → (t : ℕ) → (if t == 0 + y then f (0 + y) + 1 else f t) ≡ g t)
    → ((t : ℕ) → f t + 1 < 2 ^ 32)
    → tally_tags (x ∷ tags) (tabulate f 0 8) ≡ tally_tags tags (tabulate g 0 8)
unfolding tally_tags
tally_tags-cons zero tags f g b same up small =
    ap (tally_tags tags) (tabulate-ext f g 0 8 (same refl))
tally_tags-cons (suc y) tags f g b same up small =
    let e : suc y - 1 ≡ y = omega arith in
    let r : leb (suc y) 8 ≡ true = le→leb (suc y) 8 b in
    let z : get_or (tabulate f 0 8) y 0 ≡ f (0 + y) = get_or-tabulate f 0 8 y 0 b in
    let fits : ltb (f (0 + y) + 1) (2 ^ 32) ≡ true =
      lt→ltb (f (0 + y) + 1) (2 ^ 32) (small (0 + y)) in
    let w : set (tabulate f 0 8) y (f (0 + y) + 1) ≡ tabulate g 0 8 =
      set-tabulate f 0 8 y (f (0 + y) + 1)
      ∙ tabulate-ext (λ t. if t == 0 + y then f (0 + y) + 1 else f t) g 0 8 (λ t h. up y refl t) in
    let nz : (suc y == 0) ≡ false = ne→not-== (suc y) 0 (omega arith) in rw (nz, e, r, z, fits, w)

-- The loop over the tags of the last, partial block.
tally_tags-ok :
    {d : List ℕ} {top : ℕ} (i : IsIndexed d top) (n : ℕ) (k j : ℕ)
    → j + k ≤ 64
    → n * 96 + 32 + j + k ≤ length d
    → tally_tags
        (take k (drop (n * 96 + 32 + j) d))
        (tabulate (λ t. available d t (n * 64 + j)) 0 8)
      ≡ ok (tabulate (λ t. available d t (n * 64 + j + k)) 0 8)
unfolding tally_tags
tally_tags-ok {d} i n zero j h b = ap ok (
    tabulate-ext (λ t. available d t (n * 64 + j)) (λ t. available d t (n * 64 + j + 0)) 0 8
      (λ t r. ap (available d t) (omega arith)))
tally_tags-ok {d} i n (suc k) j h b =
    let q : ℕ = n * 64 + j in
    let s : ℕ = n * 96 + 32 + j in
    let x : ℕ = get_or d s 0 in
    let here : tag d q ≡ x = unfold tag in (ap (λ (u : ℕ). get_or d u 0) (omega arith)) in
    let split : take (suc k) (drop s d) ≡ x ∷ take k (drop (suc s) d) =
      ap (take (suc k)) (drop-cons d s 0 (omega arith)) in
    let same : x ≡ 0 → (t : ℕ) → t < 0 + 8 → available d t q ≡ available d t (q + 1) =
      λ z t r. tag_zero d q (here ∙ z) t in
    let up : (y : ℕ)
        → x ≡ suc y
        → (t : ℕ)
        → (if t == 0 + y then available d (0 + y) q + 1 else available d t q)
          ≡ available d t (q + 1) =
      λ y e t. tag_count d q (0 + y) (here ∙ e ∙ omega arith) t in
    let go : n * 64 + (j + 1) ≡ q + 1 = omega arith in
    let go_s : n * 96 + 32 + (j + 1) ≡ suc s = omega arith in
    let fin : n * 64 + (j + 1) + k ≡ q + suc k = omega arith in
    ap (λ l. tally_tags l (tabulate (λ t. available d t q) 0 8)) split
    ∙ tally_tags-cons x (take k (drop (suc s) d)) (λ t. available d t q)
        (λ t. available d t (q + 1)) (omega (arith, i.tags_ok q)) same up
        (λ t. omega (arith, available-le d t q, i.small, i.whole))
    ∙ (rw (← go_s, ← go, ← fin) (tally_tags-ok i n k (j + 1) (omega arith) (omega arith)))

tally_tail :
    {d : List ℕ} {top : ℕ} (i : IsIndexed d top) (n k : ℕ)
    → k ≤ 64
    → n * 96 + 32 + k ≤ length d
    → tally_tags (take k (drop (n * 96 + 32) d)) (tabulate (λ t. available d t (64 * n)) 0 8)
      ≡ ok (tabulate (λ t. available d t (64 * n + k)) 0 8)
tally_tail {d} i n k h b =
    let e : n * 96 + 32 + 0 ≡ n * 96 + 32 = omega arith in
    let f : n * 64 + 0 ≡ 64 * n = omega arith in
    let g : tally_tags (take k (drop (n * 96 + 32 + 0) d))
          (tabulate (λ t. available d t (n * 64 + 0)) 0 8)
        ≡ ok (tabulate (λ t. available d t (n * 64 + 0 + k)) 0 8) =
      tally_tags-ok i n k 0 (omega arith) (omega arith) in
    rw (e, f) at g

-- With a well-formed index, `counts` up to a cutoff within the indexed blocks returns, for each of
-- the eight tiers, the number of available items among the positions before the cutoff.
pub counts-ok :
    {d : List ℕ} {top : ℕ} (i : IsIndexed d top) (cutoff : ℕ)
    → cutoff ≤ 64 * top
    → counts d cutoff ≡ ok (tabulate (λ t. available d t cutoff) 0 max_tiers)
unfolding counts
counts-ok {d} i cutoff b =
    let n : ℕ = cutoff / 64 in
    let k : ℕ = cutoff % 64 in
    let whole : 64 * n + k ≡ cutoff = omega arith in
    elim (Bool-cases (ltb 0 k)) [
      | inl some_tail ↦
          let pos : 0 < k = ltb→lt 0 k some_tail in
          let room : n * 96 + 32 + k ≤ length d = omega (arith, i.whole, i.within) in
          rw
            (
              prefix_counts-ok i n (omega arith),
              some_tail,
              le→leb (n * 96 + 32 + k) (length d) room,
            )
            (rw whole at (tally_tail i n k (omega arith) room))
      | inr no_tail ↦
          let none_left : 64 * n ≡ cutoff = omega (arith, not-ltb→le 0 k no_tail) in
          rw (prefix_counts-ok i n (omega arith), no_tail)
            (ap ok (
              tabulate-ext (λ t. available d t (64 * n)) (λ t. available d t cutoff) 0 8
                (λ t r. ap (available d t) none_left)))
    ]
