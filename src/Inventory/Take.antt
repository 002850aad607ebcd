-- ===== src/Inventory/Take.antt =====
-- `Inventory::take`: on the index of a pool it removes the item of the requested rank.
use solana_gacha.Prelude.{
  ℕ, zero, suc, ◌+◌, ◌-◌, ◌*◌, ◌/◌, ◌%◌, ◌^◌, ◌≤◌, ◌<◌, ◌≡◌, ◌≢◌, ◌∙◌, ap, refl, List, ◌∷◌, arith,
  ◌==◌, if◌then◌else◌, leb, inl, inr, Bool-cases, ==→eq, not-==→ne, eq→==, ne→not-==, le→leb,
  leb→le, length, get_or, set, length-set, take, drop, drop-cons, some, ok, err, gacha,
  invalid_item,
}
use solana_gacha.Core.Constants.{max_tiers}
use solana_gacha.Bits.Cover.{hit, two-pow-suc, two_pow_pos}
use solana_gacha.Inventory.{
  blocks, Cursor, descend, find_rank, power_from, next_power_of_two, take_item,
}
use solana_gacha.Inventory.Descend.{IsAt, IsFound, descend-ok}
use solana_gacha.Inventory.Remove.{Cleared, Cleared-intro, IsStocked-clear, clear-IsIndexed}
use solana_gacha.Inventory.View.{
  slot, tag, is_tag, entry, available, available-ext, available_mono_le, available-add-one,
  IsIndexed, IsStocked, tag-set_self, tag-set_ne, entry-set,
}

pub power_from-ok :
    (fuel j n : ℕ)
    → n ≤ 2 ^ (j + fuel)
    → (k : ℕ) × (power_from fuel (2 ^ j) n ≡ 2 ^ k) × (n ≤ 2 ^ k) × (k ≤ j + fuel)
unfolding power_from
power_from-ok zero j n b = let e : j + 0 ≡ j = omega arith in (j, refl, rw e at b, omega arith)
power_from-ok (suc fuel) j n b = elim (Bool-cases (leb n (2 ^ j))) [
  | inl le ↦ (j, rw le, leb→le n (2 ^ j) le, omega arith)
  | inr gt ↦
      let e : j + suc fuel ≡ suc j + fuel = omega arith in
      let (k, run, above, top) = power_from-ok fuel (suc j) n (rw e at b) in
      (k, rw (gt, ← two-pow-suc j) run, above, omega arith)
]

next_power_of_two-ok :
    (n : ℕ) → n < 2 ^ 26 → (k : ℕ) × (next_power_of_two n ≡ 2 ^ k) × (n ≤ 2 ^ k) × (k ≤ 64)
unfolding next_power_of_two
next_power_of_two-ok n b = power_from-ok 64 0 n (omega arith)

-- The search in the tags of one block, from its `j`th position on.
find_rank-ok :
    (d : List ℕ) (n t : ℕ) (k j rank : ℕ)
    → j + k ≤ 64
    → n * 96 + 32 + j + k ≤ length d
    → available d t (n * 64 + j) + rank < available d t (n * 64 + j + k)
    → (o : ℕ) × (find_rank (take k (drop (n * 96 + 32 + j) d)) t rank j ≡ some o)
      × (o < 64)
      × (tag d (n * 64 + o) ≡ suc t)
      × (available d t (n * 64 + o) ≡ available d t (n * 64 + j) + rank)
unfolding find_rank
find_rank-ok d n t zero j rank h b r =
    let e : n * 64 + j + 0 ≡ n * 64 + j = omega arith in
    absurd (omega (arith, ap (available d t) e))
find_rank-ok d n t (suc k) j rank h b r =
    let s : ℕ = n * 96 + 32 + j in
    let q : ℕ = n * 64 + j in
    let x : ℕ = get_or d s 0 in
    let here : tag d q ≡ x = unfold tag in (ap (λ (u : ℕ). get_or d u 0) (omega arith)) in
    let next_s : suc s ≡ n * 96 + 32 + (j + 1) = omega arith in
    let split : take (suc k) (drop s d) ≡ x ∷ take k (drop (n * 96 + 32 + (j + 1)) d) =
      ap (take (suc k)) (drop-cons d s 0 (omega arith))
      ∙ ap (λ (u : ℕ). x ∷ take k (drop u d)) next_s in
    let next_q : n * 64 + (j + 1) ≡ q + 1 = omega arith in
    let end_q : n * 64 + (j + 1) + k ≡ q + suc k = omega arith in
    let counted : available d t (n * 64 + (j + 1)) ≡ available d t q + is_tag t (tag d q) =
      rw next_q (available-add-one d t q) in
    let enough : available d t (n * 64 + (j + 1) + k) ≡ available d t (q + suc k) =
      ap (available d t) end_q in
    elim (Bool-cases (x == t + 1)) [
      | inl match ↦
          let one_more : is_tag t (tag d q) ≡ 1 = unfold is_tag in (ground (arith, here, match)) in
          elim (Bool-cases (rank == 0)) [
            | inl first ↦ (
              j,
              rw (split, match, first),
              omega arith,
              here ∙ ==→eq x (t + 1) match ∙ omega arith,
              omega (arith, ==→eq rank 0 first),
            )
            | inr later ↦
                let some_rank : rank ≢ 0 = not-==→ne rank 0 later in
                let (o, run, below, found, ranked) =
                  find_rank-ok d n t k (j + 1) (rank - 1) (omega arith) (omega arith)
                    (omega arith) in
                (o, rw (split, match, later) run, below, found, omega arith)
          ]
      | inr other ↦
          let no_more : is_tag t (tag d q) ≡ 0 = unfold is_tag in (ground (arith, here, other)) in
          let (o, run, below, found, ranked) =
            find_rank-ok d n t k (j + 1) rank (omega arith) (omega arith) (omega arith) in
          (o, rw (split, other) run, below, found, omega arith)
    ]

start-IsAt :
    {d : List ℕ} (i : IsIndexed d (blocks d)) (t : ℕ) (h : t < max_tiers) (rank k : ℕ)
    → blocks d ≤ 2 ^ k
    → IsAt i t h rank (suc k) 0 (record { node = 0; rank = rank; bytes = d })
unfolding available
start-IsAt i t h rank k above = record {
  aligned = omega arith;
  inside = omega arith;
  ranked = omega arith;
  ends = inr (omega (arith, two-pow-suc k, two_pow_pos k));
  same_length = refl;
  same_tags = λ p. refl;
  fresh = λ m lo hi bm. refl;
}

-- Where the search over the nodes stops, from the first node on.
search-ok :
    {d : List ℕ} (i : IsIndexed d (blocks d)) (t : ℕ) (h : t < max_tiers) (rank : ℕ)
    → (j : ℕ) × (c : Cursor) × (descend 66
          (blocks d)
          t
          (next_power_of_two (blocks d))
          (record { node = 0; rank = rank; bytes = d })
        ≡ ok c)
      × (blocks d < 0 + 2 ^ j)
      × IsFound i t h rank j (record { node = 0; rank = rank; bytes = d }) c
search-ok {d} i t h rank =
    let (k, power, above, top) = next_power_of_two-ok (blocks d) i.small in
    from_power k (next_power_of_two (blocks d)) power above top
  where
    start : Cursor
    start = record { node = 0; rank = rank; bytes = d }

    from_power :
        (k p : ℕ)
        → p ≡ 2 ^ k
        → blocks d ≤ 2 ^ k
        → k ≤ 64
        → (j : ℕ) × (c : Cursor) × (descend 66 (blocks d) t p start ≡ ok c)
          × (blocks d < 0 + 2 ^ j)
          × IsFound i t h rank j start c
    from_power k p power above top =
        let (c, run, found) =
          descend-ok i t h rank (suc k) 0 66 start (omega arith) (start-IsAt i t h rank k above) in
        (suc k, c, rw power run, omega (arith, two-pow-suc k, two_pow_pos k), found)

-- The item that the search in the block finds, as a position of the index before the search.
module _ {d : List ℕ} (i : IsIndexed d (blocks d)) (t : ℕ) (h : t < max_tiers) (rank : ℕ) (j : ℕ)
    (c : Cursor) (wide : blocks d < 0 + 2 ^ j)
    (f : IsFound i t h rank j (record { node = 0; rank = rank; bytes = d }) c) where
  same_available : (q : ℕ) → available c.bytes t q ≡ available d t q
  same_available q = available-ext d c.bytes t q (λ p b. f.same_tags p)

  block_room : c.node < blocks d → c.node * 96 + 32 + 64 ≤ length c.bytes
  block_room b = omega (arith, f.same_length, i.whole)

  pick-ok :
      c.node < blocks d
      → rank < available d t (64 * (c.node + 1))
      → (o : ℕ) × (find_rank (take 64 (drop (c.node * 96 + 32) c.bytes)) t c.rank 0 ≡ some o)
        × (o < 64)
        × (tag d (c.node * 64 + o) ≡ suc t)
        × (available d t (c.node * 64 + o) ≡ rank)
  pick-ok b r =
      let n : ℕ = c.node in
      let e0 : n * 96 + 32 + 0 ≡ n * 96 + 32 = omega arith in
      let e1 : n * 64 + 0 ≡ 64 * n = omega arith in
      let e2 : n * 64 + 0 + 64 ≡ 64 * (n + 1) = omega arith in
      let lo : available c.bytes t (n * 64 + 0) ≡ available d t (64 * n) =
        rw e1 (same_available (64 * n)) in
      let hi : available c.bytes t (n * 64 + 0 + 64) ≡ available d t (64 * (n + 1)) =
        rw e2 (same_available (64 * (n + 1))) in
      let room : n * 96 + 32 + 0 + 64 ≤ length c.bytes = rw e0 (block_room b) in
      let (o, run, below, found, ranked) =
        find_rank-ok c.bytes n t 64 0 c.rank (omega arith) room (omega (arith, f.ranked)) in
      (
        o,
        rw e0 at run,
        below,
        (rw (f.same_tags (n * 64 + o)) at found),
        omega (arith, same_available (n * 64 + o), f.ranked),
      )

  -- The index with the item's tag cleared, after the search has lowered the counts.
  module _ (o : ℕ) (b : c.node < blocks d) (small : o < 64)
      (found : tag d (c.node * 64 + o) ≡ suc t) where
    abbrev position : ℕ
    position = c.node * 64 + o

    abbrev taken : List ℕ
    taken = set c.bytes (c.node * 96 + 32 + o) 0

    slot-position : slot position ≡ c.node * 96 + 32 + o
    slot-position = omega arith

    length-taken : length taken ≡ length d
    length-taken = length-set c.bytes (c.node * 96 + 32 + o) 0 ∙ f.same_length

    others-taken : (q : ℕ) → q ≢ position → tag taken q ≡ tag d q
    others-taken q ne = rw (← slot-position) (tag-set_ne c.bytes position q 0 ne ∙ f.same_tags q)

    gone-taken : tag taken position ≡ 0
    gone-taken =
        rw (← slot-position)
          (tag-set_self c.bytes position 0 (rw slot-position (omega (arith, block_room b))))

    entries-taken :
        (m u : ℕ)
        → 0 < m
        → m ≤ blocks d
        → u < max_tiers
        → entry taken m u + (if u == t then hit m (position / 64 + 1) else 0) ≡ entry d m u
    entries-taken m u pm bm hu =
        let e : position / 64 ≡ c.node = omega arith in
        let same : entry taken m u ≡ entry c.bytes m u =
          rw (← slot-position) (entry-set c.bytes position 0 m u pm hu) in
        rw e (ground (arith, same, f.entries m u pm bm hu, wide))

    IsIndexed-taken : IsIndexed taken (blocks d)
    IsIndexed-taken =
        clear-IsIndexed i position t found h length-taken others-taken gone-taken entries-taken

-- On the index of a pool, with a rank below the number of available items of the tier, `take_item`
-- succeeds and returns the position of the item of that rank in the order of the positions; it
-- clears that position and no other, and the index stays well formed.
pub take_item-ok :
    {d : List ℕ} {version : ℕ} (s : IsStocked d version) (t rank : ℕ)
    → t < max_tiers
    → rank < available d t (64 * blocks d)
    → (p : ℕ) × (d' : List ℕ) × (take_item d t rank ≡ ok (p, d'))
      × (tag d p ≡ suc t)
      × (available d t p ≡ rank)
      × IsStocked d' version
      × Cleared d d' p
unfolding take_item
take_item-ok {d} {version} s t rank h r =
    let (j, c, run, wide, f) = search-ok s.indexed t h rank in pick j c run wide f
  where
    pick :
        (j : ℕ) (c : Cursor)
        → descend 66
            (blocks d)
            t
            (next_power_of_two (blocks d))
            (record { node = 0; rank = rank; bytes = d })
          ≡ ok c
        → blocks d < 0 + 2 ^ j
        → IsFound s.indexed t h rank j (record { node = 0; rank = rank; bytes = d }) c
        → (p : ℕ) × (d' : List ℕ) × (take_item d t rank ≡ ok (p, d'))
          × (tag d p ≡ suc t)
          × (available d t p ≡ rank)
          × IsStocked d' version
          × Cleared d d' p
    pick j c run wide f =
        let i : IsIndexed d (blocks d) = s.indexed in
        let stops : c.node ≢ blocks d =
          λ e. omega (arith, f.ranked, ap (λ (u : ℕ). available d t (64 * u)) e) in
        let b : c.node < blocks d = omega (arith, f.inside) in
        let more : rank < available d t (64 * (c.node + 1)) = ground (arith, f.ends) in
        let (o, look, small, found, ranked) = pick-ok i t h rank j c wide f b more in
        let p : ℕ = c.node * 64 + o in
        let d' : List ℕ = set c.bytes (c.node * 96 + 32 + o) 0 in
        let word : p % 2 ^ 32 ≡ p = omega (arith, i.small) in
        (
          p,
          d',
          rw (
            run,
            ne→not-== c.node (blocks d) stops,
            le→leb (c.node * 96 + 32 + 64) (length c.bytes) (block_room i t h rank j c wide f b),
            look,
            word,
          ),
          found,
          ranked,
          IsStocked-clear d d' p (others-taken i t h rank j c wide f o b small found)
              (gone-taken i t h rank j c wide f o b small found) s
              (IsIndexed-taken i t h rank j c wide f o b small found)
              (length-taken i t h rank j c wide f o b small found),
          Cleared-intro d d' p (others-taken i t h rank j c wide f o b small found)
              (gone-taken i t h rank j c wide f o b small found),
        )

-- On the index of a pool, a rank that is not below the number of available items of the tier makes
-- `take_item` return the invalid item error.
pub take_item_missing :
    {d : List ℕ} {version : ℕ} (s : IsStocked d version) (t rank : ℕ)
    → t < max_tiers
    → available d t (64 * blocks d) ≤ rank
    → take_item d t rank ≡ err (gacha invalid_item)
unfolding take_item
take_item_missing {d} s t rank h r =
    let (j, c, run, wide, f) = search-ok s.indexed t h rank in refuse j c run wide f
  where
    refuse :
        (j : ℕ) (c : Cursor)
        → descend 66
            (blocks d)
            t
            (next_power_of_two (blocks d))
            (record { node = 0; rank = rank; bytes = d })
          ≡ ok c
        → blocks d < 0 + 2 ^ j
        → IsFound s.indexed t h rank j (record { node = 0; rank = rank; bytes = d }) c
        → take_item d t rank ≡ err (gacha invalid_item)
    refuse j c run wide f =
        let e : c.node ≡ blocks d =
          ground
            (arith, f.ends, f.inside, available_mono_le d t (64 * (c.node + 1)) (64 * blocks d)) in
        rw (run, eq→== c.node (blocks d) e)
