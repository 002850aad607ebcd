-- ===== src/Inventory/Append/Open.antt =====
-- The array after `DepositItem` has extended it, and the counts of a new block's node.
use solana_gacha.Prelude.{
  ℕ, zero, suc, ◌+◌, ◌-◌, ◌*◌, ◌/◌, ◌^◌, ◌≤◌, ◌<◌, ◌≡◌, ◌≢◌, ◌∙◌, ap, refl, sym, List, arith, ◌==◌,
  if◌then◌else◌, leb, inl, inr, Bool-cases, ==→eq, not-==→ne, le→leb, length, get_or, ◌++◌,
  replicate, length-append, length-replicate, get_or-append-replicate, get_or-tabulate, tabulate,
  ok, ◌&&◌,
}
use solana_gacha.Core.Constants.{max_tiers, block_len, inventory_space}
use solana_gacha.Bytes.{u32_at, length-put_u32}
use solana_gacha.Bits.{clear_low_bit}
use solana_gacha.Bits.Lowest.{lowest, lowest_bounds, clear_lowest}
use solana_gacha.Inventory.{blocks, set_counts, open_block}
use solana_gacha.Inventory.Counts.{prefix_counts-ok}
use solana_gacha.Inventory.Nodes.{set_count-ok, next_bytes, entry-next_bytes}
use solana_gacha.Inventory.View.{
  slot, tag, is_tag, entry, available, available-le, available-ext, available_mono_le, IsIndexed,
  IsStocked, tag-written,
}

-- `pool_account.realloc(space, false)`: the runtime fills the new bytes with zeros.
abbrev pub grow : List ℕ → ℕ → List ℕ
grow d version = d ++ replicate (inventory_space (version + 1) - length d) 0

pub tag-grow : (d : List ℕ) (version q : ℕ) → tag (grow d version) q ≡ tag d q
unfolding tag
tag-grow d version q =
    get_or-append-replicate d (inventory_space (version + 1) - length d) (slot q) 0

entry-grow : (d : List ℕ) (version m u : ℕ) → entry (grow d version) m u ≡ entry d m u
unfolding entry u32_at
entry-grow d version m u =
    let n : ℕ = inventory_space (version + 1) - length d in
    let s : ℕ = (m - 1) * block_len + u * 4 in
    omega (
      arith,
      get_or-append-replicate d n s 0,
      get_or-append-replicate d n (s + 1) 0,
      get_or-append-replicate d n (s + 2) 0,
      get_or-append-replicate d n (s + 3) 0,
    )

pub length-grow :
    (d : List ℕ) (version : ℕ)
    → length d ≡ inventory_space version
    → length (grow d version) ≡ inventory_space (version + 1)
length-grow d version sized =
    let n : ℕ = inventory_space (version + 1) - length d in
    let a : length (d ++ replicate n 0) ≡ length d + length (replicate {A = ℕ} n 0) =
      length-append d (replicate n 0) in
    let b : length (replicate {A = ℕ} n 0) ≡ n = length-replicate n 0 in omega arith

-- The blocks that were there before keep their nodes.
pub grow-IsIndexed :
    {d : List ℕ} {version : ℕ} (s : IsStocked d version)
    → blocks (grow d version) < 2 ^ 26
    → IsIndexed (grow d version) (blocks d)
grow-IsIndexed {d} {version} s small =
    let g : List ℕ = grow d version in
    let len : length g ≡ inventory_space (version + 1) = length-grow d version s.sized in
    let same : (u n : ℕ) → available g u n ≡ available d u n =
      λ u n. available-ext d g u n (λ p b. tag-grow d version p) in
    record {
      whole = omega arith;
      small = small;
      within = omega (arith, s.sized);
      tags_ok = λ p. rw (tag-grow d version p) (s.indexed.tags_ok p);
      sums = λ m u pm bm hu. omega (
        arith,
        s.indexed.sums m u pm bm hu,
        entry-grow d version m u,
        same u (64 * (m - lowest m)),
        same u (64 * m),
      );
    }

-- Behind the last deposit nothing is available.
available_unused :
    (d : List ℕ) (t a : ℕ)
    → ((q : ℕ) → a ≤ q → tag d q ≡ 0)
    → (k : ℕ) → available d t (a + k) ≡ available d t a
unfolding available is_tag
available_unused d t a h zero = let e : a + 0 ≡ a = omega arith in rw e
available_unused d t a h (suc k) =
    let e : a + suc k ≡ suc (a + k) = omega arith in
    rw e (ground (arith, available_unused d t a h k, h (a + k) (omega arith)))

-- The loop that writes a node's counts.
set_counts-ok :
    (rounds k : ℕ) (d : List ℕ) (n : ℕ) (f g : ℕ → ℕ)
    → k + rounds ≡ max_tiers
    → 0 < n
    → n ≤ blocks d
    → ((u : ℕ) → u < max_tiers → (g u ≤ f u) × (f u < 2 ^ 32))
    → (d' : List ℕ) × (set_counts rounds d n k (tabulate f 0 max_tiers) (tabulate g 0 max_tiers)
        ≡ ok d')
      × (length d' ≡ length d)
      × ((p : ℕ) → tag d' p ≡ tag d p)
      × ((m u : ℕ)
          → 0 < m
          → u < max_tiers
          → entry d' m u ≡ (if m == n && leb k u then f u - g u else entry d m u))
unfolding set_counts
set_counts-ok zero k d n f g e p b small = (d, refl, refl, (λ p. refl), (λ m u pm hu. ground arith))
set_counts-ok (suc rounds) k d n f g e p b small =
    let z : 0 + k ≡ k = omega arith in
    let hk : k < max_tiers = omega arith in
    let rf : get_or (tabulate f 0 8) k 0 ≡ f k = get_or-tabulate f 0 8 k 0 hk ∙ ap f z in
    let rg : get_or (tabulate g 0 8) k 0 ≡ g k = get_or-tabulate g 0 8 k 0 hk ∙ ap g z in
    let v : ℕ = f k - g k in
    let v_small : v < 2 ^ 32 = omega (arith, small k hk) in
    let d1 : List ℕ = next_bytes d n k v p b hk in
    let len : length d1 ≡ length d = length-put_u32 d ((n - 1) * block_len + k * 4) v in
    let same : blocks d1 ≡ blocks d = ap (λ (x : ℕ). x / 96) len in
    let (d', run, len', tags, entries) =
      set_counts-ok rounds (k + 1) d1 n f g (omega arith) p (rw same b) small in
    (
      d',
      rw (rf, rg, le→leb (g k) (f k) (small k hk).0, set_count-ok d n k v p (omega arith) hk) run,
      len' ∙ len,
      (λ q. tags q ∙ tag-written d n k v p (omega arith) hk q),
      (λ m u pm hu. ground (
        arith,
        entries m u pm hu,
        entry-next_bytes d n k v p b hk m u v_small pm hu,
        (λ (x : u ≡ k). ap f x),
        (λ (x : u ≡ k). ap g x),
      )),
    )

-- Opening a block gives its node the count of the older blocks that it covers; its own block is empty.
pub open_block-ok :
    {d : List ℕ} (n : ℕ) (i : IsIndexed d n)
    → n + 1 ≡ blocks d
    → ((q : ℕ) → 64 * n ≤ q → tag d q ≡ 0)
    → (d' : List ℕ) × (open_block d n (n + 1) ≡ ok d')
      × (length d' ≡ length d)
      × ((p : ℕ) → tag d' p ≡ tag d p)
      × IsIndexed d' (blocks d)
unfolding open_block
open_block-ok {d} n i e empty =
    let pos : 0 < n + 1 = omega arith in
    let m0 : ℕ = clear_low_bit (n + 1) in
    let start : m0 ≡ n + 1 - lowest (n + 1) = omega (arith, clear_lowest (n + 1) pos) in
    let within : m0 ≤ n = omega (arith, lowest_bounds (n + 1) pos) in
    let f : ℕ → ℕ = λ t. available d t (64 * n) in
    let g : ℕ → ℕ = λ t. available d t (64 * m0) in
    let bounds : (u : ℕ) → u < max_tiers → (g u ≤ f u) × (f u < 2 ^ 32) = λ u hu. (
      available_mono_le d u (64 * m0) (64 * n) (omega arith),
      omega (arith, available-le d u (64 * n), i.small),
    ) in
    let (d', run, len, tags, entries) =
      set_counts-ok 8 0 d (n + 1) f g (omega arith) pos (omega arith) bounds in
    let same : (u x : ℕ) → available d' u x ≡ available d u x =
      λ u x. available-ext d d' u x (λ p b. tags p) in
    let full : (u : ℕ) → available d u (64 * (n + 1)) ≡ f u =
      λ u. ap (available d u) (omega arith) ∙ available_unused d u (64 * n) empty 64 in
    (
      d',
      rw (prefix_counts-ok i n (omega arith), prefix_counts-ok i m0 within) run,
      len,
      tags,
      record {
        whole = rw len i.whole;
        small = rw len i.small;
        within = rw len (omega arith);
        tags_ok = λ p. rw (tags p) (i.tags_ok p);
        sums = λ m u pm bm hu.
            rw (same u (64 * (m - lowest m)), same u (64 * m))
              (elim (Bool-cases (m == n + 1)) [
                | inl last ↦
                    let em : m ≡ n + 1 = ==→eq m (n + 1) last in
                    let read : entry d' m u ≡ f u - g u = ground (arith, entries m u pm hu) in
                    let low : m - lowest m ≡ m0 = rw em (sym start) in
                    rw (read, low) (rw em (omega (arith, full u, bounds u hu)))
                | inr older ↦
                    let ne : m ≢ n + 1 = not-==→ne m (n + 1) older in
                    let read : entry d' m u ≡ entry d m u = ground (arith, entries m u pm hu) in
                    rw read (i.sums m u pm (omega arith) hu)
              ]);
      },
    )
