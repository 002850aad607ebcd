-- ===== src/Inventory/Append/Laws.antt =====
-- The theorem of `append`.
use solana_gacha.Prelude.{
  ℕ, suc, ◌+◌, ◌*◌, ◌/◌, ◌%◌, ◌^◌, ◌≤◌, ◌<◌, ◌≡◌, ◌≢◌, ◌∙◌, ap, refl, List, arith, ◌==◌,
  if◌then◌else◌, inl, inr, Bool-cases, ==→eq, not-==→ne, lt→ltb, length, set, length-set, ok,
}
use solana_gacha.Core.Constants.{max_tiers, inventory_space}
use solana_gacha.Bits.Cover.{hit}
use solana_gacha.Inventory.{blocks, open_block, raise_nodes, append}
use solana_gacha.Inventory.Nodes.{raise_nodes-ok, hit_le_one}
use solana_gacha.Inventory.Update.{IsIndexed-update}
use solana_gacha.Inventory.View.{
  slot, tag, entry, available-le, IsIndexed, IsStocked, tag-set_self, tag-set_ne, entry-set,
}
use solana_gacha.Inventory.Append.Open.{grow, tag-grow, length-grow, grow-IsIndexed, open_block-ok}

-- `d'` is `d` with the tier's tag at the one position.
abbrev pub Stocked : List ℕ → List ℕ → ℕ → ℕ → Type 0
Stocked d d' p t = (q : ℕ) → tag d' q ≡ (if q == p then suc t else tag d q)

-- The index before the new position's tag is written.
opened :
    {d : List ℕ} {version : ℕ} (s : IsStocked d version)
    → blocks (grow d version) < 2 ^ 26
    → (g : List ℕ) × ((if version % 64 == 0
          then open_block (grow d version) (version / 64) (version / 64 + 1)
          else ok (grow d version))
        ≡ ok g)
      × (length g ≡ length (grow d version))
      × ((p : ℕ) → tag g p ≡ tag d p)
      × IsIndexed g (blocks g)
opened {d} {version} s small =
    let g0 : List ℕ = grow d version in
    let len : length g0 ≡ inventory_space (version + 1) = length-grow d version s.sized in
    let i : IsIndexed g0 (blocks d) = grow-IsIndexed s small in
    elim (Bool-cases (version % 64 == 0)) [
      | inl first ↦
          let z : version % 64 ≡ 0 = ==→eq (version % 64) 0 first in
          let e : blocks d ≡ version / 64 = omega (arith, s.sized) in
          let (g, run, same, tags, indexed) =
            open_block-ok (version / 64) (rw e at i) (omega arith)
              (λ q b. tag-grow d version q ∙ s.unused q (omega arith)) in
          (
            g,
            rw first run,
            same,
            (λ p. tags p ∙ tag-grow d version p),
            rw (ap (λ (n : ℕ). n / 96) same) indexed,
          )
      | inr inner ↦
          let nz : version % 64 ≢ 0 = not-==→ne (version % 64) 0 inner in
          let e : blocks d ≡ blocks g0 = omega (arith, s.sized) in
          (g0, rw inner refl, refl, tag-grow d version, rw e at i)
    ]

entry_room :
    {d : List ℕ} (i : IsIndexed d (blocks d)) (m t j : ℕ)
    → 0 < m
    → m ≤ blocks d
    → t < max_tiers
    → entry d m t + hit m j < 2 ^ 32
entry_room {d} i m t j pm bm h =
    omega (arith, i.sums m t pm bm h, available-le d t (64 * m), i.small, hit_le_one m j)

-- Writing the tag of an empty position and raising its nodes.
place-ok :
    {g : List ℕ} (i : IsIndexed g (blocks g)) (p t : ℕ)
    → t < max_tiers
    → slot p < length g
    → tag g p ≡ 0
    → (d' : List ℕ) × (raise_nodes (blocks g + 1) (set g (slot p) (t + 1)) (p / 64 + 1) t ≡ ok d')
      × (length d' ≡ length g)
      × Stocked g d' p t
      × IsIndexed d' (blocks g)
place-ok {g} i p t h inside empty =
    let g1 : List ℕ = set g (slot p) (t + 1) in
    let len : length g1 ≡ length g = length-set g (slot p) (t + 1) in
    let same : blocks g1 ≡ blocks g = ap (λ (n : ℕ). n / 96) len in
    let old : (m u : ℕ) → 0 < m → u < max_tiers → entry g1 m u ≡ entry g m u =
      entry-set g p (t + 1) in
    let room : (m : ℕ) → 0 < m → m ≤ blocks g1 → entry g1 m t + hit m (p / 64 + 1) < 2 ^ 32 =
      λ m pm bm. rw (old m t pm h) (entry_room i m t (p / 64 + 1) pm (rw (← same) bm) h) in
    let (d', run, up) =
      raise_nodes-ok (blocks g + 1) g1 (p / 64 + 1) t (omega arith) (rw same (omega arith))
        (omega arith) h (rw same i.small) room in
    let others : (q : ℕ) → q ≢ p → tag d' q ≡ tag g q =
      λ q ne. up.same_tags q ∙ tag-set_ne g p q (t + 1) ne in
    let new : tag d' p ≡ t + 1 = up.same_tags p ∙ tag-set_self g p (t + 1) inside in
    (
      d',
      run,
      up.same_length ∙ len,
      (λ q. elim (Bool-cases (q == p)) [
        | inl e ↦ rw e (ap (tag d') (==→eq q p e) ∙ new ∙ omega arith)
        | inr e ↦ rw e (others q (not-==→ne q p e))
      ]),
      IsIndexed-update i p (up.same_length ∙ len) others (omega arith) (λ m u pm bm hu.
          ground (arith, up.entries m u pm (rw same bm) hu, old m u pm hu, new, empty)),
    )

-- On the index of a pool with `version` deposits, below 2^26 blocks after it has grown, `append`
-- at position `version` with a tier below 8 succeeds, stores the tier's tag there, changes no
-- other tag, and leaves a well-formed index of `version + 1` deposits.
pub append-ok :
    {d : List ℕ} {version : ℕ} (s : IsStocked d version) (t : ℕ)
    → t < max_tiers
    → blocks (grow d version) < 2 ^ 26
    → (d' : List ℕ) × (append (grow d version) version t ≡ ok d')
      × IsStocked d' (version + 1)
      × Stocked d d' version t
unfolding append
append-ok {d} {version} s t h small =
    let (g, run, same, tags, i) = opened s small in
    let len : length g ≡ inventory_space (version + 1) = same ∙ length-grow d version s.sized in
    let inside : slot version < length g = omega arith in
    let (d', raised, len', placed, indexed) =
      place-ok i version t h inside (tags version ∙ s.unused version (omega arith)) in
    let fuel : blocks g ≡ blocks (grow d version) = ap (λ (n : ℕ). n / 96) same in
    (
      d',
      rw (run, lt→ltb (slot version) (length g) inside) (rw fuel at raised),
      record {
        indexed = rw (ap (λ (n : ℕ). n / 96) len') indexed;
        sized = len' ∙ len;
        unused = λ q b. placed q ∙ ground (arith, tags q, s.unused q (omega arith));
      },
      (λ q. placed q ∙ ground (arith, tags q)),
    )
