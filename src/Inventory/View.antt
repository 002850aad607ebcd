-- ===== src/Inventory/View.antt =====
-- What the index stands for: a tag for each position, and for each tier the number of available
-- positions before a cutoff.
use solana_gacha.Prelude.{
  ℕ, zero, suc, ◌+◌, ◌-◌, ◌*◌, ◌/◌, ◌%◌, ◌^◌, ◌≤◌, ◌<◌, ◌≡◌, ◌≢◌, ap, refl, List, [], arith, ◌==◌,
  if◌then◌else◌, ltb, inl, inr, ◌⊎◌, sym, Bool-cases, ==→eq, not-==→ne, ltb→lt, not-ltb→le,
  get_or_out, length, get_or, set, get_or-set_self, get_or-set_ne,
}
use solana_gacha.Core.Constants.{max_tiers, counts_len, tags_per_block, block_len, inventory_space}
use solana_gacha.Bytes.{
  u32_at, put_u32, get_or-put_u32_ne, u32_at-put_u32_self, u32_at-put_u32_ne, u32_at-set_ne,
}
use solana_gacha.Bits.Lowest.{lowest}
use solana_gacha.Inventory.{blocks}

-- The byte of a position, `Pool::tag` of the Rust SDK.
abbrev pub slot : ℕ → ℕ
slot p = p / tags_per_block * block_len + counts_len + p % tags_per_block

unfoldable pub tag : List ℕ → ℕ → ℕ
tag d p = get_or d (slot p) 0

unfoldable pub is_tag : ℕ → ℕ → ℕ
is_tag t x = if x == t + 1 then 1 else 0

-- How many of the first `n` positions hold an available item of tier `t`.
unfoldable pub available : List ℕ → ℕ → ℕ → ℕ
available d t zero = 0
available d t (suc n) = available d t n + is_tag t (tag d n)

unfoldable pub entry : List ℕ → ℕ → ℕ → ℕ
entry d n t = u32_at d ((n - 1) * block_len + t * 4)

-- Whole blocks of well-formed tags, and each of the first `k` nodes counts the blocks that it covers.
pub record IsIndexed (d : List ℕ) (k : ℕ) : Type 0 where
  pub whole : length d ≡ blocks d * block_len
  pub small : blocks d < 2 ^ 26
  pub within : k ≤ blocks d
  pub tags_ok : (p : ℕ) → tag d p ≤ max_tiers
  pub sums :
      (n t : ℕ)
      → 0 < n
      → n ≤ k
      → t < max_tiers
      → entry d n t + available d t (64 * (n - lowest n)) ≡ available d t (64 * n)

-- The index of a pool with `version` lifetime deposits.
pub record IsStocked (d : List ℕ) (version : ℕ) : Type 0 where
  pub indexed : IsIndexed d (blocks d)
  pub sized : length d ≡ inventory_space version
  pub unused : (p : ℕ) → version ≤ p → tag d p ≡ 0

-- The index of a pool without deposits.
pub empty-IsStocked : IsStocked [] 0
unfolding tag is_tag available
empty-IsStocked = record {
  indexed = record {
    whole = refl;
    small = omega arith;
    within = omega arith;
    tags_ok = λ p. omega arith;
    sums = λ n t p b h. absurd (omega arith);
  };
  sized = refl;
  unused = λ p b. refl;
}

is_tag_le : (t x : ℕ) → is_tag t x ≤ 1
unfolding is_tag
is_tag_le t x = ground arith

pub available-le : (d : List ℕ) (t n : ℕ) → available d t n ≤ n
unfolding available
available-le d t zero = omega arith
available-le d t (suc n) = omega (arith, available-le d t n, is_tag_le t (tag d n))

available_mono : (d : List ℕ) (t m k : ℕ) → available d t m ≤ available d t (m + k)
unfolding available
available_mono d t m zero = let e : m + 0 ≡ m = omega arith in rw e (omega arith)
available_mono d t m (suc k) =
    let e : m + suc k ≡ suc (m + k) = omega arith in rw e (omega (arith, available_mono d t m k))

pub available_mono_le : (d : List ℕ) (t m n : ℕ) → m ≤ n → available d t m ≤ available d t n
available_mono_le d t m n h =
    let e : m + (n - m) ≡ n = omega arith in rw e at (available_mono d t m (n - m))

-- Two indexes with the same tags have the same availability.
pub available-ext :
    (d d' : List ℕ) (t n : ℕ)
    → ((p : ℕ) → p < n → tag d' p ≡ tag d p)
    → available d' t n ≡ available d t n
unfolding available
available-ext d d' t zero h = refl
available-ext d d' t (suc n) h =
    omega
      (arith, available-ext d d' t n (λ p b. h p (omega arith)), ap (is_tag t) (h n (omega arith)))

-- Where one position changes, the availability behind it changes by that position.
pub available-update :
    (d d' : List ℕ) (t q : ℕ)
    → ((p : ℕ) → p ≢ q → tag d' p ≡ tag d p)
    → (n : ℕ)
    → available d' t n + (if ltb q n then is_tag t (tag d q) else 0)
      ≡ available d t n + (if ltb q n then is_tag t (tag d' q) else 0)
unfolding available
available-update d d' t q h zero = ground arith
available-update d d' t q h (suc n) = elim (Bool-cases (q == n)) [
  | inl e ↦ ground (
    arith,
    available-update d d' t q h n,
    ap (λ (i : ℕ). is_tag t (tag d i)) (==→eq q n e),
    ap (λ (i : ℕ). is_tag t (tag d' i)) (==→eq q n e),
  )
  | inr e ↦
      ground
        (arith, available-update d d' t q h n, ap (is_tag t) (h n (λ c. not-==→ne q n e (sym c))))
]

-- Writes to the counts, in range.
module _ (d : List ℕ) (n t v : ℕ) (p : 0 < n) (b : n * 96 ≤ length d) (tt8 : t < 8) where
  abbrev pub written : List ℕ
  written = put_u32 d ((n - 1) * block_len + t * 4) v

  pub tag-written : (q : ℕ) → tag written q ≡ tag d q
  unfolding tag
  tag-written q = get_or-put_u32_ne d ((n - 1) * block_len + t * 4) v (slot q) (omega arith)

  pub entry-written_self : v < 2 ^ 32 → entry written n t ≡ v
  unfolding entry
  entry-written_self h = u32_at-put_u32_self d ((n - 1) * block_len + t * 4) v (omega arith) h

  pub entry-written_ne :
      (m u : ℕ) → 0 < m → u < 8 → (m ≢ n) ⊎ (u ≢ t) → entry written m u ≡ entry d m u
  unfolding entry
  entry-written_ne m u pm pu h =
      u32_at-put_u32_ne d ((n - 1) * block_len + t * 4) v ((m - 1) * block_len + u * 4)
        (omega arith)

pub available-add-one :
    (d : List ℕ) (t q : ℕ) → available d t (q + 1) ≡ available d t q + is_tag t (tag d q)
unfolding available
available-add-one d t q = let e : q + 1 ≡ suc q = omega arith in rw e

slot_injective : (p q : ℕ) → slot p ≡ slot q → p ≡ q
slot_injective p q h = omega arith

-- Writing one tag.
pub tag-set_self : (d : List ℕ) (p x : ℕ) → slot p < length d → tag (set d (slot p) x) p ≡ x
unfolding tag
tag-set_self d p x h = get_or-set_self d (slot p) x 0 h

pub tag-set_ne : (d : List ℕ) (p q x : ℕ) → q ≢ p → tag (set d (slot p) x) q ≡ tag d q
unfolding tag
tag-set_ne d p q x h = get_or-set_ne d (slot p) (slot q) x 0 (λ e. h (sym (slot_injective p q e)))

pub entry-set :
    (d : List ℕ) (p x m u : ℕ) → 0 < m → u < max_tiers → entry (set d (slot p) x) m u ≡ entry d m u
unfolding entry
entry-set d p x m u pm hu = u32_at-set_ne d (slot p) x ((m - 1) * block_len + u * 4) (omega arith)

-- A position with a tag lies inside the array.
pub slot_in_range : (d : List ℕ) (p x : ℕ) → tag d p ≡ suc x → slot p < length d
unfolding tag
slot_in_range d p x e = elim (Bool-cases (ltb (slot p) (length d))) [
  | inl h ↦ ltb→lt (slot p) (length d) h
  | inr h ↦ absurd (omega (arith, get_or_out d (slot p) 0 (not-ltb→le (slot p) (length d) h)))
]
