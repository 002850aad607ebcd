-- ===== src/Inventory/Positions.antt =====
-- The available positions of a tier as a list, in order: what `take_item` selects from.
use solana_gacha.Prelude.{
  ℕ, zero, suc, ◌+◌, ◌<◌, ◌≡◌, ◌≢◌, ap, sym, refl, ◌∙◌, List, [], ◌∷◌, ◌++◌, ◌==◌, if◌then◌else◌,
  true, false, ltb, ltb→lt, not-ltb→le, arith, Bool-cases, ==→eq, not-==→ne, inl, inr, length,
  length-append, get_or, get_or-append_left,
}
use solana_gacha.Inventory.View.{tag, is_tag, available, available_mono_le, available-add-one}
use solana_gacha.Inventory.Remove.{Cleared}

-- `Vec::remove`
unfoldable pub remove_at : ℕ → List ℕ → List ℕ
remove_at i [] = []
remove_at zero (x ∷ xs) = xs
remove_at (suc i) (x ∷ xs) = x ∷ remove_at i xs

-- The positions below `n` that hold an available item of the tier.
unfoldable pub positions : List ℕ → ℕ → ℕ → List ℕ
positions d t zero = []
positions d t (suc n) = positions d t n ++ (if tag d n == t + 1 then n ∷ [] else [])

pub length-positions : (d : List ℕ) (t n : ℕ) → length (positions d t n) ≡ available d t n
unfolding positions available is_tag
length-positions d t zero = refl
length-positions d t (suc n) = elim (Bool-cases (tag d n == t + 1)) [
  | inl e ↦ rw e (omega (arith, length-append (positions d t n) (n ∷ []), length-positions d t n))
  | inr e ↦ rw e (omega (arith, length-append (positions d t n) [], length-positions d t n))
]

get_or-append_last : (xs : List ℕ) (x : ℕ) → get_or (xs ++ (x ∷ [])) (length xs) 0 ≡ x
get_or-append_last [] x = refl
get_or-append_last (y ∷ xs) x = get_or-append_last xs x

remove_at-append_left :
    (i : ℕ) (xs ys : List ℕ) → i < length xs → remove_at i (xs ++ ys) ≡ remove_at i xs ++ ys
unfolding remove_at
remove_at-append_left i [] ys h = absurd (omega arith)
remove_at-append_left zero (x ∷ xs) ys h = refl
remove_at-append_left (suc i) (x ∷ xs) ys h =
    ap (λ (r : List ℕ). x ∷ r) (remove_at-append_left i xs ys (omega arith))

remove_at-append_last : (xs : List ℕ) (x : ℕ) → remove_at (length xs) (xs ++ (x ∷ [])) ≡ xs
unfolding remove_at
remove_at-append_last [] x = refl
remove_at-append_last (y ∷ xs) x = ap (λ (r : List ℕ). y ∷ r) (remove_at-append_last xs x)

pub append_nil : (xs : List ℕ) → xs ++ [] ≡ xs
append_nil [] = refl
append_nil (x ∷ xs) = ap (λ (r : List ℕ). x ∷ r) (append_nil xs)

is_tag_self : (t x : ℕ) → x ≡ suc t → is_tag t x ≡ 1
unfolding is_tag
is_tag_self t x h = ground arith

-- More items of the tier are available before a later position.
available_less :
    (d : List ℕ) (t p n : ℕ) → tag d p ≡ suc t → p < n → available d t p < available d t n
available_less d t p n here h =
    omega (
      arith,
      available-add-one d t p,
      available_mono_le d t (p + 1) n,
      is_tag_self t (tag d p) here,
    )

-- The item of a tier at a rank stands at that place of the list.
pub get_or-positions :
    (d : List ℕ) (t p n : ℕ)
    → tag d p ≡ suc t
    → p < n
    → get_or (positions d t n) (available d t p) 0 ≡ p
unfolding positions
get_or-positions d t p zero here h = absurd (omega arith)
get_or-positions d t p (suc n) here h = elim (Bool-cases (p == n)) [
  | inl e ↦
      let same : p ≡ n = ==→eq p n e in
      let found : (tag d n == t + 1) ≡ true = ground (arith, ap (tag d) same, here) in
      rw (found, same, sym (length-positions d t n)) (get_or-append_last (positions d t n) n)
  | inr e ↦
      let below : p < n = omega (arith, not-==→ne p n e) in
      get_or-append_left (positions d t n) (if tag d n == t + 1 then n ∷ [] else [])
        (available d t p) 0
        (omega (arith, length-positions d t n, available_less d t p n here below))
      ∙ get_or-positions d t p n here below
]

-- Positions of a tier are told apart by their ranks.
rank_injective :
    (d : List ℕ) (t p q : ℕ)
    → tag d p ≡ suc t
    → tag d q ≡ suc t
    → available d t p ≡ available d t q
    → p ≡ q
rank_injective d t p q hp hq e = elim (Bool-cases (ltb p q)) [
  | inl h ↦ absurd (omega (arith, available_less d t p q hp (ltb→lt p q h)))
  | inr h ↦ elim (Bool-cases (ltb q p)) [
    | inl h' ↦ absurd (omega (arith, available_less d t q p hq (ltb→lt q p h')))
    | inr h' ↦ omega (arith, not-ltb→le p q h, not-ltb→le q p h')
  ]
]

positions-ext :
    (d d' : List ℕ) (t n : ℕ)
    → ((q : ℕ) → q < n → (tag d' q == t + 1) ≡ (tag d q == t + 1))
    → positions d' t n ≡ positions d t n
unfolding positions
positions-ext d d' t zero h = refl
positions-ext d d' t (suc n) h =
    rw (h n (omega arith), positions-ext d d' t n (λ q b. h q (omega arith))) refl

-- Clearing a position removes the entry at its rank from its tier's list,
pub positions-Cleared :
    (d d' : List ℕ) (t p n : ℕ)
    → Cleared d d' p
    → tag d p ≡ suc t
    → p < n
    → positions d' t n ≡ remove_at (available d t p) (positions d t n)
unfolding positions
positions-Cleared d d' t p zero c here h = absurd (omega arith)
positions-Cleared d d' t p (suc n) c here h = elim (Bool-cases (p == n)) [
  | inl e ↦
      let same : p ≡ n = ==→eq p n e in
      let found : (tag d n == t + 1) ≡ true = ground (arith, ap (tag d) same, here) in
      let gone : (tag d' n == t + 1) ≡ false = ground (arith, c n) in
      let others : positions d' t n ≡ positions d t n =
        positions-ext d d' t n (λ q b. ground (arith, c q)) in
      rw (found, gone, others, same, sym (length-positions d t n))
        (append_nil (positions d t n) ∙ sym (remove_at-append_last (positions d t n) n))
  | inr e ↦
      let below : p < n = omega (arith, not-==→ne p n e) in
      let kept : tag d' n ≡ tag d n = ground (arith, c n) in
      rw (kept, positions-Cleared d d' t p n c here below)
        (sym (
          remove_at-append_left (available d t p) (positions d t n)
            (if tag d n == t + 1 then n ∷ [] else [])
            (omega (arith, length-positions d t n, available_less d t p n here below))))
]

-- and leaves the other tiers' lists.
pub positions-Cleared_other :
    (d d' : List ℕ) (t u p n : ℕ)
    → Cleared d d' p
    → tag d p ≡ suc t
    → u ≢ t
    → positions d' u n ≡ positions d u n
positions-Cleared_other d d' t u p n c here ne = positions-ext d d' u n (λ q b.
    elim (Bool-cases (q == p)) [
      | inl e ↦
          let same : tag d q ≡ tag d p = ap (tag d) (==→eq q p e) in
          ground (arith, c q, here, same, ne)
      | inr e ↦ ground (arith, c q, e)
    ])
