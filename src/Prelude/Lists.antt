-- ===== src/Prelude/Lists.antt =====
-- Lists measured and indexed by native numbers.
use Prim.Native.Nat.{ℕ, zero, suc, ◌+◌, ◌≤◌, ◌<◌}
use mathlib.Core.Path.{◌≡◌, refl, ap, ap₂, ◌∙◌}
use mathlib.Core.Logic.{◌≢◌}
use mathlib.Core.List.{List, [], ◌∷◌, ◌++◌}
use native.Mathlib.Omega.{arith}
use solana_gacha.Prelude.Tests.{◌==◌, if◌then◌else◌}

module _ {ℓ} {A : Type ℓ} where
  abbrev pub length : List A → ℕ
  length [] = 0
  length (x ∷ xs) = suc (length xs)

  abbrev pub get_or : List A → ℕ → A → A
  get_or [] i d = d
  get_or (x ∷ xs) zero d = x
  get_or (x ∷ xs) (suc i) d = get_or xs i d

  -- A write out of bounds changes nothing.
  abbrev pub set : List A → ℕ → A → List A
  set [] i v = []
  set (x ∷ xs) zero v = v ∷ xs
  set (x ∷ xs) (suc i) v = x ∷ set xs i v

  abbrev pub take : ℕ → List A → List A
  take zero xs = []
  take (suc n) [] = []
  take (suc n) (x ∷ xs) = x ∷ take n xs

  abbrev pub drop : ℕ → List A → List A
  drop zero xs = xs
  drop (suc n) [] = []
  drop (suc n) (x ∷ xs) = drop n xs

  abbrev pub replicate : ℕ → A → List A
  replicate zero a = []
  replicate (suc n) a = a ∷ replicate n a

  pub length-set : (xs : List A) (i : ℕ) (v : A) → length (set xs i v) ≡ length xs
  length-set [] i v = refl
  length-set (x ∷ xs) zero v = refl
  length-set (x ∷ xs) (suc i) v = ap suc (length-set xs i v)

  pub get_or-set_self :
      (xs : List A) (i : ℕ) (v d : A) → i < length xs → get_or (set xs i v) i d ≡ v
  get_or-set_self [] i v d h = absurd (omega arith)
  get_or-set_self (x ∷ xs) zero v d h = refl
  get_or-set_self (x ∷ xs) (suc i) v d h = get_or-set_self xs i v d (omega arith)

  pub get_or-set_ne :
      (xs : List A) (i j : ℕ) (v d : A) → i ≢ j → get_or (set xs i v) j d ≡ get_or xs j d
  get_or-set_ne [] i j v d h = refl
  get_or-set_ne (x ∷ xs) zero zero v d h = absurd (h refl)
  get_or-set_ne (x ∷ xs) zero (suc j) v d h = refl
  get_or-set_ne (x ∷ xs) (suc i) zero v d h = refl
  get_or-set_ne (x ∷ xs) (suc i) (suc j) v d h = get_or-set_ne xs i j v d (λ e. h (ap suc e))

  pub length-append : (xs ys : List A) → length (xs ++ ys) ≡ length xs + length ys
  length-append [] ys = omega arith
  length-append (x ∷ xs) ys = omega (arith, length-append xs ys)

  pub length-replicate : (n : ℕ) (a : A) → length (replicate n a) ≡ n
  length-replicate zero a = refl
  length-replicate (suc n) a = ap suc (length-replicate n a)

  pub get_or-append_left :
      (xs ys : List A) (i : ℕ) (d : A) → i < length xs → get_or (xs ++ ys) i d ≡ get_or xs i d
  get_or-append_left [] ys i d h = absurd (omega arith)
  get_or-append_left (x ∷ xs) ys zero d h = refl
  get_or-append_left (x ∷ xs) ys (suc i) d h = get_or-append_left xs ys i d (omega arith)

  pub get_or-replicate : (n i : ℕ) (a : A) → get_or (replicate n a) i a ≡ a
  get_or-replicate zero i a = refl
  get_or-replicate (suc n) zero a = refl
  get_or-replicate (suc n) (suc i) a = get_or-replicate n i a

  pub get_or_out : (xs : List A) (i : ℕ) (d : A) → length xs ≤ i → get_or xs i d ≡ d
  get_or_out [] i d h = refl
  get_or_out (x ∷ xs) zero d h = absurd (omega arith)
  get_or_out (x ∷ xs) (suc i) d h = get_or_out xs i d (omega arith)

  -- Padding a list with the default value does not change what is read.
  pub get_or-append-replicate :
      (xs : List A) (n i : ℕ) (d : A) → get_or (xs ++ replicate n d) i d ≡ get_or xs i d
  get_or-append-replicate [] n i d = get_or-replicate n i d
  get_or-append-replicate (x ∷ xs) n zero d = refl
  get_or-append-replicate (x ∷ xs) n (suc i) d = get_or-append-replicate xs n i d

  pub drop-cons :
      (xs : List A) (i : ℕ) (d : A) → i < length xs → drop i xs ≡ get_or xs i d ∷ drop (suc i) xs
  drop-cons [] i d h = absurd (omega arith)
  drop-cons (x ∷ xs) zero d h = refl
  drop-cons (x ∷ xs) (suc i) d h = drop-cons xs i d (omega arith)

  -- The list of the values of a function from `k` on.
  abbrev pub tabulate : (ℕ → A) → ℕ → ℕ → List A
  tabulate f k zero = []
  tabulate f k (suc n) = f k ∷ tabulate f (suc k) n

  pub tabulate-ext :
      (f g : ℕ → A) (k n : ℕ) → ((t : ℕ) → t < k + n → f t ≡ g t) → tabulate f k n ≡ tabulate g k n
  tabulate-ext f g k zero h = refl
  tabulate-ext f g k (suc n) h =
      ap₂ ◌∷◌ (h k (omega arith)) (tabulate-ext f g (suc k) n (λ t b. h t (omega arith)))

  pub get_or-tabulate :
      (f : ℕ → A) (k n i : ℕ) (d : A) → i < n → get_or (tabulate f k n) i d ≡ f (k + i)
  get_or-tabulate f k zero i d h = absurd (omega arith)
  get_or-tabulate f k (suc n) zero d h = ap f (omega arith)
  get_or-tabulate f k (suc n) (suc i) d h =
      get_or-tabulate f (suc k) n i d (omega arith) ∙ ap f (omega arith)

  pub set-tabulate :
      (f : ℕ → A) (k n i : ℕ) (v : A)
      → set (tabulate f k n) i v ≡ tabulate (λ t. if t == k + i then v else f t) k n
  set-tabulate f k zero i v = refl
  set-tabulate f k (suc n) zero v = ap₂ ◌∷◌ (ground arith) (tabulate_above f k k n v (omega arith))
    where
      tabulate_above :
          (f : ℕ → A) (j k n : ℕ) (v : A)
          → j ≤ k
          → tabulate f (suc k) n ≡ tabulate (λ t. if t == j + 0 then v else f t) (suc k) n
      tabulate_above f j k zero v h = refl
      tabulate_above f j k (suc n) v h =
          ap₂ ◌∷◌ (ground arith) (tabulate_above f j (suc k) n v (omega arith))
  set-tabulate f k (suc n) (suc i) v = ap₂ ◌∷◌ (ground arith) (
      set-tabulate f (suc k) n i v
      ∙ tabulate-ext (λ t. if t == suc k + i then v else f t)
          (λ t. if t == k + suc i then v else f t) (suc k) n (λ t h. ground arith))

  pub cons-injective : {x y : A} {xs ys : List A} → x ∷ xs ≡ y ∷ ys → (x ≡ y) × (xs ≡ ys)
  cons-injective {x} e = (ap (λ (l : List A). get_or l 0 x) e, ap (λ (l : List A). drop 1 l) e)

  -- Equal lists with first parts of one length have equal parts.
  pub append-injective :
      (xs ys : List A) {zs ws : List A}
      → length xs ≡ length ys
      → xs ++ zs ≡ ys ++ ws
      → (xs ≡ ys) × (zs ≡ ws)
  append-injective [] [] h e = (refl, e)
  append-injective [] (y ∷ ys) h e = absurd (omega arith)
  append-injective (x ∷ xs) [] h e = absurd (omega arith)
  append-injective (x ∷ xs) (y ∷ ys) h e =
      let (first, others) = cons-injective e in
      let (same, left) = append-injective xs ys (omega arith) others in (ap₂ ◌∷◌ first same, left)
