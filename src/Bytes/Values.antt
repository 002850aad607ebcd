-- ===== src/Bytes/Values.antt =====
-- Little-endian numbers of any width, and byte arrays cut into fields of given widths: the
-- `from_le_bytes` of a field, and the layout of a `repr(C)` struct whose fields have alignment 1.
use solana_gacha.Prelude.{
  ℕ, zero, suc, ◌+◌, ◌*◌, ◌/◌, ◌≤◌, ◌<◌, ◌≡◌, ap, refl, ◌∙◌, List, [], ◌∷◌, ◌++◌, arith, length,
  get_or, take, drop, length-append,
}
use mathlib.Core.Path.{ap₂}
use solana_gacha.Bytes.{le_bytes, byte_limit}

-- `from_le_bytes`
abbrev pub le_value : List ℕ → ℕ
le_value [] = 0
le_value (b ∷ bs) = b + 256 * le_value bs

abbrev pub AreBytes : List ℕ → Type 0
AreBytes [] = Unit {0}
AreBytes (b ∷ bs) = (b < 256) × AreBytes bs

pub le_value-le_bytes : (n v : ℕ) → v < byte_limit n → le_value (le_bytes n v) ≡ v
le_value-le_bytes zero v h = omega arith
le_value-le_bytes (suc n) v h = omega (arith, le_value-le_bytes n (v / 256) (omega arith))

pub le_bytes-le_value : (bs : List ℕ) → AreBytes bs → le_bytes (length bs) (le_value bs) ≡ bs
le_bytes-le_value [] h = refl
le_bytes-le_value (b ∷ bs) (small, others) =
    let rest : (b + 256 * le_value bs) / 256 ≡ le_value bs = omega arith in
    ap₂ ◌∷◌ (omega arith) (ap (le_bytes (length bs)) rest ∙ le_bytes-le_value bs others)

pub le_bytes-AreBytes : (n v : ℕ) → AreBytes (le_bytes n v)
le_bytes-AreBytes zero v = tt
le_bytes-AreBytes (suc n) v = (omega arith, le_bytes-AreBytes n (v / 256))

module _ {ℓ} {A : Type ℓ} where
  pub take-append : (xs ys : List A) → take (length xs) (xs ++ ys) ≡ xs
  take-append [] ys = refl
  take-append (x ∷ xs) ys = ap (λ (l : List A). x ∷ l) (take-append xs ys)

  pub drop-append : (xs ys : List A) → drop (length xs) (xs ++ ys) ≡ ys
  drop-append [] ys = refl
  drop-append (x ∷ xs) ys = drop-append xs ys

  pub get_or-append_right :
      (xs ys : List A) (n i : ℕ) (d : A) → n ≡ length xs + i → get_or (xs ++ ys) n d ≡ get_or ys i d
  get_or-append_right [] ys n i d h = ap (λ k. get_or ys k d) (omega arith)
  get_or-append_right (x ∷ xs) ys zero i d h = absurd (omega arith)
  get_or-append_right (x ∷ xs) ys (suc n) i d h = get_or-append_right xs ys n i d (omega arith)

  pub drop-append_right :
      (xs ys : List A) (n i : ℕ) → n ≡ length xs + i → drop n (xs ++ ys) ≡ drop i ys
  drop-append_right [] ys n i h = ap (λ k. drop k ys) (omega arith)
  drop-append_right (x ∷ xs) ys zero i h = absurd (omega arith)
  drop-append_right (x ∷ xs) ys (suc n) i h = drop-append_right xs ys n i (omega arith)

  pub length-take : (n : ℕ) (xs : List A) → n ≤ length xs → length (take n xs) ≡ n
  length-take zero xs h = refl
  length-take (suc n) [] h = absurd (omega arith)
  length-take (suc n) (x ∷ xs) h = ap suc (length-take n xs (omega arith))

  pub length-drop : (n k : ℕ) (xs : List A) → length xs ≡ n + k → length (drop n xs) ≡ k
  length-drop zero k xs h = omega (arith, h)
  length-drop (suc n) k [] h = absurd (omega arith)
  length-drop (suc n) k (x ∷ xs) h = length-drop n k xs (omega arith)

  pub append-take-drop : (n : ℕ) (xs : List A) → take n xs ++ drop n xs ≡ xs
  append-take-drop zero xs = refl
  append-take-drop (suc n) [] = refl
  append-take-drop (suc n) (x ∷ xs) = ap (λ (l : List A). x ∷ l) (append-take-drop n xs)

-- Fields one after the other, the bytes cut at given widths, and the widths of fields.
abbrev pub concat : List (List ℕ) → List ℕ
concat [] = []
concat (f ∷ fs) = f ++ concat fs

abbrev pub chunks : List ℕ → List ℕ → List (List ℕ)
chunks [] d = []
chunks (w ∷ ws) d = take w d ∷ chunks ws (drop w d)

abbrev pub lengths : List (List ℕ) → List ℕ
lengths [] = []
lengths (f ∷ fs) = length f ∷ lengths fs

abbrev pub sum : List ℕ → ℕ
sum [] = 0
sum (w ∷ ws) = w + sum ws

pub chunks-concat : (fs : List (List ℕ)) → chunks (lengths fs) (concat fs) ≡ fs
chunks-concat [] = refl
chunks-concat (f ∷ fs) =
    ap₂ ◌∷◌ (take-append f (concat fs))
      (ap (chunks (lengths fs)) (drop-append f (concat fs)) ∙ chunks-concat fs)

pub concat-chunks : (ws d : List ℕ) → length d ≡ sum ws → concat (chunks ws d) ≡ d
concat-chunks [] [] h = refl
concat-chunks [] (b ∷ d) h = absurd (omega arith)
concat-chunks (w ∷ ws) d h =
    ap (λ (l : List ℕ). take w d ++ l) (concat-chunks ws (drop w d) (length-drop w (sum ws) d h))
    ∙ append-take-drop w d

pub lengths-chunks : (ws d : List ℕ) → length d ≡ sum ws → lengths (chunks ws d) ≡ ws
lengths-chunks [] d h = refl
lengths-chunks (w ∷ ws) d h =
    ap₂ ◌∷◌ (length-take w d (omega arith))
      (lengths-chunks ws (drop w d) (length-drop w (sum ws) d h))

pub length-concat : (fs : List (List ℕ)) → length (concat fs) ≡ sum (lengths fs)
length-concat [] = refl
length-concat (f ∷ fs) = length-append f (concat fs) ∙ ap (λ n. length f + n) (length-concat fs)

take-AreBytes : (n : ℕ) (d : List ℕ) → AreBytes d → AreBytes (take n d)
take-AreBytes zero d h = tt
take-AreBytes (suc n) [] h = tt
take-AreBytes (suc n) (b ∷ d) (small, others) = (small, take-AreBytes n d others)

drop-AreBytes : (n : ℕ) (d : List ℕ) → AreBytes d → AreBytes (drop n d)
drop-AreBytes zero d h = h
drop-AreBytes (suc n) [] h = tt
drop-AreBytes (suc n) (b ∷ d) (small, others) = drop-AreBytes n d others

abbrev pub AllBytes : List (List ℕ) → Type 0
AllBytes [] = Unit {0}
AllBytes (f ∷ fs) = AreBytes f × AllBytes fs

pub chunks-AllBytes : (ws d : List ℕ) → AreBytes d → AllBytes (chunks ws d)
chunks-AllBytes [] d h = tt
chunks-AllBytes (w ∷ ws) d h =
    (take-AreBytes w d h, chunks-AllBytes ws (drop w d) (drop-AreBytes w d h))
