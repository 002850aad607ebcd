-- ===== src/Sdk/Batches/Laws.antt =====
-- Grouping keeps every instruction, in order, and every group fits.
use solana_gacha.Prelude.{
  ◌≤◌, ◌<◌, ◌≡◌, ap, sym, refl, ◌∙◌, List, [], ◌∷◌, ◌++◌, ltb, length, ok, ok-injective, arith,
  Bool-cases, inl, inr, not-ltb→le,
}
use solana_gacha.Core.State.{Pubkey}
use solana_gacha.Sdk.{Host, Instruction}
use solana_gacha.Sdk.Batches.{transaction_limit, transaction_size, retain, pack, batches}

-- The groups one after the other.
pub flatten : List (List Instruction) → List Instruction
flatten [] = []
flatten (g ∷ gs) = g ++ flatten gs

-- Every group fits a transaction,
pub IsWithin : Host → Pubkey → List (List Instruction) → Type 0
IsWithin h payer [] = Unit
IsWithin h payer (g ∷ gs) = (transaction_size h payer g ≤ transaction_limit) × IsWithin h payer gs

-- and none is empty.
pub IsFilled : List (List Instruction) → Type 0
IsFilled [] = Unit
IsFilled (g ∷ gs) = (0 < length g) × IsFilled gs

append_assoc : (xs ys zs : List Instruction) → (xs ++ ys) ++ zs ≡ xs ++ (ys ++ zs)
append_assoc [] ys zs = refl
append_assoc (x ∷ xs) ys zs = ap (λ (r : List Instruction). x ∷ r) (append_assoc xs ys zs)

append_nil : (xs : List Instruction) → xs ++ [] ≡ xs
append_nil [] = refl
append_nil (x ∷ xs) = ap (λ (r : List Instruction). x ∷ r) (append_nil xs)

flatten-append :
    (gs : List (List Instruction)) (g : List Instruction)
    → flatten (gs ++ (g ∷ [])) ≡ flatten gs ++ g
unfolding flatten
flatten-append [] g = append_nil g
flatten-append (f ∷ gs) g =
    ap (λ (r : List Instruction). f ++ r) (flatten-append gs g)
    ∙ sym (append_assoc f (flatten gs) g)

flatten-retain : (gs : List (List Instruction)) → flatten (retain gs) ≡ flatten gs
unfolding flatten retain
flatten-retain [] = refl
flatten-retain ([] ∷ gs) = flatten-retain gs
flatten-retain ((i ∷ g) ∷ gs) = ap (λ (r : List Instruction). (i ∷ g) ++ r) (flatten-retain gs)

retain-IsFilled : (gs : List (List Instruction)) → IsFilled (retain gs)
unfolding retain IsFilled
retain-IsFilled [] = tt
retain-IsFilled ([] ∷ gs) = retain-IsFilled gs
retain-IsFilled ((i ∷ g) ∷ gs) = (omega arith, retain-IsFilled gs)

module _ (h : Host) (payer : Pubkey) where
  IsWithin-append :
      (gs : List (List Instruction)) (g : List Instruction)
      → IsWithin h payer gs
      → transaction_size h payer g ≤ transaction_limit
      → IsWithin h payer (gs ++ (g ∷ []))
  unfolding IsWithin
  IsWithin-append [] g w s = (s, tt)
  IsWithin-append (f ∷ gs) g w s = (w.0, IsWithin-append gs g w.1 s)

  IsWithin-retain :
      (gs : List (List Instruction)) → IsWithin h payer gs → IsWithin h payer (retain gs)
  unfolding IsWithin retain
  IsWithin-retain [] w = tt
  IsWithin-retain ([] ∷ gs) w = IsWithin-retain gs w.1
  IsWithin-retain ((i ∷ g) ∷ gs) w = (w.0, IsWithin-retain gs w.1)

  pack-ok :
      (full : List (List Instruction)) (current rest : List Instruction)
      {groups : List (List Instruction)}
      → IsWithin h payer full
      → transaction_size h payer current ≤ transaction_limit
      → pack h payer full current rest ≡ ok groups
      → (flatten groups ≡ flatten full ++ (current ++ rest))
        × IsWithin h payer groups
        × IsFilled groups
  unfolding pack
  pack-ok full current [] {groups} w s run =
      let e : retain (full ++ (current ∷ [])) ≡ groups = ok-injective run in
      rw (← e) (
        flatten-retain (full ++ (current ∷ []))
            ∙ flatten-append full current
            ∙ ap (λ (r : List Instruction). flatten full ++ r) (sym (append_nil current)),
        IsWithin-retain (full ++ (current ∷ [])) (IsWithin-append full current w s),
        retain-IsFilled (full ++ (current ∷ [])),
      )
  pack-ok full current (i ∷ rest) {groups} w s run =
      elim (Bool-cases (ltb transaction_limit (transaction_size h payer (current ++ (i ∷ []))))) [
        | inl over ↦ elim (Bool-cases (ltb transaction_limit (transaction_size h payer (i ∷ [])))) [
          | inl bad ↦ absurd (ground (arith, over, bad))
          | inr fits ↦
              let (kept, within, filled) =
                pack-ok (full ++ (current ∷ [])) (i ∷ []) rest (IsWithin-append full current w s)
                  (not-ltb→le _ _ fits) (rw (over, fits) at run) in
              (
                kept
                    ∙ ap (λ (r : List Instruction). r ++ (i ∷ rest)) (flatten-append full current)
                    ∙ append_assoc (flatten full) current (i ∷ rest),
                within,
                filled,
              )
        ]
        | inr fits ↦
            let (kept, within, filled) =
              pack-ok full (current ++ (i ∷ [])) rest w (not-ltb→le _ _ fits) (rw fits at run) in
            (
              kept
                  ∙ ap (λ (r : List Instruction). flatten full ++ r)
                      (append_assoc current (i ∷ []) rest),
              within,
              filled,
            )
      ]

-- When `batches` succeeds, the groups one after the other are the initial instructions followed by
-- the others in order, the transaction of every group has at most 1232 bytes, and no group is
-- empty.
pub batches-ok :
    (h : Host) (initial instructions : List Instruction) (payer : Pubkey)
    {groups : List (List Instruction)}
    → batches h initial instructions payer ≡ ok groups
    → (flatten groups ≡ initial ++ instructions) × IsWithin h payer groups × IsFilled groups
unfolding batches flatten IsWithin
batches-ok h initial instructions payer run =
    elim (Bool-cases (ltb transaction_limit (transaction_size h payer initial))) [
      | inl bad ↦ absurd (ground (arith, bad))
      | inr fits ↦ pack-ok h payer [] initial instructions tt (not-ltb→le _ _ fits) (rw fits at run)
    ]
