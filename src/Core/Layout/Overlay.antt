-- ===== src/Core/Layout/Overlay.antt =====
-- packages/gacha-core/src/state.rs: a struct that lies over an account's bytes is determined by
-- the record that its getters read.
use solana_gacha.Prelude.{
  ℕ, zero, suc, ◌*◌, ◌≡◌, ap, refl, sym, ◌∙◌, List, [], ◌∷◌, arith, length, get_or, replicate,
  cons-injective,
}
use mathlib.Core.Path.{ap₂}
use solana_gacha.Bytes.{le_bytes}
use solana_gacha.Bytes.Values.{
  le_value, concat, chunks, lengths, AreBytes, AllBytes, le_bytes-le_value, concat-chunks,
  lengths-chunks, chunks-AllBytes,
}
use solana_gacha.Core.Constants.{max_tiers, max_count, tier_len, pool_len, pull_len, outcome_len}
use solana_gacha.Core.Layout.{
  get_byte, all_tier_bytes, pool_widths, pull_widths, pool_bytes, pull_bytes, over_tiers, part,
  over_pool, over_pull, all_tier_views, pool_view, put_key, award_view, all_award_views, pull_view,
}
use solana_gacha.Core.Layout.Laws.{raw_tiers, raw_pool, raw_awards, raw_pull}

-- Bytes of the summed width, read as fields and written again.
part_bytes :
    (fs : List (List ℕ)) (ws : List ℕ) (i : ℕ)
    → lengths fs ≡ ws
    → AllBytes fs
    → le_bytes (get_or ws i 0) (le_value (part fs i)) ≡ part fs i
part_bytes [] [] i e bytes = refl
part_bytes [] (w ∷ ws) i e bytes = absurd (omega (arith, ap length e))
part_bytes (f ∷ fs) [] i e bytes = absurd (omega (arith, ap length e))
part_bytes (f ∷ fs) (w ∷ ws) zero e (small, others) =
    ap (λ n. le_bytes n (le_value f)) (sym ((cons-injective e).0)) ∙ le_bytes-le_value f small
part_bytes (f ∷ fs) (w ∷ ws) (suc i) e (small, others) =
    part_bytes fs ws i (cons-injective e).1 others

part-AreBytes : (fs : List (List ℕ)) (i : ℕ) → AllBytes fs → AreBytes (part fs i)
part-AreBytes [] i bytes = tt
part-AreBytes (f ∷ fs) zero (small, others) = small
part-AreBytes (f ∷ fs) (suc i) (small, others) = part-AreBytes fs i others

byte_value : (f : List ℕ) → length f ≡ 1 → le_value f ≡ get_byte f
byte_value [] h = absurd (omega arith)
byte_value (b ∷ []) h = omega arith
byte_value (b ∷ c ∷ f) h = absurd (omega arith)

tier_bytes_value :
    (d : List ℕ)
    → length d ≡ tier_len
    → AreBytes d
    → concat (all_tier_bytes (raw_tiers (all_tier_views (over_tiers (d ∷ []))))) ≡ d
tier_bytes_value d h bytes =
    let cut = chunks (4 ∷ 4 ∷ []) d in
    let widths : lengths cut ≡ 4 ∷ 4 ∷ [] = lengths-chunks (4 ∷ 4 ∷ []) d h in
    let small : AllBytes cut = chunks-AllBytes (4 ∷ 4 ∷ []) d bytes in
    let weight = part_bytes cut (4 ∷ 4 ∷ []) 0 widths small in
    let left = part_bytes cut (4 ∷ 4 ∷ []) 1 widths small in
    (λ i. concat (weight i ∷ left i ∷ [])) ∙ concat-chunks (4 ∷ 4 ∷ []) d h

tiers_bytes_value :
    (ds : List (List ℕ)) (n : ℕ)
    → lengths ds ≡ replicate n tier_len
    → AllBytes ds
    → all_tier_bytes (raw_tiers (all_tier_views (over_tiers ds))) ≡ ds
tiers_bytes_value [] n e bytes = refl
tiers_bytes_value (d ∷ ds) zero e bytes = absurd (omega (arith, ap length e))
tiers_bytes_value (d ∷ ds) (suc n) e (small, others) =
    let (first, rest) = cons-injective e in
    ap₂ ◌∷◌ (tier_bytes_value d first small) (tiers_bytes_value ds n rest others)

-- The tiers' part of the pool, read and written again.
stored_bytes :
    (d : List ℕ)
    → length d ≡ max_tiers * tier_len
    → AreBytes d
    → concat (
        all_tier_bytes
          (raw_tiers (all_tier_views (over_tiers (chunks (replicate max_tiers tier_len) d)))))
      ≡ d
stored_bytes d h bytes =
    let ws = replicate max_tiers tier_len in
    ap concat (
      tiers_bytes_value (chunks ws d) max_tiers (lengths-chunks ws d h)
        (chunks-AllBytes ws d bytes))
    ∙ concat-chunks ws d h

length-part :
    (fs : List (List ℕ)) (ws : List ℕ) (i : ℕ)
    → lengths fs ≡ ws
    → length (part fs i) ≡ get_or ws i 0
length-part [] [] i e = refl
length-part [] (w ∷ ws) i e = absurd (omega (arith, ap length e))
length-part (f ∷ fs) [] i e = absurd (omega (arith, ap length e))
length-part (f ∷ fs) (w ∷ ws) zero e = (cons-injective e).0
length-part (f ∷ fs) (w ∷ ws) (suc i) e = length-part fs ws i (cons-injective e).1

-- A byte of the header, read and written again.
head_byte :
    (fs : List (List ℕ)) (ws : List ℕ) (i : ℕ)
    → lengths fs ≡ ws
    → AllBytes fs
    → get_or ws i 0 ≡ 1
    → le_bytes 1 (get_byte (part fs i)) ≡ part fs i
head_byte fs ws i e bytes one =
    ap (le_bytes 1) (sym (byte_value (part fs i) (length-part fs ws i e ∙ one)))
    ∙ ap (λ n. le_bytes n (le_value (part fs i))) (sym one)
    ∙ part_bytes fs ws i e bytes

-- An account's bytes of the length of a pool's header, read as a pool by the getters and written
-- back by the setters' encodings, are the same bytes: the record of decoded fields loses nothing
-- of the header.
pub pool_bytes-pool_view :
    (d : List ℕ)
    → length d ≡ pool_len
    → AreBytes d
    → pool_bytes (raw_pool (pool_view (over_pool d))) ≡ d
unfolding pool_bytes over_pool
pool_bytes-pool_view d h bytes =
    let fs = chunks pool_widths d in
    let ws = lengths-chunks pool_widths d h in
    let small : AllBytes fs = chunks-AllBytes pool_widths d bytes in
    let byte : (i : ℕ)
        → get_or pool_widths i 0 ≡ 1
        → le_bytes 1 (get_byte (part fs i)) ≡ part fs i =
      λ i. head_byte fs pool_widths i ws small in
    let field : (i : ℕ) → le_bytes (get_or pool_widths i 0) (le_value (part fs i)) ≡ part fs i =
      λ i. part_bytes fs pool_widths i ws small in
    let stored =
      stored_bytes (part fs 16) (length-part fs pool_widths 16 ws) (part-AreBytes fs 16 small) in
    (λ i. concat (
      byte 0 refl i
      ∷ byte 1 refl i
      ∷ byte 2 refl i
      ∷ byte 3 refl i
      ∷ field 4 i
      ∷ field 5 i
      ∷ field 6 i
      ∷ field 7 i
      ∷ field 8 i
      ∷ field 9 i
      ∷ field 10 i
      ∷ field 11 i
      ∷ field 12 i
      ∷ field 13 i
      ∷ field 14 i
      ∷ field 15 i
      ∷ stored i
      ∷ []))
    ∙ concat-chunks pool_widths d h

award_bytes_value :
    (o : List ℕ)
    → length o ≡ outcome_len
    → AreBytes o
    → get_byte o ∷ put_key (award_view o).asset ≡ o
award_bytes_value [] h small = absurd (omega arith)
award_bytes_value (b ∷ o) h (first, others) =
    let sized : 32 ≡ length o = omega (arith, h) in
    ap (λ (l : List ℕ). b ∷ l)
      (ap (λ n. le_bytes n (le_value o)) sized ∙ le_bytes-le_value o others)

awards_bytes_value :
    (os : List (List ℕ)) (n : ℕ)
    → lengths os ≡ replicate n outcome_len
    → AllBytes os
    → raw_awards (all_award_views os) ≡ os
awards_bytes_value [] n e bytes = refl
awards_bytes_value (o ∷ os) zero e bytes = absurd (omega (arith, ap length e))
awards_bytes_value (o ∷ os) (suc n) e (small, others) =
    let (first, rest) = cons-injective e in
    ap₂ ◌∷◌ (award_bytes_value o first small) (awards_bytes_value os n rest others)

-- An account's bytes of the length of a pull, read as a pull with its ten awards by the getters
-- and written back by the setters' encodings, are the same bytes: the record of decoded fields
-- loses nothing of the pull.
pub pull_bytes-pull_view :
    (d : List ℕ)
    → length d ≡ pull_len
    → AreBytes d
    → pull_bytes (raw_pull (pull_view (over_pull d))) ≡ d
unfolding pull_bytes over_pull
pull_bytes-pull_view d h bytes =
    let fs = chunks pull_widths d in
    let cut = replicate max_count outcome_len in
    let ws = lengths-chunks pull_widths d h in
    let small : AllBytes fs = chunks-AllBytes pull_widths d bytes in
    let byte : (i : ℕ)
        → get_or pull_widths i 0 ≡ 1
        → le_bytes 1 (get_byte (part fs i)) ≡ part fs i =
      λ i. head_byte fs pull_widths i ws small in
    let field : (i : ℕ) → le_bytes (get_or pull_widths i 0) (le_value (part fs i)) ≡ part fs i =
      λ i. part_bytes fs pull_widths i ws small in
    let last : length (part fs 10) ≡ 330 = length-part fs pull_widths 10 ws in
    let stored : concat (raw_awards (all_award_views (chunks cut (part fs 10)))) ≡ part fs 10 =
      ap concat (
        awards_bytes_value (chunks cut (part fs 10)) max_count
          (lengths-chunks cut (part fs 10) last)
          (chunks-AllBytes cut (part fs 10) (part-AreBytes fs 10 small)))
      ∙ concat-chunks cut (part fs 10) last in
    (λ i. concat (
      byte 0 refl i
      ∷ byte 1 refl i
      ∷ byte 2 refl i
      ∷ byte 3 refl i
      ∷ field 4 i
      ∷ field 5 i
      ∷ field 6 i
      ∷ field 7 i
      ∷ field 8 i
      ∷ part fs 9
      ∷ stored i
      ∷ []))
    ∙ concat-chunks pull_widths d h
