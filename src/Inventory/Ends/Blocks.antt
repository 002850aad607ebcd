-- ===== src/Inventory/Ends/Blocks.antt =====
-- program/src/inventory.rs: the operations on one block, and the walk that adds up a prefix, end without
-- running out of fuel.
use solana_gacha.Prelude.{
  ℕ, zero, suc, ◌+◌, ◌-◌, ◌*◌, ◌/◌, ◌%◌, ◌<◌, ◌≡◌, ◌≢◌, ap, ◌∙◌, List, [], ◌∷◌, Bool-cases, inl,
  inr, arith, length, get_or, set, replicate, leb, ltb, ◌==◌, Result, ok, panic, diverge, gacha,
  invalid_item, Failure, require, add_word, sub_word, checked_sub, Fails, bind-Fails, require-Fails,
  ok_or-Fails, bind-ok, ok-injective, if-Fails, sym, checked_add,
}
use solana_gacha.Bytes.{length-put_u32}
use solana_gacha.Bits.{clear_low_bit}
use solana_gacha.Bits.Lowest.{lowest_bounds, clear_lowest}
use solana_gacha.Core.Constants.{block_len, counts_len, tags_per_block, max_tiers}
use solana_gacha.Inventory.{
  count, set_count, add_counts, prefix_loop, prefix_counts, tally_tags, counts, set_counts,
  open_block,
}

-- A run that does not stop for want of fuel.
abbrev pub Terminates {ℓ} : {A : Type ℓ} → Result A → Type 0
Terminates r = Fails (λ e. e ≢ diverge) r

abbrev pub IsEnd : Failure → Type 0
IsEnd e = e ≢ diverge

pub panic-IsEnd : panic ≢ diverge
panic-IsEnd e = ground arith

pub refusal-IsEnd : gacha invalid_item ≢ diverge
refusal-IsEnd e = ground arith

pub count-Terminates : (d : List ℕ) (node tier : ℕ) → Terminates (count d node tier)
unfolding count
count-Terminates d node tier =
    bind-Fails IsEnd (sub_word node 1) _ (ok_or-Fails IsEnd (checked_sub node 1) panic panic-IsEnd)
      (λ n.
        bind-Fails IsEnd (require (leb (n * block_len + tier * 4 + 4) (length d)) panic) _
          (require-Fails IsEnd _ panic panic-IsEnd) (λ u. tt))

pub set_count-Terminates : (d : List ℕ) (node tier v : ℕ) → Terminates (set_count d node tier v)
unfolding set_count
set_count-Terminates d node tier v =
    bind-Fails IsEnd (sub_word node 1) _ (ok_or-Fails IsEnd (checked_sub node 1) panic panic-IsEnd)
      (λ n.
        bind-Fails IsEnd (require (leb (n * block_len + tier * 4 + 4) (length d)) panic) _
          (require-Fails IsEnd _ panic panic-IsEnd) (λ u. tt))

pub add_word-Terminates : (w a b : ℕ) → Terminates (add_word w a b)
add_word-Terminates w a b = ok_or-Fails IsEnd (checked_add w a b) panic panic-IsEnd

pub length-set_count :
    (d : List ℕ) (node tier v : ℕ) {d' : List ℕ}
    → set_count d node tier v ≡ ok d'
    → length d' ≡ length d
unfolding set_count
length-set_count d node tier v run =
    let (n, one, checked) = bind-ok (sub_word node 1) _ run in
    let (u, room, made) =
      bind-ok (require (leb (n * block_len + tier * 4 + 4) (length d)) panic) _ checked in
    ap (λ (l : List ℕ). length l) (sym (ok-injective made))
    ∙ length-put_u32 d (n * block_len + tier * 4) v

add_counts-Terminates :
    (d : List ℕ) (node tier : ℕ) (cs : List ℕ) → Terminates (add_counts d node tier cs)
unfolding add_counts
add_counts-Terminates d node tier [] = tt
add_counts-Terminates d node tier (c ∷ cs) =
    bind-Fails IsEnd (count d node tier) _ (count-Terminates d node tier) (λ n.
      bind-Fails IsEnd (add_word 32 c n) _ (add_word-Terminates 32 c n) (λ sum.
        bind-Fails IsEnd (add_counts d node (tier + 1) cs) _
          (add_counts-Terminates d node (tier + 1) cs) (λ rest. tt)))

-- Every round of the prefix loop clears a bit.
prefix_loop-Terminates :
    (fuel : ℕ) (d : List ℕ) (node : ℕ) (cs : List ℕ)
    → node < fuel
    → Terminates (prefix_loop fuel d node cs)
unfolding prefix_loop
prefix_loop-Terminates zero d node cs h = absurd (omega arith)
prefix_loop-Terminates (suc fuel) d node cs h = elim (Bool-cases (node == 0)) [
  | inl done ↦ rw done tt
  | inr more ↦
      let some : 0 < node = ground (arith, more) in
      rw more (
        bind-Fails IsEnd (add_counts d node 0 cs) _ (add_counts-Terminates d node 0 cs) (λ sums.
          prefix_loop-Terminates fuel d (clear_low_bit node) sums
            (omega (arith, clear_lowest node some, lowest_bounds node some))))
]

prefix_counts-Terminates : (d : List ℕ) (n : ℕ) → Terminates (prefix_counts d n)
unfolding prefix_counts
prefix_counts-Terminates d n =
    prefix_loop-Terminates (n + 1) d n (replicate max_tiers 0) (omega arith)

tally_tags-Terminates : (tags cs : List ℕ) → Terminates (tally_tags tags cs)
unfolding tally_tags
tally_tags-Terminates [] cs = tt
tally_tags-Terminates (tag ∷ tags) cs = elim (Bool-cases (tag == 0)) [
  | inl empty ↦ rw empty (tally_tags-Terminates tags cs)
  | inr kept ↦ rw kept (
      bind-Fails IsEnd (require (leb tag (length cs)) panic) _
        (require-Fails IsEnd _ panic panic-IsEnd)
        (λ u.
          bind-Fails IsEnd (add_word 32 (get_or cs (tag - 1) 0) 1) _
            (add_word-Terminates 32 (get_or cs (tag - 1) 0) 1)
            (λ sum. tally_tags-Terminates tags (set cs (tag - 1) sum))))
]

pub counts-Terminates : (d : List ℕ) (cutoff : ℕ) → Terminates (counts d cutoff)
unfolding counts
counts-Terminates d cutoff =
    bind-Fails IsEnd (prefix_counts d (cutoff / tags_per_block)) _
      (prefix_counts-Terminates d (cutoff / tags_per_block))
      (λ totals.
        if-Fails IsEnd (ltb 0 (cutoff % tags_per_block)) _ (ok totals)
          (bind-Fails IsEnd
            (require
              (leb (cutoff / tags_per_block * block_len + counts_len + cutoff % tags_per_block)
                (length d))
              panic)
            _ (require-Fails IsEnd _ panic panic-IsEnd) (λ u. tally_tags-Terminates _ totals))
          tt)

set_counts-Terminates :
    (rounds : ℕ) (d : List ℕ) (node tier : ℕ) (end start : List ℕ)
    → Terminates (set_counts rounds d node tier end start)
unfolding set_counts
set_counts-Terminates zero d node tier end start = tt
set_counts-Terminates (suc rounds) d node tier end start =
    bind-Fails IsEnd (sub_word (get_or end tier 0) (get_or start tier 0)) _
      (ok_or-Fails IsEnd (checked_sub (get_or end tier 0) (get_or start tier 0)) panic panic-IsEnd)
      (λ v.
        bind-Fails IsEnd (set_count d node tier v) _ (set_count-Terminates d node tier v)
          (λ d'. set_counts-Terminates rounds d' node (tier + 1) end start))

length-set_counts :
    (rounds : ℕ) (d : List ℕ) (node tier : ℕ) (end start : List ℕ) {d' : List ℕ}
    → set_counts rounds d node tier end start ≡ ok d'
    → length d' ≡ length d
unfolding set_counts
length-set_counts zero d node tier end start run =
    ap (λ (l : List ℕ). length l) (sym (ok-injective run))
length-set_counts (suc rounds) d node tier end start run =
    let (v, difference, written) =
      bind-ok (sub_word (get_or end tier 0) (get_or start tier 0)) _ run in
    let (d', one, rest) = bind-ok (set_count d node tier v) _ written in
    length-set_counts rounds d' node (tier + 1) end start rest ∙ length-set_count d node tier v one

pub open_block-Terminates : (d : List ℕ) (block node : ℕ) → Terminates (open_block d block node)
unfolding open_block
open_block-Terminates d block node =
    bind-Fails IsEnd (prefix_counts d block) _ (prefix_counts-Terminates d block) (λ end.
      bind-Fails IsEnd (prefix_counts d (clear_low_bit node)) _
        (prefix_counts-Terminates d (clear_low_bit node))
        (λ start. set_counts-Terminates max_tiers d node 0 end start))

pub length-open_block :
    (d : List ℕ) (block node : ℕ) {d' : List ℕ}
    → open_block d block node ≡ ok d'
    → length d' ≡ length d
unfolding open_block
length-open_block d block node run =
    let (end, ended, starting) = bind-ok (prefix_counts d block) _ run in
    let (start, started, written) = bind-ok (prefix_counts d (clear_low_bit node)) _ starting in
    length-set_counts max_tiers d node 0 end start written
