-- ===== src/Inventory/Ends.antt =====
-- program/src/inventory.rs: on any bytes, the fuel of every loop of the index is enough. The bytes are
-- fewer than 2^64, as a slice's are.
pub mod Blocks
use solana_gacha.Prelude.{
  ℕ, zero, suc, ◌+◌, ◌-◌, ◌*◌, ◌/◌, ◌%◌, ◌^◌, ◌≤◌, ◌<◌, ◌≡◌, ◌≢◌, ap, ◌∙◌, List, [], ◌∷◌, Bool,
  true, false, Bool-cases, inl, inr, arith, length, get_or, set, take, drop, replicate, leb, ltb,
  ◌==◌, Result, ok, panic, diverge, gacha, invalid_item, Failure, require, ok_or, reject_if,
  add_word, sub_word, checked_sub, Fails, bind-Fails, bind-Fails_run, require-Fails,
  reject_if-Fails, ok_or-Fails, bind-ok, ok-injective, length-set, leb→le, if-Fails, if◌then◌else◌,
  sym, checked_add,
}
use native.Mathlib.Nat.{pow-suc, pow-le-pow_right}
use solana_gacha.Bytes.{length-put_u32}
use solana_gacha.Bits.{low_bit, clear_low_bit}
use solana_gacha.Bits.Lowest.{lowest_bounds, clear_lowest, low_bit-eq-lowest}
use solana_gacha.Core.Constants.{block_len, counts_len, tags_per_block, max_tiers}
use solana_gacha.Inventory.Take.{power_from-ok}
use solana_gacha.Inventory.{
  blocks, count, set_count, add_counts, prefix_loop, prefix_counts, tally_tags, counts, set_counts,
  open_block, raise_nodes, append, Cursor, descend_step, descend, next_power_of_two, find_rank,
  take_item, lower_nodes, remove,
}
use solana_gacha.Inventory.Ends.Blocks.{
  Terminates, IsEnd, panic-IsEnd, refusal-IsEnd, count-Terminates, set_count-Terminates,
  add_word-Terminates, length-set_count, counts-Terminates, open_block-Terminates,
  length-open_block,
}

-- The next node is a later one.
next_node :
    (d : List ℕ) (node : ℕ)
    → length d < 2 ^ 64
    → 0 < node
    → node ≤ blocks d
    → node < node + low_bit node
next_node d node small some inside =
    omega (arith, low_bit-eq-lowest node some (omega arith), lowest_bounds node some)

raise_nodes-Terminates :
    (fuel : ℕ) (d : List ℕ) (node tier : ℕ)
    → length d < 2 ^ 64
    → 0 < node
    → blocks d + 1 < node + fuel
    → 0 < fuel
    → Terminates (raise_nodes fuel d node tier)
unfolding raise_nodes
raise_nodes-Terminates zero d node tier small some enough more = absurd (omega arith)
raise_nodes-Terminates (suc fuel) d node tier small some enough more =
    elim (Bool-cases (leb node (blocks d))) [
      | inr past ↦ rw past tt
      | inl inside ↦
          let later = next_node d node small some (leb→le node (blocks d) inside) in
          rw inside (
            bind-Fails IsEnd (count d node tier) _ (count-Terminates d node tier) (λ n.
              bind-Fails IsEnd (add_word 32 n 1) _ (add_word-Terminates 32 n 1) (λ sum.
                bind-Fails_run IsEnd (set_count d node tier sum) _
                  (set_count-Terminates d node tier sum)
                  (λ d' one.
                    let same = length-set_count d node tier sum one in
                    raise_nodes-Terminates fuel d' (node + low_bit node) tier (omega arith)
                      (omega arith) (omega (arith, leb→le node (blocks d) inside))
                      (omega (arith, leb→le node (blocks d) inside))))))
    ]

lower_nodes-Terminates :
    (fuel : ℕ) (d : List ℕ) (node tier : ℕ)
    → length d < 2 ^ 64
    → 0 < node
    → blocks d + 1 < node + fuel
    → 0 < fuel
    → Terminates (lower_nodes fuel d node tier)
unfolding lower_nodes
lower_nodes-Terminates zero d node tier small some enough more = absurd (omega arith)
lower_nodes-Terminates (suc fuel) d node tier small some enough more =
    elim (Bool-cases (leb node (blocks d))) [
      | inr past ↦ rw past tt
      | inl inside ↦
          let later = next_node d node small some (leb→le node (blocks d) inside) in
          rw inside (
            bind-Fails IsEnd (count d node tier) _ (count-Terminates d node tier) (λ n.
              bind-Fails IsEnd (ok_or (checked_sub n 1) (gacha invalid_item)) _
                (ok_or-Fails IsEnd (checked_sub n 1) (gacha invalid_item) refusal-IsEnd)
                (λ less.
                  bind-Fails_run IsEnd (set_count d node tier less) _
                    (set_count-Terminates d node tier less)
                    (λ d' one.
                      let same = length-set_count d node tier less one in
                      lower_nodes-Terminates fuel d' (node + low_bit node) tier (omega arith)
                        (omega arith) (omega (arith, leb→le node (blocks d) inside))
                        (omega (arith, leb→le node (blocks d) inside))))))
    ]

descend_step-Terminates : (n tier step : ℕ) (c : Cursor) → Terminates (descend_step n tier step c)
unfolding descend_step
descend_step-Terminates n tier step c =
    if-Fails IsEnd (leb (c.node + step) n) _ (ok c)
      (bind-Fails IsEnd (count c.bytes (c.node + step) tier) _
        (count-Terminates c.bytes (c.node + step) tier)
        (λ k. if-Fails IsEnd (leb k c.rank) (ok _) _ tt (
          bind-Fails IsEnd (sub_word k 1) _ (ok_or-Fails IsEnd (checked_sub k 1) panic panic-IsEnd)
            (λ less.
              bind-Fails IsEnd (set_count c.bytes (c.node + step) tier less) _
                (set_count-Terminates c.bytes (c.node + step) tier less) (λ b. tt)))))
      tt

-- The step is halved until it is zero.
descend-Terminates :
    (fuel n tier step : ℕ) (c : Cursor)
    → step < 2 ^ fuel
    → Terminates (descend (suc fuel) n tier step c)
unfolding descend
descend-Terminates zero n tier step c h = let e : step ≡ 0 = omega arith in rw e tt
descend-Terminates (suc fuel) n tier step c h = elim (Bool-cases (step == 0)) [
  | inl done ↦ rw done tt
  | inr more ↦ rw more (
      bind-Fails IsEnd (descend_step n tier step c) _ (descend_step-Terminates n tier step c)
        (λ c'. descend-Terminates fuel n tier (step / 2) c' (omega (arith, pow-suc 2 fuel))))
]

next_power_of_two_small : (n : ℕ) → n ≤ 2 ^ 64 → next_power_of_two n < 2 ^ 65
unfolding next_power_of_two
next_power_of_two_small n h =
    let (k, run, above, top) = power_from-ok 64 0 n (omega arith) in
    let small : 2 ^ k ≤ 2 ^ 64 = pow-le-pow_right {n = 2} (omega arith) {j = 64} (omega arith) in
    omega (arith, run)

take_item-Terminates :
    (d : List ℕ) (tier rank : ℕ) → length d < 2 ^ 64 → Terminates (take_item d tier rank)
unfolding take_item
take_item-Terminates d tier rank small =
    let n = blocks d in
    let start : Cursor = record { node = 0; rank = rank; bytes = d } in
    bind-Fails IsEnd (descend 66 n tier (next_power_of_two n) start) _
      (descend-Terminates 65 n tier (next_power_of_two n) start
        (next_power_of_two_small n (omega arith)))
      (λ c.
        bind-Fails IsEnd (reject_if (c.node == n) (gacha invalid_item)) _
          (reject_if-Fails IsEnd (c.node == n) (gacha invalid_item) refusal-IsEnd)
          (λ u.
            bind-Fails IsEnd
              (require (leb (c.node * block_len + counts_len + tags_per_block) (length c.bytes))
                panic)
              _ (require-Fails IsEnd _ panic panic-IsEnd)
              (λ v.
                bind-Fails IsEnd
                  (ok_or
                    (find_rank
                      (take tags_per_block (drop (c.node * block_len + counts_len) c.bytes)) tier
                      c.rank 0)
                    (gacha invalid_item))
                  _ (ok_or-Fails IsEnd _ (gacha invalid_item) refusal-IsEnd) (λ offset. tt))))

append-Terminates :
    (d : List ℕ) (position tier : ℕ) → length d < 2 ^ 64 → Terminates (append d position tier)
unfolding append
append-Terminates d position tier small =
    let block = position / tags_per_block in
    let opening : Result (List ℕ) =
      if position % tags_per_block == 0 then open_block d block (block + 1) else ok d in
    bind-Fails_run IsEnd opening _
      (if-Fails IsEnd (position % tags_per_block == 0) _ (ok d)
        (open_block-Terminates d block (block + 1)) tt)
      (λ opened run.
        let slot = block * block_len + counts_len + position % tags_per_block in
        let same : length opened ≡ length d = length-opened (position % tags_per_block == 0) run in
        bind-Fails IsEnd (require (ltb slot (length opened)) panic) _
          (require-Fails IsEnd _ panic panic-IsEnd)
          (λ u.
            let kept = length-set opened slot (tier + 1) in
            raise_nodes-Terminates (blocks d + 1) (set opened slot (tier + 1)) (block + 1) tier
              (omega arith) (omega arith) (omega arith) (omega arith)))
  where
    length-opened :
        (b : Bool) {opened : List ℕ}
        → (if b
            then open_block d (position / tags_per_block) (position / tags_per_block + 1)
            else ok d)
          ≡ ok opened
        → length opened ≡ length d
    length-opened true run =
        length-open_block d (position / tags_per_block) (position / tags_per_block + 1) run
    length-opened false run = ap (λ (l : List ℕ). length l) (sym (ok-injective run))

remove-Terminates :
    (d : List ℕ) (position tier : ℕ) → length d < 2 ^ 64 → Terminates (remove d position tier)
unfolding remove
remove-Terminates d position tier small =
    let slot = position / tags_per_block * block_len + counts_len + position % tags_per_block in
    bind-Fails IsEnd (require (ltb slot (length d)) (gacha invalid_item)) _
      (require-Fails IsEnd _ (gacha invalid_item) refusal-IsEnd)
      (λ u.
        bind-Fails IsEnd (require (get_or d slot 0 == tier + 1) (gacha invalid_item)) _
          (require-Fails IsEnd _ (gacha invalid_item) refusal-IsEnd)
          (λ v.
            let same = length-set d slot 0 in
            lower_nodes-Terminates (blocks d + 1) (set d slot 0) (position / tags_per_block + 1)
              tier (omega arith) (omega arith) (omega arith) (omega arith)))

-- On any bytes of fewer than 2^64, `counts`, `append`, `take_item` and `remove` end with a result
-- or an error of the program, and never for want of fuel.
pub operations-Terminates :
    (d : List ℕ) (cutoff position tier rank : ℕ)
    → length d < 2 ^ 64
    → Terminates (counts d cutoff)
      × Terminates (append d position tier)
      × Terminates (take_item d tier rank)
      × Terminates (remove d position tier)
operations-Terminates d cutoff position tier rank small = (
  counts-Terminates d cutoff,
  append-Terminates d position tier small,
  take_item-Terminates d tier rank small,
  remove-Terminates d position tier small,
)
