-- ===== src/Inventory/Tests.antt =====
-- Runs of the index of program/src/inventory.rs on concrete bytes, and its theorems at them.
use solana_gacha.Prelude.{
  ℕ, zero, suc, ◌+◌, ◌<◌, ◌≤◌, ◌≡◌, refl, sym, ◌∙◌, List, [], ◌∷◌, ◌++◌, Result, ok, err, ◌>>=◌,
  arith, replicate, set, tabulate, gacha, invalid_item,
}
use solana_gacha.Core.Constants.{max_tiers}
use solana_gacha.Bytes.{u32_at, put_u32}
use solana_gacha.Inventory.{
  count, set_count, add_counts, prefix_loop, prefix_counts, tally_tags, set_counts, open_block,
  raise_nodes, descend_step, descend, find_rank, next_power_of_two, power_from, append, counts,
  take_item, remove,
}
use solana_gacha.Inventory.View.{empty-IsStocked, tag, available, is_tag, IsStocked}
use solana_gacha.Inventory.Counts.{counts-ok}
use solana_gacha.Inventory.Append.Open.{grow}
use solana_gacha.Inventory.Append.Laws.{append-ok, Stocked}
use solana_gacha.Inventory.Remove.{remove-ok, Cleared}
use solana_gacha.Inventory.Take.{take_item-ok, take_item_missing}
use solana_gacha.Inventory.Ends.{operations-Terminates}
use solana_gacha.Inventory.Ends.Blocks.{Terminates}

abbrev fill : ℕ → ℕ → List ℕ → Result (List ℕ)
fill zero p d = ok d
fill (suc n) p d = append d p 2 >>= fill n (p + 1)

-- 64 items in the first block and ten in the second.
abbrev two_blocks : Result (List ℕ)
two_blocks = fill 64 0 (replicate 96 0) >>= λ d. fill 10 64 (d ++ replicate 96 0)

counts_of_prefix : (two_blocks >>= λ d. counts d 70) ≡ ok (0 ∷ 0 ∷ 70 ∷ 0 ∷ 0 ∷ 0 ∷ 0 ∷ 0 ∷ [])
unfolding append open_block prefix_counts prefix_loop add_counts count set_count set_counts
    raise_nodes counts tally_tags u32_at put_u32
counts_of_prefix = refl

take_in_second_block : (two_blocks >>= λ d. take_item d 2 67 >>= λ r. ok r.0) ≡ ok 67
unfolding append open_block prefix_counts prefix_loop add_counts count set_count set_counts
    raise_nodes u32_at put_u32 take_item descend descend_step find_rank next_power_of_two power_from
take_in_second_block = refl

-- The index of a pool with one item, of tier 2.
abbrev pub one : List ℕ
one = set (set (replicate 96 0) 8 1) 32 3

one_run : append (grow [] 0) 0 2 ≡ ok one
unfolding append open_block prefix_counts prefix_loop add_counts count set_count set_counts
    raise_nodes u32_at put_u32
one_run = refl

pub one-IsStocked : IsStocked one 1
one-IsStocked =
    let (d', run, stocked, _) = append-ok empty-IsStocked 2 (omega arith) (omega arith) in
    let e : ok d' ≡ ok one = sym run ∙ one_run in let same : d' ≡ one = cc in rw same at stocked

append-ok_example :
    (d' : List ℕ) × (append (grow [] 0) 0 2 ≡ ok d') × IsStocked d' 1 × Stocked [] d' 0 2
append-ok_example = append-ok empty-IsStocked 2 (omega arith) (omega arith)

counts-ok_example : counts one 1 ≡ ok (tabulate (λ t. available one t 1) 0 max_tiers)
counts-ok_example = counts-ok one-IsStocked.indexed 1 (omega arith)

one-available : 0 < available one 2 64
unfolding available is_tag tag
one-available = omega arith

take_item-ok_example :
    (p : ℕ) × (d' : List ℕ) × (take_item one 2 0 ≡ ok (p, d'))
    × (tag one p ≡ 3)
    × (available one 2 p ≡ 0)
    × IsStocked d' 1
    × Cleared one d' p
take_item-ok_example = take_item-ok one-IsStocked 2 0 (omega arith) one-available

one_exhausted : available one 1 64 ≤ 0
unfolding available is_tag tag
one_exhausted = omega arith

take_item_missing_example : take_item one 1 0 ≡ err (gacha invalid_item)
take_item_missing_example = take_item_missing one-IsStocked 1 0 (omega arith) one_exhausted

one-tag : tag one 0 ≡ 3
unfolding tag
one-tag = refl

remove-ok_example : (d' : List ℕ) × (remove one 0 2 ≡ ok d') × IsStocked d' 1 × Cleared one d' 0
remove-ok_example = remove-ok one-IsStocked 0 2 (omega arith) one-tag

-- Bytes that no pool has: every count is the largest.
abbrev worst : List ℕ
worst = replicate 960 255

operations-Terminates_example :
    Terminates (counts worst 640)
    × Terminates (append worst 70 2)
    × Terminates (take_item worst 2 5)
    × Terminates (remove worst 70 2)
operations-Terminates_example = operations-Terminates worst 640 70 2 5 (omega arith)
