-- ===== src/Inventory.antt =====
-- program/src/inventory.rs, `Inventory`: the bytes of a pool's availability index. A block holds
-- eight 32-bit Fenwick counts and 64 tier tags (0 is removed, `tier + 1` is available).
-- The record `Inventory` has the bytes as its one field, so a method takes and returns the bytes.
pub mod View
pub mod Counts
pub mod Nodes
pub mod Update
pub mod Remove
pub mod Append
pub mod Descend
pub mod Take
pub mod Stock
pub mod Positions
pub mod Ends
pub mod Tests
use solana_gacha.Prelude.{
  ℕ, zero, suc, ◌+◌, ◌-◌, ◌*◌, ◌/◌, ◌%◌, ◌^◌, ◌&&◌, List, [], ◌∷◌, Option, none, some, ◌==◌, ltb,
  leb, if◌then◌else◌, length, get_or, set, take, drop, replicate, Result, ok, err, ◌>>=◌, ◌>>◌,
  gacha, invalid_item, panic, diverge, require, ok_or, reject_if, add_word, sub_word, checked_sub,
}
use solana_gacha.Core.Constants.{max_tiers, counts_len, tags_per_block, block_len}
use solana_gacha.Bytes.{u32_at, put_u32}
use solana_gacha.Bits.{low_bit, clear_low_bit}

abbrev pub blocks : List ℕ → ℕ
blocks d = length d / block_len

-- Fenwick nodes are 1-based; blocks and positions are 0-based.
unfoldable pub count : List ℕ → ℕ → ℕ → Result ℕ
count d node tier = do
  n ← sub_word node 1
  let start = n * block_len + tier * 4
  require (leb (start + 4) (length d)) panic
  ok (u32_at d start)

unfoldable pub set_count : List ℕ → ℕ → ℕ → ℕ → Result (List ℕ)
set_count d node tier v = do
  n ← sub_word node 1
  let start = n * block_len + tier * 4
  require (leb (start + 4) (length d)) panic
  ok (put_u32 d start v)

-- `for (tier, count) in counts.iter_mut().enumerate() { *count += self.count(node, tier); }`
unfoldable pub add_counts : List ℕ → ℕ → ℕ → List ℕ → Result (List ℕ)
add_counts d node tier [] = ok []
add_counts d node tier (c ∷ cs) = do
  n ← count d node tier
  sum ← add_word 32 c n
  rest ← add_counts d node (tier + 1) cs
  ok (sum ∷ rest)

-- `while blocks > 0`
unfoldable pub prefix_loop : ℕ → List ℕ → ℕ → List ℕ → Result (List ℕ)
prefix_loop zero d node counts = err diverge
prefix_loop (suc fuel) d node counts =
    let rest =
      add_counts d node 0 counts >>= λ sums. prefix_loop fuel d (clear_low_bit node) sums in
    if node == 0 then ok counts else rest

-- Every round clears a bit, so as many rounds as blocks are enough.
unfoldable pub prefix_counts : List ℕ → ℕ → Result (List ℕ)
prefix_counts d n = prefix_loop (n + 1) d n (replicate max_tiers 0)

-- `for &tag in ... { if tag != 0 { counts[tag as usize - 1] += 1; } }`
unfoldable pub tally_tags : List ℕ → List ℕ → Result (List ℕ)
tally_tags [] counts = ok counts
tally_tags (tag ∷ tags) counts =
    let skip = tally_tags tags counts in
    if tag == 0 then skip else (do
      require (leb tag (length counts)) panic
      sum ← add_word 32 (get_or counts (tag - 1) 0) 1
      tally_tags tags (set counts (tag - 1) sum))

unfoldable pub counts : List ℕ → ℕ → Result (List ℕ)
counts d cutoff = do
  let n = cutoff / tags_per_block
  let tail = cutoff % tags_per_block
  let start = n * block_len + counts_len
  totals ← prefix_counts d n
  if ltb 0 tail
      then (require (leb (start + tail) (length d)) panic
          >> tally_tags (take tail (drop start d)) totals)
      else ok totals

-- `for tier in 0..MAX_TIERS { self.set_count(node, tier, end[tier] - start[tier]); }`
unfoldable pub set_counts : ℕ → List ℕ → ℕ → ℕ → List ℕ → List ℕ → Result (List ℕ)
set_counts zero d node tier end start = ok d
set_counts (suc rounds) d node tier end start = do
  v ← sub_word (get_or end tier 0) (get_or start tier 0)
  d' ← set_count d node tier v
  set_counts rounds d' node (tier + 1) end start

-- The first position of a block: its node also covers some older blocks.
unfoldable pub open_block : List ℕ → ℕ → ℕ → Result (List ℕ)
open_block d block node = do
  end ← prefix_counts d block
  start ← prefix_counts d (clear_low_bit node)
  set_counts max_tiers d node 0 end start

-- `while node <= self.blocks()`, adding one
unfoldable pub raise_nodes : ℕ → List ℕ → ℕ → ℕ → Result (List ℕ)
raise_nodes zero d node tier = err diverge
raise_nodes (suc fuel) d node tier =
    let round = (do
      n ← count d node tier
      sum ← add_word 32 n 1
      d' ← set_count d node tier sum
      raise_nodes fuel d' (node + low_bit node) tier) in
    if leb node (blocks d) then round else ok d

unfoldable pub append : List ℕ → ℕ → ℕ → Result (List ℕ)
append d position tier = do
  let block = position / tags_per_block
  let offset = position % tags_per_block
  let node = block + 1
  opened ← if offset == 0 then open_block d block node else ok d
  let slot = block * block_len + counts_len + offset
  require (ltb slot (length opened)) panic
  raise_nodes (blocks d + 1) (set opened slot (tier + 1)) node tier

-- `usize::next_power_of_two`
unfoldable pub power_from : ℕ → ℕ → ℕ → ℕ
power_from zero p n = p
power_from (suc fuel) p n = let rest = power_from fuel (2 * p) n in if leb n p then p else rest

unfoldable pub next_power_of_two : ℕ → ℕ
unfolding power_from
next_power_of_two n = power_from 64 1 n

-- Where the search of `take` has come to.
pub record Cursor : Type 0 where
  pub node : ℕ
  pub rank : ℕ
  pub bytes : List ℕ

-- One round of `while step != 0`
unfoldable pub descend_step : ℕ → ℕ → ℕ → Cursor → Result Cursor
descend_step n tier step c =
    if leb (c.node + step) n
    then (count c.bytes (c.node + step) tier >>= λ k.
        if leb k c.rank then ok (record c { node = c.node + step; rank = c.rank - k }) else (do
          less ← sub_word k 1
          bytes' ← set_count c.bytes (c.node + step) tier less
          ok (record c { bytes = bytes' })))
    else ok c

unfoldable pub descend : ℕ → ℕ → ℕ → ℕ → Cursor → Result Cursor
descend zero n tier step c = err diverge
descend (suc fuel) n tier step c =
    let rest = descend_step n tier step c >>= λ c'. descend fuel n tier (step / 2) c' in
    if step == 0 then ok c else rest

-- The offset of the `rank`th tag of the tier in a block.
unfoldable pub find_rank : List ℕ → ℕ → ℕ → ℕ → Option ℕ
find_rank [] tier rank offset = none
find_rank (tag ∷ tags) tier rank offset =
    let later = find_rank tags tier (if tag == tier + 1 then rank - 1 else rank) (offset + 1) in
    if tag == tier + 1 && rank == 0 then some offset else later

-- A step is a power of two below 2 ^ 64, so 65 rounds are enough.
unfoldable pub take_item : List ℕ → ℕ → ℕ → Result (ℕ × List ℕ)
take_item d tier rank = do
  let n = blocks d
  c ← descend 66 n tier (next_power_of_two n) (record { node = 0; rank = rank; bytes = d })
  reject_if (c.node == n) (gacha invalid_item)
  let start = c.node * block_len + counts_len
  require (leb (start + tags_per_block) (length c.bytes)) panic
  offset ←
      ok_or (find_rank (take tags_per_block (drop start c.bytes)) tier c.rank 0)
        (gacha invalid_item)
  ok ((c.node * tags_per_block + offset) % 2 ^ 32, set c.bytes (start + offset) 0)

-- `while node <= self.blocks()`, subtracting one
unfoldable pub lower_nodes : ℕ → List ℕ → ℕ → ℕ → Result (List ℕ)
lower_nodes zero d node tier = err diverge
lower_nodes (suc fuel) d node tier =
    let round = (do
      n ← count d node tier
      less ← ok_or (checked_sub n 1) (gacha invalid_item)
      d' ← set_count d node tier less
      lower_nodes fuel d' (node + low_bit node) tier) in
    if leb node (blocks d) then round else ok d

unfoldable pub remove : List ℕ → ℕ → ℕ → Result (List ℕ)
remove d position tier = do
  let block = position / tags_per_block
  let offset = position % tags_per_block
  let slot = block * block_len + counts_len + offset
  require (ltb slot (length d)) (gacha invalid_item)
  require (get_or d slot 0 == tier + 1) (gacha invalid_item)
  lower_nodes (blocks d + 1) (set d slot 0) (block + 1) tier
