-- ===== src/Core/Layout/Writes.antt =====
-- packages/gacha-core/src/state.rs: the writes of a whole account, `set_inner`, and of an award.
use solana_gacha.Prelude.{
  ℕ, ◌%◌, List, [], ◌∷◌, ◌++◌, Bool, true, ◌&&◌, ◌==◌, ltb, length, get_or, set, take, drop, Result,
  ◌>>=◌, ok, err, panic, if◌then◌else◌,
}
use solana_gacha.Bytes.{le_bytes}
use solana_gacha.Bytes.Values.{concat}
use solana_gacha.Core.Constants.{
  pool_version, item_version, pull_version, pool_paused, max_tiers, status_pending, delivered,
}
use solana_gacha.Core.State.{Pubkey}
use solana_gacha.Core.Layout.{
  RawTier, RawPool, RawItem, RawPull, get_byte, put_byte, put_word, put_long, put_key,
}
pub mod Laws

-- `Tier::set_weight` of each tier that `zip` pairs with a weight.
abbrev pub set_weights : List RawTier → List ℕ → List RawTier
set_weights [] weights = []
set_weights (t ∷ ts) [] = t ∷ ts
set_weights (t ∷ ts) (w ∷ weights) = record t { weight = put_word w } ∷ set_weights ts weights

-- The loop over `tiers_mut`, which panics when the count is beyond the stored tiers.
pub write_tiers : List RawTier → ℕ → List ℕ → Result (List RawTier)
write_tiers ts count weights =
    if ltb (length ts) count
    then err panic
    else ok (set_weights (take count ts) weights ++ drop count ts)

-- `Pool::set_inner`
pub set_pool :
    RawPool → ℕ → Pubkey → Pubkey → Pubkey → Pubkey → ℕ → ℕ → ℕ → ℕ → List ℕ → Result RawPool
set_pool p bump authority operator payment_mint vault id price deadline_slots bond_per_draw
      weights =
    do
      let count = length weights % 256
      tiers ← write_tiers p.tiers count weights
      ok (record p {
        version = put_byte p.version pool_version;
        bump = put_byte p.bump bump;
        tier_count = put_byte p.tier_count count;
        status = put_byte p.status pool_paused;
        authority = put_key authority;
        operator = put_key operator;
        payment_mint = put_key payment_mint;
        vault = put_key vault;
        id = put_long id;
        price = put_long price;
        deadline_slots = put_long deadline_slots;
        bond_per_draw = put_long bond_per_draw;
        tiers = tiers;
      })

-- `Item::set_inner`
pub set_item : RawItem → ℕ → ℕ → ℕ → Pubkey → Pubkey → RawItem
set_item i bump tier position pool asset = record i {
  version = put_byte i.version item_version;
  bump = put_byte i.bump bump;
  tier = put_byte i.tier tier;
  position = put_word position;
  pool = put_key pool;
  asset = put_key asset;
}

-- `Pull::set_inner`
pub set_pull : RawPull → ℕ → ℕ → ℕ → ℕ → ℕ → Pubkey → Pubkey → List ℕ → RawPull
set_pull p bump count inventory_version index deadline_slot pool buyer client_seed = record p {
  version = put_byte p.version pull_version;
  bump = put_byte p.bump bump;
  status = put_byte p.status status_pending;
  count = put_byte p.count count;
  inventory_version = put_word inventory_version;
  index = put_long index;
  deadline_slot = put_long deadline_slot;
  pool = put_key pool;
  buyer = put_key buyer;
  client_seed = client_seed;
}

-- `Pull::set_outcome`, `mark_delivered`, `outcome_bytes` and `all_delivered`. An index or a count
-- beyond the array is a panic.
pub put_outcome : RawPull → ℕ → ℕ → Pubkey → Result RawPull
put_outcome p i tier asset =
    if ltb i (length p.outcomes)
    then ok (record p { outcomes = set p.outcomes i (tier ∷ put_key asset) })
    else err panic

pub put_delivered : RawPull → ℕ → Result RawPull
put_delivered p i =
    if ltb i (length p.outcomes)
    then ok (record p { outcomes = set p.outcomes i (put_byte (get_or p.outcomes i []) delivered) })
    else err panic

unfoldable pub outcome_bytes : RawPull → ℕ → Result (List ℕ)
outcome_bytes p count =
    if ltb (length p.outcomes) count then err panic else ok (concat (take count p.outcomes))

abbrev pub every_delivered : List (List ℕ) → Bool
every_delivered [] = true
every_delivered (o ∷ os) = (get_byte o == delivered) && every_delivered os

pub outcomes_delivered : RawPull → Result Bool
outcomes_delivered p =
    if ltb (length p.outcomes) (get_byte p.count)
    then err panic
    else ok (every_delivered (take (get_byte p.count) p.outcomes))
