-- ===== src/Core/Layout.antt =====
-- packages/gacha-core/src/state.rs: the accounts as `repr(C)` structs of byte arrays, the overlay on
-- an account's bytes, the getters, the setters and the writes of a whole account. The other modules
-- take the accounts as the records of State, which `pool_view`, `item_view` and `pull_view` read.
use solana_gacha.Prelude.{
  ℕ, zero, suc, ◌+◌, ◌*◌, ◌%◌, List, [], ◌∷◌, ◌++◌, Bool, true, ◌&&◌, ◌==◌, ltb, length, get_or,
  set, take, drop, replicate, Result, ok, err, panic, if◌then◌else◌,
}
use solana_gacha.Bytes.{le_bytes}
use solana_gacha.Bytes.Values.{le_value, concat, chunks}
use solana_gacha.Core.Constants.{
  pool_version, item_version, pull_version, pool_paused, max_tiers, max_count, tier_len,
  outcome_len, status_pending, delivered,
}
use solana_gacha.Core.State.{Pubkey, Tier, Pool, Item, Award, Pull}
pub mod Laws
pub mod Overlay
pub mod Writes
pub mod Tests

pub record RawTier : Type 0 where
  pub weight : List ℕ
  pub remaining : List ℕ

pub record RawPool : Type 0 where
  pub version : List ℕ
  pub bump : List ℕ
  pub tier_count : List ℕ
  pub status : List ℕ
  pub inventory_version : List ℕ
  pub authority : List ℕ
  pub operator : List ℕ
  pub payment_mint : List ℕ
  pub vault : List ℕ
  pub id : List ℕ
  pub price : List ℕ
  pub deadline_slots : List ℕ
  pub bond_per_draw : List ℕ
  pub pending_draws : List ℕ
  pub next_index : List ℕ
  pub next_settle : List ℕ
  pub tiers : List RawTier

pub record RawItem : Type 0 where
  pub version : List ℕ
  pub bump : List ℕ
  pub tier : List ℕ
  pub padding : List ℕ
  pub position : List ℕ
  pub pool : List ℕ
  pub asset : List ℕ

pub record RawPull : Type 0 where
  pub version : List ℕ
  pub bump : List ℕ
  pub status : List ℕ
  pub count : List ℕ
  pub inventory_version : List ℕ
  pub index : List ℕ
  pub deadline_slot : List ℕ
  pub pool : List ℕ
  pub buyer : List ℕ
  pub client_seed : List ℕ
  pub outcomes : List (List ℕ)

-- `field!` for u8: the first byte of the array. The wider getters are `le_value`, their setters
-- `le_bytes` of the field's width.
abbrev pub get_byte : List ℕ → ℕ
get_byte f = get_or f 0 0

abbrev pub put_byte : List ℕ → ℕ → List ℕ
put_byte f v = set f 0 v

abbrev pub put_word : ℕ → List ℕ
put_word v = le_bytes 4 v

abbrev pub put_long : ℕ → List ℕ
put_long v = le_bytes 8 v

-- A public key is the number of its 32 bytes.
abbrev pub put_key : Pubkey → List ℕ
put_key k = le_bytes 32 k

-- The structs' fields in order, and the arrays' widths.
abbrev pub tier_fields : RawTier → List (List ℕ)
tier_fields t = t.weight ∷ t.remaining ∷ []

abbrev pub all_tier_bytes : List RawTier → List (List ℕ)
all_tier_bytes [] = []
all_tier_bytes (t ∷ ts) = concat (tier_fields t) ∷ all_tier_bytes ts

abbrev pub pool_fields : RawPool → List (List ℕ)
pool_fields p =
    p.version
    ∷ p.bump
    ∷ p.tier_count
    ∷ p.status
    ∷ p.inventory_version
    ∷ p.authority
    ∷ p.operator
    ∷ p.payment_mint
    ∷ p.vault
    ∷ p.id
    ∷ p.price
    ∷ p.deadline_slots
    ∷ p.bond_per_draw
    ∷ p.pending_draws
    ∷ p.next_index
    ∷ p.next_settle
    ∷ concat (all_tier_bytes p.tiers)
    ∷ []

abbrev pub item_fields : RawItem → List (List ℕ)
item_fields i = i.version ∷ i.bump ∷ i.tier ∷ i.padding ∷ i.position ∷ i.pool ∷ i.asset ∷ []

abbrev pub pull_fields : RawPull → List (List ℕ)
pull_fields p =
    p.version
    ∷ p.bump
    ∷ p.status
    ∷ p.count
    ∷ p.inventory_version
    ∷ p.index
    ∷ p.deadline_slot
    ∷ p.pool
    ∷ p.buyer
    ∷ p.client_seed
    ∷ concat p.outcomes
    ∷ []

abbrev pub pool_widths : List ℕ
pool_widths =
    1 ∷ 1 ∷ 1 ∷ 1 ∷ 4 ∷ 32 ∷ 32 ∷ 32 ∷ 32 ∷ 8 ∷ 8 ∷ 8 ∷ 8 ∷ 8 ∷ 8 ∷ 8 ∷ max_tiers * tier_len ∷ []

abbrev pub item_widths : List ℕ
item_widths = 1 ∷ 1 ∷ 1 ∷ 1 ∷ 4 ∷ 32 ∷ 32 ∷ []

abbrev pub pull_widths : List ℕ
pull_widths = 1 ∷ 1 ∷ 1 ∷ 1 ∷ 4 ∷ 8 ∷ 8 ∷ 32 ∷ 32 ∷ 32 ∷ max_count * outcome_len ∷ []

-- The bytes that a struct occupies, and `from_bytes_unchecked`: the struct that lies over bytes.
unfoldable pub pool_bytes : RawPool → List ℕ
pool_bytes p = concat (pool_fields p)

unfoldable pub item_bytes : RawItem → List ℕ
item_bytes i = concat (item_fields i)

unfoldable pub pull_bytes : RawPull → List ℕ
pull_bytes p = concat (pull_fields p)

abbrev pub over_tiers : List (List ℕ) → List RawTier
over_tiers [] = []
over_tiers (d ∷ ds) = record { weight = take 4 d; remaining = take 4 (drop 4 d) } ∷ over_tiers ds

-- The part `i` of the struct.
abbrev pub part : List (List ℕ) → ℕ → List ℕ
part fs i = get_or fs i []

abbrev pub pool_of : List (List ℕ) → RawPool
pool_of fs = record {
  version = part fs 0;
  bump = part fs 1;
  tier_count = part fs 2;
  status = part fs 3;
  inventory_version = part fs 4;
  authority = part fs 5;
  operator = part fs 6;
  payment_mint = part fs 7;
  vault = part fs 8;
  id = part fs 9;
  price = part fs 10;
  deadline_slots = part fs 11;
  bond_per_draw = part fs 12;
  pending_draws = part fs 13;
  next_index = part fs 14;
  next_settle = part fs 15;
  tiers = over_tiers (chunks (replicate max_tiers tier_len) (part fs 16));
}

abbrev pub item_of : List (List ℕ) → RawItem
item_of fs = record {
  version = part fs 0;
  bump = part fs 1;
  tier = part fs 2;
  padding = part fs 3;
  position = part fs 4;
  pool = part fs 5;
  asset = part fs 6;
}

abbrev pub pull_of : List (List ℕ) → RawPull
pull_of fs = record {
  version = part fs 0;
  bump = part fs 1;
  status = part fs 2;
  count = part fs 3;
  inventory_version = part fs 4;
  index = part fs 5;
  deadline_slot = part fs 6;
  pool = part fs 7;
  buyer = part fs 8;
  client_seed = part fs 9;
  outcomes = chunks (replicate max_count outcome_len) (part fs 10);
}

unfoldable pub over_pool : List ℕ → RawPool
over_pool d = pool_of (chunks pool_widths d)

unfoldable pub over_item : List ℕ → RawItem
over_item d = item_of (chunks item_widths d)

unfoldable pub over_pull : List ℕ → RawPull
over_pull d = pull_of (chunks pull_widths d)

-- The getters.
abbrev pub tier_view : RawTier → Tier
tier_view t = record { weight = le_value t.weight; remaining = le_value t.remaining }

abbrev pub all_tier_views : List RawTier → List Tier
all_tier_views [] = []
all_tier_views (t ∷ ts) = tier_view t ∷ all_tier_views ts

abbrev pub pool_view : RawPool → Pool
pool_view p = record {
  version = get_byte p.version;
  bump = get_byte p.bump;
  tier_count = get_byte p.tier_count;
  status = get_byte p.status;
  inventory_version = le_value p.inventory_version;
  authority = le_value p.authority;
  operator = le_value p.operator;
  payment_mint = le_value p.payment_mint;
  vault = le_value p.vault;
  id = le_value p.id;
  price = le_value p.price;
  deadline_slots = le_value p.deadline_slots;
  bond_per_draw = le_value p.bond_per_draw;
  pending_draws = le_value p.pending_draws;
  next_index = le_value p.next_index;
  next_settle = le_value p.next_settle;
  all_tiers = all_tier_views p.tiers;
}

abbrev pub item_view : RawItem → Item
item_view i = record {
  version = get_byte i.version;
  bump = get_byte i.bump;
  tier = get_byte i.tier;
  position = le_value i.position;
  pool = le_value i.pool;
  asset = le_value i.asset;
}

-- `Pull::outcome`: the tier byte, and the key behind it.
abbrev pub award_view : List ℕ → Award
award_view o = record { tier = get_byte o; asset = le_value (drop 1 o) }

abbrev pub all_award_views : List (List ℕ) → List Award
all_award_views [] = []
all_award_views (o ∷ os) = award_view o ∷ all_award_views os

abbrev pub pull_view : RawPull → Pull
pull_view p = record {
  version = get_byte p.version;
  bump = get_byte p.bump;
  status = get_byte p.status;
  count = get_byte p.count;
  inventory_version = le_value p.inventory_version;
  index = le_value p.index;
  deadline_slot = le_value p.deadline_slot;
  pool = le_value p.pool;
  buyer = le_value p.buyer;
  client_seed = p.client_seed;
  outcomes = all_award_views p.outcomes;
}
