-- ===== src/Core/State.antt =====
-- packages/gacha-core/src/state.rs: the accounts as records of their decoded fields, and the pool's
-- amounts. A public key is the number of its 32 bytes.
use solana_gacha.Prelude.{
  ℕ, zero, suc, ◌+◌, List, [], ◌∷◌, ◌&&◌, Bool, true, Option, none, some, ◌==◌, take, set, get_or,
  replicate, length, Result, ok_or, arithmetic_overflow, checked_add, checked_mul,
}
use solana_gacha.Core.Constants.{
  pool_version, item_version, pull_version, pool_paused, max_tiers, max_count, status_pending,
  delivered,
}

abbrev pub Pubkey : Type 0
Pubkey = ℕ

pub record Tier : Type 0 where
  pub weight : ℕ
  pub remaining : ℕ

pub record Pool : Type 0 where
  pub version : ℕ
  pub bump : ℕ
  pub tier_count : ℕ
  pub status : ℕ
  pub inventory_version : ℕ
  pub authority : Pubkey
  pub operator : Pubkey
  pub payment_mint : Pubkey
  pub vault : Pubkey
  pub id : ℕ
  pub price : ℕ
  pub deadline_slots : ℕ
  pub bond_per_draw : ℕ
  pub pending_draws : ℕ
  pub next_index : ℕ
  pub next_settle : ℕ
  pub all_tiers : List Tier

pub record Item : Type 0 where
  pub version : ℕ
  pub bump : ℕ
  pub tier : ℕ
  pub position : ℕ
  pub pool : Pubkey
  pub asset : Pubkey

-- An award: the tier byte, `delivered` once delivered, and the asset.
pub record Award : Type 0 where
  pub tier : ℕ
  pub asset : Pubkey

pub record Pull : Type 0 where
  pub version : ℕ
  pub bump : ℕ
  pub status : ℕ
  pub count : ℕ
  pub inventory_version : ℕ
  pub index : ℕ
  pub deadline_slot : ℕ
  pub pool : Pubkey
  pub buyer : Pubkey
  pub client_seed : List ℕ
  pub outcomes : List Award

abbrev pub empty_tier : Tier
empty_tier = record { weight = 0; remaining = 0 }

abbrev pub empty_award : Award
empty_award = record { tier = 0; asset = 0 }

-- The eight tiers of a new pool: the weights given, and nothing in stock.
abbrev pub weighted : List ℕ → ℕ → List Tier
weighted weights zero = []
weighted [] (suc n) = empty_tier ∷ weighted [] n
weighted (w ∷ weights) (suc n) = record { weight = w; remaining = 0 } ∷ weighted weights n

-- `Pool::set_inner`, on the zeroed bytes of a new account.
unfoldable pub new_pool : ℕ → Pubkey → Pubkey → Pubkey → Pubkey → ℕ → ℕ → ℕ → ℕ → List ℕ → Pool
new_pool bump authority operator payment_mint vault id price deadline_slots bond_per_draw weights =
    record {
      version = pool_version;
      bump = bump;
      tier_count = length weights;
      status = pool_paused;
      inventory_version = 0;
      authority = authority;
      operator = operator;
      payment_mint = payment_mint;
      vault = vault;
      id = id;
      price = price;
      deadline_slots = deadline_slots;
      bond_per_draw = bond_per_draw;
      pending_draws = 0;
      next_index = 0;
      next_settle = 0;
      all_tiers = weighted weights max_tiers;
    }

-- `Item::set_inner`
unfoldable pub new_item : ℕ → ℕ → ℕ → Pubkey → Pubkey → Item
new_item bump tier position pool asset = record {
  version = item_version;
  bump = bump;
  tier = tier;
  position = position;
  pool = pool;
  asset = asset;
}

-- `Pull::set_inner`, on the zeroed bytes of a new account.
unfoldable pub new_pull : ℕ → ℕ → ℕ → ℕ → ℕ → Pubkey → Pubkey → List ℕ → Pull
new_pull bump count inventory_version index deadline_slot pool buyer client_seed = record {
  version = pull_version;
  bump = bump;
  status = status_pending;
  count = count;
  inventory_version = inventory_version;
  index = index;
  deadline_slot = deadline_slot;
  pool = pool;
  buyer = buyer;
  client_seed = client_seed;
  outcomes = replicate max_count empty_award;
}

-- `Pool::tiers`: the tiers in use. The code panics on a count of more than eight, which `create_pool`
-- does not write.
abbrev pub tiers : Pool → List Tier
tiers p = take p.tier_count p.all_tiers

unfoldable pub payment : Pool → ℕ → Result ℕ
payment p count = ok_or (checked_mul 64 p.price count) arithmetic_overflow

-- `price.checked_add(bond_per_draw).and_then(|amount| amount.checked_mul(count))`
unfoldable pub refund_total : ℕ → ℕ → ℕ → Option ℕ
refund_total price bond count = elim (checked_add 64 price bond) [
  | none ↦ none
  | some amount ↦ checked_mul 64 amount count
]

unfoldable pub refund_amount : Pool → ℕ → Result ℕ
unfolding refund_total
refund_amount p count = ok_or (refund_total p.price p.bond_per_draw count) arithmetic_overflow

unfoldable pub sum_remaining : List Tier → ℕ
sum_remaining [] = 0
sum_remaining (t ∷ ts) = t.remaining + sum_remaining ts

-- `Pool::remaining`; at most eight 32-bit numbers, so the 64-bit sum cannot overflow.
unfoldable pub remaining : Pool → ℕ
remaining p = sum_remaining (tiers p)

-- `Pull::outcome`, `set_outcome`, `mark_delivered`, `all_delivered`, at places within the ten outcomes:
-- the code panics outside, as `deliver` and the writes of Layout do here.
abbrev pub outcome : Pull → ℕ → Award
outcome p i = get_or p.outcomes i empty_award

abbrev pub set_outcome : Pull → ℕ → ℕ → Pubkey → Pull
set_outcome p i tier asset = record p {
  outcomes = set p.outcomes i (record { tier = tier; asset = asset });
}

abbrev pub mark_delivered : Pull → ℕ → Pull
mark_delivered p i = record p {
  outcomes = set p.outcomes i (record { tier = delivered; asset = (outcome p i).asset });
}

abbrev pub all_are_delivered : List Award → Bool
all_are_delivered [] = true
all_are_delivered (a ∷ rest) = (a.tier == delivered) && all_are_delivered rest

abbrev pub all_delivered : Pull → Bool
all_delivered p = all_are_delivered (take p.count p.outcomes)
