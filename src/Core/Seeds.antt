-- ===== src/Core/Seeds.antt =====
-- packages/gacha-core/src/state.rs and constants.rs: the seeds that derive and sign for an account's
-- address. A library hashes them one after the other.
use solana_gacha.Prelude.{ℕ, List, [], ◌∷◌}
use solana_gacha.Bytes.{le_bytes}
use solana_gacha.Core.State.{Pubkey}
pub mod Laws
mod Tests

abbrev pub pool_seed : List ℕ
pool_seed = b'p' ∷ b'o' ∷ b'o' ∷ b'l' ∷ []

abbrev pub item_seed : List ℕ
item_seed = b'i' ∷ b't' ∷ b'e' ∷ b'm' ∷ []

abbrev pub pull_seed : List ℕ
pull_seed = b'p' ∷ b'u' ∷ b'l' ∷ b'l' ∷ []

-- `PoolSeeds`, `PullSeeds` and `ItemSeeds`, as their `as_seeds` list them.
abbrev pub pool_seeds : (Pubkey → List ℕ) → Pubkey → ℕ → ℕ → List (List ℕ)
pool_seeds key authority id bump = pool_seed ∷ key authority ∷ le_bytes 8 id ∷ (bump ∷ []) ∷ []

abbrev pub pull_seeds : (Pubkey → List ℕ) → Pubkey → List ℕ → ℕ → List (List ℕ)
pull_seeds key pool client_seed bump = pull_seed ∷ key pool ∷ client_seed ∷ (bump ∷ []) ∷ []

abbrev pub item_seeds : (Pubkey → List ℕ) → Pubkey → ℕ → ℕ → ℕ → List (List ℕ)
item_seeds key pool tier position bump =
    item_seed ∷ key pool ∷ (tier ∷ []) ∷ le_bytes 4 position ∷ (bump ∷ []) ∷ []
