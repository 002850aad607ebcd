-- ===== src/Core/Seeds/Tests.antt =====
-- Seeds of two accounts.
use solana_gacha.Prelude.{◌+◌, ◌≡◌, refl, replicate, arith}
use solana_gacha.Core.Seeds.Laws.{Derived, of_pull, concat-seeds-injective}

abbrev first_pull : Derived
first_pull = of_pull 10 (replicate 32 5) 254

-- The same account, its seed written as a sum.
abbrev same_pull : Derived
same_pull = of_pull (4 + 6) (replicate (30 + 2) 5) 254

concat-seeds-injective_example : first_pull ≡ same_pull
concat-seeds-injective_example =
    concat-seeds-injective first_pull same_pull (omega arith, refl) (omega arith, refl) refl
