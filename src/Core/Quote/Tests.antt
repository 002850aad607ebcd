-- ===== src/Core/Quote/Tests.antt =====
-- The message of a buyback quote.
use solana_gacha.Prelude.{ℕ, ◌+◌, ◌≡◌, refl, length, List, arith, replicate}
use solana_gacha.Core.Quote.{buyback_message}
use solana_gacha.Core.Quote.Laws.{buyback_message-injective}

abbrev seven : List ℕ
seven = replicate 32 7

abbrev nine : List ℕ
nine = replicate 32 9

abbrev expiry : ℕ
expiry = 1000

abbrev tier_two : ℕ
tier_two = 2

-- A quote of 300 tokens.
abbrev quote_of : ℕ → List ℕ
quote_of price = buyback_message seven nine price expiry tier_two

length_of_quote : length (quote_of 300) ≡ 129
unfolding buyback_message
length_of_quote = refl

same_quote : quote_of 300 ≡ quote_of (200 + 100)
same_quote = refl

buyback_message-injective_example :
    (seven ≡ seven) × (nine ≡ nine) × (300 ≡ 200 + 100) × (expiry ≡ expiry) × (tier_two ≡ tier_two)
buyback_message-injective_example =
    buyback_message-injective {pool = seven} {pool' = seven} {asset = nine} {asset' = nine} refl
      refl refl refl (omega arith) (omega arith) (omega arith) (omega arith) same_quote
