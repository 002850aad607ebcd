-- ===== src/Sdk/Batches/Tests.antt =====
-- Grouping three instructions, two of which fit one transaction.
use solana_gacha.Prelude.{◌≡◌, refl, [], ◌∷◌, ◌++◌, ok, replicate}
use solana_gacha.Sdk.{Instruction}
use solana_gacha.Sdk.Batches.{transaction_size, retain, pack, batches}
use solana_gacha.Sdk.Batches.Laws.{flatten, IsWithin, IsFilled, batches-ok}
use solana_gacha.Sdk.Scene.{host}

abbrev large : Instruction
large = record { program_id = 1; accounts = []; bytes = replicate 500 1 }

grouped :
    batches host [] (large ∷ large ∷ large ∷ []) 50 ≡ ok ((large ∷ large ∷ []) ∷ (large ∷ []) ∷ [])
unfolding batches pack retain transaction_size
grouped = refl

batches-ok_example :
    (flatten ((large ∷ large ∷ []) ∷ (large ∷ []) ∷ []) ≡ [] ++ (large ∷ large ∷ large ∷ []))
    × IsWithin host 50 ((large ∷ large ∷ []) ∷ (large ∷ []) ∷ [])
    × IsFilled ((large ∷ large ∷ []) ∷ (large ∷ []) ∷ [])
batches-ok_example = batches-ok host [] (large ∷ large ∷ large ∷ []) 50 grouped
