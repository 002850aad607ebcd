-- ===== src/Sdk/Batches.antt =====
-- packages/gacha-rust/src/lib.rs, `batches`: instructions in groups that fit a transaction.
use solana_gacha.Prelude.{
  ℕ, ◌+◌, ◌*◌, List, [], ◌∷◌, ◌++◌, Bool, true, false, ◌==◌, ltb, if◌then◌else◌, length, Result, ok,
  err, sdk, reject_if, ◌>>=◌, ◌>>◌,
}
use solana_gacha.Prelude.SdkErrors.{transaction_too_large}
use solana_gacha.Core.State.{Pubkey}
use solana_gacha.Sdk.{Host, Instruction}
pub mod Laws
mod Tests

abbrev pub transaction_limit : ℕ
transaction_limit = 1232

unfoldable pub transaction_size : Host → Pubkey → List Instruction → ℕ
transaction_size h payer group =
    1 + 64 * h.num_required_signatures group payer + length (h.serialize group payer)

-- `retain(|group| !group.is_empty())`
unfoldable pub retain : List (List Instruction) → List (List Instruction)
retain [] = []
retain ([] ∷ groups) = retain groups
retain ((i ∷ group) ∷ groups) = (i ∷ group) ∷ retain groups

-- The loop over the instructions: the full groups and the current one.
unfoldable pub pack :
    Host
    → Pubkey
    → List (List Instruction)
    → List Instruction
    → List Instruction
    → Result (List (List Instruction))
pack h payer full current [] = ok (retain (full ++ (current ∷ [])))
pack h payer full current (i ∷ rest) =
    let apart = pack h payer (full ++ (current ∷ [])) (i ∷ []) rest in
    let together = pack h payer full (current ++ (i ∷ [])) rest in
    if ltb transaction_limit (transaction_size h payer (current ++ (i ∷ [])))
    then (do
      reject_if (ltb transaction_limit (transaction_size h payer (i ∷ [])))
          (sdk transaction_too_large)
      apart)
    else together

unfoldable pub batches :
    Host → List Instruction → List Instruction → Pubkey → Result (List (List Instruction))
batches h initial instructions payer = do
  reject_if (ltb transaction_limit (transaction_size h payer initial)) (sdk transaction_too_large)
  pack h payer [] initial instructions
