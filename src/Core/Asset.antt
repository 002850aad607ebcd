-- ===== src/Core/Asset.antt =====
-- packages/gacha-core/src/asset.rs: the header of a Core asset that routes a transfer.
use solana_gacha.Prelude.{
  ℕ, List, [], ◌∷◌, Bool, true, false, ◌&&◌, ◌||◌, not, ◌==◌, ltb, Option, none, some, length,
  get_or, take, drop, if◌then◌else◌, Result, ok, err, gacha, reject_if, invalid_asset, ◌>>=◌, ◌>>◌,
}
pub mod Laws
mod Tests

abbrev pub core_id : List ℕ
core_id =
    175 ∷ 84 ∷ 171 ∷ 16 ∷ 189 ∷ 151 ∷ 165 ∷ 66 ∷ 160 ∷ 158 ∷ 247 ∷ 179 ∷ 152 ∷ 137 ∷ 221 ∷ 12 ∷ 211
    ∷ 148 ∷ 164 ∷ 204 ∷ 233 ∷ 223 ∷ 166 ∷ 205 ∷ 201 ∷ 126 ∷ 190 ∷ 45 ∷ 35 ∷ 91 ∷ 167 ∷ 72 ∷ []

abbrev pub bytes_equal : List ℕ → List ℕ → Bool
bytes_equal [] [] = true
bytes_equal [] (c ∷ cs) = false
bytes_equal (b ∷ bs) [] = false
bytes_equal (b ∷ bs) (c ∷ cs) = (b == c) && bytes_equal bs cs

pub record CoreAsset : Type 0 where
  pub owner : List ℕ
  pub collection : Option (List ℕ)

-- `data.get(34..66)`
abbrev pub collection_key : List ℕ → Result (List ℕ)
collection_key d = do reject_if (ltb (length d) 66) (gacha invalid_asset); ok (take 32 (drop 34 d))

-- The match on the kind of update authority.
unfoldable pub collection_part : List ℕ → ℕ → Result (Option (List ℕ))
collection_part d kind =
    if kind == 0
    then ok none
    else if kind == 1 || (kind == 2)
    then (do key ← collection_key d; ok (if kind == 2 then some key else none))
    else err (gacha invalid_asset)

-- `CoreAsset::from_account`
unfoldable pub core_asset : List ℕ → List ℕ → Result CoreAsset
core_asset owner d = do
  reject_if (not (bytes_equal owner core_id) || ltb (length d) 34 || not (get_or d 0 0 == 1))
      (gacha invalid_asset)
  collection ← collection_part d (get_or d 33 0)
  ok (record { owner = take 32 (drop 1 d); collection = collection })
