-- ===== src/Core/Asset/Laws.antt =====
-- packages/gacha-core/src/asset.rs: what the parser of an asset reads from a header, and that it ends
-- with a header or with the one error.
use solana_gacha.Prelude.{
  ℕ, ◌+◌, ◌≡◌, refl, ap, sym, ◌∙◌, List, [], ◌∷◌, ◌++◌, false, Option, none, some, length, take,
  drop, arith, ok, gacha, invalid_asset, Failure, Fails, bind-Fails, reject_if-Fails, if-Fails,
  reject_if, ◌>>=◌, length-append, ltb, le→not-ltb, ◌==◌, ◌||◌, get_or,
}
use solana_gacha.Bytes.Values.{take-append, get_or-append_right, drop-append_right}
use solana_gacha.Core.Asset.{core_id, collection_key, collection_part, core_asset}

-- A Core asset's update authority: none, a key, or a collection.
pub data UpdateAuthority : Type 0 where
  nobody : UpdateAuthority
  address : List ℕ → UpdateAuthority
  collection : List ℕ → UpdateAuthority

abbrev pub authority_bytes : UpdateAuthority → List ℕ
authority_bytes nobody = 0 ∷ []
authority_bytes (address key) = 1 ∷ key
authority_bytes (collection key) = 2 ∷ key

-- An asset's account: the kind byte, the owner, the update authority, and what follows.
abbrev pub asset_bytes : List ℕ → UpdateAuthority → List ℕ → List ℕ
asset_bytes owner authority rest = 1 ∷ (owner ++ (authority_bytes authority ++ rest))

abbrev pub collection_of : UpdateAuthority → Option (List ℕ)
collection_of nobody = none
collection_of (address key) = none
collection_of (collection key) = some key

abbrev pub HasKeySize : UpdateAuthority → Type 0
HasKeySize nobody = Unit {0}
HasKeySize (address key) = length key ≡ 32
HasKeySize (collection key) = length key ≡ 32

-- What a header holds behind its owner.
header_length :
    (owner tail : List ℕ) (kind : ℕ)
    → length owner ≡ 32
    → length (1 ∷ (owner ++ (kind ∷ tail))) ≡ 34 + length tail
header_length owner tail kind h = omega (arith, length-append owner (kind ∷ tail))

header_owner : (owner tail : List ℕ) → length owner ≡ 32 → take 32 (owner ++ tail) ≡ owner
header_owner owner tail h = ap (λ n. take n (owner ++ tail)) (sym h) ∙ take-append owner tail

header_key :
    (owner key rest : List ℕ) (kind : ℕ)
    → length owner ≡ 32
    → length key ≡ 32
    → take 32 (drop 34 (1 ∷ (owner ++ (kind ∷ (key ++ rest))))) ≡ key
header_key owner key rest kind h sized =
    ap (take 32) (drop-append_right owner (kind ∷ (key ++ rest)) 33 1 (omega arith))
    ∙ header_owner key rest sized

core_asset-header :
    (owner tail : List ℕ) (kind : ℕ)
    → length owner ≡ 32
    → core_asset core_id (1 ∷ (owner ++ (kind ∷ tail))) ≡ (
        collection_part (1 ∷ (owner ++ (kind ∷ tail))) kind >>= λ c.
        ok (record { owner = owner; collection = c }))
unfolding core_asset
core_asset-header owner tail kind h =
    let d = 1 ∷ (owner ++ (kind ∷ tail)) in
    let enough : ltb (length d) 34 ≡ false =
      le→not-ltb (length d) 34 (omega (arith, header_length owner tail kind h)) in
    rw (
      enough,
      get_or-append_right owner (kind ∷ tail) 32 0 0 (omega arith),
      header_owner owner (kind ∷ tail) h,
    )

-- The parser on the header of an asset reads its owner and its collection, if it has one.
pub core_asset-asset_bytes :
    (owner : List ℕ) (authority : UpdateAuthority) (rest : List ℕ)
    → length owner ≡ 32
    → HasKeySize authority
    → core_asset core_id (asset_bytes owner authority rest)
      ≡ ok (record { owner = owner; collection = collection_of authority })
unfolding collection_part
core_asset-asset_bytes owner nobody rest h sized = core_asset-header owner rest 0 h
core_asset-asset_bytes owner (address key) rest h sized =
    let d = asset_bytes owner (address key) rest in
    let enough : ltb (length d) 66 ≡ false =
      le→not-ltb (length d) 66
        (omega (arith, header_length owner (key ++ rest) 1 h, length-append key rest)) in
    core_asset-header owner (key ++ rest) 1 h ∙ rw enough
core_asset-asset_bytes owner (collection key) rest h sized =
    let d = asset_bytes owner (collection key) rest in
    let enough : ltb (length d) 66 ≡ false =
      le→not-ltb (length d) 66
        (omega (arith, header_length owner (key ++ rest) 2 h, length-append key rest)) in
    core_asset-header owner (key ++ rest) 2 h ∙ rw (enough, header_key owner key rest 2 h sized)

abbrev IsRefusal : Failure → Type 0
IsRefusal e = e ≡ gacha invalid_asset

collection_part-Fails : (d : List ℕ) (kind : ℕ) → Fails IsRefusal (collection_part d kind)
unfolding collection_part
collection_part-Fails d kind =
    let short : Fails IsRefusal (collection_key d) =
      bind-Fails IsRefusal (reject_if (ltb (length d) 66) (gacha invalid_asset))
        (λ u. ok (take 32 (drop 34 d)))
        (reject_if-Fails IsRefusal (ltb (length d) 66) (gacha invalid_asset) refl) (λ u. tt) in
    if-Fails IsRefusal (kind == 0) _ _ tt (
      if-Fails IsRefusal (kind == 1 || (kind == 2)) _ _
        (bind-Fails IsRefusal (collection_key d) _ short (λ key. tt)) refl)

-- The parser of an asset's header never panics.
core_asset-Fails : (owner d : List ℕ) → Fails (λ e. e ≡ gacha invalid_asset) (core_asset owner d)
unfolding core_asset
core_asset-Fails owner d =
    bind-Fails IsRefusal _ _ (reject_if-Fails IsRefusal _ (gacha invalid_asset) refl) (λ u.
      bind-Fails IsRefusal (collection_part d (get_or d 33 0)) _
        (collection_part-Fails d (get_or d 33 0)) (λ c. tt))
