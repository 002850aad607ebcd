-- ===== src/Sdk/Assets/Laws.antt =====
-- packages/gacha-rust/src/lib.rs: the client reads an asset's owner and collection.
use solana_gacha.Prelude.{ℕ, ◌≡◌, refl, ap, ◌∙◌, List, Option, none, some, length, ok}
use solana_gacha.Core.State.{Pubkey}
use solana_gacha.Core.Asset.{core_id, core_asset}
use solana_gacha.Core.Asset.Laws.{
  UpdateAuthority, nobody, address, collection, asset_bytes, HasKeySize, collection_of,
  core_asset-asset_bytes,
}
use solana_gacha.Sdk.{Host}
use solana_gacha.Sdk.Assets.{collection_address, asset_of_header, asset_from_account}

-- An update authority of keys, and its bytes.
pub data Authority : Type 0 where
  no_key : Authority
  address_key : Pubkey → Authority
  collection_key : Pubkey → Authority

abbrev pub authority_of : Host → Authority → UpdateAuthority
authority_of h no_key = nobody
authority_of h (address_key k) = address (h.key_bytes k)
authority_of h (collection_key k) = collection (h.key_bytes k)

abbrev pub collection_in : Authority → Option Pubkey
collection_in no_key = none
collection_in (address_key k) = none
collection_in (collection_key k) = some k

-- A key that the library writes as 32 bytes and reads back.
abbrev pub IsKey : Host → Pubkey → Type 0
IsKey h k = (length (h.key_bytes k) ≡ 32) × (h.key_of (h.key_bytes k) ≡ k)

abbrev pub HasKey : Host → Authority → Type 0
HasKey h no_key = Unit {0}
HasKey h (address_key k) = IsKey h k
HasKey h (collection_key k) = IsKey h k

-- An account of the Core program with the bytes of an asset, whose owner and update authority are
-- keys that the library writes as 32 bytes and reads back, is read by the client as that asset:
-- with its owner, and with the collection when the authority is a collection and with none
-- otherwise.
pub asset_from_account-asset_bytes :
    (h : Host) (key owner : Pubkey) (authority : Authority) (rest : List ℕ)
    → h.key_bytes h.core ≡ core_id
    → IsKey h owner
    → HasKey h authority
    → asset_from_account h key h.core
        (asset_bytes (h.key_bytes owner) (authority_of h authority) rest)
      ≡ ok (record { address = key; owner = owner; collection = collection_in authority })
unfolding asset_from_account
asset_from_account-asset_bytes h key owner authority rest core (sized, back) known =
    let d = asset_bytes (h.key_bytes owner) (authority_of h authority) rest in
    ap (λ k. asset_of_header h key (core_asset k d)) core
    ∙ ap (asset_of_header h key) (
        core_asset-asset_bytes (h.key_bytes owner) (authority_of h authority) rest sized
          (key_size authority known))
    ∙ λ i. ok (record { address = key; owner = back i; collection = read authority known i })
  where
    key_size : (a : Authority) → HasKey h a → HasKeySize (authority_of h a)
    key_size no_key u = tt
    key_size (address_key k) (size, same) = size
    key_size (collection_key k) (size, same) = size

    read :
        (a : Authority)
        → HasKey h a
        → collection_address h (collection_of (authority_of h a)) ≡ collection_in a
    read no_key u = refl
    read (address_key k) (size, same) = refl
    read (collection_key k) (size, same) = ap some same
