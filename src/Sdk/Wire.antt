-- ===== src/Sdk/Wire.antt =====
-- packages/gacha-rust/src/lib.rs and program/src: the data of the client's instructions is what the
-- program's parsers read.
use solana_gacha.Prelude.{
  ℕ, zero, suc, ◌+◌, ◌*◌, ◌/◌, ◌%◌, ◌^◌, ◌≤◌, ◌<◌, ◌≡◌, ap, sym, refl, ◌∙◌, List, [], ◌∷◌, ◌++◌,
  arith, length, get_or, drop, take, true, false, Bool-cases, inl, inr, ◌==◌, ◌||◌, ltb, not,
  Result, ok, err, le→not-ltb, not-ltb→le, eq→==, length-append, ne→not-==,
}
use solana_gacha.Bytes.{u32_at, le_bytes, byte_limit}
use solana_gacha.Bytes.Values.{take-append, get_or-append_right}
use solana_gacha.Core.Constants.{max_count}
use solana_gacha.Core.Draw.{u64_at}
use solana_gacha.Core.State.{Pubkey}
use solana_gacha.Program.Buy.{BuyInstruction, buy_instruction}
use solana_gacha.Sdk.{Host, PoolSnapshot, Instruction}
use solana_gacha.Sdk.Pools.{pull_address, is_active}
use solana_gacha.Sdk.Orders.{Order, Purchase, buy_order}
mod Numbers
pub mod Creation
pub mod Quotes
pub mod Tests
use solana_gacha.Sdk.Wire.Numbers.{u32_at-le_bytes, u64_at-le_bytes, u32_at-append}

abbrev pub buy_data : ℕ → List ℕ → ℕ → ℕ → List ℕ
buy_data count client_seed inventory_version bump =
    count ∷ (client_seed ++ (le_bytes 4 inventory_version ++ (bump ∷ [])))

buy_instruction-buy_data :
    (count : ℕ) (client_seed : List ℕ) (inventory_version bump : ℕ)
    → 0 < count
    → count ≤ max_count
    → length client_seed ≡ 32
    → inventory_version < byte_limit 4
    → buy_instruction (buy_data count client_seed inventory_version bump)
      ≡ ok (record {
        count = count;
        client_seed = client_seed;
        inventory_version = inventory_version;
        bump = bump;
      })
unfolding buy_instruction
buy_instruction-buy_data count client_seed inventory_version bump some few sized small =
    let tail = le_bytes 4 inventory_version ++ (bump ∷ []) in
    let bytes = buy_data count client_seed inventory_version bump in
    let long : (length bytes == 38) ≡ true =
      eq→== (length bytes) 38 (omega (arith, length-append client_seed tail)) in
    let seed : take 32 (client_seed ++ tail) ≡ client_seed =
      ap (λ n. take n (client_seed ++ tail)) (sym sized) ∙ take-append client_seed tail in
    let version : u32_at bytes 33 ≡ inventory_version =
      u32_at-append (count ∷ client_seed) tail 33 0 (omega arith)
      ∙ u32_at-le_bytes inventory_version (bump ∷ []) small in
    let last : get_or bytes 37 0 ≡ bump =
      get_or-append_right (count ∷ client_seed) tail 37 4 0 (omega arith) in
    rw (long, ne→not-== count 0 (λ e. omega arith), le→not-ltb max_count count few)
      (λ i. ok (record {
        count = count;
        client_seed = seed i;
        inventory_version = version i;
        bump = last i;
      }))

abbrev sent_bytes : Result Purchase → List ℕ
sent_bytes (ok p) = p.sent.bytes
sent_bytes (err e) = []

abbrev sent_pull : Pubkey → Result Purchase → Pubkey
sent_pull default (ok p) = p.pull
sent_pull default (err e) = default

-- When the client's `buy_order` comes out for a client seed of 32 bytes and a 32-bit inventory
-- version, its instruction has the discriminator of a purchase, and the program's parser reads the
-- order's count and seed, the snapshot's inventory version and the derived bump.
pub buy_order-buy_instruction :
    (h : Host) (s : PoolSnapshot) (o : Order) {p : Purchase}
    → length o.client_seed ≡ 32
    → s.header.inventory_version < byte_limit 4
    → buy_order h s o ≡ ok p
    → (get_or p.sent.bytes 0 0 ≡ 10)
      × (p.pull ≡ (pull_address h s.address o.client_seed).0)
      × (buy_instruction (drop 1 p.sent.bytes)
          ≡ ok (record {
            count = o.count;
            client_seed = o.client_seed;
            inventory_version = s.header.inventory_version;
            bump = (pull_address h s.address o.client_seed).1;
          }))
unfolding buy_order
buy_order-buy_instruction h s o {p} sized small run = elim (Bool-cases (is_active s)) [
  | inr idle ↦ absurd (ground (arith, idle))
  | inl active ↦ elim (Bool-cases ((o.count == 0) || ltb max_count o.count)) [
    | inl bad ↦ absurd (ground (arith, active, bad))
    | inr good ↦
        let made = rw (active, good) at run in
        let derived = pull_address h s.address o.client_seed in
        let counted : (0 < o.count) × (o.count ≤ max_count) = ground (arith, good) in
        (
          ap (λ r. get_or (sent_bytes r) 0 0) (sym made),
          ap (sent_pull 0) (sym made),
          ap (λ r. buy_instruction (drop 1 (sent_bytes r))) (sym made)
              ∙ buy_instruction-buy_data o.count o.client_seed s.header.inventory_version derived.1
                  counted.0 counted.1 sized small,
        )
  ]
]
