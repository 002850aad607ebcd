-- ===== src/Sdk/Wire/Creation.antt =====
-- packages/gacha-rust/src/lib.rs and program/src/admin/create_pool.rs: the data of a pool's creation is
-- what the program reads, and passes its checks.
use solana_gacha.Prelude.{
  ℕ, zero, suc, ◌+◌, ◌*◌, ◌≤◌, ◌<◌, ◌≡◌, ap, sym, refl, ◌∙◌, List, [], ◌∷◌, ◌++◌, arith, length,
  get_or, drop, take, tabulate, true, false, Bool-cases, inl, inr, ◌==◌, ◌||◌, ltb, not, Result, ok,
  err, le→not-ltb, eq→==, length-append, ne→not-==, ap,
}
use mathlib.Core.Path.{ap₂}
use mathlib.Core.List.{append_assoc}
use solana_gacha.Bytes.{u32_at, le_bytes, byte_limit, AllBelow}
use solana_gacha.Bytes.Values.{get_or-append_right}
use solana_gacha.Core.Constants.{max_tiers, max_count}
use solana_gacha.Core.State.{Pubkey, refund_total}
use solana_gacha.Core.Draw.{u64_at}
use solana_gacha.Program.Create.{
  CreatePoolInstruction, contains_zero, is_none, check_params, create_pool_instruction,
}
use solana_gacha.Sdk.{Host, Instruction}
use solana_gacha.Sdk.Pools.{pool_address}
use solana_gacha.Sdk.Orders.{Creation, weight_bytes, create_data, create_order}
use solana_gacha.Sdk.Wire.Numbers.{u32_at-le_bytes, u64_at-le_bytes, u32_at-append}

-- The weights of eight tiers, those past the list zero.
abbrev pub padded : List ℕ → ℕ → List ℕ
padded ws zero = []
padded [] (suc n) = 0 ∷ padded [] n
padded (w ∷ ws) (suc n) = w ∷ padded ws n

length-weight_bytes : (ws : List ℕ) (n : ℕ) → length (weight_bytes ws n) ≡ n * 4
length-weight_bytes ws zero = omega arith
length-weight_bytes [] (suc n) = omega (arith, length-weight_bytes [] n)
length-weight_bytes (w ∷ ws) (suc n) = omega (arith, length-weight_bytes ws n)

behind :
    (front : List ℕ) (w p k : ℕ)
    → length front ≡ p + k * 4
    → length (front ++ le_bytes 4 w) ≡ p + suc k * 4
behind front w p k h = omega (arith, length-append front (le_bytes 4 w))

next_read :
    (front : List ℕ) (w : ℕ) (ws rest : List ℕ) (p k n : ℕ)
    → length front ≡ p + k * 4
    → w < byte_limit 4
    → tabulate
        (λ i. u32_at ((front ++ le_bytes 4 w) ++ (weight_bytes ws n ++ rest)) (p + i * 4))
        (suc k)
        n
      ≡ padded ws n
    → tabulate
        (λ i. u32_at (front ++ (le_bytes 4 w ++ (weight_bytes ws n ++ rest))) (p + i * 4))
        k
        (suc n)
      ≡ w ∷ padded ws n
next_read front w ws rest p k n h small others =
    let tail = weight_bytes ws n ++ rest in
    ap₂ ◌∷◌
      (u32_at-append front (le_bytes 4 w ++ tail) (p + k * 4) 0 (omega arith)
        ∙ u32_at-le_bytes w tail small)
      (ap (λ (l : List ℕ). tabulate (λ i. u32_at l (p + i * 4)) (suc k) n)
          (sym (append_assoc front (le_bytes 4 w) tail))
        ∙ others)

-- The numbers from place `k` on, behind bytes up to that place.
weights_read :
    (front ws rest : List ℕ) (p k n : ℕ)
    → length front ≡ p + k * 4
    → AllBelow (byte_limit 4) ws
    → tabulate (λ i. u32_at (front ++ (weight_bytes ws n ++ rest)) (p + i * 4)) k n ≡ padded ws n
weights_read front ws rest p k zero h small = refl
weights_read front [] rest p k (suc n) h small =
    next_read front 0 [] rest p k n h (omega arith)
      (weights_read (front ++ le_bytes 4 0) [] rest p (suc k) n (behind front 0 p k h) tt)
weights_read front (w ∷ ws) rest p k (suc n) h (first, others) =
    next_read front w ws rest p k n h first
      (weights_read (front ++ le_bytes 4 w) ws rest p (suc k) n (behind front w p k h) others)

take-padded : (ws : List ℕ) (n : ℕ) → length ws ≤ n → take (length ws) (padded ws n) ≡ ws
take-padded [] n h = refl
take-padded (w ∷ ws) zero h = absurd (omega arith)
take-padded (w ∷ ws) (suc n) h = ap (λ (l : List ℕ). w ∷ l) (take-padded ws n (omega arith))

-- The order's numbers fit their words.
abbrev pub CreationFits : Creation → Type 0
CreationFits c =
    (c.id < byte_limit 8)
    × (c.price < byte_limit 8)
    × (c.deadline_slots < byte_limit 8)
    × (c.bond_per_draw < byte_limit 8)
    × AllBelow (byte_limit 4) c.weights

abbrev pub creation_read : Creation → ℕ → CreatePoolInstruction
creation_read c bump = record {
  id = c.id;
  price = c.price;
  deadline_slots = c.deadline_slots;
  bond_per_draw = c.bond_per_draw;
  tier_count = length c.weights;
  weights = padded c.weights max_tiers;
  bump = bump;
}

-- What the client's checks ensure.
pub record IsAccepted (c : Creation) : Type 0 where
  pub some_tiers : 0 < length c.weights
  pub few_tiers : length c.weights ≤ max_tiers
  pub positive : contains_zero c.weights ≡ false
  pub priced : 0 < c.price
  pub lasting : 0 < c.deadline_slots
  pub bonded : 0 < c.bond_per_draw
  pub refunded : is_none (refund_total c.price c.bond_per_draw max_count) ≡ false

check_params-creation_read :
    (c : Creation) (bump : ℕ)
    → IsAccepted c
    → check_params (creation_read c bump) ≡ ok (creation_read c bump)
unfolding check_params
check_params-creation_read c bump a = rw (
  ne→not-== (length c.weights) 0 (λ e. omega (arith, a.some_tiers)),
  le→not-ltb max_tiers (length c.weights) a.few_tiers,
  take-padded c.weights max_tiers a.few_tiers,
  a.positive,
  ne→not-== c.price 0 (λ e. omega (arith, a.priced)),
  ne→not-== c.bond_per_draw 0 (λ e. omega (arith, a.bonded)),
  ne→not-== c.deadline_slots 0 (λ e. omega (arith, a.lasting)),
  a.refunded,
)

create_data_read :
    (c : Creation) (bump : ℕ)
    → CreationFits c
    → create_pool_instruction (drop 1 (create_data c bump)) ≡ check_params (creation_read c bump)
unfolding create_pool_instruction create_data u64_at
create_data_read c bump (id, price, lasting, bond, small) =
    let tail = bump ∷ [] in
    let eight = weight_bytes c.weights max_tiers in
    let front =
      le_bytes 8 c.id
      ++ (le_bytes 8 c.price
          ++ (le_bytes 8 c.deadline_slots
              ++ (le_bytes 8 c.bond_per_draw ++ (length c.weights ∷ [])))) in
    let bytes = front ++ (eight ++ tail) in
    let sized : length eight ≡ 32 = length-weight_bytes c.weights max_tiers in
    let long : (length bytes == 66) ≡ true =
      eq→== (length bytes) 66 (omega (arith, length-append eight tail)) in
    let weights = weights_read front c.weights tail 33 0 max_tiers refl small in
    let last : get_or bytes 65 0 ≡ bump = get_or-append_right eight tail 32 0 0 (omega arith) in
    rw long (λ i. check_params (record {
      id = u64_at-le_bytes c.id [] id i;
      price = u64_at-le_bytes c.price [] price i;
      deadline_slots = u64_at-le_bytes c.deadline_slots [] lasting i;
      bond_per_draw = u64_at-le_bytes c.bond_per_draw [] bond i;
      tier_count = length c.weights;
      weights = weights i;
      bump = last i;
    }))

create_order_run :
    (h : Host) (c : Creation) (authority operator payment_mint : Pubkey) {sent : List Instruction}
    → create_order h c authority operator payment_mint ≡ ok sent
    → IsAccepted c
unfolding create_order
create_order_run h c authority operator payment_mint run = record {
  some_tiers = ground arith;
  few_tiers = ground arith;
  positive = ground arith;
  priced = ground arith;
  lasting = ground arith;
  bonded = ground arith;
  refunded = ground arith;
}

-- The data of the second instruction, behind the one that creates the vault.
abbrev pub second_bytes : List Instruction → List ℕ
second_bytes [] = []
second_bytes (i ∷ []) = []
second_bytes (i ∷ j ∷ rest) = j.bytes

abbrev pub sent_second : Result (List Instruction) → List ℕ
sent_second (ok sent) = second_bytes sent
sent_second (err e) = []

create_order-bytes :
    (h : Host) (c : Creation) (authority operator payment_mint : Pubkey) {sent : List Instruction}
    → create_order h c authority operator payment_mint ≡ ok sent
    → second_bytes sent ≡ create_data c (pool_address h authority c.id).1
unfolding create_order
create_order-bytes h c authority operator payment_mint run =
    elim (Bool-cases (
      length c.weights == 0
      || ltb max_tiers (length c.weights)
      || contains_zero c.weights
      || c.price == 0
      || c.deadline_slots == 0
      || c.bond_per_draw == 0
      || is_none (refund_total c.price c.bond_per_draw max_count)
      || not (h.is_valid operator))) [
        | inl bad ↦ absurd (ground (arith, bad))
        | inr good ↦ let made = rw good at run in ap sent_second (sym made)
      ]

-- When the client's `create_order` comes out for numbers that fit their words, the program's
-- parser accepts the data of its second instruction, with every check on the parameters, and reads
-- the order's numbers, its weights padded by zeros, and the derived bump.
pub create_order-create_pool_instruction :
    (h : Host) (c : Creation) (authority operator payment_mint : Pubkey) {sent : List Instruction}
    → CreationFits c
    → create_order h c authority operator payment_mint ≡ ok sent
    → create_pool_instruction (drop 1 (second_bytes sent))
      ≡ ok (creation_read c (pool_address h authority c.id).1)
create_order-create_pool_instruction h c authority operator payment_mint fits run =
    let bump = (pool_address h authority c.id).1 in
    ap (λ (l : List ℕ). create_pool_instruction (drop 1 l))
      (create_order-bytes h c authority operator payment_mint run)
    ∙ create_data_read c bump fits
    ∙ check_params-creation_read c bump (create_order_run h c authority operator payment_mint run)
