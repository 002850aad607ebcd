-- ===== src/Sdk/Pulls/Delivery.antt =====
-- packages/gacha-rust/src/lib.rs, `deliver`, beside program/src/operator/deliver.rs: what the client's
-- deliveries are to the program, and which awards they deliver.
use solana_gacha.Prelude.{
  ℕ, zero, suc, ◌≡◌, ◌≢◌, ap, sym, List, [], ◌∷◌, false, not, ◌==◌, ok, ok-injective, arith, length,
  get_or, drop, tabulate, if◌then◌else◌, bind-ok, reject_if, reject_if-ok, not-false, or_false,
  not-==→ne, ==→eq, sdk, Bool-cases, inl, inr,
}
use solana_gacha.Prelude.SdkErrors.{invalid_asset}
use solana_gacha.Core.Constants.{delivered}
use solana_gacha.Core.State.{Pubkey, Award}
use solana_gacha.Program.Deliver.{deliver_instruction}
use solana_gacha.Sdk.{Host, AccountMeta, Asset, Instruction, ItemSnapshot, collection_of}
use solana_gacha.Sdk.Plan.{Planned}
use solana_gacha.Sdk.Pulls.{
  to_outcome, deliver_order, undelivered, deliveries, any_misplaced, placed,
}

-- The accounts of an instruction, those that sign and those that are written.
abbrev pub keys : List AccountMeta → List Pubkey
keys [] = []
keys (m ∷ ms) = m.pubkey ∷ keys ms

abbrev pub signers : List AccountMeta → List Pubkey
signers [] = []
signers (m ∷ ms) = if m.is_signer then m.pubkey ∷ signers ms else signers ms

abbrev pub writables : List AccountMeta → List Pubkey
writables [] = []
writables (m ∷ ms) = if m.is_writable then m.pubkey ∷ writables ms else writables ms

-- Who delivers the awards of which pull of which pool to whom.
pub record Delivery : Type 0 where
  pub payer : Pubkey
  pub pool : Pubkey
  pub pull : Pubkey
  pub buyer : Pubkey

-- The instruction calls the program's delivery: its parser reads the award's place, the accounts stand in the
-- order that the program takes them in, the payer alone signs, and what a delivery changes is writable.
pub record IsDelivery (h : Host) (d : Delivery) (i : ℕ) (a : Asset) (sent : Instruction)
    : Type 0 where
  pub called : sent.program_id ≡ h.program
  pub named : get_or sent.bytes 0 0 ≡ 21
  pub parsed : deliver_instruction (drop 1 sent.bytes) ≡ ok i
  pub in_order :
      keys sent.accounts
      ≡ d.payer
        ∷ d.pool
        ∷ d.pull
        ∷ d.buyer
        ∷ a.address
        ∷ collection_of h a
        ∷ h.core
        ∷ h.system
        ∷ h.event_authority
        ∷ h.program
        ∷ []
  pub signed : signers sent.accounts ≡ d.payer ∷ []
  pub written : writables sent.accounts ≡ d.payer ∷ d.pull ∷ d.buyer ∷ a.address ∷ []
  pub owned : a.owner ≡ d.pool

-- The instructions deliver exactly the awards that are not delivered, from the place `i` on and in order: each
-- the asset of the award, from the asset given for it.
pub data DeliversAwards (h : Host) (d : Delivery)
    : ℕ → List Award → List Asset → List Instruction → Type 0 where
  no_award : (i : ℕ) → DeliversAwards h d i [] [] []
  passed :
      (i : ℕ) (w : Award) {ws : List Award} {assets : List Asset} {sent : List Instruction}
      → w.tier ≡ delivered
      → DeliversAwards h d (suc i) ws assets sent
      → DeliversAwards h d i (w ∷ ws) assets sent
  awarded :
      (i : ℕ) (w : Award) (a : Asset) (one : Instruction) {ws : List Award} {assets : List Asset}
      {sent : List Instruction}
      → w.tier ≢ delivered
      → a.address ≡ w.asset
      → IsDelivery h d i a one
      → DeliversAwards h d (suc i) ws assets sent
      → DeliversAwards h d i (w ∷ ws) (a ∷ assets) (one ∷ sent)

-- The instructions deliver the planned draws, from the place `i` on and in order: each the asset of the item
-- that was drawn, from the asset given for it.
pub data DeliversDraws (h : Host) (d : Delivery)
    : ℕ → List Planned → List ItemSnapshot → List Asset → List Instruction → Type 0 where
  no_draw : (i : ℕ) → DeliversDraws h d i [] [] [] []
  drawn :
      (i : ℕ) (w : Planned) (item : ItemSnapshot) (a : Asset) (one : Instruction)
      {ws : List Planned} {items : List ItemSnapshot} {assets : List Asset}
      {sent : List Instruction}
      → item.address ≡ w.item
      → a.address ≡ item.header.asset
      → IsDelivery h d i a one
      → DeliversDraws h d (suc i) ws items assets sent
      → DeliversDraws h d i (w ∷ ws) (item ∷ items) (a ∷ assets) (one ∷ sent)

deliver_order-ok :
    (h : Host) (d : Delivery) (a : Asset) (i : ℕ) {sent : Instruction}
    → deliver_order h d.pool d.pull d.buyer a i d.payer ≡ ok sent
    → IsDelivery h d i a sent
unfolding deliver_order
deliver_order-ok h d a i run =
    let foreign = not (a.owner == d.pool) in
    let (u, checked, made) = bind-ok (reject_if foreign (sdk invalid_asset)) _ run in
    let e = ok-injective made in
    record {
      called = ap (λ (x : Instruction). x.program_id) (sym e);
      named = ap (λ (x : Instruction). get_or x.bytes 0 0) (sym e);
      parsed = ap (λ (x : Instruction). deliver_instruction (drop 1 x.bytes)) (sym e);
      in_order = ap (λ (x : Instruction). keys x.accounts) (sym e);
      signed = ap (λ (x : Instruction). signers x.accounts) (sym e);
      written = ap (λ (x : Instruction). writables x.accounts) (sym e);
      owned =
          ==→eq a.owner d.pool
            (not-false (a.owner == d.pool) (reject_if-ok foreign (sdk invalid_asset) checked));
    }

-- A delivery with those behind it.
deliveries-cons :
    (h : Host) (d : Delivery) (i : ℕ) (asset : Pubkey) (places : List (ℕ × Pubkey)) (a : Asset)
    (assets : List Asset) {sent : List Instruction}
    → deliveries h d.pool d.pull d.buyer ((i, asset) ∷ places) (a ∷ assets) d.payer ≡ ok sent
    → (one : Instruction) × (others : List Instruction) × (one ∷ others ≡ sent)
      × (a.address ≡ asset)
      × IsDelivery h d i a one
      × (deliveries h d.pool d.pull d.buyer places assets d.payer ≡ ok others)
unfolding deliveries
deliveries-cons h d i asset places a assets run =
    let other = not (asset == a.address) in
    let (u, checked, ordering) = bind-ok (reject_if other (sdk invalid_asset)) _ run in
    let (one, ordered, following) =
      bind-ok (deliver_order h d.pool d.pull d.buyer a i d.payer) _ ordering in
    let (others, more, made) =
      bind-ok (deliveries h d.pool d.pull d.buyer places assets d.payer) _ following in
    (
      one,
      others,
      ok-injective made,
      sym (
          ==→eq asset a.address
            (not-false (asset == a.address) (reject_if-ok other (sdk invalid_asset) checked))),
      deliver_order-ok h d a i ordered,
      more,
    )

-- The client's deliveries of a pull's outcomes.
pub deliveries-DeliversAwards :
    (h : Host) (d : Delivery) (f : ℕ → Award) (i n : ℕ) (assets : List Asset)
    {sent : List Instruction}
    → length (undelivered i (tabulate (λ k. to_outcome (f k)) i n)) ≡ length assets
    → deliveries h d.pool d.pull d.buyer
        (undelivered i (tabulate (λ k. to_outcome (f k)) i n))
        assets
        d.payer
      ≡ ok sent
    → DeliversAwards h d i (tabulate f i n) assets sent
unfolding undelivered
deliveries-DeliversAwards h d f i zero [] same run =
    unfold deliveries in rw (← ok-injective run) (no_award i)
deliveries-DeliversAwards h d f i zero (a ∷ assets) same run = absurd (omega arith)
deliveries-DeliversAwards h d f i (suc n) [] same run =
    elim (Bool-cases ((f i).tier == delivered)) [
      | inl gone ↦
          passed i (f i) (==→eq (f i).tier delivered gone)
            (deliveries-DeliversAwards h d f (suc i) n [] (rw gone at same) (rw gone at run))
      | inr left ↦ absurd (omega (arith, rw left at same))
    ]
deliveries-DeliversAwards h d f i (suc n) (a ∷ assets) same run =
    elim (Bool-cases ((f i).tier == delivered)) [
      | inl gone ↦ passed i (f i) (==→eq (f i).tier delivered gone) (
          deliveries-DeliversAwards h d f (suc i) n (a ∷ assets) (rw gone at same) (rw gone at run))
      | inr left ↦
          let (one, others, split, asset, first, more) =
            deliveries-cons h d i (f i).asset
              (undelivered (suc i) (tabulate (λ k. to_outcome (f k)) (suc i) n)) a assets
              (rw left at run) in
          rw (← split) (
            awarded i (f i) a one (not-==→ne (f i).tier delivered left) asset first (
              deliveries-DeliversAwards h d f (suc i) n assets (omega (arith, rw left at same))
                more))
    ]

-- The client's deliveries of the items of a settlement.
pub deliveries-DeliversDraws :
    (h : Host) (d : Delivery) (i : ℕ) (ws : List Planned) (items : List ItemSnapshot)
    (assets : List Asset) {sent : List Instruction}
    → length items ≡ length ws
    → length assets ≡ length items
    → any_misplaced items ws ≡ false
    → deliveries h d.pool d.pull d.buyer (placed i items) assets d.payer ≡ ok sent
    → DeliversDraws h d i ws items assets sent
unfolding any_misplaced placed
deliveries-DeliversDraws h d i [] [] [] e1 e2 at_place run =
    unfold deliveries in rw (← ok-injective run) (no_draw i)
deliveries-DeliversDraws h d i [] [] (a ∷ assets) e1 e2 at_place run = absurd (omega arith)
deliveries-DeliversDraws h d i [] (x ∷ items) assets e1 e2 at_place run = absurd (omega arith)
deliveries-DeliversDraws h d i (w ∷ ws) [] assets e1 e2 at_place run = absurd (omega arith)
deliveries-DeliversDraws h d i (w ∷ ws) (x ∷ items) [] e1 e2 at_place run = absurd (omega arith)
deliveries-DeliversDraws h d i (w ∷ ws) (x ∷ items) (a ∷ assets) e1 e2 at_place run =
    let (here, rest) = or_false (not (x.address == w.item)) (any_misplaced items ws) at_place in
    let (one, others, split, asset, first, more) =
      deliveries-cons h d i x.header.asset (placed (suc i) items) a assets run in
    rw (← split) (
      drawn i w x a one (==→eq x.address w.item (not-false (x.address == w.item) here)) asset first
        (deliveries-DeliversDraws h d (suc i) ws items assets (omega arith) (omega arith) rest
          more))
