-- ===== src/Sdk/Pulls/Laws.antt =====
-- The delivery of a pull's awards by the client delivers each award that is not delivered yet, once.
use solana_gacha.Prelude.{
  ◌≡◌, ◌≢◌, List, [], ◌==◌, not, ok, ok-injective, length, bind-ok, reject_if, reject_if-ok,
  not-false, not-==→ne, tabulate, ==→eq, sdk,
}
use solana_gacha.Prelude.SdkErrors.{invalid_asset, not_settled}
use solana_gacha.Core.Constants.{status_pending}
use solana_gacha.Core.State.{Pubkey, outcome}
use solana_gacha.Sdk.{Host, Asset, Instruction, PullSnapshot}
use solana_gacha.Sdk.Batches.Laws.{flatten, IsWithin, IsFilled, batches-ok}
use solana_gacha.Sdk.Pulls.{
  to_outcome, awards, Outcome, outcomes, undelivered, deliveries, deliver_batches,
}
use solana_gacha.Sdk.Pulls.Delivery.{Delivery, DeliversAwards, deliveries-DeliversAwards}

-- The client's delivery of the awards of a pull, at an account's expense.
abbrev pub delivery_of : PullSnapshot → Pubkey → Delivery
delivery_of l payer = record {
  payer = payer;
  pool = l.header.pool;
  pull = l.address;
  buyer = l.header.buyer;
}

outcomes-ok :
    (l : PullSnapshot) {all : List Outcome}
    → outcomes l ≡ ok all
    → (l.header.status ≢ status_pending)
      × (tabulate (λ i. to_outcome (outcome l.header i)) 0 l.header.count ≡ all)
unfolding outcomes
outcomes-ok l run =
    let early = l.header.status == status_pending in
    let (u, settled, listed) = bind-ok (reject_if early (sdk not_settled)) _ run in
    (
      not-==→ne l.header.status status_pending (reject_if-ok early (sdk not_settled) settled),
      ok-injective listed,
    )

-- When the client's delivery of a pull comes out, the pull is not pending, and the groups one
-- after the other deliver exactly the awards that are not delivered, in order, each with one
-- instruction: it calls the program's delivery, whose parser reads the award's place, with the
-- accounts in the program's order and the payer as the only signer, and sends the award's asset,
-- which the pool owns, from the asset given for it. Every asset given is sent, the transaction of
-- every group has at most 1232 bytes, and no group is empty.
pub deliver_batches-ok :
    (h : Host) (l : PullSnapshot) (assets : List Asset) (payer : Pubkey)
    {groups : List (List Instruction)}
    → deliver_batches h l assets payer ≡ ok groups
    → (l.header.status ≢ status_pending)
      × DeliversAwards h (delivery_of l payer) 0 (awards l.header) assets (flatten groups)
      × IsWithin h payer groups
      × IsFilled groups
unfolding deliver_batches
deliver_batches-ok h l assets payer run =
    let d = delivery_of l payer in
    let (all, listed, counted) = bind-ok (outcomes l) _ run in
    let (settled, each) = outcomes-ok l listed in
    let other = not (length (undelivered 0 all) == length assets) in
    let (u, matched, delivering) = bind-ok (reject_if other (sdk invalid_asset)) _ counted in
    let (sent, delivered, grouping) =
      bind-ok (deliveries h d.pool d.pull d.buyer (undelivered 0 all) assets payer) _ delivering in
    let same : length (undelivered 0 all) ≡ length assets =
      ==→eq (length (undelivered 0 all)) (length assets) (
        not-false (length (undelivered 0 all) == length assets)
          (reject_if-ok other (sdk invalid_asset) matched)) in
    let (kept, within, filled) = batches-ok h [] sent payer grouping in
    (
      settled,
      rw kept (
          deliveries-DeliversAwards h d (outcome l.header) 0 l.header.count assets
            (rw (← each) at same) (rw (← each) at delivered)),
      within,
      filled,
    )
