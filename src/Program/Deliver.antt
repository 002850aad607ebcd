-- ===== src/Program/Deliver.antt =====
-- program/src/operator/deliver.rs.
use solana_gacha.Prelude.{
  ℕ, ◌+◌, ◌<◌, ◌≤◌, ◌≡◌, ◌≢◌, refl, ap, sym, ◌∙◌, List, [], ◌∷◌, ◌++◌, Bool, true, false, ◌&&◌,
  ◌==◌, ltb, leb, length, get_or, set, Result, ok, err, gacha, ◌>>=◌, ◌>>◌, require, reject_if,
  arith, Result-cases, inl, inr, if◌then◌else◌, get_or-set_self, length-set, panic,
  not_enough_account_keys, invalid_instruction_data, not_signer, not_mutable, pool_mismatch,
  invalid_pull_status, invalid_buyer, invalid_outcome, invalid_asset,
}
use solana_gacha.Core.Constants.{status_settled, delivered}
use solana_gacha.Core.State.{Pull, Award, empty_award, outcome, mark_delivered, all_delivered}
use solana_gacha.Program.Events.{event_bytes, deliver_fields}
use solana_gacha.Program.Account.{
  AccountInfo, Env, Call, asset_transfer, emit, load_pool, load_pull, close,
}
mod Tests

pub record DeliverAccounts : Type 0 where
  pub payer : AccountInfo
  pub pool : AccountInfo
  pub pull : AccountInfo
  pub buyer : AccountInfo
  pub asset : AccountInfo
  pub collection : AccountInfo

pub deliver_accounts : Env → List AccountInfo → Result DeliverAccounts
deliver_accounts env (payer ∷ pool ∷ pull ∷ buyer ∷ asset ∷ collection ∷ _ ∷ _ ∷ _ ∷ _ ∷ []) = do
  require payer.is_signer (gacha not_signer)
  require (pull.is_writable && buyer.is_writable) (gacha not_mutable)
  _ ← load_pool env pool
  l ← load_pull env pull
  require (l.pool == pool.key) (gacha pool_mismatch)
  require (l.status == status_settled) (gacha invalid_pull_status)
  require (l.buyer == buyer.key) (gacha invalid_buyer)
  ok (record {
    payer = payer;
    pool = pool;
    pull = pull;
    buyer = buyer;
    asset = asset;
    collection = collection;
  })
deliver_accounts env _ = err not_enough_account_keys

abbrev pub deliver_instruction : List ℕ → Result ℕ
deliver_instruction bytes =
    require (length bytes == 1) invalid_instruction_data >> ok (get_or bytes 0 0)

-- What a delivery leaves: the pull, whether it was closed, the buyer's lamports, and the calls.
pub record Delivered : Type 0 where
  pub pull : Pull
  pub closed : Bool
  pub buyer_lamports : ℕ
  pub calls : List Call

abbrev pub deliver_event : Env → DeliverAccounts → ℕ → Call
deliver_event env a i = emit (event_bytes env.key_bytes (deliver_fields a.pull.key a.asset.key i))

pub deliver : Env → DeliverAccounts → ℕ → Result Delivered
deliver env a i = do
  l ← load_pull env a.pull
  reject_if (leb l.count i) (gacha invalid_outcome)
  require (ltb i (length l.outcomes)) panic
  reject_if ((outcome l i).tier == delivered) (gacha invalid_outcome)
  require ((outcome l i).asset == a.asset.key) (gacha invalid_asset)
  _ ← load_pool env a.pool
  let transfer = asset_transfer a.payer.key a.pool.key a.buyer.key a.asset.key a.collection.key
  env.invoke transfer
  let l' = mark_delivered l i
  require (leb l'.count (length l'.outcomes)) panic
  lamports ← if all_delivered l' then close a.pull a.buyer.lamports else ok a.buyer.lamports
  env.invoke (deliver_event env a i)
  ok (record {
    pull = l';
    closed = all_delivered l';
    buyer_lamports = lamports;
    calls = transfer ∷ deliver_event env a i ∷ [];
  })

-- After a delivery of an award that succeeds, every delivery of the same award of the pull account
-- then left is refused with the invalid outcome error, in any environment and with any other
-- accounts.
pub deliver_once :
    (env later : Env) (a b : DeliverAccounts) (i : ℕ) {r : Delivered} {l : Pull}
    → load_pull env a.pull ≡ ok l
    → deliver env a i ≡ ok r
    → load_pull later b.pull ≡ ok r.pull
    → deliver later b i ≡ err (gacha invalid_outcome)
unfolding deliver
deliver_once env later a b i {r} {l} loads h again =
    let shape : r.pull ≡ mark_delivered l i = ground (arith, loads) in
    let inside : i < l.count = ground (arith, loads) in
    let room : i < length l.outcomes = ground (arith, loads) in
    let award : Award = record { tier = delivered; asset = (outcome l i).asset } in
    let kept : length r.pull.outcomes ≡ length l.outcomes =
      ap (λ (q : Pull). length q.outcomes) shape ∙ length-set l.outcomes i award in
    let gone : get_or (mark_delivered l i).outcomes i empty_award ≡ award =
      get_or-set_self l.outcomes i award empty_award room in
    let mark : (outcome r.pull i).tier ≡ delivered =
      ap (λ (q : Pull). (outcome q i).tier) shape ∙ ap (λ (x : Award). x.tier) gone in
    ground (arith, again, mark, kept)
