-- ===== src/Program/Dispatch.antt =====
-- program/src/lib.rs, `process_instruction`, with `emit_event` of events.rs.
use solana_gacha.Prelude.{
  ℕ, List, [], ◌∷◌, ◌==◌, ◌&&◌, if◌then◌else◌, Result, ok, err, gacha, ◌>>=◌, ◌>>◌, require,
  not_enough_account_keys, invalid_instruction_data, invalid_event_authority,
}
use solana_gacha.Core.State.{Pubkey}
use solana_gacha.Program.Account.{AccountInfo, Env, Call}
use solana_gacha.Program.Create.{
  create_pool_accounts, create_pool_instruction, Created, create_pool,
}
use solana_gacha.Program.Deposit.{deposit_item_accounts, deposit_item_instruction, deposit_item}
use solana_gacha.Program.Restock.{Restocked}
use solana_gacha.Program.Withdraw.{withdraw_accounts, withdraw_instruction, withdraw}
use solana_gacha.Program.Lifecycle.{status_accounts, status_instruction, Changed, set_status}
use solana_gacha.Program.Lifecycle.Reclaim.{reclaim_accounts, Reclaimed, reclaim}
use solana_gacha.Program.Buy.{buy_accounts, buy_instruction, Bought, buy}
use solana_gacha.Program.Refund.{refund_accounts, Refunded, refund}
use solana_gacha.Program.Buyback.{buyback_accounts, buyback_instruction, buyback}
use solana_gacha.Program.Settle.{settle_accounts, settle_instruction, Settled, settle}
use solana_gacha.Program.Deliver.{deliver_accounts, deliver_instruction, Delivered, deliver}
mod Tests

-- What an instruction leaves.
pub data Processed : Type 0 where
  pool_created : Created → Processed
  item_deposited : Restocked → Processed
  surplus_withdrawn : List Call → Processed
  status_changed : Changed → Processed
  item_reclaimed : Reclaimed → Processed
  pull_bought : Bought → Processed
  pull_refunded : Refunded → Processed
  asset_bought_back : Restocked → Processed
  pull_settled : Settled → Processed
  award_delivered : Delivered → Processed
  event_emitted : Processed

-- The program's address of the event authority is an argument.
pub emit_event : Pubkey → List AccountInfo → Result (Unit {0})
emit_event event_authority [] = err not_enough_account_keys
emit_event event_authority (a ∷ rest) =
    require (a.is_signer && (a.key == event_authority)) (gacha invalid_event_authority)

-- `try_from` of an instruction, the accounts before the data, and then `process`.
abbrev pub run_settle : Env → List AccountInfo → List ℕ → Result Processed
run_settle env accounts rest = do
  a ← settle_accounts env accounts
  proof ← settle_instruction rest
  s ← settle env a proof
  ok (pull_settled s)

abbrev pub run_deliver : Env → List AccountInfo → List ℕ → Result Processed
run_deliver env accounts rest = do
  a ← deliver_accounts env accounts
  i ← deliver_instruction rest
  s ← deliver env a i
  ok (award_delivered s)

abbrev pub run_buy : Env → List AccountInfo → List ℕ → Result Processed
run_buy env accounts rest = do
  a ← buy_accounts env accounts
  i ← buy_instruction rest
  s ← buy env a i
  ok (pull_bought s)

abbrev pub run_refund : Env → List AccountInfo → Result Processed
run_refund env accounts = do
  a ← refund_accounts env accounts
  s ← refund env a
  ok (pull_refunded s)

abbrev pub run_buyback : Env → List AccountInfo → List ℕ → Result Processed
run_buyback env accounts rest = do
  a ← buyback_accounts env accounts
  i ← buyback_instruction env rest
  s ← buyback env a i
  ok (asset_bought_back s)

abbrev pub run_create_pool : Env → List AccountInfo → List ℕ → Result Processed
run_create_pool env accounts rest = do
  a ← create_pool_accounts env accounts
  i ← create_pool_instruction rest
  s ← create_pool env a i
  ok (pool_created s)

abbrev pub run_deposit_item : Env → List AccountInfo → List ℕ → Result Processed
run_deposit_item env accounts rest = do
  a ← deposit_item_accounts env accounts
  (tier, bump) ← deposit_item_instruction rest
  s ← deposit_item env a tier bump
  ok (item_deposited s)

abbrev pub run_withdraw : Env → List AccountInfo → List ℕ → Result Processed
run_withdraw env accounts rest = do
  a ← withdraw_accounts env accounts
  amount ← withdraw_instruction rest
  s ← withdraw env a amount
  ok (surplus_withdrawn s)

abbrev pub run_set_status : Env → List AccountInfo → List ℕ → Result Processed
run_set_status env accounts rest = do
  a ← status_accounts env accounts
  status ← status_instruction rest
  s ← set_status env a status
  ok (status_changed s)

abbrev pub run_reclaim : Env → List AccountInfo → Result Processed
run_reclaim env accounts = do
  a ← reclaim_accounts env accounts
  s ← reclaim env a
  ok (item_reclaimed s)

pub handle : Env → Pubkey → List AccountInfo → ℕ → List ℕ → Result Processed
handle env event_authority accounts discriminator rest =
    if discriminator == 20
    then run_settle env accounts rest
    else if discriminator == 21
    then run_deliver env accounts rest
    else if discriminator == 10
    then run_buy env accounts rest
    else if discriminator == 11
    then run_refund env accounts
    else if discriminator == 12
    then run_buyback env accounts rest
    else if discriminator == 0
    then run_create_pool env accounts rest
    else if discriminator == 1
    then run_deposit_item env accounts rest
    else if discriminator == 2
    then run_withdraw env accounts rest
    else if discriminator == 3
    then run_set_status env accounts rest
    else if discriminator == 4
    then run_reclaim env accounts
    else if discriminator == 255
    then (emit_event event_authority accounts >> ok event_emitted)
    else err invalid_instruction_data

pub process_instruction : Env → Pubkey → List AccountInfo → List ℕ → Result Processed
process_instruction env event_authority accounts [] = err invalid_instruction_data
process_instruction env event_authority accounts (discriminator ∷ rest) =
    handle env event_authority accounts discriminator rest
