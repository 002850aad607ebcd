-- ===== src/Program/Deliver/Tests.antt =====
-- The delivery of program/src/operator/deliver.rs on a concrete pull.
use solana_gacha.Prelude.{◌≡◌, refl, [], ◌∷◌, true, ok, err, gacha, invalid_outcome}
use solana_gacha.Core.Constants.{status_settled}
use solana_gacha.Core.State.{Pull, new_pull, set_outcome, mark_delivered}
use solana_gacha.Program.Account.{
  raw, pull_data, asset_transfer, load_pool, load_pull, check_account, close,
}
use solana_gacha.Program.Scene.{env, account, pool_account, pull_until, other}
use solana_gacha.Program.Deliver.{
  DeliverAccounts, Delivered, deliver_accounts, deliver, deliver_event, deliver_once,
}

abbrev settled_pull : Pull
settled_pull = record (set_outcome (pull_until 150) 0 2 99) { status = status_settled }

abbrev delivering : Pull → DeliverAccounts
delivering l = record {
  payer = other;
  pool = pool_account 0;
  pull = account 20 1 (pull_data l);
  buyer = other;
  asset = account 99 0 (raw 0);
  collection = account 98 0 (raw 0);
}

deliver_accounts_run :
    deliver_accounts env (
      other
      ∷ pool_account 0
      ∷ account 20 1 (pull_data settled_pull)
      ∷ other
      ∷ account 99 0 (raw 0)
      ∷ account 98 0 (raw 0)
      ∷ other
      ∷ other
      ∷ other
      ∷ other
      ∷ [])
    ≡ ok (delivering settled_pull)
unfolding deliver_accounts load_pool load_pull check_account new_pull
deliver_accounts_run = refl

abbrev after : Pull
after = mark_delivered settled_pull 0

abbrev result : Delivered
result = record {
  pull = after;
  closed = true;
  buyer_lamports = 14;
  calls = asset_transfer 50 10 50 99 98 ∷ deliver_event env (delivering settled_pull) 0 ∷ [];
}

deliver_run : deliver env (delivering settled_pull) 0 ≡ ok result
unfolding deliver load_pool load_pull check_account close new_pull
deliver_run = refl

loads : load_pull env (account 20 1 (pull_data settled_pull)) ≡ ok settled_pull
unfolding load_pull check_account new_pull
loads = refl

loads_again : load_pull env (account 20 1 (pull_data after)) ≡ ok after
unfolding load_pull check_account new_pull
loads_again = refl

deliver_once_example : deliver env (delivering after) 0 ≡ err (gacha invalid_outcome)
deliver_once_example =
    deliver_once env env (delivering settled_pull) (delivering after) 0 loads deliver_run
      loads_again
