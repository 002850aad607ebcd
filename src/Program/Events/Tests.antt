-- ===== src/Program/Events/Tests.antt =====
-- Runs of the event buffers of program/src/events.rs.
use solana_gacha.Prelude.{
  ℕ, ◌≡◌, refl, [], ◌∷◌, ok, err, panic, arith, replicate, length-replicate, map_ok, take,
}
use solana_gacha.Bytes.{le_bytes, length-le_bytes}
use solana_gacha.Core.State.{Pull}
use solana_gacha.Program.Account.{Env, emit}
use solana_gacha.Program.Events.{settle_fields, push, push_all, write_event}
use solana_gacha.Program.Events.Laws.{settle_event-fits}
use solana_gacha.Program.Settle.{SettleAccounts, settle_event, award_bytes}
use solana_gacha.Program.Scene.{
  env, pool_account, operator_account, pull_account, item_account, pull_until,
}

abbrev sized_env : Env
sized_env = record env { key_bytes = le_bytes 32 }

abbrev settling : SettleAccounts
settling = record {
  operator = operator_account;
  pool = pool_account 1;
  pull = pull_account;
  items = item_account ∷ [];
}

abbrev awarded : Pull
awarded = record (pull_until 150) { outcomes = replicate 10 (record { tier = 2; asset = 99 }) }

-- Eleven awards do not fit the buffer of a settlement's event.
eleven_awards :
    write_event
      (le_bytes 32)
      (settle_fields 10 20 (replicate 32 7) (replicate 80 0) (replicate 64 9) (replicate 363 1))
    ≡ err panic
unfolding write_event push_all push
eleven_awards = refl

settle_event-fits_example :
    map_ok emit (
      write_event (le_bytes 32) (
        settle_fields 10 20
          (replicate 32 7)
          (replicate 80 0)
          (replicate 64 9)
          (award_bytes sized_env (take 10 awarded.outcomes))))
    ≡ ok (
        settle_event sized_env settling
          (replicate 32 7)
          (replicate 80 0)
          (replicate 64 9)
          awarded
          10)
settle_event-fits_example =
    settle_event-fits sized_env settling (replicate 32 7) (replicate 80 0) (replicate 64 9) awarded
      10 (λ k. length-le_bytes 32 k) (length-replicate {A = ℕ} 32 7) (length-replicate {A = ℕ} 80 0)
      (length-replicate {A = ℕ} 64 9) (omega arith)
