-- ===== src/Program/Events/Laws.antt =====
-- program/src/events.rs: an event of sized parts fits its buffer.
use solana_gacha.Prelude.{
  ℕ, ◌+◌, ◌*◌, ◌≤◌, ◌≡◌, ap, sym, ◌∙◌, List, [], ◌∷◌, ◌++◌, arith, length, length-append, take,
  zero, suc, ok, map_ok, le→not-ltb,
}
use mathlib.Core.List.{append-nil, append_assoc}
use solana_gacha.Bytes.Values.{lengths, sum}
use solana_gacha.Core.State.{Pubkey, Award, Pull}
use solana_gacha.Core.Constants.{max_count, outcome_len}
use solana_gacha.Program.Account.{Env, emit}
use solana_gacha.Program.Settle.{SettleAccounts, award_bytes, settle_event}
use solana_gacha.Program.Events.{
  Event, event_discriminator, create_pool_fields, deposit_item_fields, withdraw_fields,
  set_status_fields, reclaim_fields, buy_fields, refund_fields, buyback_fields, settle_fields,
  deliver_fields, push, push_all, fields, buffer_size, discriminator, write_event, join,
  event_bytes,
}

push-ok :
    (size : ℕ) (written f : List ℕ)
    → length written + length f ≤ size
    → push size written f ≡ ok (written ++ f)
unfolding push
push-ok size written f room = rw (le→not-ltb size (length written + length f) room)

-- Fields that fit the buffer together are all written.
push_all-ok :
    (size : ℕ) (written : List ℕ) (fs : List (List ℕ))
    → length written + sum (lengths fs) ≤ size
    → push_all size written fs ≡ ok (written ++ join fs)
unfolding push_all
push_all-ok size written [] room = ap ok (sym (append-nil written))
push_all-ok size written (f ∷ []) room = rw (push-ok size written f (omega arith))
push_all-ok size written (f ∷ g ∷ fs) room = rw (push-ok size written f (omega arith)) (
    push_all-ok size (written ++ f) (g ∷ fs) (omega (arith, length-append written f))
    ∙ ap ok (append_assoc written f (join (g ∷ fs))))

-- The parts of a settlement's event have the sizes of their types, of at most ten awards.
abbrev pub IsSized : Event → Type 0
IsSized (settle_fields pool pull alpha proof beta outcomes) =
    (length alpha ≡ 32)
    × (length proof ≡ 80)
    × (length beta ≡ 64)
    × (length outcomes ≤ max_count * outcome_len)
IsSized _ = Unit {0}

-- An event whose parts have their sizes fits its buffer.
write_event-ok :
    (key : Pubkey → List ℕ) (e : Event)
    → ((k : Pubkey) → length (key k) ≡ 32)
    → IsSized e
    → write_event key e ≡ ok (event_bytes key e)
unfolding write_event
write_event-ok key e keys sized =
    push_all-ok (buffer_size e) (event_discriminator ∷ discriminator e ∷ []) (fields key e)
      (room e sized)
  where
    room : (e : Event) → IsSized e → 2 + sum (lengths (fields key e)) ≤ buffer_size e
    room (create_pool_fields pool) h = omega (arith, keys pool)
    room (deposit_item_fields pool asset tier position) h = omega (arith, keys pool, keys asset)
    room (withdraw_fields pool amount) h = omega (arith, keys pool)
    room (set_status_fields pool status) h = omega (arith, keys pool)
    room (reclaim_fields pool asset position) h = omega (arith, keys pool, keys asset)
    room (buy_fields pool pull buyer index count) h =
        omega (arith, keys pool, keys pull, keys buyer)
    room (refund_fields pool pull amount) h = omega (arith, keys pool, keys pull)
    room (buyback_fields pool asset seller price position) h =
        omega (arith, keys pool, keys asset, keys seller)
    room (settle_fields pool pull alpha proof beta outcomes) (a, p, b, o) =
        omega (arith, keys pool, keys pull)
    room (deliver_fields pull asset outcome) h = omega (arith, keys pull, keys asset)

-- The awards of an event are packed as tier and key.
length-award_bytes :
    (env : Env) (n : ℕ) (os : List Award)
    → ((k : Pubkey) → length (env.key_bytes k) ≡ 32)
    → length (award_bytes env (take n os)) ≤ n * outcome_len
length-award_bytes env zero os keys = omega arith
length-award_bytes env (suc n) [] keys = omega arith
length-award_bytes env (suc n) (o ∷ os) keys = omega (
  arith,
  length-append (env.key_bytes o.asset) (award_bytes env (take n os)),
  keys o.asset,
  length-award_bytes env n os keys,
)

-- With keys, alpha, proof and beta of their sizes and at most ten awards, the event of a
-- settlement fits its buffer, and its bytes are those of the call that the settlement makes.
pub settle_event-fits :
    (env : Env) (a : SettleAccounts) (alpha proof beta : List ℕ) (l : Pull) (count : ℕ)
    → ((k : Pubkey) → length (env.key_bytes k) ≡ 32)
    → length alpha ≡ 32
    → length proof ≡ 80
    → length beta ≡ 64
    → count ≤ max_count
    → map_ok emit (
        write_event env.key_bytes (
          settle_fields a.pool.key a.pull.key alpha proof beta
            (award_bytes env (take count l.outcomes))))
      ≡ ok (settle_event env a alpha proof beta l count)
settle_event-fits env a alpha proof beta l count keys ha hp hb few = ap (map_ok emit) (
    write_event-ok env.key_bytes
      (settle_fields a.pool.key a.pull.key alpha proof beta
        (award_bytes env (take count l.outcomes)))
      keys (ha, hp, hb, omega (arith, length-award_bytes env count l.outcomes keys)))
