-- ===== src/Prelude/Errors.antt =====
-- Fallible code: Rust's `Result` with this program's errors, and the runs that return nothing.
use Prim.Native.Nat.{ℕ, ◌+◌, ◌-◌, ◌*◌, ◌^◌}
use mathlib.Core.Path.{◌≡◌, refl, ap}
use mathlib.Core.Logic.{◌⊎◌, inl, inr}
use mathlib.Core.Bool.{Bool, true, false}
use mathlib.Core.Option.{Option, none, some}
use native.Mathlib.Omega.{arith}
use solana_gacha.Prelude.SdkErrors.{SdkError}
use solana_gacha.Prelude.Tests.{ltb, leb, if◌then◌else◌}

-- packages/gacha-core/src/errors.rs
pub data GachaError : Type 0 where
  not_mutable not_signer invalid_account_owner invalid_account_length invalid_version : GachaError
  invalid_pool_params invalid_authority invalid_operator invalid_token_address : GachaError
  invalid_tier invalid_item invalid_count not_next_in_queue invalid_pull_status : GachaError
  invalid_proof sold_out deadline_not_reached invalid_outcome insufficient_balance : GachaError
  invalid_buyer deadline_passed inventory_changed invalid_quote quote_expired : GachaError
  invalid_asset invalid_pool_status pending_purchases invalid_seeds : GachaError
  already_initialized pool_mismatch invalid_item_count invalid_event_authority : GachaError

-- `panic` is a Rust panic: an overflow, which the release profile checks, or an index out of range.
-- `external` is an error of a program that is called; `diverge` stands for a loop's fuel run out.
-- `sdk` is an error of the Rust SDK, `missing_account` one of its RPC client.
pub data Failure : Type 0 where
  gacha : GachaError → Failure
  not_enough_account_keys invalid_instruction_data arithmetic_overflow : Failure
  panic diverge : Failure
  external : ℕ → Failure
  sdk : SdkError → Failure
  missing_account : ℕ → Failure

pub data Result {ℓ} (A : Type ℓ) : Type ℓ where
  ok : A → Result A
  err : Failure → Result A

abbrev pub ok_or {ℓ} : {A : Type ℓ} → Option A → Failure → Result A
ok_or none e = err e
ok_or (some a) e = ok a

-- The `?` operator: an error ends the run.
infixl 5 ◌>>=◌
abbrev pub ◌>>=◌ {ℓ κ} : {A : Type ℓ} {B : Type κ} (r : Result A) (next : A → Result B) → Result B
err e >>= next = err e
ok a >>= next = next a

infixl 5 ◌>>◌
abbrev pub ◌>>◌ {ℓ} : {B : Type ℓ} (check : Result (Unit {0})) (next : Result B) → Result B
check >> next = check >>= λ u. next

-- An early return with a failure, unless the test holds.
abbrev pub require : Bool → Failure → Result (Unit {0})
require true e = ok tt
require false e = err e

-- An early return with a failure, if the test holds.
abbrev pub reject_if : Bool → Failure → Result (Unit {0})
reject_if true e = err e
reject_if false e = ok tt

-- `Result::map`
abbrev pub map_ok {ℓ κ} : {A : Type ℓ} {B : Type κ} → (A → B) → Result A → Result B
map_ok f (ok a) = ok (f a)
map_ok f (err e) = err e

-- Checked addition, multiplication and subtraction on words of `w` bits.
abbrev pub checked_add : ℕ → ℕ → ℕ → Option ℕ
checked_add w a b = if ltb (a + b) (2 ^ w) then some (a + b) else none

abbrev pub checked_mul : ℕ → ℕ → ℕ → Option ℕ
checked_mul w a b = if ltb (a * b) (2 ^ w) then some (a * b) else none

abbrev pub checked_sub : ℕ → ℕ → Option ℕ
checked_sub a b = if leb b a then some (a - b) else none

-- `a + b` and `a - b` as the release profile compiles them.
abbrev pub add_word : ℕ → ℕ → ℕ → Result ℕ
add_word w a b = ok_or (checked_add w a b) panic

abbrev pub sub_word : ℕ → ℕ → Result ℕ
sub_word a b = ok_or (checked_sub a b) panic

pub Result-cases {ℓ} :
    {A : Type ℓ} (m : Result A) → ((a : A) × (m ≡ ok a)) ⊎ ((e : Failure) × (m ≡ err e))
Result-cases (ok a) = inl (a, refl)
Result-cases (err e) = inr (e, refl)

abbrev pub value_or {ℓ} : {A : Type ℓ} → Result A → A → A
value_or (ok a) default = a
value_or (err e) default = default

pub ok-injective {ℓ} : {A : Type ℓ} {a b : A} → ok a ≡ ok b → a ≡ b
ok-injective {A} {a} {b} h = ap (λ (r : Result A). value_or r a) h

-- A chain that succeeds has a first part that does.
pub bind-ok {ℓ κ} :
    {A : Type ℓ} {B : Type κ} (r : Result A) (next : A → Result B) {b : B}
    → (r >>= next) ≡ ok b
    → (a : A) × (r ≡ ok a) × (next a ≡ ok b)
bind-ok (ok a) next h = (a, refl, h)
bind-ok (err e) next h = absurd (ground arith)

pub reject_if-ok : (b : Bool) (e : Failure) {u : Unit {0}} → reject_if b e ≡ ok u → b ≡ false
reject_if-ok true e h = absurd (ground arith)
reject_if-ok false e h = refl

-- A run fails with no other errors than those of `P`.
module _ (P : Failure → Type 0) where
  abbrev pub Fails {ℓ} : {A : Type ℓ} → Result A → Type 0
  Fails (ok a) = Unit {0}
  Fails (err e) = P e

  pub bind-Fails {ℓ κ} :
      {A : Type ℓ} {B : Type κ} (r : Result A) (next : A → Result B)
      → Fails r
      → ((a : A) → Fails (next a))
      → Fails (r >>= next)
  bind-Fails (ok a) next h hs = hs a
  bind-Fails (err e) next h hs = h

  pub bind-Fails_run {ℓ κ} :
      {A : Type ℓ} {B : Type κ} (r : Result A) (next : A → Result B)
      → Fails r
      → ((a : A) → r ≡ ok a → Fails (next a))
      → Fails (r >>= next)
  bind-Fails_run (ok a) next h hs = hs a refl
  bind-Fails_run (err e) next h hs = h

  pub reject_if-Fails : (b : Bool) (e : Failure) → P e → Fails (reject_if b e)
  reject_if-Fails true e h = h
  reject_if-Fails false e h = tt

  pub require-Fails : (b : Bool) (e : Failure) → P e → Fails (require b e)
  require-Fails true e h = tt
  require-Fails false e h = h

  pub ok_or-Fails {ℓ} : {A : Type ℓ} (o : Option A) (e : Failure) → P e → Fails (ok_or o e)
  ok_or-Fails none e h = h
  ok_or-Fails (some a) e h = tt

  pub if-Fails {ℓ} :
      {A : Type ℓ} (b : Bool) (r s : Result A) → Fails r → Fails s → Fails (if b then r else s)
  if-Fails true r s h g = h
  if-Fails false r s h g = g
