-- ===== src/Program/Solvency.antt =====
-- What a pool owes: packages/gacha-core/src/state.rs `refund_amount`, over every pending draw, against
-- the vault's balance, and the draws that its stock has to serve.
use solana_gacha.Prelude.{ℕ, zero, suc, ◌+◌, ◌-◌, ◌*◌, ◌≤◌, ◌<◌, ◌≡◌, ◌∙◌, ap, arith}
use solana_gacha.Core.State.{Pool, remaining}

-- The price and the bond of one draw.
abbrev pub refund_each : Pool → ℕ
refund_each p = p.price + p.bond_per_draw

-- The vault covers the refund of every pending draw.
abbrev pub IsSolvent : Pool → ℕ → Type 0
IsSolvent p balance = refund_each p * p.pending_draws ≤ balance

-- Every pending draw has an item left.
abbrev pub IsReserved : Pool → Type 0
IsReserved p = p.pending_draws ≤ remaining p

pub le-mul : (m n : ℕ) → 0 < n → m ≤ m * n
le-mul m zero h = absurd (omega arith)
le-mul m (suc n) h = omega arith

pub mul-split : (m n k : ℕ) → n ≤ k → m * k ≡ m * n + m * (k - n)
mul-split m n k h = let e : k ≡ n + (k - n) = omega arith in ap (λ (i : ℕ). m * i) e ∙ omega arith

pub mul_mono : (m n k : ℕ) → n ≤ k → m * n ≤ m * k
mul_mono m n k h = omega (arith, mul-split m n k h)
