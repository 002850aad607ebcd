-- ===== src/Market/Queue.antt =====
-- The queue of pending pulls: who is at its head, and what is left for whom.
use solana_gacha.Prelude.{ℕ, ◌+◌, ◌≤◌, ◌<◌, ◌≡◌, ap, sym, refl, ◌∙◌, List, [], ◌∷◌, ◌++◌, arith}
use solana_gacha.Core.State.{Pull}
use solana_gacha.Inventory.Stock.{stock}
use solana_gacha.Market.{draws, IsQueue, IsServed}

-- A pull whose index is the queue's first one is at its head.
pub IsQueue-head :
    (first end : ℕ) (before after : List Pull) (l : Pull)
    → IsQueue first end (before ++ (l ∷ after))
    → l.index ≡ first
    → before ≡ []
unfolding IsQueue
IsQueue-head first end [] after l h e = refl
IsQueue-head first end (b ∷ before) after l h e =
    absurd (omega (arith, index-ge (first + 1) end before after l h.1))
  where
    index-ge :
        (first end : ℕ) (before after : List Pull) (l : Pull)
        → IsQueue first end (before ++ (l ∷ after))
        → first ≤ l.index
    index-ge first end [] after l h = omega (arith, h.0)
    index-ge first end (b ∷ before) after l h =
        omega (arith, index-ge (first + 1) end before after l h.1)

-- A new pull takes the next index.
pub IsQueue-append :
    (first end : ℕ) (ls : List Pull) (l : Pull)
    → IsQueue first end ls
    → l.index ≡ end
    → IsQueue first (end + 1) (ls ++ (l ∷ []))
unfolding IsQueue
IsQueue-append first end [] l h e = (e ∙ sym h, ap (λ (n : ℕ). n + 1) h)
IsQueue-append first end (b ∷ ls) l h e = (h.0, IsQueue-append (first + 1) end ls l h.1 e)

pub draws-append : (ls : List Pull) (l : Pull) → draws (ls ++ (l ∷ [])) ≡ draws ls + l.count
unfolding draws
draws-append [] l = omega arith
draws-append (b ∷ ls) l = omega (arith, draws-append ls l)

-- The service of a queue survives a change of the index that takes no more than it gives up ahead.
pub IsServed-change :
    (d d' : List ℕ) (version version' taken taken' : ℕ) (ls : List Pull)
    → version ≤ version'
    → ((n : ℕ) → n ≤ version → stock d n + taken' ≤ stock d' n + taken)
    → IsServed d version taken ls
    → IsServed d' version' taken' ls
unfolding IsServed
IsServed-change d d' version version' taken taken' [] v h s = tt
IsServed-change d d' version version' taken taken' (l ∷ ls) v h s = (
  s.0,
  omega (arith, s.1),
  omega (arith, s.2, h l.inventory_version s.1),
  IsServed-change d d' version version' (taken + l.count) (taken' + l.count) ls v
      (λ n b. omega (arith, h n b)) s.3,
)

-- A new pull at the current version is served when the stock covers all the draws.
pub IsServed-append :
    (d : List ℕ) (version taken : ℕ) (ls : List Pull) (l : Pull)
    → IsServed d version taken ls
    → l.inventory_version ≡ version
    → 0 < l.count
    → taken + draws ls + l.count ≤ stock d version
    → IsServed d version taken (ls ++ (l ∷ []))
unfolding IsServed draws
IsServed-append d version taken [] l s e p h = (p, omega arith, rw e (omega arith), tt)
IsServed-append d version taken (b ∷ ls) l s e p h =
    (s.0, s.1, s.2, IsServed-append d version (taken + b.count) ls l s.3 e p (omega arith))

-- The draws of a served queue are in stock.
pub IsServed-draws :
    (d : List ℕ) (version taken : ℕ) (ls : List Pull)
    → ((n : ℕ) → n ≤ version → stock d n ≤ stock d version)
    → taken ≤ stock d version
    → IsServed d version taken ls
    → taken + draws ls ≤ stock d version
unfolding IsServed draws
IsServed-draws d version taken [] m t s = omega arith
IsServed-draws d version taken (l ∷ ls) m t s = omega (
  arith,
  IsServed-draws d version (taken + l.count) ls m (omega (arith, s.2, m l.inventory_version s.1))
      s.3,
)

-- With nothing pending, the queue is empty.
pub IsServed-none :
    (d : List ℕ) (version taken : ℕ) (ls : List Pull)
    → IsServed d version taken ls
    → draws ls ≡ 0
    → ls ≡ []
unfolding IsServed draws
IsServed-none d version taken [] s e = refl
IsServed-none d version taken (l ∷ ls) s e = absurd (omega (arith, s.0))
