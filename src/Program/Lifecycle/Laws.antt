-- ===== src/Program/Lifecycle/Laws.antt =====
-- What `Reclaim` of program/src/admin/lifecycle.rs takes from a pool, and what a change of status keeps.
use solana_gacha.Prelude.{
  ℕ, suc, ◌+◌, ◌≤◌, ◌≡◌, List, [], ◌∷◌, length, ok, ok-injective, ◌==◌, sym, ◌∙◌, Bool-cases, ==→eq,
  not-==→ne, arith, Result-cases, inl, inr,
}
use solana_gacha.Core.Constants.{max_tiers}
use solana_gacha.Core.State.{Pool, Item, tiers, remaining}
use solana_gacha.Core.Stock.{take_remaining}
use solana_gacha.Core.Stock.Laws.{take_remaining-ok}
use solana_gacha.Inventory.{remove}
use solana_gacha.Inventory.View.{tag, IsStocked}
use solana_gacha.Inventory.Remove.{Cleared, remove-ok, remove_missing}
use solana_gacha.Program.Account.{Env, AccountInfo, load_pool, load_item}
use solana_gacha.Program.Lifecycle.{StatusAccounts, Changed, set_status}
use solana_gacha.Program.Lifecycle.Reclaim.{ReclaimAccounts, Reclaimed, reclaim_accounts, reclaim}

-- What a reclaim takes from the pool and its index.
pub record IsReclaimed (env : Env) (a : ReclaimAccounts) (p : Pool) (d : List ℕ) (r : Reclaimed)
    : Type 0 where
  pub item : Item
  pub loads : load_item env a.item ≡ ok item
  pub tagged : tag d item.position ≡ suc item.tier
  pub cleared : Cleared d r.index item.position
  pub stocked : IsStocked r.index p.inventory_version
  pub lowered : take_remaining p item.tier ≡ ok r.pool
  pub counted : remaining r.pool + 1 ≡ remaining p

-- A reclaim that succeeds, on a pool with a well-formed index and at most eight tiers, clears the
-- position of the loaded item, which held an available item of its tier, and no other position,
-- keeps the index well formed, and takes one item from that tier and from the stock.
pub reclaim-ok :
    (env : Env) (a : ReclaimAccounts) {p : Pool} {d : List ℕ} {r : Reclaimed}
    → load_pool env a.pool ≡ ok (p, d)
    → IsStocked d p.inventory_version
    → length (tiers p) ≤ max_tiers
    → reclaim env a ≡ ok r
    → IsReclaimed env a p d r
unfolding reclaim
reclaim-ok env a {p} {d} {r} loads s room h = elim (Result-cases (load_item env a.item)) [
  | inr (e, bad) ↦ absurd (ground (arith, bad))
  | inl (i, item) ↦ elim (Result-cases (remove d i.position i.tier)) [
    | inr (e, bad) ↦ absurd (ground (arith, loads, item, bad))
    | inl (index, gone) ↦ elim (Result-cases (take_remaining p i.tier)) [
      | inr (e, bad) ↦ absurd (ground (arith, loads, item, gone, bad))
      | inl (pool, lowered) ↦
          let (used, counted, _, _, _, _) = take_remaining-ok p i.tier lowered in
          let ep : r.pool ≡ pool = ground (arith, loads, item, gone, lowered) in
          let ed : r.index ≡ index = ground (arith, loads, item, gone, lowered) in
          elim (Bool-cases (tag d i.position == suc i.tier)) [
            | inr other ↦
                absurd
                  (ground (arith, remove_missing d i.position i.tier (not-==→ne _ _ other), gone))
            | inl hit ↦
                let here : tag d i.position ≡ suc i.tier = ==→eq _ _ hit in
                let (d', run, stocked, cleared) =
                  remove-ok s i.position i.tier (omega (arith, used, room)) here in
                let same : index ≡ d' = ok-injective (sym gone ∙ run) in
                rw (ep, ed, same)
                  (record {
                    item = i;
                    loads = item;
                    tagged = here;
                    cleared = cleared;
                    stocked = stocked;
                    lowered = lowered;
                    counted = counted;
                  })
          ]
    ]
  ]
]

pub reclaim_accounts-ok :
    (env : Env) (accounts : List AccountInfo) {a : ReclaimAccounts}
    → reclaim_accounts env accounts ≡ ok a
    → (p : Pool) × (d : List ℕ) × (load_pool env a.pool ≡ ok (p, d)) × (p.pending_draws ≡ 0)
unfolding reclaim_accounts
reclaim_accounts-ok env (authority ∷ pool ∷ item ∷ asset ∷ collection ∷ w ∷ x ∷ y ∷ z ∷ []) {a} h =
    elim (Result-cases (load_pool env pool)) [
      | inr (e, bad) ↦ absurd (ground (arith, bad))
      | inl ((p, d), e) ↦ elim (Result-cases (load_item env item)) [
        | inr (e, bad) ↦ absurd (ground (arith, bad))
        | inl (i, f) ↦
            let same : a.pool ≡ pool = ground (arith, e, f) in
            (p, d, rw same e, ground (arith, e, f))
      ]
    ]
reclaim_accounts-ok env _ h = absurd (ground arith)

pub set_status-kept :
    (env : Env) (a : StatusAccounts) (status : ℕ) {p : Pool} {d : List ℕ} {c : Changed}
    → load_pool env a.pool ≡ ok (p, d)
    → set_status env a status ≡ ok c
    → c.pool ≡ record p { status = status }
unfolding set_status
set_status-kept env a status loads h = ground (arith, loads)
