-- ===== src/Program/Restock/Laws.antt =====
-- What a restock leaves, where the runtime extends an account by zeros.
use solana_gacha.Prelude.{
  ℕ, ◌+◌, ◌-◌, ◌^◌, ◌≤◌, ◌<◌, ◌≡◌, ap, sym, refl, List, [], ◌∷◌, ◌++◌, ◌==◌, length, get_or, set,
  ok, arith, Result-cases, Bool-cases, ==→eq, inl, inr,
}
use solana_gacha.Core.Constants.{max_tiers, pool_len, inventory_space}
use solana_gacha.Core.State.{Pubkey, Pool, new_item, tiers, remaining, empty_tier}
use solana_gacha.Core.Stock.{add_remaining}
use solana_gacha.Core.Stock.Laws.{add_remaining-ok, with_remaining}
use solana_gacha.Inventory.{blocks, append}
use solana_gacha.Inventory.View.{IsStocked}
use solana_gacha.Inventory.Append.Open.{grow}
use solana_gacha.Inventory.Append.Laws.{append-ok, Stocked}
use solana_gacha.Program.Account.{AccountInfo, Env, load_pool, data_len, check_account}
use solana_gacha.Program.Restock.{Restocked, extend, restock}

-- The pool, its index and the new item after one more deposit in a tier.
pub record IsRestocked (p : Pool) (d : List ℕ) (p' : Pool) (d' : List ℕ) (tier : ℕ) : Type 0 where
  pub in_use : tier < length (tiers p)
  pub indexed : IsStocked d' (p.inventory_version + 1)
  pub stocked : Stocked d d' p.inventory_version tier
  pub counted : remaining p' ≡ remaining p + 1
  pub tier_set :
      p'.all_tiers
      ≡ set p.all_tiers tier (
          with_remaining
            (get_or p.all_tiers tier empty_tier)
            ((get_or p.all_tiers tier empty_tier).remaining + 1))
  pub tiers_kept : length (tiers p') ≡ length (tiers p)
  pub kept : p' ≡ record p { inventory_version = p.inventory_version + 1; all_tiers = p'.all_tiers }

append-nil : (d : List ℕ) → d ++ [] ≡ d
append-nil [] = refl
append-nil (x ∷ d) = ap (λ (r : List ℕ). x ∷ r) (append-nil d)

-- The bytes that a pool account holds behind its header.
load_pool-length :
    (env : Env) (a : AccountInfo) {p : Pool} {d : List ℕ}
    → load_pool env a ≡ ok (p, d)
    → data_len a.body ≡ pool_len + length d
unfolding load_pool check_account
load_pool-length env a h = ground arith

extend-grow :
    (env : Env) (a : AccountInfo) (d : List ℕ) (version : ℕ)
    → data_len a.body ≡ pool_len + length d
    → env.realloc d (inventory_space (version + 1)) ≡ ok (grow d version)
    → extend env a d (inventory_space (version + 1)) ≡ ok (grow d version)
unfolding extend
extend-grow env a d version len zeros =
    let space : ℕ = inventory_space (version + 1) in
    elim (Bool-cases (pool_len + space == data_len a.body)) [
      | inl same ↦
          let e : space - length d ≡ 0 =
            omega (arith, ==→eq (pool_len + space) (data_len a.body) same) in
          rw (same, e) (ap ok (sym (append-nil d)))
      | inr other ↦ rw other zeros
    ]

-- A restock that succeeds, on a pool with a well-formed index, at most eight tiers and fewer than
-- 2^26 blocks, where the runtime extends the account by zeros, stores the tier's tag at the pool's
-- next position and at no other, keeps the index well formed, adds one to that tier's remaining
-- items and to the stock, raises the inventory version by one, changes nothing else of the pool,
-- and makes the Item of that position.
pub restock-ok :
    (env : Env) (payer pool_account item_account : AccountInfo) (asset : Pubkey) (tier bump : ℕ)
    {p : Pool} {d : List ℕ} {r : Restocked}
    → load_pool env pool_account ≡ ok (p, d)
    → env.realloc d (inventory_space (p.inventory_version + 1)) ≡ ok (grow d p.inventory_version)
    → IsStocked d p.inventory_version
    → length (tiers p) ≤ max_tiers
    → blocks (grow d p.inventory_version) < 2 ^ 26
    → restock env payer pool_account item_account asset tier bump ≡ ok r
    → IsRestocked p d r.pool r.index tier
      × (r.item ≡ new_item bump tier p.inventory_version pool_account.key asset)
unfolding restock
restock-ok env payer pool_account item_account asset tier bump {p} {d} {r} loads zeros s room small
      h =
    let grown : extend env pool_account d (inventory_space (p.inventory_version + 1))
        ≡ ok (grow d p.inventory_version) =
      extend-grow env pool_account d p.inventory_version (load_pool-length env pool_account loads)
        zeros in
    elim (Result-cases (append (grow d p.inventory_version) p.inventory_version tier)) [
      | inr (e, bad) ↦ absurd (ground (arith, loads, grown, bad))
      | inl (index, appended) ↦
          elim (Result-cases
            (add_remaining (record p { inventory_version = p.inventory_version + 1 }) tier)) [
              | inr (e, bad) ↦ absurd (ground (arith, loads, grown, appended, bad))
              | inl (pool, added) ↦
                  let (used, counted, same, kept, tier_set) =
                    add_remaining-ok (record p { inventory_version = p.inventory_version + 1 }) tier
                      added in
                  let (d', run, indexed, stocked) = append-ok s tier (omega arith) small in
                  let ei : index ≡ d' = cc in
                  let ep : r.pool ≡ pool = ground (arith, loads, grown, appended, added) in
                  let ed : r.index ≡ index = ground (arith, loads, grown, appended, added) in
                  let item : r.item
                      ≡ new_item bump tier p.inventory_version pool_account.key asset =
                    ground (arith, loads, grown, appended, added) in
                  (
                    rw (ep, ed, ei)
                        (record {
                          in_use = used;
                          indexed = indexed;
                          stocked = stocked;
                          counted = (unfold remaining in counted);
                          tier_set = tier_set;
                          tiers_kept = same;
                          kept = kept;
                        }),
                    item,
                  )
            ]
    ]
