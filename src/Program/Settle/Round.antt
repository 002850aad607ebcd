-- ===== src/Program/Settle/Round.antt =====
-- What a settlement draws: `draw` of program/src/inventory.rs over the item accounts.
use solana_gacha.Prelude.{
  ℕ, suc, ◌+◌, ◌-◌, ◌*◌, ◌%◌, ◌^◌, ◌≤◌, ◌<◌, ◌≡◌, ◌≢◌, sym, ◌∙◌, refl, List, [], ◌∷◌, ok, arith,
  Result-cases, inl, inr, length, get_or, set, length-set, get_or-set_self, get_or-set_ne,
  Bool-cases, ==→eq, not-==→ne, ◌==◌, ltb, ltb→lt, not-ltb→le,
}
use solana_gacha.Core.Constants.{max_tiers}
use solana_gacha.Core.State.{Pubkey, Pool, Item, Tier, tiers, remaining, set_outcome}
use solana_gacha.Core.Draw.{u64_at, eligible_weight, draw, draw_tier, pick_tier}
use solana_gacha.Inventory.{blocks}
use solana_gacha.Inventory.View.{
  tag, is_tag, available, available-update, available_mono_le, IsStocked,
}
use solana_gacha.Inventory.Remove.{Cleared}
use solana_gacha.Inventory.Take.{take_item-ok}
use solana_gacha.Program.Account.{AccountInfo, Env, load_item, close}
use solana_gacha.Core.Stock.{take_remaining}
use solana_gacha.Core.Stock.Laws.{take_remaining-ok}
use solana_gacha.Program.Settle.{Drawing, draw_one}

pick_tier-eq-ok :
    (ts : List Tier) (counts : List ℕ) (i roll : ℕ) {k : ℕ}
    → pick_tier ts counts i roll ≡ ok k
    → (i ≤ k) × (k < i + length ts) × (0 < get_or counts k 0)
unfolding pick_tier
pick_tier-eq-ok [] counts i roll h = absurd (ground arith)
pick_tier-eq-ok (t ∷ ts) counts i roll {k} h = elim (Bool-cases (get_or counts i 0 == 0)) [
  | inl none_left ↦
      let (lo, hi, stock) = pick_tier-eq-ok ts counts (i + 1) roll (rw none_left at h) in
      (omega arith, omega arith, stock)
  | inr some_left ↦ elim (Bool-cases (ltb roll t.weight)) [
    | inl hit ↦
        let e : k ≡ i = ground arith in
        (omega arith, omega arith, rw e (omega (arith, not-==→ne (get_or counts i 0) 0 some_left)))
    | inr miss ↦
        let (lo, hi, stock) =
          pick_tier-eq-ok ts counts (i + 1) (roll - t.weight) (rw (some_left, miss) at h) in
        (omega arith, omega arith, stock)
  ]
]

-- A draw that succeeds stays within the tiers in use and the eligible counts.
pub draw-eq-ok :
    (p : Pool) (hash counts : List ℕ) {tier rank : ℕ}
    → draw p hash counts ≡ ok (tier, rank)
    → (tier < length (tiers p)) × (rank < get_or counts tier 0)
unfolding draw draw_tier
draw-eq-ok p hash counts {tier} {rank} h =
    let roll : ℕ = u64_at hash 0 % eligible_weight (tiers p) counts in
    elim (Result-cases (pick_tier (tiers p) counts 0 roll)) [
      | inr (e, bad) ↦ absurd (ground (arith, bad))
      | inl (k, run) ↦
          let (lo, hi, stock) = pick_tier-eq-ok (tiers p) counts 0 roll run in
          let e : tier ≡ k = ground arith in
          let r : rank ≡ u64_at hash 8 % get_or counts k 0 % 2 ^ 32 = ground arith in
          rw (e, r) (omega arith, omega arith)
    ]

-- The eligible counts are those of the positions before the pull's version, less what was drawn.
pub record IsPinned (s : Drawing) (version cutoff : ℕ) : Type 0 where
  pub stocked : IsStocked s.index version
  pub past : cutoff ≤ version
  pub tiers_ok : length (tiers s.pool) ≤ max_tiers
  pub sized : length s.eligible ≡ max_tiers
  pub eligible_ok : (u : ℕ) → u < max_tiers → get_or s.eligible u 0 ≡ available s.index u cutoff

-- One round of the loop: the item that it takes, and what it leaves.
pub record IsDrawn (env : Env) (key : Pubkey) (version cutoff i : ℕ) (account : AccountInfo)
    (s s' : Drawing) : Type 0 where
  pub item : Item
  pub loads : load_item env account ≡ ok item
  pub of_pool : item.pool ≡ key
  pub before : item.position < cutoff
  pub tagged : tag s.index item.position ≡ suc item.tier
  pub stocked : IsStocked s'.index version
  pub cleared : Cleared s.index s'.index item.position
  pub recorded : s'.pull ≡ set_outcome s.pull i item.tier item.asset
  pub paid : s'.lamports ≡ s.lamports + account.lamports
  pub kept : s'.pool ≡ record s.pool { all_tiers = s'.pool.all_tiers }
  pub lowered : take_remaining s.pool item.tier ≡ ok s'.pool
  pub counted : remaining s'.pool + 1 ≡ remaining s.pool

-- The eligible counts after an item before the cutoff is drawn.
pub eligible-Cleared :
    (d d' : List ℕ) (p tier cutoff : ℕ) (eligible : List ℕ)
    → tag d p ≡ suc tier
    → Cleared d d' p
    → p < cutoff
    → length eligible ≡ max_tiers
    → tier < max_tiers
    → ((u : ℕ) → u < max_tiers → get_or eligible u 0 ≡ available d u cutoff)
    → (u : ℕ) → u < max_tiers
    → get_or (set eligible tier (get_or eligible tier 0 - 1)) u 0 ≡ available d' u cutoff
unfolding is_tag
eligible-Cleared d d' p tier cutoff eligible tagged cleared before sized h old u hu =
    let others : (q : ℕ) → q ≢ p → tag d' q ≡ tag d q = λ q ne. cleared q ∙ ground (arith, ne) in
    let gone : tag d' p ≡ 0 = cleared p ∙ ground arith in
    elim (Bool-cases (u == tier)) [
      | inl same ↦
          let e : u ≡ tier = ==→eq u tier same in
          rw e (
            get_or-set_self eligible tier (get_or eligible tier 0 - 1) 0 (omega arith)
            ∙ ground (arith, old tier h, available-update d d' tier p others cutoff, gone, tagged))
      | inr other ↦
          let ne : u ≢ tier = not-==→ne u tier other in
          get_or-set_ne eligible tier u (get_or eligible tier 0 - 1) 0 (λ e. ne (sym e))
          ∙ ground (arith, old u hu, available-update d d' u p others cutoff, gone, tagged)
    ]

pub before_cutoff :
    (d : List ℕ) (t p cutoff rank : ℕ)
    → available d t p ≡ rank
    → rank < available d t cutoff
    → p < cutoff
before_cutoff d t p cutoff rank e r = elim (Bool-cases (ltb p cutoff)) [
  | inl h ↦ ltb→lt p cutoff h
  | inr h ↦ absurd (omega (arith, available_mono_le d t cutoff p (not-ltb→le p cutoff h)))
]

pub draw_one-ok :
    (env : Env) (key : Pubkey) (beta : List ℕ) (i : ℕ) (account : AccountInfo) {s s' : Drawing}
    {version cutoff : ℕ}
    → IsPinned s version cutoff
    → draw_one env key beta i account s ≡ ok s'
    → IsDrawn env key version cutoff i account s s' × IsPinned s' version cutoff
unfolding draw_one close
draw_one-ok env key beta i account {s} {s'} {version} {cutoff} pin h =
    let hash : List ℕ = env.sha256 (beta ∷ (i ∷ []) ∷ []) in
    elim (Result-cases (draw s.pool hash s.eligible)) [
      | inr (e, bad) ↦ absurd (ground (arith, bad))
      | inl ((tier, rank), drawn) ↦
          let (used, below) = draw-eq-ok s.pool hash s.eligible drawn in
          let fits : cutoff ≤ 64 * blocks s.index = omega (arith, pin.past, pin.stocked.sized) in
          let (p, d', taken, tagged, ranked, stocked, cleared) =
            take_item-ok pin.stocked tier rank (omega (arith, pin.tiers_ok)) (
              omega (
                arith,
                pin.eligible_ok tier (omega (arith, pin.tiers_ok)),
                available_mono_le s.index tier cutoff (64 * blocks s.index) fits,
              )) in
          elim (Result-cases (load_item env account)) [
            | inr (e, bad) ↦ absurd (ground (arith, bad, taken, drawn))
            | inl (item, loaded) ↦ elim (Result-cases (take_remaining s.pool tier)) [
              | inr (e, bad) ↦ absurd (ground (arith, bad, taken, drawn))
              | inl (pool, lowered) ↦
                  let left : ℕ = get_or s.eligible tier 0 - 1 in
                  let before : p < cutoff =
                    before_cutoff s.index tier p cutoff rank ranked
                      (omega (arith, pin.eligible_ok tier (omega (arith, pin.tiers_ok)))) in
                  let (used', counted, tiers_same, kept, tier_set, some) =
                    take_remaining-ok s.pool tier lowered in
                  let ep : item.pool ≡ key = ground (arith, drawn, taken, loaded, lowered) in
                  let et : item.tier ≡ tier = ground (arith, drawn, taken, loaded, lowered) in
                  let en : item.position ≡ p = ground (arith, drawn, taken, loaded, lowered) in
                  let shape : s' ≡ record {
                    pool = pool;
                    index = d';
                    pull = set_outcome s.pull i tier item.asset;
                    lamports = s.lamports + account.lamports;
                    eligible = set s.eligible tier left;
                  } =
                    ground (arith, drawn, taken, loaded, lowered) in
                  rw shape (
                    record {
                      item = item;
                      loads = loaded;
                      of_pool = ep;
                      before = rw en before;
                      tagged = rw (en, et) tagged;
                      stocked = stocked;
                      cleared = rw en cleared;
                      recorded = rw et refl;
                      paid = refl;
                      kept = kept;
                      lowered = rw et lowered;
                      counted = counted;
                    },
                    record {
                      stocked = stocked;
                      past = pin.past;
                      tiers_ok = omega (arith, pin.tiers_ok);
                      sized = length-set s.eligible tier left ∙ pin.sized;
                      eligible_ok =
                          eligible-Cleared s.index d' p tier cutoff s.eligible tagged cleared before
                            pin.sized (omega (arith, pin.tiers_ok)) pin.eligible_ok;
                    },
                  )
            ]
          ]
    ]
