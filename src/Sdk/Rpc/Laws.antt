-- ===== src/Sdk/Rpc/Laws.antt =====
-- packages/gacha-rust/src/rpc.rs: what the reads and the preparations of the RPC client ensure.
use solana_gacha.Prelude.{
  ℕ, suc, ◌≤◌, ◌≡◌, ap, sym, ◌∙◌, List, [], ◌∷◌, Bool, true, false, Option, none, some, length, ltb,
  not, ◌==◌, ◌||◌, ◌&&◌, ok, arith, bind-ok, ok-injective, not-ltb→le, ==→eq, reject_if,
  reject_if-ok, or_false, not-false, sdk,
}
use solana_gacha.Prelude.SdkErrors.{invalid_account, invalid_item, invalid_asset}
use solana_gacha.Core.State.{Pubkey}
use solana_gacha.Sdk.{check, Host, PoolSnapshot, PullSnapshot, ItemSnapshot, Asset, Instruction}
use solana_gacha.Sdk.Batches.Laws.{flatten, IsWithin, IsFilled, batches-ok}
use solana_gacha.Sdk.Plan.{Settlement, settle_order, settlement_instruction}
use solana_gacha.Program.Account.{Contents, raw, pool_data, item_data, pull_data, token_data}
use solana_gacha.Sdk.Pulls.Delivery.{Delivery, DeliversDraws, deliveries-DeliversDraws}
use solana_gacha.Program.Loads.{decode_pool, decode_pull}
use solana_gacha.Core.Constants.{pull_len, pull_version, max_count, status_pending, status_settled}
use solana_gacha.Sdk.Pools.{pool_from_account, pull_address}
use solana_gacha.Sdk.Pulls.{
  any_bad, awards, check_pull, pull_from_account, settlement_batches, deliveries, placed,
  any_misplaced,
}
use solana_gacha.Sdk.Rpc.{
  Rpc, UiAccount, is_behind, unpack_one, unpack, read, account_at, pool_part, discover,
  fetch_snapshot, read_items, fetch_assets, item_keys, asset_keys, client_settle,
}

length-unpack :
    (keys : List Pubkey) (values : List (Option UiAccount)) {accounts : List (Pubkey × List ℕ)}
    → length values ≡ length keys
    → unpack keys values ≡ ok accounts
    → length accounts ≡ length keys
unfolding unpack
length-unpack [] values same run =
    ap (λ (l : List (Pubkey × List ℕ)). length l) (sym (ok-injective run))
length-unpack (k ∷ keys) [] same run = absurd (omega arith)
length-unpack (k ∷ keys) (v ∷ values) {accounts} same run =
    let (first, read, rest) = bind-ok (unpack_one k v) _ run in
    let (others, more, made) = bind-ok (unpack keys values) _ rest in
    ap (λ (l : List (Pubkey × List ℕ)). length l) (sym (ok-injective made))
    ∙ ap suc (length-unpack keys values (omega arith) more)

-- The slot is at least the minimum asked for.
abbrev pub IsRecent : Option ℕ → ℕ → Type 0
IsRecent none slot = Unit {0}
IsRecent (some minimum) slot = minimum ≤ slot

recent : (minimum : Option ℕ) (slot : ℕ) → is_behind minimum slot ≡ false → IsRecent minimum slot
recent none slot h = tt
recent (some minimum) slot h = not-ltb→le slot minimum h

-- A read that comes out has one account for each key, at the minimum slot or later.
read-ok :
    (rpc : Rpc) (call : ℕ) (keys : List Pubkey) (minimum slice : Option ℕ) {slot : ℕ}
    {accounts : List (Pubkey × List ℕ)}
    → read rpc call keys minimum slice ≡ ok (slot, accounts)
    → (length accounts ≡ length keys) × IsRecent minimum slot
unfolding read
read-ok rpc call keys minimum slice {slot} {accounts} run =
    let (response, answered, checked) = bind-ok (rpc call keys minimum slice) _ run in
    let test = not (length response.value == length keys) || is_behind minimum response.slot in
    let (u, passed, decoded) = bind-ok (reject_if test (sdk invalid_account)) _ checked in
    let (same, on_time) =
      or_false (not (length response.value == length keys)) (is_behind minimum response.slot)
        (reject_if-ok test (sdk invalid_account) passed) in
    let (all, unpacked, paired) = bind-ok (unpack keys response.value) _ decoded in
    let equal : length response.value ≡ length keys =
      ==→eq (length response.value) (length keys)
        (not-false (length response.value == length keys) same) in
    let result = ok-injective paired in
    (
      ap (λ (x : ℕ × List (Pubkey × List ℕ)). length x.1) (sym result)
          ∙ length-unpack keys response.value equal unpacked,
      rw (← ap (λ (x : ℕ × List (Pubkey × List ℕ)). x.0) result)
          (recent minimum response.slot on_time),
    )

-- The delivery of a settlement's draws, at an account's expense.
abbrev pub settled_delivery : Settlement → Pubkey → Delivery
settled_delivery s payer = record { payer = payer; pool = s.pool; pull = s.pull; buyer = s.buyer }

-- The groups of a settlement: it comes first, with the deliveries of the draws behind it.
settlement_batches-ok :
    (h : Host) (s : Settlement) (items : List ItemSnapshot) (assets : List Asset) (payer : Pubkey)
    {groups : List (List Instruction)}
    → settlement_batches h s items assets payer ≡ ok groups
    → (sent : List Instruction) × (flatten groups ≡ settlement_instruction h s ∷ sent)
      × DeliversDraws h (settled_delivery s payer) 0 s.draws items assets sent
      × IsWithin h payer groups
      × IsFilled groups
unfolding settlement_batches
settlement_batches-ok h s items assets payer run =
    let counted = not (length items == length s.draws) || any_misplaced items s.draws in
    let (u, placed_well, checked) = bind-ok (reject_if counted (sdk invalid_item)) _ run in
    let (draws, in_place) =
      or_false (not (length items == length s.draws)) (any_misplaced items s.draws)
        (reject_if-ok counted (sdk invalid_item) placed_well) in
    let matched = not (length assets == length items) in
    let (v, owned, made) = bind-ok (reject_if matched (sdk invalid_asset)) _ checked in
    let (sent, delivered, grouped) =
      bind-ok (deliveries h s.pool s.pull s.buyer (placed 0 items) assets payer) _ made in
    let drawn : length items ≡ length s.draws =
      ==→eq (length items) (length s.draws) (not-false (length items == length s.draws) draws) in
    let held : length assets ≡ length items = ==→eq (length assets) (length items) (
      not-false (length assets == length items) (reject_if-ok matched (sdk invalid_asset) owned)) in
    let (kept, within, filled) =
      batches-ok h (settlement_instruction h s ∷ []) sent payer grouped in
    (
      sent,
      kept,
      deliveries-DeliversDraws h (settled_delivery s payer) 0 s.draws items assets drawn held
          in_place delivered,
      within,
      filled,
    )

check_pull-address :
    (h : Host) (address : Pubkey) (body : Contents) {l : PullSnapshot}
    → check_pull h address body ≡ ok l
    → l.address ≡ address
unfolding check_pull
check_pull-address h address (pull_data p) run =
    let derived = pull_address h p.pool p.client_seed in
    let (u, r1, sized) =
      bind-ok
        (reject_if (ltb status_settled p.status || p.count == 0 || ltb max_count p.count)
          (sdk invalid_account))
        _ run in
    let (v, r2, placed) =
      bind-ok
        (reject_if (not (derived.0 == address && (derived.1 == p.bump))) (sdk invalid_account)) _
        sized in
    let (w, r3, made) =
      bind-ok
        (reject_if (not (p.status == status_pending) && any_bad (awards p)) (sdk invalid_account)) _
        placed in
    ap (λ (l : PullSnapshot). l.address) (sym (ok-injective made))
check_pull-address h address (raw n) run = absurd (ground arith)
check_pull-address h address (pool_data p d) run = absurd (ground arith)
check_pull-address h address (item_data i) run = absurd (ground arith)
check_pull-address h address (token_data t) run = absurd (ground arith)

pull_from_account-address :
    (h : Host) (address owner : Pubkey) (body : Contents) {l : PullSnapshot}
    → pull_from_account h address owner body ≡ ok l
    → l.address ≡ address
unfolding pull_from_account
pull_from_account-address h address owner body run =
    let (u, checked, decoded) = bind-ok (check h owner body pull_len pull_version) _ run in
    check_pull-address h address body decoded

-- The pull that a snapshot has is the one asked for.
fetch_snapshot-address :
    (h : Host) (rpc : Rpc) (address : Pubkey) (inventory : Bool) {pool : PoolSnapshot}
    {pull : PullSnapshot} {slot : ℕ}
    → fetch_snapshot h rpc address inventory ≡ ok (pool, pull, slot)
    → pull.address ≡ address
unfolding fetch_snapshot
fetch_snapshot-address h rpc address inventory run =
    let ((slot, discovered), found, again) = bind-ok (discover h rpc address) _ run in
    let ((later, accounts), answered, decoding) = bind-ok (read rpc 1 _ (some slot) _) _ again in
    let ((owner, bytes), first, parting) = bind-ok (account_at accounts 0) _ decoding in
    let (part, cut, pooling) = bind-ok (pool_part inventory bytes) _ parting in
    let (pool, pooled, locating) =
      bind-ok (pool_from_account h discovered.header.pool owner (decode_pool part)) _ pooling in
    let ((holder, body), second, pulling) = bind-ok (account_at accounts 1) _ locating in
    let (pull, pulled, made) =
      bind-ok (pull_from_account h address holder (decode_pull body)) _ pulling in
    let same : pull.address ≡ address =
      pull_from_account-address h address holder (decode_pull body) pulled in
    ap (λ (x : PoolSnapshot × PullSnapshot × ℕ). x.1.address) (sym (ok-injective made)) ∙ same

-- When the RPC client's `settle` comes out, it has a snapshot of the asked pull, the plan that
-- `settle_order` makes of it, the items of the planned draws from a read no older than the
-- snapshot, and their assets from the next read. Its groups one after the other are the
-- settlement's instruction and then one delivery for each planned draw, in order: it calls the
-- program's delivery, whose parser reads the draw's place, with the accounts in the program's
-- order and the payer as the only signer, and sends to the plan's buyer the asset of the drawn
-- item, which the plan's pool owns. The transaction of every group has at most 1232 bytes, and no
-- group is empty.
pub client_settle-ok :
    (h : Host) (rpc : Rpc) (address : Pubkey) (proof : List ℕ) (payer : Pubkey)
    {groups : List (List Instruction)}
    → client_settle h rpc address proof payer ≡ ok groups
    → (pool : PoolSnapshot) × (pull : PullSnapshot) × (slot : ℕ) × (plan : Settlement) × (later : ℕ)
      × (accounts : List (Pubkey × List ℕ)) × (items : List ItemSnapshot) × (assets : List Asset)
      × (sent : List Instruction) × (fetch_snapshot h rpc address true ≡ ok (pool, pull, slot))
      × (pull.address ≡ address)
      × (settle_order h pool pull proof ≡ ok plan)
      × (read rpc 2 (item_keys plan.draws) (some slot) none ≡ ok (later, accounts))
      × (slot ≤ later)
      × (read_items h (item_keys plan.draws) accounts ≡ ok items)
      × (fetch_assets h rpc 3 (asset_keys items) (some later) ≡ ok assets)
      × (flatten groups ≡ settlement_instruction h plan ∷ sent)
      × DeliversDraws h (settled_delivery plan payer) 0 plan.draws items assets sent
      × IsWithin h payer groups
      × IsFilled groups
unfolding client_settle
client_settle-ok h rpc address proof payer run =
    let ((pool, pull, slot), both, planned) = bind-ok (fetch_snapshot h rpc address true) _ run in
    let (plan, ordered, reading) = bind-ok (settle_order h pool pull proof) _ planned in
    let ((later, accounts), answered, decoding) =
      bind-ok (read rpc 2 (item_keys plan.draws) (some slot) none) _ reading in
    let (items, decoded, fetching) =
      bind-ok (read_items h (item_keys plan.draws) accounts) _ decoding in
    let (assets, fetched, grouping) =
      bind-ok (fetch_assets h rpc 3 (asset_keys items) (some later)) _ fetching in
    let (sent, grouped, delivered, within, filled) =
      settlement_batches-ok h plan items assets payer grouping in
    let (counted, on_time) = read-ok rpc 2 (item_keys plan.draws) (some slot) none answered in
    (
      pool,
      pull,
      slot,
      plan,
      later,
      accounts,
      items,
      assets,
      sent,
      both,
      fetch_snapshot-address h rpc address true both,
      ordered,
      answered,
      on_time,
      decoded,
      fetched,
      grouped,
      delivered,
      within,
      filled,
    )
