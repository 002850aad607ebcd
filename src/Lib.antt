-- ===== src/Lib.antt =====
-- A model of the on-chain gacha program of this repository and of its Rust client: every instruction of
-- the program with the availability index and the draw, the markets that sequences of instructions reach,
-- and the client's snapshots, offers, instructions, settlement plans and batches.
--
-- A pool (`CreatePool`) keeps tiers of items, which deposits (`DepositItem`) and buybacks of quoted assets
-- (`Buyback`) add to. A purchase (`Buy`) reserves draws and appends a pull to the pool's queue, pinned to
-- the inventory version that the buyer signed for. The operator settles the pulls in order (`Settle`): a
-- verified random output picks, for each draw, a tier by weight and an item by rank among the positions
-- before the pinned version. After its deadline a pull is refunded instead (`Refund`). The awards of a
-- settled pull are delivered one by one (`Deliver`). The vault's surplus is the authority's (`Withdraw`),
-- who opens, pauses and retires the pool (`SetStatus`) and takes back the unsold items of a retired pool
-- with an empty queue (`Reclaim`).
--
-- Where each part is modelled:
--   Prelude    numbers, lists, Boolean tests, and `Result` with the program's errors
--              (packages/gacha-core/src/errors.rs); child modules Tests, Lists, Errors, SdkErrors.
--   Bits       `node & node.wrapping_neg()` and `n & (n - 1)`. Lowest relates them to the lowest set
--              bit, Cover says which blocks a Fenwick node covers.
--   Bytes      little-endian numbers: 32-bit ones in the index bytes, and `to_le_bytes`; Values has those
--              of any width, and byte arrays cut into fields.
--   Core       packages/gacha-core/src: Constants (constants.rs), State (state.rs: Pool, Tier, Item,
--              Pull and their amounts), Draw (Pool::draw and Pool::draw_tier), Quote (lib.rs,
--              buyback_message), Stock (a tier's remaining items, one more or less), Layout (state.rs: the
--              accounts as structs of byte arrays; Writes has `set_inner` and the writes of awards), Seeds
--              (state.rs: the seeds of addresses), Asset (asset.rs).
--   Inventory  program/src/inventory.rs, `Inventory`: counts, append, take (`take_item` here), remove.
--              View says what the bytes stand for: `tag` of a position, `available` items of a tier
--              before a position, `IsIndexed` for right Fenwick counts, `IsStocked` for the index of a
--              pool with so many deposits. Counts, Append, Remove, Take (with Descend, Nodes, Update)
--              hold the proofs, Ends those on the fuel. Stock is about all tiers at once, Positions about the
--              list of a tier's available positions.
--   Program    program/src: Account (state.rs and helpers.rs), Create (admin/create_pool.rs), Deposit
--              (admin/deposit_item.rs), Restock (`check_restock` and `restock` of inventory.rs), Buy
--              (player/buy.rs), Buyback (player/buyback.rs), Settle (operator/settle.rs and `draw` of
--              inventory.rs), Refund (player/refund.rs), Deliver (operator/deliver.rs), Withdraw
--              (admin/withdraw.rs), Lifecycle (`SetStatus` of admin/lifecycle.rs, with Reclaim in a
--              child), Dispatch (lib.rs, with `emit_event` of events.rs), Events (events.rs: the events and
--              their buffers), Loads (state.rs: the loads on bytes), Assets (assets.rs: the instruction of
--              a transfer). Solvency names what a pool owes,
--              Step says when a pool's header is in step with its index, Deadline is about settlement and
--              refund together. Scene is one pool with one item, for the tests.
--   Market     a pool with its index, its vault's balance and its queue of pulls, and the instructions as
--              steps on them. Queue, Draws, Buys, Restocks and Leaves are about the steps, Sound about
--              any step, Launch about what a new pool reaches, Refunds about the pull at the head of its
--              queue once its deadline has passed.
--   Sdk        packages/gacha-rust/src/lib.rs: Pools (`Pool::from_account`, spendable_balance,
--              available_draws), Orders (the instructions of a pool), Plan (`Pool::settle` and
--              `Settlement`, with Laws, Accepts, Chain and Reached on what the program then draws), Batches,
--              Pulls (`Pull`, `Item` and the delivery of awards, with Delivery on what the program
--              reads of them), Assets (`Asset::from_account`), Wire (the
--              instructions' data, as the program's parsers read it), Rpc (rpc.rs, `Client`).
--
-- How the code corresponds:
--   - An account's data is decoded: a Pool, Item, Pull or token account is a record of its fields, a
--     public key is a number, and the lengths that the code compares are kept. The index is bytes.
--     Core/Layout has the structs of byte arrays behind these records, and Program/Loads the loads on
--     bytes. A setter of one field stands as the update of that field of the record. The instructions
--     take an event's bytes as `event_bytes`; Events has the buffer that could be too small for them.
--   - `TryFrom` of the accounts is `buy_accounts`, `settle_accounts` and so on; `process` is `buy`,
--     `settle`, `refund`, `deliver`, `withdraw`, `set_status`, `create_pool`, `deposit_item`, `buyback`,
--     `reclaim`. They return the accounts' new contents, the new lamports and the calls of other programs
--     in order. An error rolls a transaction back, so an error has no new state. An account that the
--     program creates is taken to have the length asked for, zeroed and owned by the program.
--   - The release profile checks overflow, so `add_word` and `sub_word` panic where Rust would, and an
--     index out of range panics. A tier number is not bounded to a byte where the code adds one to it;
--     the code's tiers are below 8. An i64 is the 64-bit word of its two's complement.
--   - `Env` is what the runtime and the libraries give the program: the clock, rent, sha256, the
--     derivation of addresses, the verification of proofs and signatures, the contents of a resized
--     account and the outcome of a call of another program. Where a theorem needs that a resized account
--     keeps its bytes and gains zeros, this is a hypothesis. `Host` is what the client takes from its
--     libraries; where a theorem is about the client and the program, that both hash, encode keys and
--     verify proofs alike is a hypothesis. The accounts of one instruction are taken to be distinct, as in
--     `close`.
--   - A step of a market is an instruction that succeeds with accounts that load as that market. The
--     settlement or refund of any pending pull is a step, whatever its place in the queue. The balance
--     changes by what the token transfers of the instruction move.
--
-- Bounds and fuel: the theorems on the index need fewer than 2^26 blocks (a pool account is at most
-- 10 MB, about 2^17 blocks). `prefix_loop` has a round for each set bit and one more, and as fuel the
-- number of blocks and one; `raise_nodes` and `lower_nodes` move up by at least one block a round, with
-- the number of blocks and one as fuel; `descend` halves a power of two of at most 64 bits, with fuel 66.
-- Running out is the failure `diverge`.
--
-- Not modelled: the layout of token accounts, whose bytes are never read as one (raw contents are refused
-- where the code would read 165 bytes of the token program); a settlement's panic at an award past the ten
-- places and the panic at more than eight tiers in use, which no account that the program makes has; a
-- store of accounts that several instructions of one transaction share, the TypeScript client, and what
-- the RPC library, the token program and the Core program do. The client's RPC library is a function from the number of a call, the keys, the minimum slot
-- and the slice to a response.

pub mod Prelude
pub mod Bits
pub mod Bytes
pub mod Core
pub mod Inventory
pub mod Program
pub mod Market
pub mod Sdk
