-- ===== src/Program/Loads/Laws.antt =====
-- program/src/state.rs: the loads on bytes are the loads on decoded contents.
use solana_gacha.Prelude.{
  ℕ, ◌+◌, ◌-◌, ◌≤◌, ◌≡◌, sym, refl, ◌∙◌, List, true, false, Bool-cases, inl, inr, ◌==◌, leb, ltb,
  length, drop, ok, err, map_ok, gacha, arith, ltb→lt, not-ltb→le, lt→not-leb, le→leb,
  already_initialized, ==→eq, eq→==, ne→not-==, not-==→ne,
}
use solana_gacha.Bytes.Values.{le_value, length-drop}
use solana_gacha.Core.Constants.{pool_len, pull_len, pool_version, pull_version, inventory_space}
use solana_gacha.Core.State.{Pubkey}
use solana_gacha.Core.Layout.{RawPull, get_byte, over_pool, over_pull, pool_view}
use solana_gacha.Program.Account.{Env, AccountInfo, check_account, load_pool}
use solana_gacha.Program.Loads.{load_raw_pool, load_raw_pull, check_new, load_new_pull, decode_pool}

-- The length of the index is that of the account without the header.
index_length :
    (d : List ℕ) (n : ℕ)
    → pool_len ≤ length d
    → (length (drop pool_len d) == n) ≡ (length d == pool_len + n)
index_length d n h =
    let rest : length (drop pool_len d) ≡ length d - pool_len =
      length-drop pool_len (length d - pool_len) d (omega arith) in
    elim (Bool-cases (length d == pool_len + n)) [
      | inl same ↦
          eq→== (length (drop pool_len d)) n (omega (arith, ==→eq (length d) (pool_len + n) same))
          ∙ sym same
      | inr other ↦
          ne→not-== (length (drop pool_len d)) n
            (λ e. not-==→ne (length d) (pool_len + n) other (omega arith))
          ∙ sym other
    ]

-- On any account and any bytes, `Pool::load` on the decoded contents ends as it does on the bytes:
-- with the same error, or with the pool that the getters read and the bytes behind its header as
-- the index.
pub load_pool-decode_pool :
    (env : Env) (a : AccountInfo) (d : List ℕ)
    → load_pool env (record a { body = decode_pool d })
      ≡ map_ok (λ r. (pool_view r, drop pool_len d)) (load_raw_pool env a.owner d)
unfolding load_pool check_account load_raw_pool
load_pool-decode_pool env a d =
    let v = le_value (over_pool d).inventory_version in
    elim (Bool-cases (a.owner == env.program_id)) [
      | inr other ↦ rw other refl
      | inl own ↦ elim (Bool-cases (ltb (length d) pool_len)) [
        | inl short ↦
            rw (own, short, lt→not-leb pool_len (length d) (ltb→lt (length d) pool_len short)) refl
        | inr long ↦
            let room : pool_len ≤ length d = not-ltb→le (length d) pool_len long in
            let whole : leb pool_len (pool_len + length (drop pool_len d)) ≡ true =
              le→leb pool_len (pool_len + length (drop pool_len d)) (omega arith) in
            rw (own, long, le→leb pool_len (length d) room, whole)
              (elim (Bool-cases (get_byte (over_pool d).version == pool_version)) [
                | inr old ↦ rw old refl
                | inl current ↦
                    rw (current, index_length d (inventory_space v) room)
                      (elim (Bool-cases (length d == pool_len + inventory_space v)) [
                        | inl sized ↦ rw sized refl
                        | inr wrong ↦ rw wrong refl
                      ])
              ])
      ]
    ]

-- Bytes that load as a pull are refused by `load_new`.
load_raw_pull-load_new_pull :
    (env : Env) (owner : Pubkey) (d : List ℕ) {r : RawPull}
    → load_raw_pull env owner d ≡ ok r
    → load_new_pull env owner d ≡ err (gacha already_initialized)
unfolding load_raw_pull load_new_pull check_new
load_raw_pull-load_new_pull env owner d loaded =
    elim (Bool-cases (get_byte (over_pull d).version == pull_version)) [
      | inr old ↦ absurd (ground (arith, old))
      | inl current ↦
          let fresh : (get_byte (over_pull d).version == 0) ≡ false =
            ne→not-== (get_byte (over_pull d).version) 0
              (λ e. omega (arith, ==→eq (get_byte (over_pull d).version) pull_version current)) in
          let own : (owner == env.program_id) ≡ true = ground arith in
          let sized : (length d == pull_len) ≡ true = ground (arith, current) in
          rw (own, sized, fresh) refl
    ]
