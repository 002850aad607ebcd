-- ===== src/Program/Assets.antt =====
-- program/src/assets.rs: the call of the Core program that moves an asset.
use solana_gacha.Prelude.{[], ◌∷◌, true, false}
use solana_gacha.Core.State.{Pubkey}
use solana_gacha.Sdk.{Host, Instruction, rw_meta, ro_meta}

-- `Transfer`; `Host` names the Core and the system program.
pub record Transfer : Type 0 where
  pub payer : Pubkey
  pub authority : Pubkey
  pub new_owner : Pubkey
  pub asset : Pubkey
  pub collection : Pubkey

-- The instruction of `Transfer::invoke_signed`; the Core program as the last account stands for none.
unfoldable pub transfer_instruction : Host → Transfer → Instruction
transfer_instruction h t = record {
  program_id = h.core;
  accounts =
      rw_meta t.asset false
      ∷ ro_meta t.collection false
      ∷ rw_meta t.payer true
      ∷ ro_meta t.authority true
      ∷ ro_meta t.new_owner false
      ∷ ro_meta h.system false
      ∷ ro_meta h.core false
      ∷ [];
  bytes = 14 ∷ 0 ∷ [];
}
