-- ===== src/Program/Dispatch/Tests.antt =====
-- Instructions of program/src/lib.rs by their first byte.
use solana_gacha.Prelude.{
  ◌≡◌, refl, [], ◌∷◌, ok, err, gacha, invalid_instruction_data, invalid_event_authority,
}
use solana_gacha.Program.Account.{raw}
use solana_gacha.Program.Dispatch.{emit_event, handle, process_instruction, event_emitted}
use solana_gacha.Program.Scene.{env, account, other}

unknown : process_instruction env 77 [] (5 ∷ []) ≡ err invalid_instruction_data
unfolding process_instruction handle
unknown = refl

own_event : process_instruction env 77 (account 77 0 (raw 0) ∷ []) (255 ∷ []) ≡ ok event_emitted
unfolding process_instruction handle emit_event
own_event = refl

forged_event :
    process_instruction env 77 (other ∷ []) (255 ∷ []) ≡ err (gacha invalid_event_authority)
unfolding process_instruction handle emit_event
forged_event = refl
