-- ===== src/Sdk/Wire/Tests.antt =====
-- Instructions of a client, read by the program.
use solana_gacha.Prelude.{
  ℕ, ◌≡◌, refl, List, [], ◌∷◌, ok, value_or, arith, replicate, length-replicate, drop, get_or,
}
use solana_gacha.Program.Buy.{buy_instruction}
use solana_gacha.Program.Buyback.{buyback_instruction}
use solana_gacha.Program.Create.{contains_zero, create_pool_instruction}
use solana_gacha.Core.State.{refund_total}
use solana_gacha.Program.Scene.{env}
use solana_gacha.Sdk.{Instruction}
use solana_gacha.Sdk.Orders.{
  Order, Purchase, Quote, Creation, buy_order, buyback_order, create_data, create_order,
}
use solana_gacha.Sdk.Scene.{host, snapshot, own_asset}
use solana_gacha.Sdk.Wire.{buy_order-buy_instruction}
use solana_gacha.Sdk.Wire.Creation.{
  second_bytes, creation_read, create_order-create_pool_instruction,
}
use solana_gacha.Sdk.Wire.Quotes.{buyback_order-buyback_instruction}

abbrev order : Order
order = record { buyer = 50; count = 1; client_seed = replicate 32 5 }

abbrev purchase : Purchase
unfolding buy_order
purchase =
    value_or (buy_order host snapshot order)
      (record { pull = 0; sent = record { program_id = 0; accounts = []; bytes = [] } })

abbrev creation : Creation
creation = record {
  id = 9;
  price = 100;
  deadline_slots = 50;
  bond_per_draw = 10;
  bond = 5;
  weights = 1 ∷ 300 ∷ 7 ∷ [];
}

abbrev creating : List Instruction
unfolding create_order create_data contains_zero refund_total
creating = value_or (create_order host creation 5 30 6) []

abbrev quote : Quote
quote = record { pool = 10; asset = 99; price = 50; expires_at = 2000; tier = 2 }

abbrev returning : List Instruction
unfolding buyback_order
returning = value_or (buyback_order host snapshot quote (replicate 64 3) own_asset 50) []

buy_order-buy_instruction_example :
    (get_or purchase.sent.bytes 0 0 ≡ 10)
    × (purchase.pull ≡ 117)
    × (buy_instruction (drop 1 purchase.sent.bytes)
        ≡ ok (record { count = 1; client_seed = replicate 32 5; inventory_version = 1; bump = 7 }))
unfolding buy_order purchase
buy_order-buy_instruction_example =
    buy_order-buy_instruction host snapshot order (length-replicate {A = ℕ} 32 5) (omega arith) refl

create_order-create_pool_instruction_example :
    create_pool_instruction (drop 1 (second_bytes creating)) ≡ ok (creation_read creation 7)
unfolding create_order create_data contains_zero refund_total creating
create_order-create_pool_instruction_example =
    create_order-create_pool_instruction host creation 5 30 6
      (
        omega arith,
        omega arith,
        omega arith,
        omega arith,
        (omega arith, (omega arith, (omega arith, tt))),
      )
      refl

buyback_order-buyback_instruction_example :
    (get_or (second_bytes returning) 0 0 ≡ 12)
    × (buyback_instruction env (drop 1 (second_bytes returning))
        ≡ ok (record {
          tier = 2;
          price = 50;
          expires_at = 2000;
          signature = replicate 64 3;
          bump = 7;
        }))
unfolding buyback_order returning
buyback_order-buyback_instruction_example =
    buyback_order-buyback_instruction env host snapshot quote (replicate 64 3) own_asset 50
      (length-replicate {A = ℕ} 64 3) (omega arith) (omega arith) refl refl
