-- ===== src/Sdk/Pulls/Tests.antt =====
-- Decoding a pull and an item, and delivering the award of a settled pull.
use solana_gacha.Prelude.{◌≡◌, ◌≢◌, refl, [], ◌∷◌, ok, some, true, false, replicate}
use solana_gacha.Core.State.{Pull, new_item, new_pull}
use solana_gacha.Program.Account.{item_data, pull_data}
use solana_gacha.Market.Scene.{settled_pull}
use solana_gacha.Sdk.{PullSnapshot, Asset, Instruction, rw_meta, ro_meta, instruction}
use solana_gacha.Sdk.Batches.{transaction_size, retain, pack, batches}
use solana_gacha.Sdk.Batches.Laws.{flatten, IsWithin, IsFilled}
use solana_gacha.Sdk.Plan.{Settlement, settlement_instruction}
use solana_gacha.Sdk.Pulls.{
  awards, any_bad, pull_from_account, item_from_account, outcomes, deliver_order, undelivered,
  deliveries, deliver_batches, any_misplaced, placed, settlement_batches,
}
use solana_gacha.Sdk.Pulls.Laws.{delivery_of, deliver_batches-ok}
use solana_gacha.Sdk.Pulls.Delivery.{DeliversAwards}
use solana_gacha.Core.Constants.{status_pending}
use solana_gacha.Sdk.Scene.{host}

abbrev decodable_pull : Pull
decodable_pull = record settled_pull { bump = 7 }

pull_decoded :
    pull_from_account host 117 1 (pull_data decodable_pull)
    ≡ ok (record { address = 117; header = decodable_pull })
unfolding pull_from_account any_bad new_pull
pull_decoded = refl

item_decoded :
    item_from_account host 116 1 (item_data (new_item 7 2 0 111 99))
    ≡ ok (record { address = 116; header = new_item 7 2 0 111 99 })
unfolding item_from_account new_item
item_decoded = refl

abbrev won : PullSnapshot
won = record { address = 117; header = settled_pull }

abbrev prize : Asset
prize = record { address = 99; owner = 111; collection = some 98 }

won_outcomes : outcomes won ≡ ok (record { asset = 99; tier = some 2 } ∷ [])
unfolding outcomes new_pull
won_outcomes = refl

abbrev sent : Instruction
sent = instruction host (21 ∷ 0 ∷ []) (
    rw_meta 60 true
    ∷ ro_meta 111 false
    ∷ rw_meta 117 false
    ∷ rw_meta 50 false
    ∷ rw_meta 99 false
    ∷ ro_meta 98 false
    ∷ ro_meta 3 false
    ∷ ro_meta 0 false
    ∷ [])

delivered_now : deliver_batches host won (prize ∷ []) 60 ≡ ok ((sent ∷ []) ∷ [])
unfolding deliver_batches outcomes undelivered deliveries deliver_order batches pack retain
    transaction_size new_pull
delivered_now = refl

deliver_batches-ok_example :
    (won.header.status ≢ status_pending)
    × DeliversAwards host
        (delivery_of won 60)
        0
        (awards won.header)
        (prize ∷ [])
        (flatten ((sent ∷ []) ∷ []))
    × IsWithin host 60 ((sent ∷ []) ∷ [])
    × IsFilled ((sent ∷ []) ∷ [])
deliver_batches-ok_example = deliver_batches-ok host won (prize ∷ []) 60 delivered_now

abbrev order : Settlement
order = record {
  pool = 111;
  pull = 117;
  buyer = 50;
  operator = 30;
  proof = replicate 80 0;
  draws = record { tier = 2; position = 0; item = 116 } ∷ [];
}

settled_and_sent :
    settlement_batches host order
      (record { address = 116; header = new_item 4 2 0 111 99 } ∷ [])
      (prize ∷ [])
      60
    ≡ ok ((settlement_instruction host order ∷ sent ∷ []) ∷ [])
unfolding settlement_batches any_misplaced placed deliveries deliver_order batches pack retain
    transaction_size new_item
settled_and_sent = refl
