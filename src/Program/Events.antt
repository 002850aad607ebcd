-- ===== src/Program/Events.antt =====
-- program/src/events.rs: the events, the fixed buffer that each is written to, and the bytes of the
-- call that carries it.
use solana_gacha.Prelude.{
  ℕ, ◌+◌, List, [], ◌∷◌, ◌++◌, ltb, length, Result, ok, err, panic, ◌>>=◌, if◌then◌else◌,
}
use solana_gacha.Bytes.{le_bytes}
use solana_gacha.Core.State.{Pubkey}
pub mod Laws
pub mod Tests

pub data Event : Type 0 where
  create_pool_fields : (pool : Pubkey) → Event
  deposit_item_fields : (pool asset : Pubkey) (tier position : ℕ) → Event
  withdraw_fields : (pool : Pubkey) (amount : ℕ) → Event
  set_status_fields : (pool : Pubkey) (status : ℕ) → Event
  reclaim_fields : (pool asset : Pubkey) (position : ℕ) → Event
  buy_fields : (pool pull buyer : Pubkey) (index count : ℕ) → Event
  refund_fields : (pool pull : Pubkey) (amount : ℕ) → Event
  buyback_fields : (pool asset seller : Pubkey) (price position : ℕ) → Event
  settle_fields : (pool pull : Pubkey) (alpha proof beta outcomes : List ℕ) → Event
  deliver_fields : (pull asset : Pubkey) (outcome : ℕ) → Event

abbrev pub event_discriminator : ℕ
event_discriminator = 255

-- The instruction of an event.
abbrev pub discriminator : Event → ℕ
discriminator (create_pool_fields pool) = 0
discriminator (deposit_item_fields pool asset tier position) = 1
discriminator (withdraw_fields pool amount) = 2
discriminator (set_status_fields pool status) = 3
discriminator (reclaim_fields pool asset position) = 4
discriminator (buy_fields pool pull buyer index count) = 10
discriminator (refund_fields pool pull amount) = 11
discriminator (buyback_fields pool asset seller price position) = 12
discriminator (settle_fields pool pull alpha proof beta outcomes) = 20
discriminator (deliver_fields pull asset outcome) = 21

-- The size of an event's buffer.
abbrev pub buffer_size : Event → ℕ
buffer_size (create_pool_fields pool) = 34
buffer_size (deposit_item_fields pool asset tier position) = 71
buffer_size (withdraw_fields pool amount) = 42
buffer_size (set_status_fields pool status) = 35
buffer_size (reclaim_fields pool asset position) = 70
buffer_size (buy_fields pool pull buyer index count) = 107
buffer_size (refund_fields pool pull amount) = 74
buffer_size (buyback_fields pool asset seller price position) = 110
buffer_size (settle_fields pool pull alpha proof beta outcomes) = 572
buffer_size (deliver_fields pull asset outcome) = 67

-- The fields in wire order, with the bytes of a key.
abbrev pub fields : (Pubkey → List ℕ) → Event → List (List ℕ)
fields key (create_pool_fields pool) = key pool ∷ []
fields key (deposit_item_fields pool asset tier position) =
    key pool ∷ key asset ∷ (tier ∷ []) ∷ le_bytes 4 position ∷ []
fields key (withdraw_fields pool amount) = key pool ∷ le_bytes 8 amount ∷ []
fields key (set_status_fields pool status) = key pool ∷ (status ∷ []) ∷ []
fields key (reclaim_fields pool asset position) = key pool ∷ key asset ∷ le_bytes 4 position ∷ []
fields key (buy_fields pool pull buyer index count) =
    key pool ∷ key pull ∷ key buyer ∷ le_bytes 8 index ∷ (count ∷ []) ∷ []
fields key (refund_fields pool pull amount) = key pool ∷ key pull ∷ le_bytes 8 amount ∷ []
fields key (buyback_fields pool asset seller price position) =
    key pool ∷ key asset ∷ key seller ∷ le_bytes 8 price ∷ le_bytes 4 position ∷ []
fields key (settle_fields pool pull alpha proof beta outcomes) =
    key pool ∷ key pull ∷ alpha ∷ proof ∷ beta ∷ outcomes ∷ []
fields key (deliver_fields pull asset outcome) = key pull ∷ key asset ∷ (outcome ∷ []) ∷ []

-- `EventData::push`: the slice of the buffer panics when it ends beyond the buffer.
pub push : ℕ → List ℕ → List ℕ → Result (List ℕ)
push size data_bytes bytes =
    if ltb size (length data_bytes + length bytes) then err panic else ok (data_bytes ++ bytes)

pub push_all : ℕ → List ℕ → List (List ℕ) → Result (List ℕ)
push_all size data_bytes [] = ok data_bytes
push_all size data_bytes (f ∷ fs) = do more ← push size data_bytes f; push_all size more fs

-- `event!`: `EventData::new` and the pushes; the data of the call.
pub write_event : (Pubkey → List ℕ) → Event → Result (List ℕ)
write_event key e =
    push_all (buffer_size e) (event_discriminator ∷ discriminator e ∷ []) (fields key e)

-- Parts one after the other.
abbrev pub join : List (List ℕ) → List ℕ
join [] = []
join (f ∷ []) = f
join (f ∷ g ∷ fs) = f ++ join (g ∷ fs)

-- The bytes of an event that fits its buffer.
abbrev pub event_bytes : (Pubkey → List ℕ) → Event → List ℕ
event_bytes key e = event_discriminator ∷ discriminator e ∷ join (fields key e)
