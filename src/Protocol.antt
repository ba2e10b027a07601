-- ===== src/Protocol.antt =====
-- protocol/requeue_msg.go: the message that is stored, and what is read of it. The encoding is that
-- of the FlatBuffers library and its generated accessors, which are a parameter here.
use nats_requeue.Prelude.{
  Bool, true, false, arith, ℕ, [], ◌∷◌, Option, some, ◌≡◌, ◌≢◌, if◌then◌else◌,
}
use nats_requeue.Prelude.Int.{ℤ, pos, ltb_ℤ}
use nats_requeue.Bytes.{Bytes}

-- An int8, of which three values have names.
abbrev pub BackoffStrategy : Type 0
BackoffStrategy = ℤ

abbrev pub undefined : BackoffStrategy
undefined = pos 0

abbrev pub exponential : BackoffStrategy
exponential = pos 1

abbrev pub fixed : BackoffStrategy
fixed = pos 2

pub record RequeueMessage : Type 0 where
  pub retries : ℕ
  pub ttl : ℕ
  pub delay : ℕ
  pub backoff_strategy : BackoffStrategy
  pub queue_name : Bytes
  pub original_subject : Bytes
  pub original_payload : Bytes

-- "default"
abbrev pub default_queue_name : Bytes
default_queue_name = b'd' ∷ b'e' ∷ b'f' ∷ b'a' ∷ b'u' ∷ b'l' ∷ b't' ∷ []

unfoldable pub default_requeue_message : RequeueMessage
default_requeue_message = record {
  retries = 0;
  ttl = 0;
  delay = 0;
  backoff_strategy = undefined;
  queue_name = default_queue_name;
  original_subject = [];
  original_payload = [];
}

unfoldable pub backoff_strategy_to_flatbuf : RequeueMessage → BackoffStrategy
backoff_strategy_to_flatbuf r =
    if ltb_ℤ fixed r.backoff_strategy then undefined else r.backoff_strategy

unfoldable pub get_queue_name : RequeueMessage → Bytes
get_queue_name fb = elim fb.queue_name [ [] ↦ default_queue_name | x ∷ name ↦ x ∷ name ]

-- The library: whether the bytes are those of a message, the fields of a stored message, those fields written, and writes in place, which fail
-- (`none`) where the field is not stored.
pub record Codec : Type 0 where
  -- Whether an accessor keeps to the bytes, where it would panic if it did not: that of the payload,
  -- and all the others.
  pub is_payload_sound : Bytes → Bool
  pub are_fields_sound : Bytes → Bool
  pub read : Bytes → RequeueMessage
  pub write : RequeueMessage → Bytes
  pub mutate_retries : Bytes → ℕ → Option Bytes
  pub mutate_ttl : Bytes → ℕ → Option Bytes

-- A message reads back as it was written, and in the bytes of a message a field that is not at its
-- default is stored and can be changed in place. `IsStored`: these are the bytes of a message that
-- was written, and perhaps changed. RequeueMsg.Coded has a codec that meets these laws.
pub record LawfulCodec (c : Codec) : Type 1 where
  pub IsStored : Bytes → Type 0
  pub stored_sound :
      (b : Bytes) → IsStored b → (c.is_payload_sound b ≡ true) × (c.are_fields_sound b ≡ true)
  pub write-IsStored : (m : RequeueMessage) → IsStored (c.write m)
  pub read-write :
      (m : RequeueMessage) → ltb_ℤ fixed m.backoff_strategy ≡ false → c.read (c.write m) ≡ m
  pub retries_stored :
      (b : Bytes) (n : ℕ)
      → IsStored b
      → (c.read b).retries ≢ 0
      → (b' : Bytes) × (c.mutate_retries b n ≡ some b')
        × IsStored b'
        × (c.read b' ≡ record (c.read b) { retries = n })
  pub ttl_stored :
      (b : Bytes) (n : ℕ)
      → IsStored b
      → (c.read b).ttl ≢ 0
      → (b' : Bytes) × (c.mutate_ttl b n ≡ some b')
        × IsStored b'
        × (c.read b' ≡ record (c.read b) { ttl = n })

module _ (c : Codec) where
  -- toFlatbuf, then Bytes.
  unfoldable pub marshal : RequeueMessage → Bytes
  unfolding backoff_strategy_to_flatbuf
  marshal r = c.write (record r { backoff_strategy = backoff_strategy_to_flatbuf r })

  -- fromFlatbuf sets every field, so nothing of the message before is left.
  unfoldable pub unmarshal : RequeueMessage → Bytes → RequeueMessage
  unmarshal r b = c.read b

  unfoldable pub requeue_message_from_nats : Bytes → RequeueMessage
  unfolding unmarshal default_requeue_message
  requeue_message_from_nats b = unmarshal default_requeue_message b

  -- A message whose strategy has a name survives the wire; any greater value arrives as undefined.
  pub from_nats-marshal :
      (laws : LawfulCodec c) (r : RequeueMessage)
      → requeue_message_from_nats (marshal r) ≡ record r {
        backoff_strategy = if ltb_ℤ fixed r.backoff_strategy then undefined else r.backoff_strategy;
      }
  unfolding requeue_message_from_nats marshal
  from_nats-marshal laws r = laws.read-write _ (ground arith)
