-- ===== src/Republisher/Total.antt =====
-- A run over a queue panics only where it meets a key that cannot be parsed and printed, or bytes that
-- are not those of a message.
use nats_requeue.Prelude.{true, some, ◌≡◌}
use nats_requeue.Bytes.{Bytes}
use nats_requeue.QueueKey.{QueueKey, logged_key}
use nats_requeue.Store.{Store, Item}
use nats_requeue.Queue.{Queue}
use nats_requeue.Protocol.{Codec}

abbrev pub Parses : Item → Type 0
Parses i = (k : QueueKey) × (logged_key i.key ≡ some k)

-- The accessors keep to the bytes.
abbrev pub IsSound : Codec → Bytes → Type 0
IsSound c v = (c.is_payload_sound v ≡ true) × (c.are_fields_sound v ≡ true)
