-- ===== src/RequeueMsg.antt =====
-- protocol/requeue_msg.go, with the generated builder functions and accessors of
-- flatbuf/requeue_msg.gen.go, over the FlatBuffers library. The other modules read and write messages
-- through the interface `Codec` of Protocol.
pub mod Stored
pub mod RoundTrip
pub mod Mutation
pub mod Coded
use nats_requeue.Prelude.{ℕ, Option, none, some, [], ◌∷◌}
use nats_requeue.Prelude.Int.{ℤ, pos}
use nats_requeue.Bytes.{Bytes}
use nats_requeue.Flatbuffers.{Flatbuffers}
use nats_requeue.StatsMsg.{bytes_or_nil, int_or_zero}
use nats_requeue.Protocol.{
  RequeueMessage, BackoffStrategy, default_requeue_message, backoff_strategy_to_flatbuf,
}

unfoldable pub uint_or_zero : Option ℕ → ℕ
uint_or_zero none = 0
uint_or_zero (some n) = n

module _ (f : Flatbuffers) where
  open f use {
    Builder, Buffer, create_byte_string, create_byte_vector, start_object, prepend_uoffset_slot,
    prepend_uint64_slot, prepend_int8_slot, end_object,
  }

  unfoldable pub requeue_message_start : Builder → Builder
  requeue_message_start b = start_object 7 b

  unfoldable pub add_retries : ℕ → Builder → Builder
  add_retries retries b = prepend_uint64_slot 0 retries 0 b

  unfoldable pub add_ttl : ℕ → Builder → Builder
  add_ttl ttl b = prepend_uint64_slot 1 ttl 0 b

  unfoldable pub add_delay : ℕ → Builder → Builder
  add_delay delay b = prepend_uint64_slot 2 delay 0 b

  unfoldable pub add_backoff_strategy : BackoffStrategy → Builder → Builder
  add_backoff_strategy backoff_strategy b = prepend_int8_slot 3 backoff_strategy (pos 0) b

  unfoldable pub requeue_add_queue_name : ℕ → Builder → Builder
  requeue_add_queue_name queue_name b = prepend_uoffset_slot 4 queue_name 0 b

  unfoldable pub add_original_subject : ℕ → Builder → Builder
  add_original_subject original_subject b = prepend_uoffset_slot 5 original_subject 0 b

  unfoldable pub add_original_payload : ℕ → Builder → Builder
  add_original_payload original_payload b = prepend_uoffset_slot 6 original_payload 0 b

  unfoldable pub requeue_to_flatbuf : RequeueMessage → Builder → Builder × ℕ
  requeue_to_flatbuf r b =
      let (b1, queue_name) = create_byte_string r.queue_name b in
      let (b2, original_subject) = create_byte_string r.original_subject b1 in
      let (b3, original_payload) = create_byte_vector r.original_payload b2 in
      let b4 =
        add_delay r.delay (add_ttl r.ttl (add_retries r.retries (requeue_message_start b3))) in
      let b5 = add_backoff_strategy (backoff_strategy_to_flatbuf r) b4 in
      end_object (
        add_original_payload original_payload
          (add_original_subject original_subject (requeue_add_queue_name queue_name b5)))

  unfoldable pub requeue_bytes : RequeueMessage → Buffer
  requeue_bytes r = let (b, msg) = requeue_to_flatbuf r f.new_builder in f.finish msg b

  -- The accessors of the table at a position, each with its default.
  unfoldable pub retries : Buffer → ℕ → ℕ
  retries buf p = uint_or_zero (f.get_uint64 4 buf p)

  unfoldable pub ttl : Buffer → ℕ → ℕ
  ttl buf p = uint_or_zero (f.get_uint64 6 buf p)

  unfoldable pub delay : Buffer → ℕ → ℕ
  delay buf p = uint_or_zero (f.get_uint64 8 buf p)

  unfoldable pub backoff_strategy : Buffer → ℕ → BackoffStrategy
  backoff_strategy buf p = int_or_zero (f.get_int8 10 buf p)

  unfoldable pub queue_name : Buffer → ℕ → Bytes
  queue_name buf p = bytes_or_nil (f.byte_vector 12 buf p)

  unfoldable pub original_subject : Buffer → ℕ → Bytes
  original_subject buf p = bytes_or_nil (f.byte_vector 14 buf p)

  unfoldable pub original_payload_bytes : Buffer → ℕ → Bytes
  original_payload_bytes buf p = bytes_or_nil (f.byte_vector 16 buf p)

  -- Writes in place; `none` is the result false, and `some` the buffer after the write.
  unfoldable pub mutate_retries : ℕ → Buffer → ℕ → Option Buffer
  mutate_retries n buf p = f.mutate_uint64_slot 4 n buf p

  unfoldable pub mutate_ttl : ℕ → Buffer → ℕ → Option Buffer
  mutate_ttl n buf p = f.mutate_uint64_slot 6 n buf p

  unfoldable pub mutate_delay : ℕ → Buffer → ℕ → Option Buffer
  mutate_delay n buf p = f.mutate_uint64_slot 8 n buf p

  unfoldable pub mutate_backoff_strategy : BackoffStrategy → Buffer → ℕ → Option Buffer
  mutate_backoff_strategy n buf p = f.mutate_int8_slot 10 n buf p

  unfoldable pub requeue_from_flatbuf : RequeueMessage → Buffer → ℕ → RequeueMessage
  requeue_from_flatbuf r buf p = record r {
    retries = retries buf p;
    ttl = ttl buf p;
    delay = delay buf p;
    backoff_strategy = backoff_strategy buf p;
    queue_name = queue_name buf p;
    original_subject = original_subject buf p;
    original_payload = original_payload_bytes buf p;
  }

  -- RequeueMessageFromNATS, with UnmarshalBinary.
  unfoldable pub requeue_read : Buffer → RequeueMessage
  requeue_read buf = requeue_from_flatbuf default_requeue_message buf (f.root buf)
