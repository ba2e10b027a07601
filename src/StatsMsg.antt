-- ===== src/StatsMsg.antt =====
-- protocol/stats_msg.go, with the generated builder functions and accessors of
-- flatbuf/stats_msg.gen.go, over the FlatBuffers library.
pub mod RoundTrip
use nats_requeue.Prelude.{ℕ, zero, suc, List, [], ◌∷◌, Option, none, some, length}
use nats_requeue.Prelude.Int.{ℤ, pos}
use nats_requeue.Bytes.{Bytes}
use nats_requeue.Stats.{QueueStatsMessage}
use nats_requeue.Flatbuffers.{Flatbuffers}

pub record InstanceStatsMessage : Type 0 where
  pub instance_id : Bytes
  pub queues : List QueueStatsMessage

unfoldable pub default_instance_stats_message : InstanceStatsMessage
default_instance_stats_message = record { instance_id = []; queues = [] }

-- The zero value, of which `make` makes a list.
unfoldable pub zero_queue_stats_message : QueueStatsMessage
zero_queue_stats_message = record { queue_name = []; enqueued = pos 0; in_flight = pos 0 }

-- A field that is not stored reads as its default.
unfoldable pub bytes_or_nil : Option Bytes → Bytes
bytes_or_nil none = []
bytes_or_nil (some s) = s

unfoldable pub int_or_zero : Option ℤ → ℤ
int_or_zero none = pos 0
int_or_zero (some n) = n

unfoldable pub length_or_zero : Option ℕ → ℕ
length_or_zero none = 0
length_or_zero (some n) = n

module _ (f : Flatbuffers) where
  open f use {
    Builder, Buffer, create_byte_string, start_vector, prepend_uoffset, end_vector, start_object,
    prepend_uoffset_slot, prepend_int64_slot, end_object,
  }

  unfoldable pub queue_stats_message_start : Builder → Builder
  queue_stats_message_start b = start_object 3 b

  unfoldable pub add_queue_name : ℕ → Builder → Builder
  add_queue_name queue_name b = prepend_uoffset_slot 0 queue_name 0 b

  unfoldable pub add_enqueued : ℤ → Builder → Builder
  add_enqueued enqueued b = prepend_int64_slot 1 enqueued (pos 0) b

  unfoldable pub add_in_flight_slot : ℤ → Builder → Builder
  add_in_flight_slot in_flight b = prepend_int64_slot 2 in_flight (pos 0) b

  -- The source ends the table with RequeueMessageEnd, which is the same call of the library.
  unfoldable pub queue_to_flatbuf : QueueStatsMessage → Builder → Builder × ℕ
  queue_to_flatbuf q b =
      let (b1, queue_name) = create_byte_string q.queue_name b in
      end_object (
        add_in_flight_slot q.in_flight
          (add_enqueued q.enqueued (add_queue_name queue_name (queue_stats_message_start b1))))

  unfoldable pub queue_offsets : List QueueStatsMessage → Builder → Builder × List ℕ
  queue_offsets [] b = (b, [])
  queue_offsets (q ∷ qs) b =
      let (b1, offset) = queue_to_flatbuf q b in
      let (b2, offsets) = queue_offsets qs b1 in (b2, offset ∷ offsets)

  -- The loop from the last offset down to the first.
  unfoldable pub prepend_reversed : List ℕ → Builder → Builder
  prepend_reversed [] b = b
  prepend_reversed (offset ∷ offsets) b = prepend_uoffset offset (prepend_reversed offsets b)

  unfoldable pub start_queues_vector : ℕ → Builder → Builder
  start_queues_vector num_elems b = start_vector 4 num_elems 4 b

  unfoldable pub instance_stats_message_start : Builder → Builder
  instance_stats_message_start b = start_object 2 b

  unfoldable pub add_instance_id : ℕ → Builder → Builder
  add_instance_id instance_id b = prepend_uoffset_slot 0 instance_id 0 b

  unfoldable pub add_queues : ℕ → Builder → Builder
  add_queues queues b = prepend_uoffset_slot 1 queues 0 b

  unfoldable pub instance_to_flatbuf : InstanceStatsMessage → Builder → Builder × ℕ
  instance_to_flatbuf i b =
      let (b1, offsets) = queue_offsets i.queues b in
      let b2 = prepend_reversed offsets (start_queues_vector (length i.queues) b1) in
      let (b3, queues) = end_vector (length offsets) b2 in
      let (b4, instance_id) = create_byte_string i.instance_id b3 in
      end_object (add_queues queues (add_instance_id instance_id (instance_stats_message_start b4)))

  unfoldable pub queue_bytes : QueueStatsMessage → Buffer
  queue_bytes q = let (b, msg) = queue_to_flatbuf q f.new_builder in f.finish msg b

  unfoldable pub instance_bytes : InstanceStatsMessage → Buffer
  instance_bytes i = let (b, msg) = instance_to_flatbuf i f.new_builder in f.finish msg b

  -- The fields of the table at a position: QueueName, Enqueued and InFlight, each with its default.
  unfoldable pub queue_from_flatbuf : Buffer → ℕ → QueueStatsMessage
  queue_from_flatbuf buf p = record {
    queue_name = bytes_or_nil (f.byte_vector 4 buf p);
    enqueued = int_or_zero (f.get_int64 6 buf p);
    in_flight = int_or_zero (f.get_int64 8 buf p);
  }

  unfoldable pub queues_length : Buffer → ℕ → ℕ
  queues_length buf p = length_or_zero (f.vector_len 6 buf p)

  -- The loop over the indices, of which n are left from idx on.
  unfoldable pub read_queues : ℕ → ℕ → Buffer → ℕ → List QueueStatsMessage
  read_queues zero idx buf p = []
  read_queues (suc n) idx buf p =
      elim (f.indirect 6 idx buf p) [
        | none ↦ zero_queue_stats_message
        | some x ↦ queue_from_flatbuf buf x
      ]
      ∷ read_queues n (suc idx) buf p

  unfoldable pub instance_from_flatbuf : Buffer → ℕ → InstanceStatsMessage
  instance_from_flatbuf buf p = record {
    instance_id = bytes_or_nil (f.byte_vector 4 buf p);
    queues = read_queues (queues_length buf p) 0 buf p;
  }

  -- GetRootAsInstanceStatsMessage, then fromFlatbuf, which sets every field.
  unfoldable pub instance_unmarshal : InstanceStatsMessage → Buffer → InstanceStatsMessage
  instance_unmarshal i buf = instance_from_flatbuf buf (f.root buf)

  unfoldable pub queue_unmarshal : QueueStatsMessage → Buffer → QueueStatsMessage
  queue_unmarshal q buf = queue_from_flatbuf buf (f.root buf)

  unfoldable pub instance_stats_message_from_nats : Buffer → InstanceStatsMessage
  instance_stats_message_from_nats buf = instance_unmarshal default_instance_stats_message buf
