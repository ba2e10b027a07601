-- ===== src/RequeueMsg/RoundTrip.antt =====
-- What is read of a requeue message is what was written, also the numbers that are zero and not stored.
use nats_requeue.Prelude.{ℕ, ◌+◌, ◌*◌, List, some, ◌≡◌, refl, if◌then◌else◌, inl, inr, sym}
use nats_requeue.Prelude.Int.{ℤ, ltb_ℤ}
use nats_requeue.Flatbuffers.{Flatbuffers, Slot, table, find}
use nats_requeue.Flatbuffers.Laws.{Lawful}
use nats_requeue.StatsMsg.{bytes_or_nil, int_or_zero}
use nats_requeue.Protocol.{RequeueMessage, fixed, undefined, backoff_strategy_to_flatbuf}
use nats_requeue.RequeueMsg.{
  uint_or_zero, requeue_to_flatbuf, requeue_bytes, retries, ttl, delay, backoff_strategy,
  queue_name, original_subject, original_payload_bytes, requeue_from_flatbuf, requeue_read,
}
use nats_requeue.RequeueMsg.Stored.{IsNumber, IsStrategy, Holds, bytes-Holds}

module _ {f : Flatbuffers} (laws : Lawful f) where
  open laws use {v}
  open v use {object_in}

  number_read :
      (slot p n : ℕ) (fs : List (ℕ × Slot)) (buf : f.Buffer)
      → object_in buf p ≡ some (table fs)
      → IsNumber (find slot fs) n
      → uint_or_zero (f.get_uint64 (4 + 2 * slot) buf p) ≡ n
  unfolding uint_or_zero
  number_read slot p n fs buf h (inl e) = rw (laws.reads_uint slot p n fs buf h e) refl
  number_read slot p n fs buf h (inr (e, z)) = rw (laws.reads_no_uint slot p fs buf h e) (sym z)

  strategy_read :
      (slot p : ℕ) (n : ℤ) (fs : List (ℕ × Slot)) (buf : f.Buffer)
      → object_in buf p ≡ some (table fs)
      → IsStrategy (find slot fs) n
      → int_or_zero (f.get_int8 (4 + 2 * slot) buf p) ≡ n
  unfolding int_or_zero
  strategy_read slot p n fs buf h (inl e) = rw (laws.reads_int8 slot p n fs buf h e) refl
  strategy_read slot p n fs buf h (inr (e, z)) = rw (laws.reads_no_int8 slot p fs buf h e) (sym z)

  pub requeue_read_held :
      (r : RequeueMessage) (p : ℕ) (buf : f.Buffer) → Holds laws buf p r → requeue_read f buf ≡ r
  unfolding requeue_read requeue_from_flatbuf retries ttl delay backoff_strategy queue_name
      original_subject original_payload_bytes bytes_or_nil
  requeue_read_held r p buf h =
      rw
        (
          h.at_root,
          number_read 0 p r.retries h.fs buf h.at_table h.retries_slot,
          number_read 1 p r.ttl h.fs buf h.at_table h.ttl_slot,
          number_read 2 p r.delay h.fs buf h.at_table h.delay_slot,
          strategy_read 3 p r.backoff_strategy h.fs buf h.at_table h.strategy_slot,
          laws.reads_text 4 p h.name h.fs _ buf h.at_table h.name_slot h.at_name,
          laws.reads_text 5 p h.subject h.fs _ buf h.at_table h.subject_slot h.at_subject,
          laws.reads_text 6 p h.payload h.fs _ buf h.at_table h.payload_slot h.at_payload,
        )
        refl

  -- For any library that meets its laws: a message that Bytes encodes is read from NATS as the same
  -- message, but for a strategy above the named ones, which arrives as undefined.
  pub requeue_read-bytes :
      (r : RequeueMessage)
      → requeue_read f (requeue_bytes f r) ≡ record r {
        backoff_strategy = if ltb_ℤ fixed r.backoff_strategy then undefined else r.backoff_strategy;
      }
  unfolding requeue_bytes backoff_strategy_to_flatbuf
  requeue_read-bytes r =
      let (b, p) = requeue_to_flatbuf f r f.new_builder in
      requeue_read_held _ p (f.finish p b) (bytes-Holds laws r)
