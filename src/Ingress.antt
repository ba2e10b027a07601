-- ===== src/Ingress.antt =====
-- The messages that come in: processIngressMessage and its commit callback of requeue.go, and
-- AddMessage of internal/queue/queue.go, over the manager's queues and each queue's batched writer.
-- A message is known by a number, which is also its handler in the write batch.
pub mod Acks
pub mod Accepted
use nats_requeue.Prelude.{ℕ, List, [], ◌∷◌, ◌++◌, Option, none, some, if◌then◌else◌, not, ◌&&◌}
use nats_requeue.Prelude.Int.{ℤ, pos, ltb_ℤ, ◌+ℤ◌, int_of_u64}
use nats_requeue.Bytes.{Bytes}
use nats_requeue.Key
use nats_requeue.Key.{Time, Source}
use nats_requeue.QueueKey.{
  QueueKey, bytes, parse_queue_key, new_queue_key_for_message, new_queue_key_for_state,
}
use nats_requeue.Result.{Error, Result, ok, err}
use nats_requeue.Store.{Store, Entry}
use nats_requeue.Stats.{QueueStats, add_count}
use nats_requeue.Queue.{Queue}
use nats_requeue.Assoc.{lookup, insert}
use nats_requeue.Manager.{Queues, upsert_queue_state}
use nats_requeue.Writer.{TxnOps}
use nats_requeue.Batched.{
  Outcome, returned, blocked, panicked, BatchedWriter, new_batched_writer, set_entry,
}
use nats_requeue.Protocol.{Codec, get_queue_name}

-- The connection's share of the state: the database, the source of keys, the queues, and the batched
-- writer of each queue by the queue's name.
pub record Intake (Db Txn : Type 0) : Type 0 where
  pub db : Db
  pub source : Source
  pub queues : Queues
  pub writers : List (Bytes × BatchedWriter Txn)

-- What the commit callbacks change: the queue's counters, and the messages replied to. The callbacks run in
-- goroutines of their own, in any order.
pub record Replies : Type 0 where
  pub stats : QueueStats
  pub acked : List ℕ

-- The callback of AddMessage, and in it that of processIngressMessage, which logs the error of the
-- commit and replies to the message.
unfoldable pub message_committed : Replies → ℕ × Option Error → Replies
message_committed r e = record { stats = add_count r.stats (pos 1); acked = r.acked ++ e.0 ∷ [] }

unfoldable pub run_callbacks : Replies → List (ℕ × Option Error) → Replies
unfolding message_committed
run_callbacks r [] = r
run_callbacks r (e ∷ es) = run_callbacks (message_committed r e) es

unfoldable pub message_entry : Bytes → Bytes → ℤ → Entry
message_entry key value ttl = record {
  key = key;
  value = value;
  ttl = if ltb_ℤ (pos 0) ttl then some ttl else none;
}

unfoldable pub new_message_queue_key : Codec → Source → Time → Bytes → QueueKey × Source
new_message_queue_key c src now payload =
    let (key, src') = Key.new src (now +ℤ int_of_u64 (c.read payload).delay) in
    (new_queue_key_for_message (get_queue_name (c.read payload)) key, src')

module _ (o : TxnOps) where
  open o use {Txn}

  -- AddMessage: the arguments of debug.Assert parse the key, which can panic.
  unfoldable pub add_message :
      BatchedWriter Txn
      → Bytes
      → Bytes
      → ℤ
      → ℕ
      → Option Error
      → Outcome (BatchedWriter Txn × Option Error)
  unfolding message_entry
  add_message bw key value ttl cb throttled = elim (parse_queue_key key) [
    | none ↦ panicked
    | some _ ↦ set_entry o bw (message_entry key value ttl) (some cb) throttled
  ]

  -- The batched writer of a queue, which NewQueue has made.
  unfoldable pub writer_of_queue : Bytes → List (Bytes × BatchedWriter Txn) → BatchedWriter Txn
  writer_of_queue name writers = elim (lookup name writers) [
    | none ↦ new_batched_writer o
    | some bw ↦ bw
  ]

  -- What is left of the state when a message was added to the queue `q`, with AddMessage's error.
  abbrev pub added_message :
      {Db : Type 0}
      → Db
      → Source
      → Queues
      → List (Bytes × BatchedWriter Txn)
      → Bytes
      → Outcome (BatchedWriter Txn × Option Error)
      → Outcome (Intake Db Txn × Option Error)
  added_message db src queues writers name blocked = blocked
  added_message db src queues writers name panicked = panicked
  added_message db src queues writers name (returned (bw, r)) =
      returned
        (record { db = db; source = src; queues = queues; writers = insert name bw writers }, r)

  module _ (s : Store) (c : Codec) where
    open s use {Db}

    -- The accessors panic on bytes that are not those of a message. After an error of UpsertQueueState the handler goes on with a nil queue, whose name is read in
    -- AddMessage: a panic.
    unfoldable pub process_ingress_message :
        Intake Db Txn → Time → Bytes → ℕ → Option Error → Outcome (Intake Db Txn × Option Error)
    unfolding add_message writer_of_queue new_message_queue_key
    process_ingress_message st now payload n throttled =
        if not (c.is_payload_sound payload && c.are_fields_sound payload)
        then panicked
        else (let (qk, src') = new_message_queue_key c st.source now payload in
            elim (upsert_queue_state s st.db st.queues (new_queue_key_for_state qk.name [])) [
              | err e ↦ panicked
              | ok (db', queues', q) ↦ added_message db' src' queues' st.writers q.name (
                  add_message (writer_of_queue q.name st.writers) (bytes qk) payload
                    (int_of_u64 (c.read payload).ttl) n throttled)
            ])
