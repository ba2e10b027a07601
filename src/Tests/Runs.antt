-- ===== src/Tests/Runs.antt =====
-- The republisher: a run over the queue "q", one message, and the correction of a checkpoint.
use nats_requeue.Prelude.{◌≡◌, ◌⊎◌, refl, Bool, true, [], ◌∷◌, some, none, arith}
use nats_requeue.Prelude.Int.{pos}
use nats_requeue.Bytes.{Bytes, compare_bytes, put_uint64}
use nats_requeue.Key.{Source, Key, min, prefix_of}
use nats_requeue.Key.Prefix.{has_prefix}
use nats_requeue.QueueKey.{
  bytes, logged_key, new_queue_key_for_message, split_n, cut, new_queue_key_for_state,
}
use nats_requeue.Result.{ok}
use nats_requeue.Store.{Entry}
use nats_requeue.Queue.{Queue, QueueItem, read_from_checkpoint, range, update_checkpoint}
use nats_requeue.Republisher.Run.{save_run_checkpoint, send, republish_queue}
use nats_requeue.Protocol.{RequeueMessage}
use nats_requeue.Republisher.{
  RunQueue, Clock, Shared, new_run_queue, publish_message, create_entry, count_request,
  finish_message,
}
use nats_requeue.Republisher.Message.{}
use nats_requeue.Republisher.Requeue.{IsRequeued, create_entry-IsRequeued}
use nats_requeue.Republisher.Checkpoint.{republish_queue_checkpoint, republish_queue_panics}
use nats_requeue.Tests.Memory.{memory}
use nats_requeue.Tests.Wire.{wire-IsStored, wire, wire-LawfulCodec}
use nats_requeue.Tests.Queues.{messages, here, q, q_name, at}
use nats_requeue.Key

abbrev pub clock : Clock
clock = record { second = 100; delay_from = pos 100_000_000_000; until_from = pos 100_000_000_000 }

-- Three retries and a TTL, with the payload 9.
abbrev pub stored : Bytes
stored = 3 ∷ 60_000_000_000 ∷ 5_000_000_000 ∷ 0 ∷ 2 ∷ 1 ∷ 1 ∷ b'q' ∷ b's' ∷ 9 ∷ []

abbrev pub due : QueueItem
due = record { k = at 1; v = stored; expires_at = 130 }

abbrev pub st : Shared (memory.Db)
st = record { db = messages; source = here; rq = new_run_queue q }

create_entry-IsRequeued_example :
    (e : Entry) × (src' : Source) × (rq' : RunQueue) × (create_entry wire clock here
        (new_run_queue q)
        due
      ≡ some (ok e, src', rq'))
    × IsRequeued wire clock here due e
unfolding wire
create_entry-IsRequeued_example =
    create_entry-IsRequeued wire wire-LawfulCodec clock here (new_run_queue q) due
      (wire-IsStored stored) (omega arith)

-- An acknowledged message is deleted from the database.
abbrev after_ack : Shared (memory.Db)
after_ack = finish_message wire memory (count_request wire memory st) due

acked_published : publish_message wire memory clock true st due ≡ some after_ack
unfolding publish_message wire
acked_published = refl

abbrev env : QueueItem → Clock × Bool
env qi = (clock, true)

abbrev nil_queue : Queue
nil_queue = record q { checkpoint = [] }

republish_queue_panics_example :
    republish_queue memory wire env messages here nil_queue (pos 9_000_000_000) none ≡ none
republish_queue_panics_example =
    republish_queue_panics wire memory env messages here nil_queue (pos 9_000_000_000) none refl

-- The messages of the database have no TTL, so the run passes them over and saves the nil
-- checkpoint.
abbrev saved : memory.Db
saved = (save_run_checkpoint memory messages (new_run_queue q)).0

run_ends :
    republish_queue memory wire env messages here q (pos 9_000_000_000) none
    ≡ some (saved, record here { seq = 7 }, nil_queue)
unfolding republish_queue read_from_checkpoint range messages memory has_prefix compare_bytes bytes
    new_queue_key_for_message prefix_of logged_key split_n cut wire Key.new Key.unix put_uint64
    publish_message new_run_queue Key.compare send update_checkpoint new_queue_key_for_state
run_ends = refl

republish_queue_checkpoint_example :
    (nil_queue.checkpoint ≡ []) ⊎ (nil_queue.checkpoint ≡ q.checkpoint)
republish_queue_checkpoint_example =
    republish_queue_checkpoint wire memory env messages saved here (record here { seq = 7 }) q
      nil_queue (pos 9_000_000_000) none run_ends

-- A checkpoint that is past both messages is moved back to the first.
abbrev ahead : Queue
ahead = record q { checkpoint = at 9 }

abbrev corrected : memory.Db
corrected = (save_run_checkpoint memory messages (record { q = ahead; min_checkpoint = at 1 })).0

abbrev plain : RequeueMessage
plain = record {
  retries = 3;
  ttl = 0;
  delay = 5;
  backoff_strategy = pos 7;
  queue_name = q_name;
  original_subject = [];
  original_payload = 9 ∷ [];
}
