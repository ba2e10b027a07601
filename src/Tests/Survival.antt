-- ===== src/Tests/Survival.antt =====
-- A message that is due fails in a run over its queue, and is found after it under an issued key. The run does not panic.
use nats_requeue.Prelude.{
  subst, sym, ◌≡◌, refl, Bool, false, [], ◌∷◌, ◌++◌, some, none, arith, replicate,
}
use nats_requeue.Prelude.Int.{pos}
use nats_requeue.Bytes.{uint64, equal_bytes, Bytes, compare_bytes, put_uint64}
use nats_requeue.Store.Writes.{find, Outlives}
use nats_requeue.Republisher.Requeue.{requeue_ttl}
use nats_requeue.Key.{prefix_of, Source, Key}
use nats_requeue.Key.Prefix.{has_prefix}
use nats_requeue.QueueKey.{
  bytes, logged_key, new_queue_key_for_message, split_n, cut, new_queue_key_for_state,
}
use nats_requeue.Queue.{
  read_from_checkpoint, range, update_checkpoint, save_checkpoint, is_expired, Queue, QueueItem,
}
use nats_requeue.Republisher.Run.{
  save_run_checkpoint, send, process_queue, publish_messages, record_checkpoint, republish_queue,
}
use nats_requeue.Protocol.{get_queue_name}
use nats_requeue.Republisher.{
  new_run_queue, publish_message, create_entry, set_min_checkpoint, requeue_message_to_disk,
  adj_msg_before_requeue_to_disk, duration_until_expires, Clock,
}
use nats_requeue.QueueKey.Fresh.{last_key}
use nats_requeue.Result.{ok}
use nats_requeue.Republisher.Survival.{Survives}
use nats_requeue.Republisher.Issued.{IsTidy, republish_queue-IsTidy}
use nats_requeue.Republisher.Delivery.{republish_queue_keeps}
use nats_requeue.Tests.Memory.{memory, memory-Lawful}
use nats_requeue.Tests.Kept.{memory-LawfulWrites, memory-span}
use nats_requeue.Tests.Wire.{wire-IsStored, wire, wire-LawfulCodec}
use nats_requeue.Tests.Queues.{here, q, q_name}
use nats_requeue.Tests.Runs.{clock, stored}
use nats_requeue.Key

-- Issued by the instance 77 as its fifth key, for the second 5.
abbrev fifth : Key
fifth = replicate 7 0 ++ 5 ∷ replicate 7 0 ++ 5 ∷ replicate 7 0 ++ 77 ∷ []

abbrev fifth_key : Bytes
fifth_key = b'_' ∷ b'q' ∷ b'.' ∷ b'_' ∷ b'm' ∷ b'.' ∷ b'q' ∷ b'.' ∷ fifth

waiting : memory.Db
unfolding memory
waiting = (
  record { key = fifth_key; value = ok stored; expires_at = 130; is_deleted_or_expired = false }
      ∷ [],
  (tt, tt),
)

abbrev unanswered : QueueItem → Clock × Bool
unanswered qi = (clock, false)

abbrev after_run : memory.Db × Source × Queue
after_run = elim (republish_queue memory wire unanswered waiting here q (pos 9_000_000_000) none) [
  | none ↦ (waiting, here, q)
  | some r ↦ r
]

run_of_waiting :
    republish_queue memory wire unanswered waiting here q (pos 9_000_000_000) none ≡ some after_run
unfolding waiting republish_queue process_queue publish_messages read_from_checkpoint range memory
    has_prefix compare_bytes bytes new_queue_key_for_message prefix_of logged_key split_n cut
    Key.new Key.unix put_uint64 publish_message new_run_queue Key.compare send update_checkpoint
    new_queue_key_for_state record_checkpoint save_run_checkpoint save_checkpoint set_min_checkpoint
    wire is_expired requeue_message_to_disk create_entry adj_msg_before_requeue_to_disk
    duration_until_expires get_queue_name
run_of_waiting = refl

-- Under its key it has 30 seconds left.
lasting :
    (qi : QueueItem)
    → qi.v ≡ stored
    → qi.expires_at ≡ 130
    → Outlives memory-LawfulWrites.span (some (requeue_ttl wire clock qi))
unfolding wire duration_until_expires
lasting qi w x = rw memory-span (
    subst (λ qi. Outlives 0 (some (requeue_ttl wire clock qi)))
      (sym (λ i. record { k = qi.k; v = w i; expires_at = x i })) refl)

republish_queue_keeps_example : Survives wire memory after_run.0 after_run.1 stored
unfolding waiting memory has_prefix last_key wire Key.instance_id Key.seq compare_bytes uint64 bytes
    new_queue_key_for_message find equal_bytes
republish_queue_keeps_example =
    republish_queue_keeps wire wire-LawfulCodec memory memory-Lawful memory-LawfulWrites unanswered
      waiting after_run.0 here after_run.1 q after_run.2 (pos 9_000_000_000) none fifth_key stored
      130 (omega arith) (omega arith) ((λ m i. omega arith), tt) ((λ e. (refl, refl)), tt)
      (q_name, fifth, refl) (wire-IsStored stored) (omega arith)
      (λ qi h w x. (refl, lasting qi w x)) (_, refl, refl) run_of_waiting

republish_queue-IsTidy_example : IsTidy memory after_run.0 after_run.1
unfolding waiting memory has_prefix last_key Key.instance_id Key.seq compare_bytes uint64
republish_queue-IsTidy_example =
    republish_queue-IsTidy wire memory memory-LawfulWrites unanswered memory-Lawful waiting
      after_run.0 here after_run.1 q after_run.2 (pos 9_000_000_000) none (omega arith)
      (omega arith) ((λ m i. omega arith), tt) run_of_waiting
