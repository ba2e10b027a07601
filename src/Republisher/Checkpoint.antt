-- ===== src/Republisher/Checkpoint.antt =====
-- The checkpoint that a run saves. A run starts from the nil checkpoint, which is below every key, so
-- setMinCheckpoint never changes it.
use nats_requeue.Prelude.{
  Option-cases, Bool, List, [], ◌∷◌, some, ◌≡◌, inl, inr, arith, Option, ℕ, ◌⊎◌, none,
}
use nats_requeue.Bytes.{Bytes, compare_bytes}
use nats_requeue.Prelude.Int.{◌+ℤ◌, int_of_u64}
use nats_requeue.QueueKey.{logged_key, split_n, cut}
use nats_requeue.Key.{Time, Source}
use nats_requeue.Result.{Result}
use nats_requeue.Store.{Store, Entry}
use nats_requeue.Queue.{Queue, QueueItem, Ranged, read_from_checkpoint, update_checkpoint}
use nats_requeue.Protocol.{Codec}
use nats_requeue.Republisher.{
  count_request, finish_message, RunQueue, Clock, Shared, set_min_checkpoint, publish_message,
  create_entry, requeue_message_to_disk, new_run_queue,
}
use nats_requeue.Republisher.Message.{publish_cases}
use nats_requeue.Republisher.Run.{
  republish_queue, process_queue, save_run_checkpoint, Sent, record_checkpoint, publish_messages,
}
use nats_requeue.Key

-- The run has not moved the queue's minimum off nil, nor touched the queue's own checkpoint.
pub record IsStuck (q : Queue) (rq : RunQueue) : Type 0 where
  pub nil : rq.min_checkpoint ≡ []
  pub same_name : rq.q.name ≡ q.name
  pub same_checkpoint : rq.q.checkpoint ≡ q.checkpoint

set_min_checkpoint-IsStuck :
    (q : Queue) (rq : RunQueue) (c : Bytes) → IsStuck q rq → IsStuck q (set_min_checkpoint rq c)
unfolding set_min_checkpoint Key.compare compare_bytes
set_min_checkpoint-IsStuck q rq [] h = ground arith
set_min_checkpoint-IsStuck q rq (x ∷ c) h = ground arith

record_checkpoint-IsStuck :
    (q : Queue) (rq : RunQueue) (r : Ranged Sent)
    → IsStuck q rq
    → IsStuck q (record_checkpoint rq r)
unfolding record_checkpoint
record_checkpoint-IsStuck q rq r h = ground (arith, set_min_checkpoint-IsStuck q rq r.checkpoint h)

module _ (c : Codec) where
  create_entry-IsStuck :
      (q : Queue) (clock : Clock) (src src' : Source) (rq rq' : RunQueue) (qi : QueueItem)
      (r : Result Entry)
      → IsStuck q rq
      → create_entry c clock src rq qi ≡ some (r, src', rq')
      → IsStuck q rq'
  unfolding create_entry
  create_entry-IsStuck q clock src src' rq rq' qi r h e = ground (
    arith,
    set_min_checkpoint-IsStuck q rq
        (Key.new src (clock.delay_from +ℤ int_of_u64 (c.read qi.v).delay)).0,
  )

  module _ (s : Store) where
    open s use {Db}

    requeue-IsStuck :
        (q : Queue) (clock : Clock) (st st' : Shared Db) (qi : QueueItem) (r : Result (Unit {0}))
        → IsStuck q st.rq
        → requeue_message_to_disk c s clock st qi ≡ some (r, st')
        → IsStuck q st'.rq
    unfolding requeue_message_to_disk
    requeue-IsStuck q clock st st' qi r h e = grind (arith, create_entry-IsStuck q clock st.source)

    count_request-IsStuck :
        (q : Queue) (st : Shared Db) → IsStuck q st.rq → IsStuck q (count_request c s st).rq
    unfolding count_request
    count_request-IsStuck q st h = record {
      nil = h.nil;
      same_name = h.same_name;
      same_checkpoint = h.same_checkpoint;
    }

    finish_message-IsStuck :
        (q : Queue) (st : Shared Db) (qi : QueueItem)
        → IsStuck q st.rq
        → IsStuck q (finish_message c s st qi).rq
    unfolding finish_message
    finish_message-IsStuck q st qi h = ground arith

    publish_message-IsStuck :
        (q : Queue) (clock : Clock) (acked : Bool) (st st' : Shared Db) (qi : QueueItem)
        → IsStuck q st.rq
        → publish_message c s clock acked st qi ≡ some st'
        → IsStuck q st'.rq
    publish_message-IsStuck q clock acked st st' qi h e =
        let counted = count_request-IsStuck q st h in
        elim (publish_cases c s clock acked st st' qi e) [
          | inl (_, same) ↦ rw same h
          | inr (inl (_, _, _, r, requeued)) ↦
              requeue-IsStuck q clock (count_request c s st) st' qi r counted requeued
          | inr (inr (_, _, done)) ↦
              rw done (finish_message-IsStuck q (count_request c s st) qi counted)
        ]

    module _ (env : QueueItem → Clock × Bool) where
      pub publish_messages_cons :
          (st st' : Shared Db) (qi : QueueItem) (qis : List QueueItem)
          → publish_messages s c env st (qi ∷ qis) ≡ some st'
          → (st₁ : Shared Db) × (publish_message c s (env qi).0 (env qi).1 st qi ≡ some st₁)
            × (publish_messages s c env st₁ qis ≡ some st')
      unfolding publish_messages
      publish_messages_cons st st' qi qis e =
          elim (Option-cases (publish_message c s (env qi).0 (env qi).1 st qi)) [
            | inl p ↦ absurd (cc p)
            | inr (st₁, p) ↦ (st₁, p, ground (arith, p))
          ]

      publish_messages-IsStuck :
          (q : Queue) (st st' : Shared Db) (qis : List QueueItem)
          → IsStuck q st.rq
          → publish_messages s c env st qis ≡ some st'
          → IsStuck q st'.rq
      publish_messages-IsStuck q st st' [] h e = unfold publish_messages in ground arith
      publish_messages-IsStuck q st st' (qi ∷ qis) h e =
          let (st₁, p, rest) = publish_messages_cons st st' qi qis e in
          publish_messages-IsStuck q st₁ st' qis
            (publish_message-IsStuck q (env qi).0 (env qi).1 st st₁ qi h p) rest

      process_queue-IsStuck :
          (db : Db) (src src' : Source) (q : Queue) (until : Time) (quit : Option ℕ)
          (items : List QueueItem) (rq : RunQueue)
          → process_queue s db src (new_run_queue q) until quit ≡ some (items, src', rq)
          → IsStuck q rq
      unfolding process_queue new_run_queue
      process_queue-IsStuck db src src' q until quit items rq e =
          grind (arith, record_checkpoint-IsStuck q (record { q = q; min_checkpoint = [] }))

      save-IsStuck :
          (q : Queue) (db : Db) (rq : RunQueue)
          → IsStuck q rq
          → let q' = (save_run_checkpoint s db rq).1 in
            (q'.checkpoint ≡ []) ⊎ (q'.checkpoint ≡ q.checkpoint)
      unfolding save_run_checkpoint update_checkpoint
      save-IsStuck q db rq h = ground arith

      -- A run that ends leaves the queue with the nil checkpoint, or, where that could not be saved,
      -- with the checkpoint that it had: never with that of a message.
      pub republish_queue_checkpoint :
          (db db' : Db) (src src' : Source) (q q' : Queue) (until : Time) (quit : Option ℕ)
          → republish_queue s c env db src q until quit ≡ some (db', src', q')
          → (q'.checkpoint ≡ []) ⊎ (q'.checkpoint ≡ q.checkpoint)
      unfolding republish_queue
      republish_queue_checkpoint db db' src src' q q' until quit e =
          grind (arith, process_queue-IsStuck db src, publish_messages-IsStuck q, save-IsStuck q)

      -- With the nil checkpoint the next run of the queue panics, in any state of the database.
      pub republish_queue_panics :
          (db : Db) (src : Source) (q : Queue) (until : Time) (quit : Option ℕ)
          → q.checkpoint ≡ []
          → republish_queue s c env db src q until quit ≡ none
      unfolding republish_queue read_from_checkpoint logged_key split_n cut new_run_queue
      republish_queue_panics db src q until quit e = rw e
