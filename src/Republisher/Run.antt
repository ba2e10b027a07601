-- ===== src/Republisher/Run.antt =====
-- The runs of internal/republisher/republisher.go over a queue: processQueue, the workers on what it
-- sends, the saving of the checkpoint, and correctCheckpoint. A run's queues are taken one after the
-- other. `env` gives, for each message, the clock and whether its request was acknowledged.
use nats_requeue.Prelude.{
  ℕ, zero, suc, Bool, true, false, List, [], ◌∷◌, ◌++◌, Option, none, some, Ordering,
}
use nats_requeue.Key.{Time, Source}
use nats_requeue.Result.{Result, ok, err}
use nats_requeue.Store.{Store}
use nats_requeue.Queue.{
  Queue, QueueItem, Callback, Ranged, read_from_checkpoint, earliest_checkpoint, update_checkpoint,
  update_checkpoint_cond, compare_checkpoint,
}
use nats_requeue.Protocol.{Codec}
use nats_requeue.Republisher.{
  RunQueue, Clock, Shared, new_run_queue, set_min_checkpoint, publish_message,
}

-- What processQueue has sent to the workers, and after how many more items `quit` is closed.
pub record Sent : Type 0 where
  pub items : List QueueItem
  pub quit_after : Option ℕ

unfoldable pub send : Callback Sent
send st qi = elim st.quit_after [
  | none ↦ (record st { items = st.items ++ qi ∷ [] }, true)
  | some zero ↦ (st, false)
  | some (suc n) ↦ (record { items = st.items ++ qi ∷ []; quit_after = some n }, true)
]

-- rq.setMinCheckpoint of the range's checkpoint, unless the query failed.
unfoldable pub record_checkpoint : RunQueue → Ranged Sent → RunQueue
unfolding set_min_checkpoint
record_checkpoint rq r = elim r.error [ some e ↦ rq | none ↦ set_min_checkpoint rq r.checkpoint ]

abbrev pub gt : Ordering → Bool
gt Ordering.gt = true
gt _ = false

module _ (s : Store) where
  open s use {Db}

  -- `none` is a panic of ReadFromCheckpoint.
  unfoldable pub process_queue :
      Db → Source → RunQueue → Time → Option ℕ → Option (List QueueItem × Source × RunQueue)
  unfolding record_checkpoint
  process_queue db src rq until quit =
      let (ranged, src') =
        read_from_checkpoint s db src rq.q until send (record { items = []; quit_after = quit }) in
      elim ranged [ none ↦ none | some r ↦ some (r.state.items, src', record_checkpoint rq r) ]

  -- saveCheckpoint; its error is logged only.
  unfoldable pub save_run_checkpoint : Db → RunQueue → Db × Queue
  save_run_checkpoint db rq = elim (update_checkpoint s db rq.q rq.min_checkpoint) [
    | err e ↦ (db, rq.q)
    | ok (db', q') ↦ (db', q')
  ]

  -- The condition is that the queue's checkpoint is greater than the one found.
  unfoldable pub correct_checkpoint :
      Db → Source → Queue → Time → Option (Result (Db × Queue) × Source)
  correct_checkpoint db src q until =
      let (earliest, src') = earliest_checkpoint s db src q until in
      elim earliest [
        | none ↦ none
        | some r ↦ elim r.error [
          | some e ↦ some (err e, src')
          | none ↦ some (
            update_checkpoint_cond s db q r.checkpoint
                (some (λ cp. gt (compare_checkpoint q r.checkpoint))),
            src',
          )
        ]
      ]

  module _ (c : Codec) (env : QueueItem → Clock × Bool) where
    unfoldable pub publish_messages : Shared Db → List QueueItem → Option (Shared Db)
    publish_messages st [] = some st
    publish_messages st (qi ∷ rest) = elim (publish_message c s (env qi).0 (env qi).1 st qi) [
      | none ↦ none
      | some st' ↦ publish_messages st' rest
    ]

    unfoldable pub republish_queue :
        Db → Source → Queue → Time → Option ℕ → Option (Db × Source × Queue)
    unfolding process_queue save_run_checkpoint publish_messages
    republish_queue db src q until quit = elim (process_queue db src (new_run_queue q) until quit) [
      | none ↦ none
      | some (items, src', rq) ↦
          elim (publish_messages (record { db = db; source = src'; rq = rq }) items) [
            | none ↦ none
            | some st ↦ let (db', q') = save_run_checkpoint st.db st.rq in some (db', st.source, q')
          ]
    ]

    -- republish, over the manager's snapshot of the queues.
    unfoldable pub republish :
        Db → Source → List Queue → Time → Option ℕ → Option (Db × Source × List Queue)
    unfolding republish_queue
    republish db src [] until quit = some (db, src, [])
    republish db src (q ∷ qs) until quit = elim (republish_queue db src q until quit) [
      | none ↦ none
      | some (db', src', q') ↦ elim (republish db' src' qs until quit) [
        | none ↦ none
        | some (db'', src'', qs') ↦ some (db'', src'', q' ∷ qs')
      ]
    ]
