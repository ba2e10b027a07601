-- ===== src/Republisher.antt =====
-- internal/republisher/republisher.go: the run that publishes the messages that are due, requeues
-- those that fail, and then saves each queue's checkpoint; and the correction of checkpoints. The
-- workers are sequentialised: a worker's handling of one message is one step, on the state that the
-- worker shares with others (the database, the keys' source, and the run's queue).
pub mod Options
pub mod Message
pub mod Requeue
pub mod Kept
pub mod Effects
pub mod Sends
pub mod Advance
pub mod Survival
pub mod Issued
pub mod Total
pub mod Delivery
pub mod Workers
pub mod Run
pub mod Checkpoint
pub mod Correct
use nats_requeue.Prelude.{
  ℕ, zero, suc, ◌-◌, ◌*◌, Bool, true, false, List, [], ◌∷◌, ◌++◌, Option, none, some, Ordering,
  if◌then◌else◌, not, ltb, leb, ◌==◌,
}
use nats_requeue.Prelude.Int.{ltb_ℤ, ℤ, pos, negsuc, ◌+ℤ◌, ◌-ℤ◌, u64_of_int, int_of_u64}
use nats_requeue.Bytes.{Bytes}
use nats_requeue.Key
use nats_requeue.Key.{Time, Source}
use nats_requeue.QueueKey.{bytes, new_queue_key_for_message}
use nats_requeue.Result.{Error, Result, ok, err, retries_not_mutated, ttl_not_mutated, ◌>>=◌}
use nats_requeue.Store.{Store, Entry}
use nats_requeue.Stats.{add_count, add_in_flight}
use nats_requeue.Queue.{
  Queue, QueueItem, Callback, Ranged, is_expired, read_from_checkpoint, earliest_checkpoint,
  update_checkpoint, update_checkpoint_cond, compare_checkpoint,
}
use nats_requeue.Protocol.{Codec, get_queue_name}

-- A nil checkpoint is the empty byte string, which bytes.Compare does not tell from it.
pub record RunQueue : Type 0 where
  pub q : Queue
  pub min_checkpoint : Bytes

unfoldable pub new_run_queue : Queue → RunQueue
new_run_queue q = record { q = q; min_checkpoint = [] }

unfoldable pub set_min_checkpoint : RunQueue → Bytes → RunQueue
set_min_checkpoint rq c = elim (Key.compare rq.min_checkpoint c) [
  | Ordering.lt ↦ rq
  | _ ↦ record rq { min_checkpoint = c }
]

-- The readings of the clock while a message is handled: the second of IsExpired, the time that the
-- delay counts from, and the time of time.Until.
pub record Clock : Type 0 where
  pub second : ℕ
  pub delay_from : Time
  pub until_from : Time

-- time.Until stops at the least and the greatest duration.
abbrev pub max_duration : ℤ
max_duration = pos 9_223_372_036_854_775_807

abbrev pub min_duration : ℤ
min_duration = negsuc 9_223_372_036_854_775_807

unfoldable pub saturate : ℤ → ℤ
saturate d =
    if ltb_ℤ max_duration d
    then max_duration
    else (if ltb_ℤ d min_duration then min_duration else d)

-- DurationUntilExpires, in nanoseconds.
unfoldable pub duration_until_expires : Time → QueueItem → ℤ
unfolding ◌-ℤ◌ saturate
duration_until_expires now qi = saturate (pos (qi.expires_at * 1_000_000_000) -ℤ now)

-- What a worker shares with others.
pub record Shared (Db : Type 0) : Type 0 where
  pub db : Db
  pub source : Source
  pub rq : RunQueue

module _ (c : Codec) where
  -- The message's bytes after the write in place, of which the queue item and `fb` are both views.
  -- The panic on too few retries is `none`.
  unfoldable pub adj_msg_before_requeue_to_disk : Time → QueueItem → Option (Result Bytes)
  unfolding duration_until_expires
  adj_msg_before_requeue_to_disk now qi =
      let retries = (c.read qi.v).retries in
      if leb retries 1 then none else (elim (c.mutate_retries qi.v (retries - 1)) [
        | none ↦ some (err retries_not_mutated)
        | some v ↦
            if (c.read v).ttl == 0
            then some (ok v)
            else (elim (c.mutate_ttl v (u64_of_int (duration_until_expires now qi))) [
              | none ↦ some (err ttl_not_mutated)
              | some v' ↦ some (ok v')
            ])
      ])

  -- The entry, with the keys' source and the run's queue after it. The key is of the time when the
  -- delay is over.
  unfoldable pub create_entry :
      Clock → Source → RunQueue → QueueItem → Option (Result Entry × Source × RunQueue)
  create_entry clock src rq qi =
      let fb = c.read qi.v in
      let (persist_key, src') = Key.new src (clock.delay_from +ℤ int_of_u64 fb.delay) in
      let qk = new_queue_key_for_message (get_queue_name fb) persist_key in
      elim (adj_msg_before_requeue_to_disk clock.until_from qi) [
        | none ↦ none
        | some (err e) ↦ some (err e, src', rq)
        | some (ok v) ↦ some (
          ok (record { key = bytes qk; value = v; ttl = some (int_of_u64 (c.read v).ttl) }),
          src',
          set_min_checkpoint rq persist_key,
        )
      ]

  module _ (s : Store) where
    open s use {Db, Txn, update, set_entry, delete}

    -- One transaction: the new entry, and the deletion of the old key.
    unfoldable pub requeue_message_to_disk :
        Clock → Shared Db → QueueItem → Option (Result (Unit {0}) × Shared Db)
    unfolding create_entry
    requeue_message_to_disk clock st qi = elim (create_entry clock st.source st.rq qi) [
      | none ↦ none
      | some (err e, src, rq) ↦ some (err e, record st { source = src; rq = rq })
      | some (ok entry, src, rq) ↦
          elim (update st.db (λ txn. set_entry txn entry >>= λ t. delete t qi.k)) [
            | err e ↦ some (err e, record st { source = src; rq = rq })
            | ok db ↦ some (ok tt, record { db = db; source = src; rq = rq })
          ]
    ]

    unfoldable pub remove_message_from_disk : Db → QueueItem → Result Db
    remove_message_from_disk db qi = update db (λ txn. delete txn qi.k)

    abbrev with_stats : Shared Db → (Queue → Queue) → Shared Db
    with_stats st f = record st { rq = record (st.rq) { q = f st.rq.q } }

    -- The counter of requests in flight, up by one for the request and down again after it.
    in_flight : ℤ → Queue → Queue
    in_flight n q = record q { stats = add_in_flight q.stats n }

    count_down : Queue → Queue
    count_down q = record q { stats = add_count q.stats (negsuc 0) }

    -- AddInFlight(1), the request, AddInFlight(-1).
    unfoldable pub count_request : Shared Db → Shared Db
    unfolding in_flight
    count_request st = with_stats (with_stats st (in_flight (pos 1))) (in_flight (negsuc 0))

    -- The message was acknowledged, or has no retries left.
    unfoldable pub finish_message : Shared Db → QueueItem → Shared Db
    unfolding count_down
    finish_message st qi = elim (remove_message_from_disk st.db qi) [
      | err e ↦ st
      | ok db ↦ with_stats (record st { db = db }) count_down
    ]

    -- One message of publishMessages; `acked` is whether the request was answered in time. An error
    -- of the requeueing is logged only. `none` is a panic: the
    -- payload is read for a log line first, and the other fields only when the message is live.
    unfoldable pub publish_message : Clock → Bool → Shared Db → QueueItem → Option (Shared Db)
    unfolding is_expired
    publish_message clock acked st qi =
        if not (c.is_payload_sound qi.v)
        then none
        else (if is_expired clock.second qi
            then some st
            else (if not (c.are_fields_sound qi.v)
                then none
                else (if acked
                    then some (finish_message (count_request st) qi)
                    else (if ltb 1 (c.read qi.v).retries
                        then (elim (requeue_message_to_disk clock (count_request st) qi) [
                          | none ↦ none
                          | some (_, st') ↦ some st'
                        ])
                        else some (finish_message (count_request st) qi)))))
