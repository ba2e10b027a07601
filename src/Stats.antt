-- ===== src/Stats.antt =====
-- internal/queue/stats.go: the counters of a queue. The counts are int64 and added to atomically;
-- the background task that calls refreshStats on a timer is left to the scheduler.
pub mod Options
pub mod Refresh
pub mod Closing
use nats_requeue.Prelude.{List, [], ◌∷◌, if◌then◌else◌}
use nats_requeue.Prelude.Int.{ℤ, pos, ◌+ℤ◌, ltb_ℤ, u64_of_int, int_of_u64}
use nats_requeue.Bytes.{Bytes}
use nats_requeue.Key.Prefix.{has_prefix}
use nats_requeue.Key.{prefix_of}
use nats_requeue.QueueKey.{bytes, first_message, last_message}
use nats_requeue.Result.{Result, ok, err, empty_queue_name}
use nats_requeue.Store.{Store, Item}

pub record QueueStats : Type 0 where
  pub queue_name : Bytes
  pub count : ℤ
  pub in_flight : ℤ

-- An int64 addition wraps.
unfoldable pub add_int64 : ℤ → ℤ → ℤ
add_int64 a b = int_of_u64 (u64_of_int (a +ℤ b))

unfoldable pub new_queue_stats : Bytes → Result QueueStats
new_queue_stats [] = err empty_queue_name
new_queue_stats (x ∷ name) = ok (record { queue_name = x ∷ name; count = pos 0; in_flight = pos 0 })

unfoldable pub add_count : QueueStats → ℤ → QueueStats
add_count qs num = record qs { count = add_int64 qs.count num }

unfoldable pub add_in_flight : QueueStats → ℤ → QueueStats
add_in_flight qs num = record qs { in_flight = add_int64 qs.in_flight num }

-- The loop of refreshStats: `ValidForPrefix` ends it, and deleted or expired items are passed over.
unfoldable pub count_items : Bytes → List Item → ℤ → ℤ
count_items prefix [] count = count
count_items prefix (item ∷ rest) count =
    let next =
      count_items prefix rest
        (if item.is_deleted_or_expired then count else add_int64 count (pos 1)) in
    if has_prefix prefix item.key then next else count

module _ (s : Store) where
  open s use {Db, items}

  unfoldable pub refresh_stats : Db → QueueStats → QueueStats
  refresh_stats db qs =
      let seek = bytes (first_message qs.queue_name) in
      let prefix = prefix_of seek (bytes (last_message qs.queue_name)) in
      record qs { count = count_items prefix (items db prefix seek) (pos 0) }

pub record QueueStatsMessage : Type 0 where
  pub queue_name : Bytes
  pub enqueued : ℤ
  pub in_flight : ℤ

unfoldable pub queue_stats_message : QueueStats → QueueStatsMessage
queue_stats_message qs = record {
  queue_name = qs.queue_name;
  enqueued = if ltb_ℤ qs.count (pos 0) then pos 0 else qs.count;
  in_flight = qs.in_flight;
}
