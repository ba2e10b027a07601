-- ===== src/Tests/Counts.antt =====
-- The counters of the queue "q", over a database with two messages.
use nats_requeue.Prelude.{◌<◌, ◌^◌, [], length, filter, ◌≡◌, refl, arith}
use nats_requeue.Prelude.Int.{pos, ◌+ℤ◌}
use nats_requeue.Bytes.{compare_bytes}
use nats_requeue.Key.{prefix_of}
use nats_requeue.Key.Prefix.{has_prefix}
use nats_requeue.QueueKey.{bytes, first_message, last_message, new_queue_key_for_message}
use nats_requeue.Stats.{refresh_stats, count_items, add_int64}
use nats_requeue.Stats.Refresh.{is_counted, count-refresh_stats}
use nats_requeue.Tests.Memory.{memory, memory-Lawful}
use nats_requeue.Tests.Queues.{messages, q, q_name}

few : length (memory.items messages [] []) < 2 ^ 63
unfolding memory messages has_prefix compare_bytes
few = omega arith

-- The refresh runs, and sees both messages.
refresh_runs : (refresh_stats memory messages q.stats).count ≡ pos 2
unfolding refresh_stats memory messages has_prefix compare_bytes bytes first_message last_message
    new_queue_key_for_message prefix_of count_items add_int64 ◌+ℤ◌
refresh_runs = refl

count-refresh_stats_example :
    (refresh_stats memory messages q.stats).count
    ≡ pos (length (filter (is_counted q_name) (memory.items messages [] [])))
count-refresh_stats_example = count-refresh_stats memory memory-Lawful messages q.stats few
