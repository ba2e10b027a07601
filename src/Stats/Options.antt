-- ===== src/Stats/Options.antt =====
-- internal/queue/stats.go: the options, and the part of NewQueueStats that checks the name and applies
-- them.
use nats_requeue.Prelude.{List, [], ◌∷◌, Option}
use nats_requeue.Prelude.Int.{ℤ, pos}
use nats_requeue.Bytes.{Bytes}
use nats_requeue.Result.{Result, ok, err, empty_queue_name}
use nats_requeue.Prelude.{◌*◌}
use nats_requeue.Options.{Setter, apply_options, second}

pub record QueueStatsOptions : Type 0 where
  pub refresh_interval : ℤ

unfoldable pub default_queue_stats_options : QueueStatsOptions
default_queue_stats_options = record { refresh_interval = pos (60 * second) }

-- The source calls it ReapInterval.
unfoldable pub refresh_interval : ℤ → Setter QueueStatsOptions
refresh_interval interval o = ok (record o { refresh_interval = interval })

unfoldable pub queue_stats_options :
    Bytes → List (Option (Setter QueueStatsOptions)) → Result QueueStatsOptions
queue_stats_options [] options = err empty_queue_name
queue_stats_options (x ∷ name) options = apply_options default_queue_stats_options options
