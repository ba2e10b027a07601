-- ===== src/StatsPublisher/Options.antt =====
-- internal/statspub/statspub.go: the options, and the part of NewStatsPublisher that applies them.
use nats_requeue.Prelude.{List, Option}
use nats_requeue.Prelude.Int.{ℤ, pos}
use nats_requeue.Result.{Result, ok}
use nats_requeue.Prelude.{◌*◌}
use nats_requeue.Options.{Setter, apply_options, second}

pub record StatsPublisherOptions : Type 0 where
  pub pub_interval : ℤ

unfoldable pub default_stats_publisher_options : StatsPublisherOptions
default_stats_publisher_options = record { pub_interval = pos (5 * second) }

unfoldable pub stats_publish_interval : ℤ → Setter StatsPublisherOptions
stats_publish_interval interval o = ok (record o { pub_interval = interval })

unfoldable pub new_stats_publisher :
    List (Option (Setter StatsPublisherOptions)) → Result StatsPublisherOptions
new_stats_publisher options = apply_options default_stats_publisher_options options
