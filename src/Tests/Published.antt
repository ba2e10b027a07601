-- ===== src/Tests/Published.antt =====
-- The statistics of two queues, one of them with a negative count, published and read again.
use nats_requeue.Prelude.{[], ◌∷◌, ◌≡◌, refl}
use nats_requeue.Prelude.Int.{pos, negsuc}
use nats_requeue.Stats.{queue_stats_message}
use nats_requeue.Queue.{Queue}
use nats_requeue.StatsMsg.{instance_stats_message_from_nats}
use nats_requeue.StatsPublisher.{StatsPublisher, publish}
use nats_requeue.StatsPublisher.Published.{from_nats-publish}
use nats_requeue.Tests.Queues.{q, q_name}
use nats_requeue.Tests.Buffers.{buffers}
use nats_requeue.Tests.BufferLaws.{buffers-Lawful}

abbrev other : Queue
other = record q { stats = record { queue_name = b'r' ∷ []; count = negsuc 4; in_flight = pos 2 } }

abbrev publisher : StatsPublisher
publisher = record { q_manager = (q_name, q) ∷ (b'r' ∷ [], other) ∷ []; instance_id = b'7' ∷ [] }

-- The negative count is published as 0.
clamped : (queue_stats_message other.stats).enqueued ≡ pos 0
unfolding queue_stats_message
clamped = refl

from_nats-publish_example :
    instance_stats_message_from_nats buffers ((publish buffers publisher).1) ≡ record {
      instance_id = b'7' ∷ [];
      queues = queue_stats_message q.stats ∷ queue_stats_message other.stats ∷ [];
    }
from_nats-publish_example = from_nats-publish buffers-Lawful publisher
