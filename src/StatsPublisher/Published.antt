-- ===== src/StatsPublisher/Published.antt =====
-- What a subscriber learns from a publication.
use nats_requeue.Prelude.{◌≡◌, refl, ap, ◌∷◌, [], map}
use nats_requeue.Bytes.{Bytes}
use nats_requeue.Stats.{queue_stats_message}
use nats_requeue.Queue.{Queue}
use nats_requeue.Flatbuffers.{Flatbuffers}
use nats_requeue.Flatbuffers.Laws.{Lawful}
use nats_requeue.StatsMsg.{instance_stats_message_from_nats}
use nats_requeue.StatsMsg.RoundTrip.{from_nats-bytes}
use nats_requeue.StatsPublisher.{StatsPublisher, publish, collect_stats}
use nats_requeue.Manager.{Queues, queues_snapshot}

collect_snapshot :
    (queues : Queues)
    → collect_stats (queues_snapshot queues)
      ≡ map (λ (e : Bytes × Queue). queue_stats_message (e.1.stats)) queues
unfolding collect_stats queues_snapshot
collect_snapshot [] = refl
collect_snapshot (e ∷ queues) =
    ap (λ l. queue_stats_message (e.1.stats) ∷ l) (collect_snapshot queues)

-- For any library that meets its laws: what a subscriber of the statistics reads of a publication is
-- the publisher's identity and one entry for each queue of the manager, in the order of its map: the
-- queue's name, its count, or 0 where the count is negative, and the number of requests in flight.
pub from_nats-publish :
    {f : Flatbuffers} (laws : Lawful f) (sp : StatsPublisher)
    → instance_stats_message_from_nats f ((publish f sp).1) ≡ record {
      instance_id = sp.instance_id;
      queues = map (λ (e : Bytes × Queue). queue_stats_message (e.1.stats)) sp.q_manager;
    }
unfolding publish
from_nats-publish laws sp = rw (from_nats-bytes laws _, collect_snapshot sp.q_manager) refl
