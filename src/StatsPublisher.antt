-- ===== src/StatsPublisher.antt =====
-- internal/statspub/statspub.go: publish, which the ticker calls. The connection to NATS gets the
-- subject and the data; an error of its Publish is logged and dropped.
pub mod Options
pub mod Published
use nats_requeue.Prelude.{List, [], ◌∷◌, map}
use nats_requeue.Bytes.{Bytes}
use nats_requeue.Stats.{QueueStatsMessage, queue_stats_message}
use nats_requeue.Queue.{Queue}
use nats_requeue.Manager.{Queues, queues_snapshot}
use nats_requeue.Flatbuffers.{Flatbuffers}
use nats_requeue.StatsMsg.{InstanceStatsMessage, instance_bytes}

-- "_requeue._stats"
abbrev pub stats_subject : Bytes
stats_subject =
    b'_' ∷ b'r' ∷ b'e' ∷ b'q' ∷ b'u' ∷ b'e' ∷ b'u' ∷ b'e' ∷ b'.' ∷ b'_' ∷ b's' ∷ b't' ∷ b'a' ∷ b't'
    ∷ b's' ∷ []

pub record StatsPublisher : Type 0 where
  pub q_manager : Queues
  pub instance_id : Bytes

-- The loop over the queues.
unfoldable pub collect_stats : List Queue → List QueueStatsMessage
collect_stats queues = map (λ (q : Queue). queue_stats_message q.stats) queues

module _ (f : Flatbuffers) where
  unfoldable pub publish : StatsPublisher → Bytes × f.Buffer
  publish sp =
      let ism : InstanceStatsMessage = record {
        instance_id = sp.instance_id;
        queues = collect_stats (queues_snapshot sp.q_manager);
      } in
      (stats_subject, instance_bytes f ism)
