-- ===== src/Queue/Checkpoints.antt =====
-- EarliestCheckpoint and the updates of a queue's checkpoint.
use nats_requeue.Prelude.{List, [], ◌∷◌}
use nats_requeue.Bytes.{Bytes}
use nats_requeue.Key
use nats_requeue.Key.{prefix_of}
use nats_requeue.QueueKey.{QueueKey}
use nats_requeue.Result.{Result}
use nats_requeue.Store.{Store}
use nats_requeue.Queue.{Queue, QueueItem}

-- The first key of a list of queue items, or a default.
abbrev pub first_key : List QueueItem → Bytes → Bytes
first_key [] d = d
first_key (qi ∷ qis) d = qi.k
