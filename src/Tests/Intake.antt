-- ===== src/Tests/Intake.antt =====
-- A message that comes in for the queue "q", which is created for it.
use nats_requeue.Prelude.{false, List, [], ◌∷◌, some, none, true, false}
use nats_requeue.Prelude.Int.{pos}
use nats_requeue.Bytes.{Bytes}
use nats_requeue.Key
use nats_requeue.Key.{Key}
use nats_requeue.QueueKey.{bytes, new_queue_key_for_message}
use nats_requeue.Queue
use nats_requeue.Queue.{Queue}
use mathlib.Core.List.Perm
use mathlib.Core.List.{Perm}
use nats_requeue.Batched.{BatchedWriter}
use nats_requeue.Batched.Flushing
use nats_requeue.Ingress.{Intake, Replies}
use nats_requeue.Tests.Memory.{memory}
use nats_requeue.Tests.Queues.{here, q, q_name, vacant, stateful}

abbrev started : Intake (memory.Db) (List Bytes)
started = record { db = vacant; source = here; queues = []; writers = [] }

-- The delay of the message is five seconds, so its key is of second 105.
abbrev its_key : Bytes
its_key = bytes (new_queue_key_for_message q_name (Key.new here (pos 105_000_000_000)).0)

abbrev waiting : BatchedWriter (List Bytes)
waiting = record {
  wb = some (record {
    txn = its_key ∷ [];
    error = none;
    handlers = some 4 ∷ [];
    pending = [];
    fired = [];
  });
  flush_kicked = true;
  timers = 1;
  locked = false;
  fired = [];
}

abbrev taken_in : Intake (memory.Db) (List Bytes)
taken_in = record {
  db = stateful;
  source = record here { seq = 7 };
  queues = (q_name, q) ∷ [];
  writers = (q_name, waiting) ∷ [];
}

abbrev no_replies : Replies
no_replies = record { stats = q.stats; acked = [] }
