-- ===== src/Queue/Closing.antt =====
-- internal/queue/queue.go: Close, and the goroutine of NewQueue that closes the queue's batched writer
-- and its statistics with the queue's mutex in hand.
pub mod Closed
use nats_requeue.Prelude.{Bool, true, false, ◌≡◌, ◌⊎◌}
use nats_requeue.Stats.Closing
use nats_requeue.Stats.Closing.{Counting, new_counting}

-- The goroutine: waits for `quit`, for the mutex, for the writer, for the statistics, or has closed
-- `done`, for which Close waits.
pub data Stage : Type 0 where
  open_queue locking closing_writer closing_stats closed : Stage

-- The mutex of the queue is held by nobody, an update of the checkpoint, or the goroutine.
pub data Owner : Type 0 where
  nobody updating closing : Owner

-- `called`: Close has closed `quit`. `flushed`: the writer's last flush has ended.
pub record Closer : Type 0 where
  pub stage : Stage
  pub called : Bool
  pub mu : Owner
  pub flushed : Bool
  pub stats : Counting

abbrev pub new_closer : Closer
new_closer = record {
  stage = open_queue;
  called = false;
  mu = nobody;
  flushed = false;
  stats = new_counting;
}

-- The Close of the statistics has returned.
abbrev pub HasClosed : Counting → Type 0
HasClosed c = (c.phase ≡ Closing.done) ⊎ (c.phase ≡ Closing.done_unwaited)

-- The statistics take their steps on their own until the goroutine calls their Close, and when it has
-- returned.
pub data Step (q : Closer) : Closer → Type 0 where
  call_close : q.called ≡ false → Step q (record q { called = true })
  quits : q.stage ≡ open_queue → q.called ≡ true → Step q (record q { stage = locking })
  update_locks : q.mu ≡ nobody → Step q (record q { mu = updating })
  update_done : q.mu ≡ updating → Step q (record q { mu = nobody })
  locks :
      q.stage ≡ locking → q.mu ≡ nobody → Step q (record q { stage = closing_writer; mu = closing })
  flushes : q.stage ≡ closing_writer → Step q (record q { flushed = true })
  writer_closed :
      q.stage ≡ closing_writer → q.flushed ≡ true → Step q (record q { stage = closing_stats })
  stats_step :
      (u : Counting)
      → Closing.Step q.stats u
      → u.phase ≡ Closing.not_called
      → Step q (record q { stats = u })
  stats_closing :
      (u : Counting)
      → Closing.Step q.stats u
      → q.stage ≡ closing_stats
      → Step q (record q { stats = u })
  stats_after :
      (u : Counting) → Closing.Step q.stats u → q.stage ≡ closed → Step q (record q { stats = u })
  stats_closed :
      q.stage ≡ closing_stats
      → HasClosed q.stats
      → Step q (record q { stage = closed; mu = nobody })

pub data Reach (q : Closer) : Closer → Type 0 where
  here : Reach q q
  next : {r s : Closer} → Reach q r → Step r s → Reach q s
