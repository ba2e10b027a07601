-- ===== src/Manager/Closing.antt =====
-- internal/queue/manager.go: Close, and initBackgroundTasks, whose goroutines close the queues with
-- the manager's mutex in hand and run checkQueueStates, which only logs, on a ticker.
pub mod Closed
pub mod Blocked
use nats_requeue.Prelude.{ℕ, zero, suc, Bool, true, false, List, [], ◌∷◌, ◌++◌, ◌≡◌, All, replicate}
use nats_requeue.Ticker
use nats_requeue.Ticker.{Ticker, new_ticker, stop, returned}
use nats_requeue.Queue.Closing as QueueClosing
use nats_requeue.Queue.Closing.{Closer, new_closer, closed}

-- The goroutine that closes the queues: before the mutex, at its wait for the queues, or past it.
pub data Stage : Type 0 where
  open_manager closing_queues queues_closed : Stage

-- Who holds the mutex for writing: nobody, CreateQueue, or the goroutine, which never frees it.
pub data Owner : Type 0 where
  nobody creating closing : Owner

-- `called`: Close has closed `quit`. `readers`: the methods at work under the read lock. `done`: the
-- channel that is closed when both goroutines have ended. `close_returned`: Close is past its wait.
pub record Managed : Type 0 where
  pub called : Bool
  pub mu : Owner
  pub readers : ℕ
  pub queues : List Closer
  pub stage : Stage
  pub loop : Ticker
  pub done : Bool
  pub close_returned : Bool

abbrev pub new_manager : ℕ → Managed
new_manager n = record {
  called = false;
  mu = nobody;
  readers = 0;
  queues = replicate n new_closer;
  stage = open_manager;
  loop = new_ticker;
  done = false;
  close_returned = false;
}

-- The queues take their steps on their own; their Close is called by the goroutine. Close is called
-- once; a second call panics.
pub data Step (m : Managed) : Managed → Type 0 where
  call_close : m.called ≡ false → Step m (record m { called = true })
  read_locks : m.mu ≡ nobody → Step m (record m { readers = suc m.readers })
  read_done : (n : ℕ) → m.readers ≡ suc n → Step m (record m { readers = n })
  create_locks : m.mu ≡ nobody → m.readers ≡ zero → Step m (record m { mu = creating })
  creates : m.mu ≡ creating → Step m (record m { queues = new_closer ∷ m.queues })
  create_done : m.mu ≡ creating → Step m (record m { mu = nobody })
  locks :
      m.stage ≡ open_manager
      → m.called ≡ true
      → m.mu ≡ nobody
      → m.readers ≡ zero
      → Step m (record m { mu = closing; stage = closing_queues })
  closes_queue :
      (before : List Closer) (c : Closer) (after : List Closer)
      → m.queues ≡ before ++ c ∷ after
      → m.stage ≡ closing_queues
      → c.called ≡ false
      → Step m (record m { queues = before ++ record c { called = true } ∷ after })
  queue_step :
      (before : List Closer) (c d : Closer) (after : List Closer)
      → m.queues ≡ before ++ c ∷ after
      → QueueClosing.Step c d
      → d.called ≡ c.called
      → Step m (record m { queues = before ++ d ∷ after })
  queues_done :
      m.stage ≡ closing_queues
      → All (λ (c : Closer). c.stage ≡ closed) m.queues
      → Step m (record m { stage = queues_closed })
  loop_step : (u : Ticker) → Ticker.Step m.loop u → Step m (record m { loop = u })
  stop_ticker : m.called ≡ true → m.loop.quit ≡ false → Step m (record m { loop = stop (m.loop) })
  closes_done :
      m.stage ≡ queues_closed → m.loop.place ≡ returned → Step m (record m { done = true })
  close_returns : m.called ≡ true → m.done ≡ true → Step m (record m { close_returned = true })

pub data Reach (m : Managed) : Managed → Type 0 where
  here : Reach m m
  next : {n o : Managed} → Reach m n → Step n o → Reach m o
