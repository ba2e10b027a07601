-- ===== src/Stats/Closing.antt =====
-- internal/queue/stats.go: Close and the goroutines of NewQueueStats, with the mutex that a refresh,
-- initBackgroundTasks and Close take.
pub mod Blocked
pub mod Ended
use nats_requeue.Prelude.{Bool, true, false, ◌≡◌, ◌≢◌}
use nats_requeue.Ticker
use nats_requeue.Ticker.{Place, Ticker, new_ticker, stop, checking, running, returned}

-- Who holds the mutex `mu`.
pub data Owner : Type 0 where
  nobody first_refresh starting loop_refresh close : Owner

-- The goroutine of NewQueueStats that refreshes once: not yet at the mutex, at its refresh, or done.
pub data First : Type 0 where
  due refreshing over : First

-- Close: not called, at the mutex, at the wait for the loop, or returned, with the loop registered to
-- be waited for or not.
pub data Phase : Type 0 where
  not_called locking waiting done done_unwaited : Phase

abbrev pub quit_closed : Phase → Bool
quit_closed not_called = false
quit_closed locking = false
quit_closed _ = true

-- `started`: initBackgroundTasks, which is a goroutine too, has registered the loop with `doneWg` and
-- started it.
pub record Counting : Type 0 where
  pub started : Bool
  pub loop : Ticker
  pub owner : Owner
  pub first : First
  pub phase : Phase

abbrev pub new_counting : Counting
new_counting = record {
  started = false;
  loop = new_ticker;
  owner = nobody;
  first = due;
  phase = not_called;
}

-- The loop's function is refreshStats, which takes the mutex first and returns true when it is done.
pub data Step (c : Counting) : Counting → Type 0 where
  start_locks :
      c.started ≡ false → c.owner ≡ nobody → Step c (record c { owner = starting; started = true })
  start_done : c.owner ≡ starting → Step c (record c { owner = nobody })
  tick : Step c (record c { loop = record (c.loop) { pending = true } })
  loop_step :
      (u : Ticker)
      → c.started ≡ true
      → c.loop.place ≢ running
      → Ticker.Step c.loop u
      → Step c (record c { loop = u })
  loop_locks :
      c.loop.place ≡ running → c.owner ≡ nobody → Step c (record c { owner = loop_refresh })
  loop_done :
      c.owner ≡ loop_refresh
      → Step c (record c { owner = nobody; loop = record (c.loop) { place = checking } })
  first_locks :
      c.first ≡ due
      → c.owner ≡ nobody
      → Step c (record c { owner = first_refresh; first = refreshing })
  first_done : c.owner ≡ first_refresh → Step c (record c { owner = nobody; first = over })
  call_close : c.phase ≡ not_called → Step c (record c { phase = locking })
  close_locks :
      c.phase ≡ locking → c.owner ≡ nobody → Step c (record c { owner = close; phase = waiting })
  stop_ticker :
      c.started ≡ true
      → quit_closed c.phase ≡ true
      → c.loop.quit ≡ false
      → Step c (record c { loop = stop (c.loop) })
  -- The wait of `doneWg` is over at once where the loop is not registered.
  close_returns_early :
      c.phase ≡ waiting
      → c.started ≡ false
      → Step c (record c { owner = nobody; phase = done_unwaited })
  close_returns :
      c.phase ≡ waiting
      → c.started ≡ true
      → c.loop.place ≡ returned
      → Step c (record c { owner = nobody; phase = done })

pub data Reach (c : Counting) : Counting → Type 0 where
  here : Reach c c
  next : {d e : Counting} → Reach c d → Step d e → Reach c e
