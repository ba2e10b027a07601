-- ===== src/Tests/Pools.antt =====
-- Runs of the worker pool.
use nats_requeue.Prelude.{◌≤◌, ◌*◌, ◌+◌, ◌≡◌, ◌≢◌, ◌⊎◌, refl}
use nats_requeue.Prelude.Int.{pos}
use nats_requeue.Republisher.Workers.{Pool, sending, finished, new_pool, Step, Steps, here, next}
use nats_requeue.Republisher.Workers.Bounds.{busy-le-limit}
use nats_requeue.Republisher.Workers.Ends.{pool_ends}

-- Two messages and a limit of one: the worker that was started has the first, and the second waits.
abbrev one_busy : Pool
one_busy = record {
  place = sending;
  todo = 0;
  running = 1;
  starting = 0;
  idle = 0;
  busy = 1;
  published = 0;
}

one_busy_run : Steps (pos 1) (new_pool 2) 4 one_busy
one_busy_run =
    next
      (next (next (next here (Step.start_worker 1 refl refl refl refl)) (Step.worker_ready 0 refl))
        (Step.sent 0 refl refl))
      (Step.start_none 0 refl refl refl refl)

busy-le-limit_example : one_busy.busy ≤ 1
busy-le-limit_example = busy-le-limit 1 2 4 one_busy one_busy_run

pool_ends_example :
    (4 ≤ 6 * 2 + 2)
    × (((one_busy.place ≡ finished) × (one_busy.published ≡ 2))
        ⊎ ((one_busy.place ≢ finished) × ((q : Pool) × Step (pos 1) one_busy q)))
pool_ends_example = pool_ends (pos 1) 2 4 one_busy refl one_busy_run
