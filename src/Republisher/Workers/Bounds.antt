-- ===== src/Republisher/Workers/Bounds.antt =====
-- The limit on messages in flight.
use nats_requeue.Prelude.{ℕ, ◌+◌, ◌≤◌, arith}
use nats_requeue.Prelude.Int.{pos}
use nats_requeue.Republisher.Workers.{Pool, new_pool, Step, Steps, here, next}

-- No more workers than the limit were started, and all that are at work are among them.
record IsLimited (limit : ℕ) (p : Pool) : Type 0 where
  pub few : p.running ≤ limit
  pub counted : p.starting + p.idle + p.busy ≤ p.running

Step-IsLimited :
    (limit : ℕ) (p q : Pool) → Step (pos limit) p q → IsLimited limit p → IsLimited limit q
Step-IsLimited limit p _ (Step.hand_over n i a b d) v = ground arith
Step-IsLimited limit p _ (Step.start_worker n a b d e) v = ground arith
Step-IsLimited limit p _ (Step.start_none n a b d e) v = ground arith
Step-IsLimited limit p _ (Step.sent i a b) v = ground arith
Step-IsLimited limit p _ (Step.close_channel a b) v = ground arith
Step-IsLimited limit p _ (Step.worker_ready n a) v = ground arith
Step-IsLimited limit p _ (Step.worker_done n a) v = ground arith
Step-IsLimited limit p _ (Step.worker_ends i a b) v = ground arith
Step-IsLimited limit p _ (Step.all_done a b d e) v = ground arith

steps-IsLimited :
    (limit m n : ℕ) (p : Pool) → Steps (pos limit) (new_pool m) n p → IsLimited limit p
steps-IsLimited limit m n p here = omega arith
steps-IsLimited limit m n p (next {q} r s) =
    Step-IsLimited limit q p s (steps-IsLimited limit m _ q r)

-- With a limit that is not negative, there are never more messages in flight than it allows.
pub busy-le-limit : (limit m n : ℕ) (p : Pool) → Steps (pos limit) (new_pool m) n p → p.busy ≤ limit
busy-le-limit limit m n p r = omega (arith, steps-IsLimited limit m n p r)
