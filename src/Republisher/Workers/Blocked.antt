-- ===== src/Republisher/Workers/Blocked.antt =====
-- A limit that lets shut worker start.
use nats_requeue.Prelude.{ℕ, suc, ◌+◌, ◌<◌, false, ◌≡◌, ◌≢◌, arith}
use nats_requeue.Prelude.Int.{ℤ}
use nats_requeue.Prelude.{◌⊎◌}
use nats_requeue.Republisher.Workers.{
  selecting, sending, finished, Pool, new_pool, may_start, Step, Steps, here, next,
}

-- No worker, and a message that waits for one.
record IsBlocked (p : Pool) : Type 0 where
  pub place : (p.place ≡ selecting) × (0 < p.todo) ⊎ (p.place ≡ sending)
  pub unstarted : p.running ≡ 0
  pub nobody : p.starting + p.idle + p.busy ≡ 0
  pub nothing : p.published ≡ 0

Step-IsBlocked :
    (max_in_flight : ℤ) (p q : Pool)
    → may_start max_in_flight 0 ≡ false
    → Step max_in_flight p q
    → IsBlocked p
    → IsBlocked q
Step-IsBlocked m p _ shut (Step.hand_over n i a b d) v = ground arith
Step-IsBlocked m p _ shut (Step.start_worker n a b d e) v = ground arith
Step-IsBlocked m p _ shut (Step.start_none n a b d e) v = ground arith
Step-IsBlocked m p _ shut (Step.sent i a b) v = ground arith
Step-IsBlocked m p _ shut (Step.close_channel a b) v = ground arith
Step-IsBlocked m p _ shut (Step.worker_ready n a) v = ground arith
Step-IsBlocked m p _ shut (Step.worker_done n a) v = ground arith
Step-IsBlocked m p _ shut (Step.worker_ends i a b) v = ground arith
Step-IsBlocked m p _ shut (Step.all_done a b d e) v = ground arith

steps-IsBlocked :
    (max_in_flight : ℤ) (m n : ℕ) (p : Pool)
    → may_start max_in_flight 0 ≡ false
    → Steps max_in_flight (new_pool (suc m)) n p
    → IsBlocked p
steps-IsBlocked k m n p shut here = ground arith
steps-IsBlocked k m n p shut (next {q} r s) =
    Step-IsBlocked k q p shut s (steps-IsBlocked k m _ q shut r)

-- With a limit of 0, or a negative one other than -1, a run that has a message never publishes one and
-- never finishes.
no_worker_blocks :
    (max_in_flight : ℤ) (m n : ℕ) (p : Pool)
    → may_start max_in_flight 0 ≡ false
    → Steps max_in_flight (new_pool (suc m)) n p
    → (p.published ≡ 0) × (p.place ≢ finished)
no_worker_blocks k m n p shut r =
    let v = steps-IsBlocked k m n p shut r in (v.nothing, λ e. ground (arith, e))
