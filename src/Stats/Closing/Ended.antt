-- ===== src/Stats/Closing/Ended.antt =====
-- When Close of a queue's statistics has returned, the loop has ended, if it was registered to be waited for.
use nats_requeue.Prelude.{◌≡◌, arith}
use nats_requeue.Ticker.{running, returned}
use nats_requeue.Background.Closed.{Step-HasReturned}
use nats_requeue.Stats.Closing.{Counting, new_counting, Step, loop_refresh, done}

pub record IsSound (c : Counting) : Type 0 where
  pub refreshing : c.owner ≡ loop_refresh → c.loop.place ≡ running
  pub ended : c.phase ≡ done → c.loop.place ≡ returned

pub new_counting-IsSound : IsSound new_counting
new_counting-IsSound = record {
  refreshing = λ e. ground (arith, e);
  ended = λ e. ground (arith, e);
}

pub Step-IsSound : (c d : Counting) → IsSound c → Step c d → IsSound d
Step-IsSound c _ v Step.tick = record { refreshing = v.refreshing; ended = v.ended }
Step-IsSound c _ v (Step.loop_step u o a b) = record {
  refreshing = λ e. absurd (a (v.refreshing e));
  ended = λ e. Step-HasReturned c.loop u b (v.ended e);
}
Step-IsSound c _ v (Step.loop_locks a b) = record { refreshing = λ e. a; ended = v.ended }
Step-IsSound c _ v (Step.loop_done a) = record {
  refreshing = λ e. ground (arith, e);
  ended = λ e. ground (arith, v.ended e, v.refreshing a);
}
Step-IsSound c _ v (Step.first_locks a b) = record {
  refreshing = λ e. ground (arith, e);
  ended = v.ended;
}
Step-IsSound c _ v (Step.first_done a) = record {
  refreshing = λ e. ground (arith, e);
  ended = v.ended;
}
Step-IsSound c _ v (Step.call_close a) = record {
  refreshing = v.refreshing;
  ended = λ e. ground (arith, e);
}
Step-IsSound c _ v (Step.close_locks a b) = record {
  refreshing = λ e. ground (arith, e);
  ended = λ e. ground (arith, e);
}
Step-IsSound c _ v (Step.stop_ticker o a b) = record { refreshing = v.refreshing; ended = v.ended }
Step-IsSound c _ v (Step.close_returns a o b) = record {
  refreshing = λ e. ground (arith, e);
  ended = λ e. b;
}
Step-IsSound c _ v (Step.close_returns_early a b) = record {
  refreshing = λ e. ground (arith, e);
  ended = λ e. ground (arith, e);
}
Step-IsSound c _ v (Step.start_locks a b) = record {
  refreshing = λ e. ground (arith, e);
  ended = v.ended;
}
Step-IsSound c _ v (Step.start_done a) = record {
  refreshing = λ e. ground (arith, e);
  ended = v.ended;
}
