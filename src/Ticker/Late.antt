-- ===== src/Ticker/Late.antt =====
-- Runs of the function after Stop.
use nats_requeue.Prelude.{◌≤◌, true, false, ◌≡◌, ◌≢◌, refl, arith}
use nats_requeue.Ticker.{selecting, Ticker, Step, stop, Reach}

pub record IsPunctual (t : Ticker) : Type 0 where
  pub on_time : t.quit ≡ false → t.late ≡ 0
  pub once : t.late ≤ 1
  pub spent : t.late ≡ 1 → t.place ≢ selecting

pub Step-IsPunctual : (t u : Ticker) → IsPunctual t → Step t u → IsPunctual u
Step-IsPunctual t _ v Step.tick = record { on_time = v.on_time; once = v.once; spent = v.spent }
Step-IsPunctual t _ v (Step.check_quit a b) = record {
  on_time = v.on_time;
  once = v.once;
  spent = λ e. ground (arith, e);
}
Step-IsPunctual t _ v (Step.check_default a b) = record {
  on_time = v.on_time;
  once = v.once;
  spent = λ e. ground (arith, e, v.on_time b);
}
Step-IsPunctual t _ v (Step.select_quit a b) = record {
  on_time = v.on_time;
  once = v.once;
  spent = λ e. ground (arith, e);
}
Step-IsPunctual t _ v (Step.select_tick a b) = record {
  on_time = λ h. ground (arith, v.on_time, h);
  once = ground (arith, v.spent, v.once);
  spent = λ e. ground (arith, e);
}
Step-IsPunctual t _ v (Step.returned_true a) = record {
  on_time = v.on_time;
  once = v.once;
  spent = λ e. ground (arith, e);
}
Step-IsPunctual t _ v (Step.returned_false a) = record {
  on_time = v.on_time;
  once = v.once;
  spent = λ e. ground (arith, e);
}

pub reach-IsPunctual : (t : Ticker) → Reach t → IsPunctual t
reach-IsPunctual _ Reach.start = record {
  on_time = λ e. refl;
  once = omega arith;
  spent = λ e. ground (arith, e);
}
reach-IsPunctual u (Reach.step {t} r s) = Step-IsPunctual t u (reach-IsPunctual t r) s
reach-IsPunctual _ (Reach.stopped {t} r e) =
    let v = reach-IsPunctual t r in
    record { on_time = λ h. ground (arith, h); once = v.once; spent = v.spent }

-- In every history of ticks, calls and one Stop, at most one call of the function begins after Stop.
pub late-le-one : (t : Ticker) → Reach t → t.late ≤ 1
late-le-one t r = (reach-IsPunctual t r).once

-- One call can: where the loop is at its inner select with a tick pending, Stop can still be followed
-- by a call.
pub late_run :
    (t : Ticker)
    → Reach t
    → t.quit ≡ false
    → t.place ≡ selecting
    → t.pending ≡ true
    → (u : Ticker) × Step (stop t) u × (u.late ≡ 1)
late_run t r q p e =
    let v = reach-IsPunctual t r in (_, Step.select_tick p e, ground (arith, v.on_time q))
