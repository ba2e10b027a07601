-- ===== src/Stats/Closing/Blocked.antt =====
-- Close of a queue's statistics, which waits for a refresh that waits for it.
use nats_requeue.Prelude.{true, false, inl, inr, Bool-cases, ◌≡◌, ◌≢◌, refl, arith}
use nats_requeue.Ticker.{running, checking}
use nats_requeue.Stats.Closing.{
  Counting, new_counting, Step, Reach, loop_refresh, close, waiting, done,
}

-- While Close waits, it holds the mutex.
abbrev pub HoldsMutex : Counting → Type 0
HoldsMutex c = c.phase ≡ waiting → c.owner ≡ close

Step-HoldsMutex : (c d : Counting) → HoldsMutex c → Step c d → HoldsMutex d
Step-HoldsMutex c _ h Step.tick w = h w
Step-HoldsMutex c _ h (Step.loop_step u o a b) w = h w
Step-HoldsMutex c _ h (Step.loop_locks a b) w = ground (arith, h w, b)
Step-HoldsMutex c _ h (Step.loop_done a) w = ground (arith, h w, a)
Step-HoldsMutex c _ h (Step.first_locks a b) w = ground (arith, h w, b)
Step-HoldsMutex c _ h (Step.first_done a) w = ground (arith, h w, a)
Step-HoldsMutex c _ h (Step.call_close a) w = ground (arith, w)
Step-HoldsMutex c _ h (Step.close_locks a b) w = refl
Step-HoldsMutex c _ h (Step.stop_ticker o a b) w = h w
Step-HoldsMutex c _ h (Step.close_returns a o b) w = ground (arith, w)
Step-HoldsMutex c _ h (Step.close_returns_early a b) w = ground (arith, w)
Step-HoldsMutex c _ h (Step.start_locks a b) w = ground (arith, h w, b)
Step-HoldsMutex c _ h (Step.start_done a) w = ground (arith, h w, a)

pub reach-HoldsMutex : (c : Counting) → Reach new_counting c → HoldsMutex c
reach-HoldsMutex _ Reach.here w = ground (arith, w)
reach-HoldsMutex e (Reach.next {d} r s) w = Step-HoldsMutex d e (reach-HoldsMutex d r) s w

-- A loop that has not been started is at its beginning.
abbrev IsIdle : Counting → Type 0
IsIdle c = c.started ≡ false → (c.loop.place ≡ checking) × (c.owner ≢ loop_refresh)

Step-IsIdle : (c d : Counting) → IsIdle c → Step c d → IsIdle d
Step-IsIdle c _ v (Step.start_locks a b) e = ground (arith, e)
Step-IsIdle c _ v (Step.start_done a) e = ((v e).0, λ k. ground (arith, k))
Step-IsIdle c _ v Step.tick e = v e
Step-IsIdle c _ v (Step.loop_step u o a b) e = ground (arith, o, e)
Step-IsIdle c _ v (Step.loop_locks a b) e = absurd (ground (arith, (v e).0, a))
Step-IsIdle c _ v (Step.loop_done a) e = (refl, λ k. ground (arith, k))
Step-IsIdle c _ v (Step.first_locks a b) e = ((v e).0, λ k. ground (arith, k))
Step-IsIdle c _ v (Step.first_done a) e = ((v e).0, λ k. ground (arith, k))
Step-IsIdle c _ v (Step.call_close a) e = v e
Step-IsIdle c _ v (Step.close_locks a b) e = ((v e).0, λ k. ground (arith, k))
Step-IsIdle c _ v (Step.stop_ticker o a b) e = v e
Step-IsIdle c _ v (Step.close_returns_early a b) e = ((v e).0, λ k. ground (arith, k))
Step-IsIdle c _ v (Step.close_returns a o b) e = ground (arith, o, e)

reach-IsIdle : (c : Counting) → Reach new_counting c → IsIdle c
reach-IsIdle _ Reach.here e = (refl, λ k. ground (arith, k))
reach-IsIdle e (Reach.next {d} r s) f = Step-IsIdle d e (reach-IsIdle d r) s f

pub running_started :
    (c : Counting) → Reach new_counting c → c.loop.place ≡ running → c.started ≡ true
running_started c r p = elim (Bool-cases c.started) [
  | inl y ↦ y
  | inr n ↦ absurd (ground (arith, (reach-IsIdle c r n).0, p))
]

-- Close waits with the mutex, and the loop is in its refresh without it.
pub record IsDeadlocked (c : Counting) : Type 0 where
  pub waits : c.phase ≡ waiting
  pub holds : c.owner ≡ close
  pub refreshes : c.loop.place ≡ running
  pub registered : c.started ≡ true

pub Step-IsDeadlocked : (c d : Counting) → IsDeadlocked c → Step c d → IsDeadlocked d
Step-IsDeadlocked c _ v Step.tick = record {
  waits = v.waits;
  holds = v.holds;
  refreshes = v.refreshes;
  registered = v.registered;
}
Step-IsDeadlocked c _ v (Step.loop_step u o a b) = absurd (a v.refreshes)
Step-IsDeadlocked c _ v (Step.loop_locks a b) = absurd (ground (arith, v.holds, b))
Step-IsDeadlocked c _ v (Step.loop_done a) = absurd (ground (arith, v.holds, a))
Step-IsDeadlocked c _ v (Step.first_locks a b) = absurd (ground (arith, v.holds, b))
Step-IsDeadlocked c _ v (Step.first_done a) = absurd (ground (arith, v.holds, a))
Step-IsDeadlocked c _ v (Step.call_close a) = absurd (ground (arith, v.waits, a))
Step-IsDeadlocked c _ v (Step.close_locks a b) = absurd (ground (arith, v.waits, a))
Step-IsDeadlocked c _ v (Step.stop_ticker o a b) = record {
  waits = v.waits;
  holds = v.holds;
  refreshes = v.refreshes;
  registered = v.registered;
}
Step-IsDeadlocked c _ v (Step.close_returns a o b) = absurd (ground (arith, v.refreshes, b))
Step-IsDeadlocked c _ v (Step.close_returns_early a b) = absurd (ground (arith, v.registered, b))
Step-IsDeadlocked c _ v (Step.start_locks a b) = absurd (ground (arith, v.holds, b))
Step-IsDeadlocked c _ v (Step.start_done a) = absurd (ground (arith, v.holds, a))

reach-IsDeadlocked : (c d : Counting) → IsDeadlocked c → Reach c d → IsDeadlocked d
reach-IsDeadlocked c _ v Reach.here = v
reach-IsDeadlocked c e v (Reach.next {d} r s) = Step-IsDeadlocked d e (reach-IsDeadlocked c d v r) s

-- If the loop is in a refresh when Close has come to its wait, then Close never returns, and the
-- refresh never ends: Close holds the mutex for which the refresh waits.
close_deadlocks :
    (c d : Counting)
    → Reach new_counting c
    → c.phase ≡ waiting
    → c.loop.place ≡ running
    → Reach c d
    → (d.phase ≢ done) × (d.loop.place ≡ running)
close_deadlocks c d r w p s =
    let v =
      reach-IsDeadlocked c d
        (record {
          waits = w;
          holds = reach-HoldsMutex c r w;
          refreshes = p;
          registered = running_started c r p;
        })
        s in
    (λ e. absurd (ground (arith, v.waits, e)), v.refreshes)
