-- ===== src/Manager/Closing/Closed.antt =====
-- What holds when the Close of the manager has returned.
use nats_requeue.Prelude.{
  ℕ, zero, suc, true, List, ◌∷◌, ◌++◌, ◌≡◌, ◌≢◌, All, All-replace, All-mono, All-and, replicate,
  subst, refl, arith,
}
use nats_requeue.Ticker.{returned}
use nats_requeue.Background.Closed.{Step-HasReturned}
use nats_requeue.Queue.Closing as QueueClosing
use nats_requeue.Queue.Closing.{Closer, new_closer, closed}
use nats_requeue.Queue.Closing.Closed.{closed_in_order, IsSettled}
use nats_requeue.Manager.Closing.{
  Managed, new_manager, Step, Reach, closing, open_manager, queues_closed,
}

abbrev pub IsStarted : Closer → Type 0
IsStarted c = QueueClosing.Reach new_closer c

abbrev IsClosed : Closer → Type 0
IsClosed c = c.stage ≡ closed

pub record IsSound (m : Managed) : Type 0 where
  pub started : All IsStarted m.queues
  pub shut : m.stage ≡ queues_closed → All IsClosed m.queues
  pub holds : m.stage ≢ open_manager → m.mu ≡ closing
  pub ended : m.done ≡ true → (m.stage ≡ queues_closed) × (m.loop.place ≡ returned)
  pub waited : m.close_returned ≡ true → m.done ≡ true

-- A queue that is closed stays closed.
Step-IsClosed : (c d : Closer) → QueueClosing.Step c d → IsClosed c → IsClosed d
Step-IsClosed c _ (QueueClosing.Step.call_close a) e = e
Step-IsClosed c _ (QueueClosing.Step.quits a b) e = absurd (ground (arith, a, e))
Step-IsClosed c _ (QueueClosing.Step.update_locks a) e = e
Step-IsClosed c _ (QueueClosing.Step.update_done a) e = e
Step-IsClosed c _ (QueueClosing.Step.locks a b) e = absurd (ground (arith, a, e))
Step-IsClosed c _ (QueueClosing.Step.flushes a) e = e
Step-IsClosed c _ (QueueClosing.Step.writer_closed a b) e = absurd (ground (arith, a, e))
Step-IsClosed c _ (QueueClosing.Step.stats_step u s a) e = e
Step-IsClosed c _ (QueueClosing.Step.stats_closing u s a) e = e
Step-IsClosed c _ (QueueClosing.Step.stats_after u s a) e = e
Step-IsClosed c _ (QueueClosing.Step.stats_closed a b) e = refl

all_started : (n : ℕ) → All IsStarted (replicate n new_closer)
all_started zero = tt
all_started (suc n) = (QueueClosing.Reach.here, all_started n)

new_manager-IsSound : (n : ℕ) → IsSound (new_manager n)
new_manager-IsSound n = record {
  started = all_started n;
  shut = λ e. absurd (ground (arith, e));
  holds = λ h. absurd (h refl);
  ended = λ e. absurd (ground (arith, e));
  waited = λ e. absurd (ground (arith, e));
}

-- A step of one queue.
moved-IsSound :
    (m : Managed) (before : List Closer) (c d : Closer) (after : List Closer)
    → IsSound m
    → m.queues ≡ before ++ c ∷ after
    → QueueClosing.Step c d
    → IsSound (record m { queues = before ++ d ∷ after })
moved-IsSound m before c d after v e s = record {
  started =
      All-replace IsStarted before c d after (λ r. QueueClosing.Reach.next r s)
        (subst (λ qs. All IsStarted qs) e v.started);
  shut = λ x.
      All-replace IsClosed before c d after (Step-IsClosed c d s)
        (subst (λ qs. All IsClosed qs) e (v.shut x));
  holds = v.holds;
  ended = v.ended;
  waited = v.waited;
}

Step-IsSound : (m n : Managed) → IsSound m → Step m n → IsSound n
Step-IsSound m _ v (Step.call_close a) = record {
  started = v.started;
  shut = v.shut;
  holds = v.holds;
  ended = v.ended;
  waited = v.waited;
}
Step-IsSound m _ v (Step.read_locks a) = record {
  started = v.started;
  shut = v.shut;
  holds = v.holds;
  ended = v.ended;
  waited = v.waited;
}
Step-IsSound m _ v (Step.read_done n a) = record {
  started = v.started;
  shut = v.shut;
  holds = v.holds;
  ended = v.ended;
  waited = v.waited;
}
Step-IsSound m _ v (Step.create_locks a b) = record {
  started = v.started;
  shut = v.shut;
  holds = λ h. ground (arith, v.holds h, a);
  ended = v.ended;
  waited = v.waited;
}
Step-IsSound m _ v (Step.creates a) = record {
  started = (QueueClosing.Reach.here, v.started);
  shut = λ e. absurd (ground (arith, v.holds (λ o. ground (arith, e, o)), a));
  holds = v.holds;
  ended = v.ended;
  waited = v.waited;
}
Step-IsSound m _ v (Step.create_done a) = record {
  started = v.started;
  shut = v.shut;
  holds = λ h. ground (arith, v.holds h, a);
  ended = v.ended;
  waited = v.waited;
}
Step-IsSound m _ v (Step.locks a b c d) = record {
  started = v.started;
  shut = λ e. absurd (ground (arith, e));
  holds = λ h. refl;
  ended = λ e. absurd (ground (arith, (v.ended e).0, a));
  waited = v.waited;
}
Step-IsSound m _ v (Step.closes_queue before c after e s f) =
    moved-IsSound m before c (record c { called = true }) after v e (QueueClosing.Step.call_close f)
Step-IsSound m _ v (Step.queue_step before c d after e s f) = moved-IsSound m before c d after v e s
Step-IsSound m _ v (Step.queues_done a all) = record {
  started = v.started;
  shut = λ e. all;
  holds = λ h. v.holds (λ o. ground (arith, a, o));
  ended = λ e. (refl, (v.ended e).1);
  waited = v.waited;
}
Step-IsSound m _ v (Step.loop_step u s) = record {
  started = v.started;
  shut = v.shut;
  holds = v.holds;
  ended = λ e. ((v.ended e).0, Step-HasReturned m.loop u s ((v.ended e).1));
  waited = v.waited;
}
Step-IsSound m _ v (Step.stop_ticker a b) = record {
  started = v.started;
  shut = v.shut;
  holds = v.holds;
  ended = v.ended;
  waited = v.waited;
}
Step-IsSound m _ v (Step.closes_done a b) = record {
  started = v.started;
  shut = v.shut;
  holds = v.holds;
  ended = λ e. (a, b);
  waited = λ e. refl;
}
Step-IsSound m _ v (Step.close_returns a b) = record {
  started = v.started;
  shut = v.shut;
  holds = v.holds;
  ended = v.ended;
  waited = λ e. b;
}

pub reach_trans : {m n o : Managed} → Reach m n → Reach n o → Reach m o
reach_trans r Reach.here = r
reach_trans r (Reach.next s x) = Reach.next (reach_trans r s) x

pub reach-IsSound : (n : ℕ) (m : Managed) → Reach (new_manager n) m → IsSound m
reach-IsSound n _ Reach.here = new_manager-IsSound n
reach-IsSound n m (Reach.next {n = o} r s) = Step-IsSound o m (reach-IsSound n o r) s

-- When the Close of the manager has returned, each of its queues has made the last flush of its
-- batched writer, the loops of their statistics have ended, but for those that initBackgroundTasks
-- had not started when their Close came, the manager's own loop has ended, and the manager's mutex is still held, so that no method that needs it can go on.
pub all_closed :
    (n : ℕ) (m : Managed)
    → Reach (new_manager n) m
    → m.close_returned ≡ true
    → All (λ (c : Closer). (c.flushed ≡ true) × IsSettled c.stats) m.queues
      × (m.loop.place ≡ returned)
      × (m.mu ≡ closing)
all_closed n m r e =
    let v = reach-IsSound n m r in
    let (shut, loop) = v.ended (v.waited e) in
    (
      All-mono _ _ (λ c h. closed_in_order c h.0 h.1) m.queues
          (All-and IsStarted IsClosed m.queues v.started (v.shut shut)),
      loop,
      v.holds (λ o. ground (arith, shut, o)),
    )
