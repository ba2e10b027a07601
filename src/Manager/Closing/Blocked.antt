-- ===== src/Manager/Closing/Blocked.antt =====
-- The Close of the manager while a queue of it cannot be closed.
use nats_requeue.Prelude.{
  Bool-cases, All-at, ℕ, true, false, List, [], ◌∷◌, ◌++◌, ◌≡◌, ◌⊎◌, inl, inr, All, subst, sym,
  arith,
}
use nats_requeue.Ticker.{running}
use nats_requeue.Stats.Closing as StatsClosing
use nats_requeue.Stats.Closing.{Counting, new_counting, waiting}
use nats_requeue.Stats.Closing.Blocked.{
  IsDeadlocked, Step-IsDeadlocked, reach-HoldsMutex, running_started,
}
use nats_requeue.Manager.Closing.Closed.{reach_trans, reach-IsSound, IsStarted}
use nats_requeue.Queue.Closing as QueueClosing
use nats_requeue.Queue.Closing.{Closer, new_closer, closed, closing_stats}
use nats_requeue.Manager.Closing.{Managed, new_manager, Step, Reach, closing_queues, closing}

-- The goroutine of the queue waits for the Close of the statistics, which is in its deadlock.
record IsJammed (c : Closer) : Type 0 where
  at_stats : c.stage ≡ closing_stats
  deadlocked : IsDeadlocked c.stats

Step-IsJammed : (c d : Closer) → QueueClosing.Step c d → IsJammed c → IsJammed d
Step-IsJammed c _ (QueueClosing.Step.call_close a) v = record {
  at_stats = v.at_stats;
  deadlocked = v.deadlocked;
}
Step-IsJammed c _ (QueueClosing.Step.quits a b) v = absurd (ground (arith, a, v.at_stats))
Step-IsJammed c _ (QueueClosing.Step.update_locks a) v = record {
  at_stats = v.at_stats;
  deadlocked = v.deadlocked;
}
Step-IsJammed c _ (QueueClosing.Step.update_done a) v = record {
  at_stats = v.at_stats;
  deadlocked = v.deadlocked;
}
Step-IsJammed c _ (QueueClosing.Step.locks a b) v = absurd (ground (arith, a, v.at_stats))
Step-IsJammed c _ (QueueClosing.Step.flushes a) v = record {
  at_stats = v.at_stats;
  deadlocked = v.deadlocked;
}
Step-IsJammed c _ (QueueClosing.Step.writer_closed a b) v = absurd (ground (arith, a, v.at_stats))
Step-IsJammed c _ (QueueClosing.Step.stats_step u s a) v = record {
  at_stats = v.at_stats;
  deadlocked = Step-IsDeadlocked c.stats u v.deadlocked s;
}
Step-IsJammed c _ (QueueClosing.Step.stats_closing u s a) v = record {
  at_stats = v.at_stats;
  deadlocked = Step-IsDeadlocked c.stats u v.deadlocked s;
}
Step-IsJammed c _ (QueueClosing.Step.stats_after u s a) v = absurd (ground (arith, a, v.at_stats))
Step-IsJammed c _ (QueueClosing.Step.stats_closed a b) v =
    absurd (ground (arith, v.deadlocked.waits, b))

-- Some queue of the list is jammed.
abbrev HasJammed : List Closer → Type 0
HasJammed [] = ⊥
HasJammed (c ∷ cs) = IsJammed c ⊎ HasJammed cs

HasJammed-replace :
    (before : List Closer) (c d : Closer) (after : List Closer)
    → QueueClosing.Step c d
    → HasJammed (before ++ c ∷ after)
    → HasJammed (before ++ d ∷ after)
HasJammed-replace [] c d after s (inl v) = inl (Step-IsJammed c d s v)
HasJammed-replace [] c d after s (inr v) = inr v
HasJammed-replace (x ∷ before) c d after s (inl v) = inl v
HasJammed-replace (x ∷ before) c d after s (inr v) = inr (HasJammed-replace before c d after s v)

not_all_closed : (cs : List Closer) → HasJammed cs → All (λ (c : Closer). c.stage ≡ closed) cs → ⊥
not_all_closed [] v all = v
not_all_closed (c ∷ cs) (inl v) (e, all) = ground (arith, v.at_stats, e)
not_all_closed (c ∷ cs) (inr v) (e, all) = not_all_closed cs v all

-- The goroutine of the manager waits for the queues.
record IsBlocked (m : Managed) : Type 0 where
  jammed : HasJammed m.queues
  waits : m.stage ≡ closing_queues
  not_done : m.done ≡ false
  not_returned : m.close_returned ≡ false

Step-IsBlocked : (m n : Managed) → IsBlocked m → Step m n → IsBlocked n
Step-IsBlocked m _ v (Step.call_close a) = record {
  jammed = v.jammed;
  waits = v.waits;
  not_done = v.not_done;
  not_returned = v.not_returned;
}
Step-IsBlocked m _ v (Step.read_locks a) = record {
  jammed = v.jammed;
  waits = v.waits;
  not_done = v.not_done;
  not_returned = v.not_returned;
}
Step-IsBlocked m _ v (Step.read_done n a) = record {
  jammed = v.jammed;
  waits = v.waits;
  not_done = v.not_done;
  not_returned = v.not_returned;
}
Step-IsBlocked m _ v (Step.create_locks a b) = record {
  jammed = v.jammed;
  waits = v.waits;
  not_done = v.not_done;
  not_returned = v.not_returned;
}
Step-IsBlocked m _ v (Step.creates a) = record {
  jammed = inr v.jammed;
  waits = v.waits;
  not_done = v.not_done;
  not_returned = v.not_returned;
}
Step-IsBlocked m _ v (Step.create_done a) = record {
  jammed = v.jammed;
  waits = v.waits;
  not_done = v.not_done;
  not_returned = v.not_returned;
}
Step-IsBlocked m _ v (Step.locks a b c d) = absurd (ground (arith, v.waits, a))
Step-IsBlocked m _ v (Step.closes_queue before c after e s f) = record {
  jammed =
      HasJammed-replace before c (record c { called = true }) after (QueueClosing.Step.call_close f)
        (subst HasJammed e v.jammed);
  waits = v.waits;
  not_done = v.not_done;
  not_returned = v.not_returned;
}
Step-IsBlocked m _ v (Step.queue_step before c d after e s f) = record {
  jammed = HasJammed-replace before c d after s (subst HasJammed e v.jammed);
  waits = v.waits;
  not_done = v.not_done;
  not_returned = v.not_returned;
}
Step-IsBlocked m _ v (Step.queues_done a all) = absurd (not_all_closed m.queues v.jammed all)
Step-IsBlocked m _ v (Step.loop_step u s) = record {
  jammed = v.jammed;
  waits = v.waits;
  not_done = v.not_done;
  not_returned = v.not_returned;
}
Step-IsBlocked m _ v (Step.stop_ticker a b) = record {
  jammed = v.jammed;
  waits = v.waits;
  not_done = v.not_done;
  not_returned = v.not_returned;
}
Step-IsBlocked m _ v (Step.closes_done a b) = absurd (ground (arith, v.waits, a))
Step-IsBlocked m _ v (Step.close_returns a b) = absurd (ground (arith, v.not_done, b))

reach-IsBlocked : (m n : Managed) → IsBlocked m → Reach m n → IsBlocked n
reach-IsBlocked m _ v Reach.here = v
reach-IsBlocked m n v (Reach.next {n = o} r s) = Step-IsBlocked o n (reach-IsBlocked m o v r) s

-- What the statistics of a queue have gone through.
stats_reached :
    (c : Closer) → QueueClosing.Reach new_closer c → StatsClosing.Reach new_counting c.stats
stats_reached _ QueueClosing.Reach.here = StatsClosing.Reach.here
stats_reached d (QueueClosing.Reach.next {r = c} r (QueueClosing.Step.stats_step u s a)) =
    StatsClosing.Reach.next (stats_reached c r) s
stats_reached d (QueueClosing.Reach.next {r = c} r (QueueClosing.Step.stats_after u s a)) =
    StatsClosing.Reach.next (stats_reached c r) s
stats_reached d (QueueClosing.Reach.next {r = c} r (QueueClosing.Step.stats_closing u s a)) =
    StatsClosing.Reach.next (stats_reached c r) s
stats_reached d (QueueClosing.Reach.next {r = c} r (QueueClosing.Step.call_close a)) =
    stats_reached c r
stats_reached d (QueueClosing.Reach.next {r = c} r (QueueClosing.Step.quits a b)) =
    stats_reached c r
stats_reached d (QueueClosing.Reach.next {r = c} r (QueueClosing.Step.update_locks a)) =
    stats_reached c r
stats_reached d (QueueClosing.Reach.next {r = c} r (QueueClosing.Step.update_done a)) =
    stats_reached c r
stats_reached d (QueueClosing.Reach.next {r = c} r (QueueClosing.Step.locks a b)) =
    stats_reached c r
stats_reached d (QueueClosing.Reach.next {r = c} r (QueueClosing.Step.flushes a)) =
    stats_reached c r
stats_reached d (QueueClosing.Reach.next {r = c} r (QueueClosing.Step.writer_closed a b)) =
    stats_reached c r
stats_reached d (QueueClosing.Reach.next {r = c} r (QueueClosing.Step.stats_closed a b)) =
    stats_reached c r

jammed_among :
    (before : List Closer) (c : Closer) (after : List Closer)
    → IsJammed c
    → HasJammed (before ++ c ∷ after)
jammed_among [] c after v = inl v
jammed_among (x ∷ before) c after v = inr (jammed_among before c after v)

-- If, when the goroutine of the manager waits for its queues, the Close of the statistics of one
-- queue has come to its wait while their loop is in a refresh, then the Close of the manager never
-- returns, and the manager's mutex is never freed.
pub close_never_returns :
    (n : ℕ) (m o : Managed) (before : List Closer) (c : Closer) (after : List Closer)
    → Reach (new_manager n) m
    → m.queues ≡ before ++ c ∷ after
    → m.stage ≡ closing_queues
    → c.stage ≡ closing_stats
    → c.stats.phase ≡ waiting
    → c.stats.loop.place ≡ running
    → Reach m o
    → (o.close_returned ≡ false) × (o.mu ≡ closing)
close_never_returns n m o before c after r e w s p l t =
    let v = reach-IsSound n m r in
    let started = All-at IsStarted before c after (subst (λ qs. All IsStarted qs) e v.started) in
    let jam : IsJammed c = record {
      at_stats = s;
      deadlocked = record {
        waits = p;
        holds = reach-HoldsMutex c.stats (stats_reached c started) p;
        refreshes = l;
        registered = running_started c.stats (stats_reached c started) l;
      };
    } in
    let blocked =
      reach-IsBlocked m o
        (record {
          jammed = subst HasJammed (sym e) (jammed_among before c after jam);
          waits = w;
          not_done = elim (Bool-cases m.done) [
            | inr f ↦ f
            | inl d ↦ absurd (ground (arith, (v.ended d).0, w))
          ];
          not_returned = elim (Bool-cases m.close_returned) [
            | inr f ↦ f
            | inl d ↦ absurd (ground (arith, (v.ended (v.waited d)).0, w))
          ];
        })
        t in
    (
      blocked.not_returned,
      (reach-IsSound n o (reach_trans r t)).holds (λ x. ground (arith, blocked.waits, x)),
    )
