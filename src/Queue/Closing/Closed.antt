-- ===== src/Queue/Closing/Closed.antt =====
-- What holds when the Close of a queue has returned.
use nats_requeue.Prelude.{◌⊎◌, inl, inr, true, ◌≡◌, refl, arith}
use nats_requeue.Ticker.{returned}
use nats_requeue.Stats.Closing
use nats_requeue.Stats.Closing.Ended.{IsSound, new_counting-IsSound, Step-IsSound}
use nats_requeue.Queue.Closing.{HasClosed, Closer, new_closer, Step, Reach, closing_stats, closed}

record IsInOrder (q : Closer) : Type 0 where
  sound : IsSound q.stats
  after_writer : q.stage ≡ closing_stats → q.flushed ≡ true
  after_both : q.stage ≡ closed → (q.flushed ≡ true) × HasClosed q.stats

-- The statistics stay closed.
done_stays : (c d : Closing.Counting) → Closing.Step c d → HasClosed c → HasClosed d
done_stays c _ Closing.Step.tick e = e
done_stays c _ (Closing.Step.start_locks a b) e = e
done_stays c _ (Closing.Step.start_done a) e = e
done_stays c _ (Closing.Step.loop_step u o a b) e = e
done_stays c _ (Closing.Step.loop_locks a b) e = e
done_stays c _ (Closing.Step.loop_done a) e = e
done_stays c _ (Closing.Step.first_locks a b) e = e
done_stays c _ (Closing.Step.first_done a) e = e
done_stays c _ (Closing.Step.stop_ticker o a b) e = e
done_stays c _ (Closing.Step.call_close a) e = absurd (ground (arith, a, e))
done_stays c _ (Closing.Step.close_locks a b) e = absurd (ground (arith, a, e))
done_stays c _ (Closing.Step.close_returns_early a b) e = inr refl
done_stays c _ (Closing.Step.close_returns a o b) e = inl refl

Step-IsInOrder : (q r : Closer) → IsInOrder q → Step q r → IsInOrder r
Step-IsInOrder q _ v (Step.call_close a) = record {
  sound = v.sound;
  after_writer = v.after_writer;
  after_both = v.after_both;
}
Step-IsInOrder q _ v (Step.quits a b) = record {
  sound = v.sound;
  after_writer = λ e. ground (arith, e);
  after_both = λ e. ground (arith, e);
}
Step-IsInOrder q _ v (Step.update_locks a) = record {
  sound = v.sound;
  after_writer = v.after_writer;
  after_both = v.after_both;
}
Step-IsInOrder q _ v (Step.update_done a) = record {
  sound = v.sound;
  after_writer = v.after_writer;
  after_both = v.after_both;
}
Step-IsInOrder q _ v (Step.locks a b) = record {
  sound = v.sound;
  after_writer = λ e. ground (arith, e);
  after_both = λ e. ground (arith, e);
}
Step-IsInOrder q _ v (Step.flushes a) = record {
  sound = v.sound;
  after_writer = λ e. refl;
  after_both = λ e. (refl, (v.after_both e).1);
}
Step-IsInOrder q _ v (Step.writer_closed a b) = record {
  sound = v.sound;
  after_writer = λ e. b;
  after_both = λ e. ground (arith, e);
}
Step-IsInOrder q _ v (Step.stats_step u s a) = record {
  sound = Step-IsSound q.stats u v.sound s;
  after_writer = v.after_writer;
  after_both = λ e. ((v.after_both e).0, done_stays q.stats u s ((v.after_both e).1));
}
Step-IsInOrder q _ v (Step.stats_closing u s a) = record {
  sound = Step-IsSound q.stats u v.sound s;
  after_writer = v.after_writer;
  after_both = λ e. ((v.after_both e).0, done_stays q.stats u s ((v.after_both e).1));
}
Step-IsInOrder q _ v (Step.stats_after u s a) = record {
  sound = Step-IsSound q.stats u v.sound s;
  after_writer = v.after_writer;
  after_both = λ e. ((v.after_both e).0, done_stays q.stats u s ((v.after_both e).1));
}
Step-IsInOrder q _ v (Step.stats_closed a b) = record {
  sound = v.sound;
  after_writer = λ e. ground (arith, e);
  after_both = λ e. (v.after_writer a, b);
}

reach-IsInOrder : (q : Closer) → Reach new_closer q → IsInOrder q
reach-IsInOrder _ Reach.here = record {
  sound = new_counting-IsSound;
  after_writer = λ e. ground (arith, e);
  after_both = λ e. ground (arith, e);
}
reach-IsInOrder s (Reach.next {r} p x) = Step-IsInOrder r s (reach-IsInOrder r p) x

-- What the Close of the statistics leaves: their loop has ended, unless it was not registered yet when
-- Close waited.
abbrev pub IsSettled : Closing.Counting → Type 0
IsSettled c = (c.loop.place ≡ returned) ⊎ (c.phase ≡ Closing.done_unwaited)

-- When the Close of a queue has returned, the last flush of its batched writer has ended, and its
-- statistics are settled.
pub closed_in_order :
    (q : Closer) → Reach new_closer q → q.stage ≡ closed → (q.flushed ≡ true) × IsSettled q.stats
closed_in_order q r e =
    let v = reach-IsInOrder q r in
    let (flushed, stats) = v.after_both e in
    (flushed, elim stats [ inl d ↦ inl (v.sound.ended d) | inr u ↦ inr u ])
