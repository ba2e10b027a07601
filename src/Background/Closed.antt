-- ===== src/Background/Closed.antt =====
-- What holds when Close has returned.
use nats_requeue.Prelude.{All-replace, ℕ, true, ◌≡◌, All, subst, refl, arith}
use nats_requeue.Ticker
use nats_requeue.Ticker.{Ticker, stop, returned}
use nats_requeue.Background.{Tasks, new_tasks, done, Step, Reach}

abbrev HasReturned : Ticker → Type 0
HasReturned t = t.place ≡ returned

-- A loop that has returned takes no step but a tick.
pub Step-HasReturned : (t u : Ticker) → Ticker.Step t u → HasReturned t → HasReturned u
Step-HasReturned t _ Ticker.Step.tick h = h
Step-HasReturned t _ (Ticker.Step.check_quit a b) h = refl
Step-HasReturned t _ (Ticker.Step.check_default a b) h = absurd (ground (arith, a, h))
Step-HasReturned t _ (Ticker.Step.select_quit a b) h = refl
Step-HasReturned t _ (Ticker.Step.select_tick a b) h = absurd (ground (arith, a, h))
Step-HasReturned t _ (Ticker.Step.returned_true a) h = absurd (ground (arith, a, h))
Step-HasReturned t _ (Ticker.Step.returned_false a) h = refl

-- When the Close of the republisher or of the statistics publisher has returned, each of its loops has
-- ended, so none of their functions runs.
pub close_waits :
    (n : ℕ) (b : Tasks)
    → Reach true (new_tasks n) b
    → b.closing ≡ done
    → All (λ (t : Ticker). t.place ≡ returned) b.loops
close_waits n _ Reach.here e = absurd (ground (arith, e))
close_waits n _ (Reach.next {c} r (Step.loop before t u after l s o)) e =
    All-replace HasReturned before t u after (Step-HasReturned t u s)
      (subst (λ ts. All HasReturned ts) l (close_waits n c r e))
close_waits n _ (Reach.next {c} r (Step.stop_ticker before t after l q f)) e =
    All-replace HasReturned before t (stop t) after (λ h. h)
      (subst (λ ts. All HasReturned ts) l (close_waits n c r e))
close_waits n _ (Reach.next r (Step.close h)) e = absurd (ground (arith, e))
close_waits n _ (Reach.next r (Step.waited h all w)) e = all
close_waits n _ (Reach.next r (Step.not_waited h w)) e = absurd (ground (arith, w))
