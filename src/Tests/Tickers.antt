-- ===== src/Tests/Tickers.antt =====
-- Short histories of a ticker, of background tasks and of a queue's statistics.
use nats_requeue.Prelude.{true, false, [], ◌∷◌, ◌≡◌, refl, All}
use nats_requeue.Ticker
use nats_requeue.Ticker.{Ticker, Reach, new_ticker, checking, selecting, running, returned, stop}
use nats_requeue.Background
use nats_requeue.Background.{Tasks, new_tasks, waiting, done}
use nats_requeue.Background.Closed.{close_waits}
use nats_requeue.Background.Ending.{close_can_return}

-- A tick comes, the loop gets to its inner select, Stop is called, and the loop takes the tick.
abbrev late_ticker : Ticker
late_ticker = record { place = running; quit = true; pending = false; runs = 1; late = 1 }

late_history : Reach late_ticker
late_history =
    Reach.step
      (Reach.stopped
        (Reach.step (Reach.step Reach.start Ticker.Step.tick) (Ticker.Step.check_default refl refl))
        refl)
      (Ticker.Step.select_tick refl refl)

abbrev ended : Ticker
ended = record { place = returned; quit = true; pending = false; runs = 0; late = 0 }

closed_history : Background.Reach true (new_tasks 1) (record { loops = ended ∷ []; closing = done })
closed_history =
    Background.Reach.next
      (Background.Reach.next
        (Background.Reach.next
          (Background.Reach.next Background.Reach.here (Background.Step.close refl))
          (Background.Step.stop_ticker [] new_ticker [] refl refl refl))
        (Background.Step.loop [] (stop new_ticker) ended [] refl (Ticker.Step.check_quit refl refl)
          tt))
      (Background.Step.waited refl (refl, tt) refl)

close_waits_example : All (λ (t : Ticker). t.place ≡ returned) (ended ∷ [])
close_waits_example =
    close_waits 1 (record { loops = ended ∷ []; closing = done }) closed_history refl

-- The republisher's Close waits while one loop runs its function and the other is at its start.
abbrev republishing : Tasks
republishing = record { loops = late_ticker ∷ new_ticker ∷ []; closing = waiting }

close_can_return_example : (d : Tasks) × Background.Reach true republishing d × (d.closing ≡ done)
close_can_return_example = close_can_return true republishing refl
