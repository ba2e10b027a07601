-- ===== src/Ticker.antt =====
-- internal/ticker/ticker.go: Loop, with the ticks of its time.Ticker, whose channel holds one, and Stop.
pub mod Late
use nats_requeue.Prelude.{ℕ, zero, suc, Bool, true, false, ◌≡◌, if◌then◌else◌}

-- Where Loop is: at the outer select, at the inner one, in the function, or past its end.
pub data Place : Type 0 where
  checking selecting running returned : Place

-- `quit`: Stop was called; `pending`: a tick is in the channel. `runs` counts the calls of the function,
-- and `late` those of them that began after Stop.
pub record Ticker : Type 0 where
  pub place : Place
  pub quit : Bool
  pub pending : Bool
  pub runs : ℕ
  pub late : ℕ

abbrev pub new_ticker : Ticker
new_ticker = record { place = checking; quit = false; pending = false; runs = 0; late = 0 }

-- A receive from the closed channel `quit` is always ready, so the outer select takes its default
-- only before Stop; the inner one takes either of its cases where both are ready.
pub data Step (t : Ticker) : Ticker → Type 0 where
  tick : Step t (record t { pending = true })
  check_quit : t.place ≡ checking → t.quit ≡ true → Step t (record t { place = returned })
  check_default : t.place ≡ checking → t.quit ≡ false → Step t (record t { place = selecting })
  select_quit : t.place ≡ selecting → t.quit ≡ true → Step t (record t { place = returned })
  select_tick :
      t.place ≡ selecting
      → t.pending ≡ true
      → Step t (record t {
        place = running;
        pending = false;
        runs = suc t.runs;
        late = if t.quit then suc t.late else t.late;
      })
  returned_true : t.place ≡ running → Step t (record t { place = checking })
  returned_false : t.place ≡ running → Step t (record t { place = returned })

abbrev pub stop : Ticker → Ticker
stop t = record t { quit = true }

-- A second Stop panics.
pub data Reach : Ticker → Type 0 where
  start : Reach new_ticker
  step : {t u : Ticker} → Reach t → Step t u → Reach u
  stopped : {t : Ticker} → Reach t → t.quit ≡ false → Reach (stop t)
