-- ===== src/Background.antt =====
-- initBackgroundTasks and Close of internal/republisher/republisher.go, internal/statspub/statspub.go
-- and internal/reaper/reaper.go: loops on tickers, a goroutine for each that stops its ticker when
-- `quit` is closed, and Close, which closes `quit` and, but for the reaper's, waits for the loops.
pub mod Closed
pub mod Ending
use nats_requeue.Prelude.{ℕ, Bool, true, false, List, [], ◌∷◌, ◌++◌, ◌≡◌, All, replicate}
use nats_requeue.Ticker
use nats_requeue.Ticker.{Ticker, new_ticker, stop, returned}

-- Close is not called, waits, or has returned.
pub data Closing : Type 0 where
  not_called waiting done : Closing

pub record Tasks : Type 0 where
  pub loops : List Ticker
  pub closing : Closing

-- The republisher has a loop for republish and one for correctCheckpoint, the others have one each.
abbrev pub new_tasks : ℕ → Tasks
new_tasks n = record { loops = replicate n new_ticker; closing = not_called }

abbrev pub has_quit : Closing → Bool
has_quit not_called = false
has_quit _ = true

-- The loops' functions return true whatever happens, so no loop ends by their answer.
abbrev pub KeepsOn : {t u : Ticker} → Ticker.Step t u → Type 0
KeepsOn (Ticker.Step.returned_false a) = ⊥
KeepsOn _ = Unit

-- With `waits`, Close waits until every loop has returned. It is called once; a second call panics.
pub data Step (waits : Bool) (b : Tasks) : Tasks → Type 0 where
  loop :
      (before : List Ticker) (t u : Ticker) (after : List Ticker)
      → b.loops ≡ before ++ t ∷ after
      → (s : Ticker.Step t u) → KeepsOn s
      → Step waits b (record b { loops = before ++ u ∷ after })
  stop_ticker :
      (before : List Ticker) (t : Ticker) (after : List Ticker)
      → b.loops ≡ before ++ t ∷ after
      → has_quit b.closing ≡ true
      → t.quit ≡ false
      → Step waits b (record b { loops = before ++ stop t ∷ after })
  close : b.closing ≡ not_called → Step waits b (record b { closing = waiting })
  waited :
      b.closing ≡ waiting
      → All (λ (t : Ticker). t.place ≡ returned) b.loops
      → waits ≡ true
      → Step waits b (record b { closing = done })
  not_waited : b.closing ≡ waiting → waits ≡ false → Step waits b (record b { closing = done })

pub data Reach (waits : Bool) (b : Tasks) : Tasks → Type 0 where
  here : Reach waits b b
  next : {c d : Tasks} → Reach waits b c → Step waits c d → Reach waits b d
