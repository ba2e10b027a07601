-- ===== src/Republisher/Workers.antt =====
-- The worker pool of `republish` in internal/republisher/republisher.go: the loop over writeCh, which
-- hands each message to a waiting worker or starts a new one, and the workers of publishMessages.
-- The channels have no buffer, and all take their steps in any order.
pub mod Bounds
pub mod Ends
pub mod Blocked
use nats_requeue.Prelude.{ℕ, zero, suc, ◌+◌, Bool, true, false, ◌≡◌, ◌||◌}
use nats_requeue.Prelude.Int.{ℤ, pos, negsuc, ltb_ℤ}

-- Where the loop is: at the select, at the send behind it, at pubWg.Wait, or past it.
pub data Place : Type 0 where
  selecting sending waiting finished : Place

-- `todo` messages are still to come from writeCh; `running` is the counter of workers started, of
-- which some have not yet come to their channel, some wait there, some publish, and some have ended.
-- `published` counts the messages that a worker is done with.
pub record Pool : Type 0 where
  pub place : Place
  pub todo : ℕ
  pub running : ℕ
  pub starting : ℕ
  pub idle : ℕ
  pub busy : ℕ
  pub published : ℕ

abbrev pub new_pool : ℕ → Pool
new_pool todo = record {
  place = selecting;
  todo = todo;
  running = 0;
  starting = 0;
  idle = 0;
  busy = 0;
  published = 0;
}

-- concurrency == -1 || running < concurrency
abbrev pub may_start : ℤ → ℕ → Bool
may_start (pos n) running = ltb_ℤ (pos running) (pos n)
may_start (negsuc zero) running = true
may_start (negsuc (suc n)) running = false

-- A step, with opts.maxInFlight.
pub data Step (max_in_flight : ℤ) (p : Pool) : Pool → Type 0 where
  hand_over :
      (n i : ℕ)
      → p.place ≡ selecting
      → p.todo ≡ suc n
      → p.idle ≡ suc i
      → Step max_in_flight p (record p { todo = n; idle = i; busy = suc p.busy })
  -- The default case of the select: no worker waits.
  start_worker :
      (n : ℕ)
      → p.place ≡ selecting
      → p.todo ≡ suc n
      → p.idle ≡ 0
      → may_start max_in_flight p.running ≡ true
      → Step max_in_flight p (record p {
        place = sending;
        todo = n;
        running = suc p.running;
        starting = suc p.starting;
      })
  start_none :
      (n : ℕ)
      → p.place ≡ selecting
      → p.todo ≡ suc n
      → p.idle ≡ 0
      → may_start max_in_flight p.running ≡ false
      → Step max_in_flight p (record p { place = sending; todo = n })
  sent :
      (i : ℕ)
      → p.place ≡ sending
      → p.idle ≡ suc i
      → Step max_in_flight p (record p { place = selecting; idle = i; busy = suc p.busy })
  close_channel :
      p.place ≡ selecting → p.todo ≡ 0 → Step max_in_flight p (record p { place = waiting })
  worker_ready :
      (n : ℕ)
      → p.starting ≡ suc n
      → Step max_in_flight p (record p { starting = n; idle = suc p.idle })
  worker_done :
      (n : ℕ)
      → p.busy ≡ suc n
      → Step max_in_flight p (record p { busy = n; idle = suc p.idle; published = suc p.published })
  worker_ends :
      (i : ℕ) → p.place ≡ waiting → p.idle ≡ suc i → Step max_in_flight p (record p { idle = i })
  all_done :
      p.place ≡ waiting
      → p.starting ≡ 0
      → p.idle ≡ 0
      → p.busy ≡ 0
      → Step max_in_flight p (record p { place = finished })

-- A run of so many steps.
pub data Steps (max_in_flight : ℤ) (p : Pool) : ℕ → Pool → Type 0 where
  here : Steps max_in_flight p 0 p
  next :
      {n : ℕ} {q r : Pool}
      → Steps max_in_flight p n q
      → Step max_in_flight q r
      → Steps max_in_flight p (suc n) r
