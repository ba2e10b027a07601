-- ===== src/Conn.antt =====
-- requeue.go: the start of a connection in Connect, its parts' goroutines, the messages that arrive,
-- and Close. Each of these is at some place of its code, and they take their steps in any order.
pub mod Options
pub mod Order
pub mod Stuck
use nats_requeue.Prelude.{ℕ, zero, suc, ◌≤◌, Bool, true, false, ◌≡◌, ◌≢◌}

-- A part that a closer stands for: not started, started, or ended.
pub data Service : Type 0 where
  absent running stopped : Service

-- Which of its init functions Connect calls next, or how it ended.
pub data Stage : Type 0 where
  badger nats consumers producers reaper connected failed : Stage

-- Where Close is: not called, at the wait for one of the closers, or returned.
pub data Phase : Type 0 where
  not_called at_producers at_nats at_consumers at_reaper at_badger closed : Phase

abbrev pub rank : Phase → ℕ
rank not_called = 0
rank at_producers = 1
rank at_nats = 2
rank at_consumers = 3
rank at_reaper = 4
rank at_badger = 5
rank closed = 6

-- DefaultNumConcurrentBatchTransactions
abbrev pub num_consumers : ℕ
num_consumers = 4

-- The state of a connection. `producers` is the goroutine that closes the republisher and the queue
-- manager; `waiting` consumers wait for a message, `stuck` ones for the manager's mutex, which the
-- manager's closing has locked for good. `crashed`: a goroutine has panicked. `early`: Close was
-- called before Connect had ended, which only a NATS connection that is closed for good does.
pub record Conn : Type 0 where
  pub stage : Stage
  pub phase : Phase
  pub badger_db : Service
  pub nats_conn : Service
  pub producing : Service
  pub manager : Service
  pub reaping : Service
  pub waiting : ℕ
  pub stuck : ℕ
  pub crashed : Bool
  pub early : Bool

abbrev pub new_conn : Conn
new_conn = record {
  stage = badger;
  phase = not_called;
  badger_db = absent;
  nats_conn = absent;
  producing = absent;
  manager = absent;
  reaping = absent;
  waiting = 0;
  stuck = 0;
  crashed = false;
  early = false;
}

abbrev pub has_ended : Stage → Bool
has_ended connected = true
has_ended failed = true
has_ended _ = false

-- closeOnce: the first call sets Close going, later ones change nothing.
abbrev pub call_close : Phase → Phase
call_close not_called = at_producers
call_close p = p

-- An init function has failed: Connect calls Close and returns the error.
abbrev pub give_up : Conn → Conn
give_up c = record c { stage = failed; phase = call_close c.phase }

-- initNatsProducers, where neither part fails, and its goroutine, which closes the republisher and then
-- the manager: the Close of the manager locks its mutex for good, and may return after that.
abbrev pub start_producers : Conn → Conn
start_producers c = record c { stage = reaper; manager = running; producing = running }

abbrev pub lock_manager : Conn → Conn
lock_manager c = record c { manager = stopped }

abbrev pub end_producers : Conn → Conn
end_producers c = record c { producing = stopped }

-- initReaper, where it does not fail, and the end of its goroutine.
abbrev pub start_reaper : Conn → Conn
start_reaper c = record c { stage = connected; reaping = running }

abbrev pub end_reaper : Conn → Conn
end_reaper c = record c { reaping = stopped }

-- One step. A step needs that nothing has panicked, which ends the program.
pub data Step (c : Conn) : Conn → Type 0 where
  init_badger : c.stage ≡ badger → Step c (record c { stage = nats; badger_db = running })
  fail_badger : c.stage ≡ badger → Step c (give_up c)
  init_nats : c.stage ≡ nats → Step c (record c { stage = consumers; nats_conn = running })
  -- nats.Connect fails; or Subscribe does, or LastError, when the closer's goroutine runs already.
  fail_nats : c.stage ≡ nats → Step c (give_up c)
  fail_subscribe : c.stage ≡ nats → Step c (give_up (record c { nats_conn = running }))
  init_consumers :
      c.stage ≡ consumers → Step c (record c { stage = producers; waiting = num_consumers })
  init_producers : c.stage ≡ producers → Step c (start_producers c)
  fail_manager : c.stage ≡ producers → Step c (give_up c)
  fail_republisher : c.stage ≡ producers → Step c (give_up (record c { manager = running }))
  init_reaper : c.stage ≡ reaper → Step c (start_reaper c)
  fail_reaper : c.stage ≡ reaper → Step c (give_up c)
  -- The context ends, or a signal or the user comes.
  close_called : has_ended c.stage ≡ true → Step c (record c { phase = call_close c.phase })
  -- NATSClosedHandler, while Connect runs.
  nats_closed :
      has_ended c.stage ≡ false
      → c.nats_conn ≡ running
      → Step c (record c { phase = call_close c.phase; early = true })
  -- A closer is signalled when Close gets to it, and its goroutine then may end its part: no step has
  -- to be taken, since the Close of the republisher or of the manager need not return. `stopped` is
  -- the end of a part's goroutine, and of the reaper and of a manager whose republisher failed it
  -- does not say that nothing of them runs any more.
  stop_manager :
      c.producing ≡ running → c.manager ≡ running → 1 ≤ rank c.phase → Step c (lock_manager c)
  stop_producers :
      c.producing ≡ running → c.manager ≢ running → 1 ≤ rank c.phase → Step c (end_producers c)
  stop_nats : c.nats_conn ≡ running → 2 ≤ rank c.phase → Step c (record c { nats_conn = stopped })
  stop_consumer : (n : ℕ) → c.waiting ≡ suc n → 3 ≤ rank c.phase → Step c (record c { waiting = n })
  stop_reaper : c.reaping ≡ running → 4 ≤ rank c.phase → Step c (end_reaper c)
  stop_badger : c.badger_db ≡ running → 5 ≤ rank c.phase → Step c (record c { badger_db = stopped })
  -- Close goes on when the part at whose closer it waits has no goroutine left.
  waited_producers :
      c.phase ≡ at_producers → c.producing ≢ running → Step c (record c { phase = at_nats })
  waited_nats :
      c.phase ≡ at_nats → c.nats_conn ≢ running → Step c (record c { phase = at_consumers })
  waited_consumers :
      c.phase ≡ at_consumers → c.waiting ≡ 0 → c.stuck ≡ 0 → Step c (record c { phase = at_reaper })
  waited_reaper :
      c.phase ≡ at_reaper → c.reaping ≢ running → Step c (record c { phase = at_badger })
  waited_badger : c.phase ≡ at_badger → c.badger_db ≢ running → Step c (record c { phase = closed })
  -- A consumer takes a message, and calls the queue manager.
  handled : (n : ℕ) → c.nats_conn ≢ absent → c.waiting ≡ suc n → c.manager ≡ running → Step c c
  nil_manager :
      (n : ℕ)
      → c.nats_conn ≢ absent
      → c.waiting ≡ suc n
      → c.manager ≡ absent
      → Step c (record c { crashed = true })
  locked_manager :
      (n : ℕ)
      → c.nats_conn ≢ absent
      → c.waiting ≡ suc n
      → c.manager ≡ stopped
      → Step c (record c { waiting = n; stuck = suc c.stuck })

-- A program that has panicked takes no further step.
pub data Reach (c : Conn) : Conn → Type 0 where
  here : Reach c c
  next : {d e : Conn} → Reach c d → d.crashed ≡ false → Step d e → Reach c e
