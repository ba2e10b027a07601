-- ===== src/Conn/Order.antt =====
-- The order in which the parts start and stop.
use nats_requeue.Prelude.{◌≤◌, true, false, ◌≡◌, ◌≢◌, refl, arith}
use nats_requeue.Conn.{
  absent, running, stopped, Stage, badger, nats, consumers, producers, not_called, rank,
  num_consumers, Conn, new_conn, has_ended, Step, Reach, here, next,
}

-- What Connect has started when it calls its next function.
abbrev Started : Conn → Stage → Type 0
Started c badger = (c.nats_conn ≡ absent) × (c.waiting ≡ 0) × (c.manager ≡ absent)
Started c nats = (c.nats_conn ≡ absent) × (c.waiting ≡ 0) × (c.manager ≡ absent)
Started c consumers = (c.nats_conn ≡ running) × (c.waiting ≡ 0) × (c.manager ≡ absent)
Started c producers = (c.nats_conn ≡ running) × (c.waiting ≡ num_consumers) × (c.manager ≡ absent)
Started c _ = Unit

-- Unless Close was called too early: it has not been called while Connect runs, and what it has
-- waited for has ended.
record IsOrdered (c : Conn) : Type 0 where
  pub started : has_ended c.stage ≡ false → (c.phase ≡ not_called) × Started c c.stage
  pub no_producers : 2 ≤ rank c.phase → c.producing ≢ running
  pub no_nats : 3 ≤ rank c.phase → c.nats_conn ≢ running
  pub no_consumers : 4 ≤ rank c.phase → (c.waiting ≡ 0) × (c.stuck ≡ 0)
  pub no_reaper : 5 ≤ rank c.phase → c.reaping ≢ running
  pub badger_last : c.badger_db ≡ stopped → 5 ≤ rank c.phase

new_conn-IsOrdered : IsOrdered new_conn
new_conn-IsOrdered = ground arith

Step-IsOrdered :
    (c d : Conn) → Step c d → (c.early ≡ false → IsOrdered c) → d.early ≡ false → IsOrdered d
Step-IsOrdered c _ (Step.init_badger h) v e = (let w = v e in ground arith)
Step-IsOrdered c _ (Step.fail_badger h) v e = (let w = v e in ground arith)
Step-IsOrdered c _ (Step.init_nats h) v e = (let w = v e in ground arith)
Step-IsOrdered c _ (Step.fail_nats h) v e = (let w = v e in ground arith)
Step-IsOrdered c _ (Step.fail_subscribe h) v e = (let w = v e in ground arith)
Step-IsOrdered c _ (Step.init_consumers h) v e = (let w = v e in ground arith)
Step-IsOrdered c _ (Step.init_producers h) v e = (let w = v e in ground arith)
Step-IsOrdered c _ (Step.fail_manager h) v e = (let w = v e in ground arith)
Step-IsOrdered c _ (Step.fail_republisher h) v e = (let w = v e in ground arith)
Step-IsOrdered c _ (Step.init_reaper h) v e = (let w = v e in ground arith)
Step-IsOrdered c _ (Step.fail_reaper h) v e = (let w = v e in ground arith)
Step-IsOrdered c _ (Step.close_called h) v e = (let w = v e in ground arith)
Step-IsOrdered c _ (Step.nats_closed h g) v e = absurd (cc e)
Step-IsOrdered c _ (Step.stop_manager h g f) v e = (let w = v e in ground arith)
Step-IsOrdered c _ (Step.stop_producers h g f) v e = (let w = v e in ground arith)
Step-IsOrdered c _ (Step.stop_nats h g) v e = (let w = v e in ground arith)
Step-IsOrdered c _ (Step.stop_consumer n h g) v e = (let w = v e in ground arith)
Step-IsOrdered c _ (Step.stop_reaper h g) v e = (let w = v e in ground arith)
Step-IsOrdered c _ (Step.stop_badger h g) v e = (let w = v e in ground arith)
Step-IsOrdered c _ (Step.waited_producers h g) v e = (let w = v e in ground arith)
Step-IsOrdered c _ (Step.waited_nats h g) v e = (let w = v e in ground arith)
Step-IsOrdered c _ (Step.waited_consumers h g f) v e = (let w = v e in ground arith)
Step-IsOrdered c _ (Step.waited_reaper h g) v e = (let w = v e in ground arith)
Step-IsOrdered c _ (Step.waited_badger h g) v e = (let w = v e in ground arith)
Step-IsOrdered c _ (Step.handled n h g f) v e = (let w = v e in ground arith)
Step-IsOrdered c _ (Step.nil_manager n h g f) v e = (let w = v e in ground arith)
Step-IsOrdered c _ (Step.locked_manager n h g f) v e = (let w = v e in ground arith)

reach-IsOrdered : (c : Conn) → Reach new_conn c → c.early ≡ false → IsOrdered c
reach-IsOrdered c here e = new_conn-IsOrdered
reach-IsOrdered c (next {d} r alive s) e = Step-IsOrdered d c s (reach-IsOrdered d r) e

-- If Close was not called before Connect had ended, then the database's goroutine ends last: by then
-- the NATS connection is closed, the goroutines that stand for the producers and the reaper have
-- ended or were never started, and no consumer waits for a message or for the manager. It is not said
-- that a run of the reaper has ended, nor a manager whose republisher could not be made.
pub badger_closed_last :
    (c : Conn)
    → Reach new_conn c
    → c.early ≡ false
    → c.badger_db ≡ stopped
    → (c.nats_conn ≢ running)
      × (c.producing ≢ running)
      × (c.reaping ≢ running)
      × (c.waiting ≡ 0)
      × (c.stuck ≡ 0)
badger_closed_last c r e h = let v = reach-IsOrdered c r e in ground arith

-- Connect starts the consumers before the queue manager. If Close was not called by then, a message
-- that arrives in between can make a consumer panic.
pub early_message_panics :
    (c : Conn)
    → Reach new_conn c
    → c.early ≡ false
    → c.stage ≡ producers
    → (d : Conn) × Step c d × (d.crashed ≡ true)
early_message_panics c r e h =
    let v = reach-IsOrdered c r e in
    (
      record c { crashed = true },
      Step.nil_manager 3 (ground arith) (ground arith) (ground arith),
      refl,
    )
