-- ===== src/Conn/Stuck.antt =====
-- A consumer that waits for the closed manager's mutex keeps Close from ending.
use nats_requeue.Prelude.{◌≤◌, ◌<◌, ◌≢◌, arith}
use nats_requeue.Conn.{rank, closed, stopped, Conn, Step, Reach, here, next}

-- A consumer is stuck, and Close has not got past the wait for the consumers.
record IsStuck (c : Conn) : Type 0 where
  pub some_stuck : 0 < c.stuck
  pub not_past : rank c.phase ≤ 3
  pub open_db : c.badger_db ≢ stopped

Step-IsStuck : (c d : Conn) → Step c d → IsStuck c → IsStuck d
Step-IsStuck c _ (Step.init_badger h) v = ground arith
Step-IsStuck c _ (Step.fail_badger h) v = ground arith
Step-IsStuck c _ (Step.init_nats h) v = ground arith
Step-IsStuck c _ (Step.fail_nats h) v = ground arith
Step-IsStuck c _ (Step.fail_subscribe h) v = ground arith
Step-IsStuck c _ (Step.init_consumers h) v = ground arith
Step-IsStuck c _ (Step.init_producers h) v = ground arith
Step-IsStuck c _ (Step.fail_manager h) v = ground arith
Step-IsStuck c _ (Step.fail_republisher h) v = ground arith
Step-IsStuck c _ (Step.init_reaper h) v = ground arith
Step-IsStuck c _ (Step.fail_reaper h) v = ground arith
Step-IsStuck c _ (Step.close_called h) v = ground arith
Step-IsStuck c _ (Step.nats_closed h g) v = ground arith
Step-IsStuck c _ (Step.stop_manager h g f) v = ground arith
Step-IsStuck c _ (Step.stop_producers h g f) v = ground arith
Step-IsStuck c _ (Step.stop_nats h g) v = ground arith
Step-IsStuck c _ (Step.stop_consumer n h g) v = ground arith
Step-IsStuck c _ (Step.stop_reaper h g) v = ground arith
Step-IsStuck c _ (Step.stop_badger h g) v = ground arith
Step-IsStuck c _ (Step.waited_producers h g) v = ground arith
Step-IsStuck c _ (Step.waited_nats h g) v = ground arith
Step-IsStuck c _ (Step.waited_consumers h g f) v = ground arith
Step-IsStuck c _ (Step.waited_reaper h g) v = ground arith
Step-IsStuck c _ (Step.waited_badger h g) v = ground arith
Step-IsStuck c _ (Step.handled n h g f) v = ground arith
Step-IsStuck c _ (Step.nil_manager n h g f) v = ground arith
Step-IsStuck c _ (Step.locked_manager n h g f) v = ground arith

reach-IsStuck : (c d : Conn) → IsStuck c → Reach c d → IsStuck d
reach-IsStuck c _ v here = v
reach-IsStuck c d v (next {d = e} r alive s) = Step-IsStuck e d s (reach-IsStuck c e v r)

-- Once a consumer is stuck while Close waits for the consumers, or for something before them, and the
-- database is open, Close never returns and the database is never closed, whatever happens.
pub stuck_never_closes :
    (c d : Conn)
    → 0 < c.stuck
    → rank c.phase ≤ 3
    → c.badger_db ≢ stopped
    → Reach c d
    → (d.phase ≢ closed) × (d.badger_db ≢ stopped)
stuck_never_closes c d s p b r =
    let v = reach-IsStuck c d (record { some_stuck = s; not_past = p; open_db = b }) r in
    (λ e. absurd (ground (arith, e)), v.open_db)
