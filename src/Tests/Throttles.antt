-- ===== src/Tests/Throttles.antt =====
-- The deadlock of a write batch with the throttle's maximum of NewWriteBatch.
use nats_requeue.Prelude.{◌≡◌, refl}
use nats_requeue.Writer.Throttle.{Throttle, Reach, committing, set_max_pending_txns}
use nats_requeue.Writer.Throttle.Deadlock.{committed_only, commit_deadlocks, deadlock_reached}

abbrev at_seventeenth : Throttle
at_seventeenth = record (committed_only 16 16) { owner = committing }

-- It is reached from the start.
reached : Reach (set_max_pending_txns 16) at_seventeenth
reached = deadlock_reached 16

commit_deadlocks_example :
    (at_seventeenth.owner ≡ committing) × (at_seventeenth.running ≡ at_seventeenth.max)
commit_deadlocks_example = commit_deadlocks at_seventeenth at_seventeenth refl refl refl Reach.here
