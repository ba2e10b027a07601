-- ===== src/Tests/Lifecycle.antt =====
-- Runs of a connection.
use nats_requeue.Prelude.{◌≡◌, ◌≢◌, refl, arith}
use nats_requeue.Conn.{
  running, stopped, connected, producers, failed, at_producers, at_badger, closed, Conn, new_conn,
  Step, Reach, here, next,
}
use nats_requeue.Conn.Order.{badger_closed_last}
use nats_requeue.Conn.Stuck.{stuck_never_closes}

abbrev starting_consumers : Conn
starting_consumers = record new_conn {
  stage = producers;
  badger_db = running;
  nats_conn = running;
  waiting = 4;
}

consumers_started : Reach new_conn starting_consumers
consumers_started =
    next (next (next here refl (Step.init_badger refl)) refl (Step.init_nats refl)) refl
      (Step.init_consumers refl)

abbrev up : Conn
up = record starting_consumers {
  stage = connected;
  manager = running;
  producing = running;
  reaping = running;
}

all_up : Reach new_conn up
all_up = next (next consumers_started refl (Step.init_producers refl)) refl (Step.init_reaper refl)

abbrev closing : Conn
closing = record up { phase = at_producers }

is_closing : Reach new_conn closing
is_closing = next all_up refl (Step.close_called refl)

-- A message arrives when the manager is closed, and before the consumers are stopped.
abbrev stuck_one : Conn
stuck_one = record closing { manager = stopped; waiting = 3; stuck = 1 }

is_stuck : Reach new_conn stuck_one
is_stuck =
    next (next is_closing refl (Step.stop_manager refl refl (omega arith))) refl
      (Step.locked_manager 3 (λ h. cc h) refl refl)

stuck_never_closes_example : (stuck_one.phase ≢ closed) × (stuck_one.badger_db ≢ stopped)
stuck_never_closes_example =
    stuck_never_closes stuck_one stuck_one (omega arith) (omega arith) (λ h. cc h) here

-- NATS cannot be reached: Close finds nothing to wait for but the database.
abbrev given_up : Conn
given_up = record new_conn { stage = failed; phase = at_badger; badger_db = stopped }

is_given_up : Reach new_conn given_up
is_given_up =
    let waiting = next (next here refl (Step.init_badger refl)) refl (Step.fail_nats refl) in
    let passed =
      next (next waiting refl (Step.waited_producers refl (λ h. cc h))) refl
        (Step.waited_nats refl (λ h. cc h)) in
    let last =
      next (next passed refl (Step.waited_consumers refl refl refl)) refl
        (Step.waited_reaper refl (λ h. cc h)) in
    next last refl (Step.stop_badger refl (omega arith))

badger_closed_last_example :
    (given_up.nats_conn ≢ running)
    × (given_up.producing ≢ running)
    × (given_up.reaping ≢ running)
    × (given_up.waiting ≡ 0)
    × (given_up.stuck ≡ 0)
badger_closed_last_example = badger_closed_last given_up is_given_up refl refl
