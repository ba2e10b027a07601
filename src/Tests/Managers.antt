-- ===== src/Tests/Managers.antt =====
-- A manager with one queue, whose statistics are closed in time or are in a refresh.
use nats_requeue.Prelude.{inl, true, false, [], ◌∷◌, ◌≡◌, All, refl, arith}
use nats_requeue.Ticker
use nats_requeue.Ticker.{Ticker, returned, running}
use nats_requeue.Stats.Closing as StatsClosing
use nats_requeue.Queue.Closing
use nats_requeue.Queue.Closing.{Closer, new_closer}
use nats_requeue.Manager.Closing as ManagerClosing
use nats_requeue.Manager.Closing.{Managed, new_manager, closing_queues, queues_closed}
use nats_requeue.Manager.Closing.Closed.{all_closed}
use nats_requeue.Manager.Closing.Blocked.{close_never_returns}
use nats_requeue.Stats.Closing.{Counting, new_counting}
use nats_requeue.Queue.Closing.Closed.{IsSettled}

abbrev ended : Ticker
ended = record { place = returned; quit = true; pending = false; runs = 0; late = 0 }

abbrev counted : Counting
counted = record {
  started = true;
  loop = ended;
  owner = StatsClosing.nobody;
  first = StatsClosing.due;
  phase = StatsClosing.done;
}

abbrev closed_queue : Closer
closed_queue = record {
  stage = Closing.closed;
  called = true;
  mu = Closing.nobody;
  flushed = true;
  stats = counted;
}

-- The goroutine waits for the queue.
abbrev waiting_for : Closer → Managed
waiting_for c = record (new_manager 1) {
  called = true;
  mu = ManagerClosing.closing;
  queues = c ∷ [];
  stage = closing_queues;
}

abbrev Reached : Managed → Type 0
Reached m = ManagerClosing.Reach (new_manager 1) m

by_queue :
    {c d : Closer}
    → Reached (waiting_for c)
    → Closing.Step c d
    → d.called ≡ c.called
    → Reached (waiting_for d)
by_queue {c} {d} r s e =
    ManagerClosing.Reach.next r (ManagerClosing.Step.queue_step [] c d [] refl s e)

abbrev called : Closer
called = record new_closer { called = true }

called-Reached : Reached (waiting_for called)
called-Reached =
    ManagerClosing.Reach.next
      (ManagerClosing.Reach.next
        (ManagerClosing.Reach.next ManagerClosing.Reach.here (ManagerClosing.Step.call_close refl))
        (ManagerClosing.Step.locks refl refl refl refl))
      (ManagerClosing.Step.closes_queue [] new_closer [] refl refl refl)

abbrev at_stats : Closer
at_stats = record called {
  stage = Closing.closing_stats;
  mu = Closing.closing;
  flushed = true;
  stats = record new_counting { started = true };
}

-- Its statistics have started their loop.
abbrev started : Closer
started = record called { stats = record new_counting { started = true } }

started-Reached : Reached (waiting_for started)
started-Reached =
    by_queue
      (by_queue called-Reached
        (Closing.Step.stats_step _ (StatsClosing.Step.start_locks refl refl) refl) refl)
      (Closing.Step.stats_step _ (StatsClosing.Step.start_done refl) refl) refl

at_stats-Reached : Reached (waiting_for at_stats)
at_stats-Reached =
    by_queue
      (by_queue
        (by_queue (by_queue started-Reached (Closing.Step.quits refl refl) refl)
          (Closing.Step.locks refl refl) refl)
        (Closing.Step.flushes refl) refl)
      (Closing.Step.writer_closed refl refl) refl

queue-Reached : Reached (waiting_for closed_queue)
queue-Reached =
    by_queue
      (by_queue
        (by_queue
          (by_queue
            (by_queue
              (by_queue at_stats-Reached
                (Closing.Step.stats_closing _ (StatsClosing.Step.call_close refl) refl) refl)
              (Closing.Step.stats_closing _ (StatsClosing.Step.close_locks refl refl) refl) refl)
            (Closing.Step.stats_closing _ (StatsClosing.Step.stop_ticker refl refl refl) refl) refl)
          (Closing.Step.stats_closing _
            (StatsClosing.Step.loop_step ended refl (λ e. ground (arith, e))
              (Ticker.Step.check_quit refl refl))
            refl)
          refl)
        (Closing.Step.stats_closing _ (StatsClosing.Step.close_returns refl refl refl) refl) refl)
      (Closing.Step.stats_closed refl (inl refl)) refl

abbrev after_close : Managed
after_close = record (waiting_for closed_queue) {
  stage = queues_closed;
  loop = ended;
  done = true;
  close_returned = true;
}

close_ends : Reached after_close
close_ends =
    ManagerClosing.Reach.next
      (ManagerClosing.Reach.next
        (ManagerClosing.Reach.next
          (ManagerClosing.Reach.next
            (ManagerClosing.Reach.next queue-Reached
              (ManagerClosing.Step.queues_done refl (refl, tt)))
            (ManagerClosing.Step.stop_ticker refl refl))
          (ManagerClosing.Step.loop_step ended (Ticker.Step.check_quit refl refl)))
        (ManagerClosing.Step.closes_done refl refl))
      (ManagerClosing.Step.close_returns refl refl)

all_closed_example :
    All (λ (c : Closer). (c.flushed ≡ true) × IsSettled c.stats) after_close.queues
    × (after_close.loop.place ≡ returned)
    × (after_close.mu ≡ ManagerClosing.closing)
all_closed_example = all_closed 1 after_close close_ends refl

-- The loop of the statistics is in its function.
abbrev refreshing : Ticker
refreshing = record ended { place = running; quit = false; runs = 1 }

abbrev jammed_queue : Closer
jammed_queue = record at_stats {
  stats = record (at_stats.stats) {
    started = true;
    loop = refreshing;
    owner = StatsClosing.close;
    phase = StatsClosing.waiting;
  };
}

jam-Reached : Reached (waiting_for jammed_queue)
jam-Reached =
    by_queue
      (by_queue
        (by_queue
          (by_queue
            (by_queue at_stats-Reached (Closing.Step.stats_closing _ StatsClosing.Step.tick refl)
              refl)
            (Closing.Step.stats_closing _
              (StatsClosing.Step.loop_step _ refl (λ e. ground (arith, e))
                (Ticker.Step.check_default refl refl))
              refl)
            refl)
          (Closing.Step.stats_closing _
            (StatsClosing.Step.loop_step refreshing refl (λ e. ground (arith, e))
              (Ticker.Step.select_tick refl refl))
            refl)
          refl)
        (Closing.Step.stats_closing _ (StatsClosing.Step.call_close refl) refl) refl)
      (Closing.Step.stats_closing _ (StatsClosing.Step.close_locks refl refl) refl) refl

close_never_returns_example :
    ((waiting_for jammed_queue).close_returned ≡ false)
    × ((waiting_for jammed_queue).mu ≡ ManagerClosing.closing)
close_never_returns_example =
    close_never_returns 1 (waiting_for jammed_queue) (waiting_for jammed_queue) [] jammed_queue []
      jam-Reached refl refl refl refl refl ManagerClosing.Reach.here
