-- ===== src/Tests/Writes.antt =====
-- Batches of writes, over transactions that hold two entries.
use nats_requeue.Prelude.{ℕ, ◌≡◌, refl, true, false, List, [], ◌∷◌, map, some, none}
use nats_requeue.Bytes.{Bytes}
use nats_requeue.Store.{Entry}
use nats_requeue.Writer.{
  entry_blocks, commit_blocks, added, WriteBatch, new_write_batch, handle_entry, callback,
  flush_end, flush_begin, delete_key,
}
use mathlib.Core.List.Perm
use mathlib.Core.List.{Perm}
use nats_requeue.Writer.Handlers.{
  first, Op, set_entry, delete, called_back, flushes, run, flush_runs_all,
}
use nats_requeue.Writer.Early.{early_success}
use nats_requeue.Batched.{
  BatchedWriter, returned, new_batched_writer, timer_fires, set_entry as batched_set_entry,
}
use nats_requeue.Batched.Flushing.{
  IsTimed, timer_fires_runs, history-IsTimed, Call, writes, times_out,
}
use nats_requeue.Batched.Flushing
use nats_requeue.Tests.Transactions.{pairs}

abbrev entry : ℕ → Entry
entry n = record { key = n ∷ []; value = []; ttl = none }

-- Three writes, of which the third commits the first two, the callback of that commit, and a delete.
abbrev history : List (Op (List Bytes))
history =
    set_entry (entry 1) (some 1) none
    ∷ set_entry (entry 2) none none
    ∷ set_entry (entry 3) (some 3) none
    ∷ called_back [] none
    ∷ delete (1 ∷ []) (some 4) none
    ∷ flushes none
    ∷ called_back [] none
    ∷ []

accepted_history : (run pairs (new_write_batch pairs) history).1 ≡ 1 ∷ 3 ∷ 4 ∷ []
unfolding run new_write_batch handle_entry delete_key callback flush_begin
accepted_history = refl

flush_runs_all_example :
    let wb = (flush_end pairs (run pairs (new_write_batch pairs) history).0 none).0 in
    Perm (run pairs (new_write_batch pairs) history).1 (map first wb.fired) × (wb.handlers ≡ [])
flush_runs_all_example = flush_runs_all pairs (λ es. es) history none (λ es. Perm.refl es)

-- A batch whose transaction is full, and whose handlers have run.
abbrev full : WriteBatch (List Bytes)
full = record {
  txn = (1 ∷ []) ∷ (2 ∷ []) ∷ [];
  error = none;
  handlers = [];
  pending = [];
  fired = [];
}

abbrev moved_on : WriteBatch (List Bytes)
moved_on = record {
  txn = (3 ∷ []) ∷ [];
  error = none;
  handlers = some 3 ∷ [];
  pending = full.txn ∷ [];
  fired = [];
}

third_write : handle_entry pairs full (entry 3) (some 3) none ≡ (moved_on, none)
unfolding handle_entry
third_write = refl

early_success_example :
    let told = callback moved_on [] none in
    (moved_on.pending ≡ full.txn ∷ [])
    × (pairs.set_entry [] (entry 3) ≡ added told.txn)
    × (told.fired ≡ (3, none) ∷ [])
    × (told.handlers ≡ [])
early_success_example = early_success pairs full moved_on (entry 3) 3 none refl refl third_write

abbrev open_writer : BatchedWriter (List Bytes)
open_writer = record {
  wb = some (record full { txn = (1 ∷ []) ∷ []; handlers = some 1 ∷ [] });
  flush_kicked = true;
  timers = 1;
  locked = false;
  fired = [];
}

one_write :
    Flushing.run pairs (new_batched_writer pairs) (writes (entry 1) (some 1) none ∷ [])
    ≡ returned open_writer
unfolding Flushing.run new_batched_writer batched_set_entry new_write_batch handle_entry
    entry_blocks
one_write = refl

timer_fires_runs_example :
    (bw : BatchedWriter (List Bytes)) × (timer_fires pairs open_writer none [] none ≡ returned bw)
    × (map first bw.fired ≡ 1 ∷ [])
    × (bw.wb ≡ some (new_write_batch pairs))
    × (bw.flush_kicked ≡ false)
timer_fires_runs_example =
    timer_fires_runs pairs open_writer (record full { txn = (1 ∷ []) ∷ []; handlers = some 1 ∷ [] })
      none [] none
      (history-IsTimed pairs (writes (entry 1) (some 1) none ∷ []) open_writer one_write) refl refl
      (unfold commit_blocks in refl)
