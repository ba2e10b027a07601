-- ===== src/Batched.antt =====
-- internal/badger/batched_writer.go: a write batch that is flushed some time after its first write.
-- Every method locks the writer's mutex for its whole run, and Go's mutex is not reentrant: a method
-- that is called while the mutex is held by its own caller never returns.
pub mod Flushing
use nats_requeue.Prelude.{
  ℕ, suc, ◌-◌, Bool, true, false, List, [], ◌∷◌, ◌++◌, Option, none, some, if◌then◌else◌,
}
use nats_requeue.Bytes.{Bytes}
use nats_requeue.Result.{Error}
use nats_requeue.Store.{Entry}
use nats_requeue.Writer.{
  TxnOps, WriteBatch, new_write_batch, handle_entry, flush, entry_blocks, commit_blocks,
}

pub data Outcome (A : Type 0) : Type 0 where
  returned : A → Outcome A
  blocked : Outcome A
  panicked : Outcome A

-- `timers` counts the goroutines that wait to flush; a nil batch is `none`. `fired` are the
-- calls of handlers that the batches that were flushed have given to goroutines.
pub record BatchedWriter (T : Type 0) : Type 0 where
  pub wb : Option (WriteBatch T)
  pub flush_kicked : Bool
  pub timers : ℕ
  pub locked : Bool
  pub fired : List (ℕ × Option Error)

module _ (o : TxnOps) where
  open o use {Txn}

  unfoldable pub new_batched_writer : BatchedWriter Txn
  new_batched_writer = record {
    wb = some (new_write_batch o);
    flush_kicked = false;
    timers = 0;
    locked = false;
    fired = [];
  }

  -- The first write since the last flush starts a timer.
  kick : BatchedWriter Txn → BatchedWriter Txn
  kick bw =
      if bw.flush_kicked then bw else record bw { flush_kicked = true; timers = suc bw.timers }

  unfoldable pub set_entry :
      BatchedWriter Txn
      → Entry
      → Option ℕ
      → Option Error
      → Outcome (BatchedWriter Txn × Option Error)
  unfolding kick
  set_entry bw e cb throttled = if bw.locked then blocked else (elim bw.wb [
    | none ↦ panicked
    | some wb ↦
        let (wb', r) = handle_entry o wb e cb throttled in
        if entry_blocks o wb e throttled
        then blocked
        else returned (kick (record bw { wb = some wb' }), r)
  ])

  unfoldable pub set :
      BatchedWriter Txn
      → Bytes
      → Bytes
      → Option ℕ
      → Option Error
      → Outcome (BatchedWriter Txn × Option Error)
  unfolding set_entry
  set bw k v cb throttled = set_entry bw (record { key = k; value = v; ttl = none }) cb throttled

  -- The writer when its batch has been flushed: with a new one, or with none at the end.
  abbrev pub after_flush : BatchedWriter Txn → Bool → WriteBatch Txn → BatchedWriter Txn
  after_flush bw last flushed = record bw {
    fired = bw.fired ++ flushed.fired;
    wb = if last then none else some (new_write_batch o);
    flush_kicked = false;
  }

  -- A flush, which never returns where its commit blocks; `rs` and `finished` are the results of the commits and of the throttle. The error is
  -- logged only.
  unfoldable pub flush_writes :
      BatchedWriter Txn
      → Bool
      → Option Error
      → List (Option Error)
      → Option Error
      → Outcome (BatchedWriter Txn)
  flush_writes bw last throttled rs finished =
      if bw.locked
      then blocked
      else (if bw.flush_kicked
          then (elim bw.wb [
            | none ↦ panicked
            | some wb ↦
                if commit_blocks wb throttled
                then blocked
                else returned (after_flush bw last (flush o wb throttled rs finished).0)
          ])
          else returned bw)

  -- A timer that runs out, and the loop that `Close` wakes.
  unfoldable pub timer_fires :
      BatchedWriter Txn
      → Option Error
      → List (Option Error)
      → Option Error
      → Outcome (BatchedWriter Txn)
  unfolding flush_writes
  timer_fires bw throttled rs finished =
      flush_writes (record bw { timers = bw.timers - 1 }) false throttled rs finished

  unfoldable pub close :
      BatchedWriter Txn
      → Option Error
      → List (Option Error)
      → Option Error
      → Outcome (BatchedWriter Txn)
  unfolding flush_writes
  close bw throttled rs finished = flush_writes bw true throttled rs finished

  -- The writes of WriteKVList, made with the mutex already held.
  unfoldable pub write_kvs :
      BatchedWriter Txn → List Entry → Option Error → Outcome (BatchedWriter Txn × Option Error)
  write_kvs bw [] throttled = returned (bw, none)
  write_kvs bw (e ∷ es) throttled = elim (set_entry bw e none throttled) [
    | blocked ↦ blocked
    | panicked ↦ panicked
    | returned (bw', some err) ↦ returned (bw', some err)
    | returned (bw', none) ↦ write_kvs bw' es throttled
  ]

  unfoldable pub write_kv_list :
      BatchedWriter Txn → List Entry → Option Error → Outcome (BatchedWriter Txn × Option Error)
  unfolding write_kvs
  write_kv_list bw es throttled =
      if bw.locked then blocked else (elim (write_kvs (record bw { locked = true }) es throttled) [
        | blocked ↦ blocked
        | panicked ↦ panicked
        | returned (bw', r) ↦ returned (record bw' { locked = false }, r)
      ])
