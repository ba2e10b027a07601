-- ===== src/Batched/Flushing.antt =====
-- No write of the batched writer is left without a timer, and WriteKVList never gets to its first
-- write.
use nats_requeue.Prelude.{
  [], ◌∷◌, ap, ◌∙◌, ℕ, ◌-◌, ◌<◌, true, false, List, ◌++◌, map, Option, some, ◌≡◌, refl, arith,
}
use mathlib.Core.List.{map-append}
use nats_requeue.Writer.Handlers.{first, taken, fired-flush}
use nats_requeue.Result.{Error}
use nats_requeue.Store.{Entry}
use nats_requeue.Writer.{TxnOps, WriteBatch, new_write_batch, flush, commit_blocks}
use nats_requeue.Batched.{
  panicked, Outcome, after_flush, BatchedWriter, returned, blocked, new_batched_writer, set_entry,
  timer_fires, close, write_kv_list,
}

module _ (o : TxnOps) where
  open o use {Txn}

  -- A batch that holds anything has been kicked, and a kick has a timer that has not run out.
  pub record IsTimed (bw : BatchedWriter Txn) : Type 0 where
    pub timer : bw.flush_kicked ≡ true → 0 < bw.timers
    pub quiet :
        (wb : WriteBatch Txn) → bw.wb ≡ some wb → bw.flush_kicked ≡ false → wb ≡ new_write_batch o
    pub free : bw.locked ≡ false

  pub set_entry-IsTimed :
      (bw bw' : BatchedWriter Txn) (e : Entry) (cb : Option ℕ) (t r : Option Error)
      → IsTimed bw
      → set_entry o bw e cb t ≡ returned (bw', r)
      → IsTimed bw'
  unfolding set_entry
  set_entry-IsTimed bw bw' e cb t r v h = ground arith

  timer_fires-IsTimed :
      (bw bw' : BatchedWriter Txn) (t : Option Error) (rs : List (Option Error)) (f : Option Error)
      → IsTimed bw
      → timer_fires o bw t rs f ≡ returned bw'
      → IsTimed bw'
  unfolding timer_fires
  timer_fires-IsTimed bw bw' t rs f v h = ground arith

  close-IsTimed :
      (bw bw' : BatchedWriter Txn) (t : Option Error) (rs : List (Option Error)) (f : Option Error)
      → IsTimed bw
      → close o bw t rs f ≡ returned bw'
      → IsTimed bw'
  unfolding close
  close-IsTimed bw bw' t rs f v h = ground arith

  -- WriteKVList of at least one entry blocks for ever.
  write_kv_list_blocks :
      (bw : BatchedWriter Txn) (e : Entry) (es : List Entry) (t : Option Error)
      → write_kv_list o bw (e ∷ es) t ≡ blocked
  unfolding write_kv_list set_entry
  write_kv_list_blocks bw e es t = ground arith

  new-IsTimed : IsTimed (new_batched_writer o)
  unfolding new_batched_writer
  new-IsTimed = record { timer = λ h. cc; quiet = λ wb e h. cc; free = refl }

  timer_fires_lem :
      (bw : BatchedWriter Txn) (wb : WriteBatch Txn) (t : Option Error) (rs : List (Option Error))
      (f : Option Error)
      → bw.locked ≡ false
      → bw.wb ≡ some wb
      → bw.flush_kicked ≡ true
      → commit_blocks wb t ≡ false
      → timer_fires o bw t rs f
        ≡ returned
            (after_flush o (record bw { timers = bw.timers - 1 }) false (flush o wb t rs f).0)
  unfolding timer_fires
  timer_fires_lem bw wb t rs f l e k room = ground arith

  -- When the timer of a write runs out, and the flush's commit does not find the maximum of commits
  -- pending, the flush returns with the handlers that waited given to goroutines, behind those before,
  -- and leaves an empty batch whose next write starts a timer.
  pub timer_fires_runs :
      (bw : BatchedWriter Txn) (wb : WriteBatch Txn) (t : Option Error) (rs : List (Option Error))
      (f : Option Error)
      → IsTimed bw
      → bw.wb ≡ some wb
      → bw.flush_kicked ≡ true
      → commit_blocks wb t ≡ false
      → (bw' : BatchedWriter Txn) × (timer_fires o bw t rs f ≡ returned bw')
        × (map first bw'.fired ≡ map first bw.fired ++ taken wb)
        × (bw'.wb ≡ some (new_write_batch o))
        × (bw'.flush_kicked ≡ false)
  timer_fires_runs bw wb t rs f v e k room = (
    after_flush o (record bw { timers = bw.timers - 1 }) false (flush o wb t rs f).0,
    timer_fires_lem bw wb t rs f v.free e k room,
    map-append first bw.fired (flush o wb t rs f).0.fired
        ∙ ap (λ l. map first bw.fired ++ l) (fired-flush o wb t rs f),
    refl,
    refl,
  )

  -- The calls on a writer, and the timers that run out.
  pub data Call : Type 0 where
    writes : Entry → Option ℕ → Option Error → Call
    times_out closes : Option Error → List (Option Error) → Option Error → Call

  abbrev pub writer_of : Outcome (BatchedWriter Txn × Option Error) → Outcome (BatchedWriter Txn)
  writer_of (returned (bw, r)) = returned bw
  writer_of blocked = blocked
  writer_of panicked = panicked

  unfoldable pub step : BatchedWriter Txn → Call → Outcome (BatchedWriter Txn)
  step bw (writes e cb t) = writer_of (set_entry o bw e cb t)
  step bw (times_out t rs f) = timer_fires o bw t rs f
  step bw (closes t rs f) = close o bw t rs f

  -- A history, as far as its calls return.
  unfoldable pub run : BatchedWriter Txn → List Call → Outcome (BatchedWriter Txn)
  unfolding step
  run bw [] = returned bw
  run bw (c ∷ cs) = elim (step bw c) [
    | returned bw' ↦ run bw' cs
    | blocked ↦ blocked
    | panicked ↦ panicked
  ]

  wrote :
      (x : Outcome (BatchedWriter Txn × Option Error)) (b : BatchedWriter Txn)
      → writer_of x ≡ returned b
      → (r : Option Error) × (x ≡ returned (b, r))
  wrote (returned (b', r)) b h = (r, cc)
  wrote blocked b h = absurd (cc h)
  wrote panicked b h = absurd (cc h)

  step-IsTimed :
      (bw bw' : BatchedWriter Txn) (c : Call) → IsTimed bw → step bw c ≡ returned bw' → IsTimed bw'
  unfolding step
  step-IsTimed bw bw' (writes e cb t) v h =
      let (r, p) = wrote (set_entry o bw e cb t) bw' h in set_entry-IsTimed bw bw' e cb t r v p
  step-IsTimed bw bw' (times_out t rs f) v h = timer_fires-IsTimed bw bw' t rs f v h
  step-IsTimed bw bw' (closes t rs f) v h = close-IsTimed bw bw' t rs f v h

  returns :
      (x : Outcome (BatchedWriter Txn)) (f : BatchedWriter Txn → Outcome (BatchedWriter Txn))
      (b : BatchedWriter Txn)
      → (elim x as (λ y. Outcome (BatchedWriter Txn)) [
        | returned c ↦ f c
        | blocked ↦ blocked
        | panicked ↦ panicked
      ])
        ≡ returned b
      → (c : BatchedWriter Txn) × (x ≡ returned c) × (f c ≡ returned b)
  returns (returned c) f b h = (c, refl, h)
  returns blocked f b h = absurd (cc h)
  returns panicked f b h = absurd (cc h)

  run-IsTimed :
      (bw bw' : BatchedWriter Txn) (cs : List Call)
      → IsTimed bw
      → run bw cs ≡ returned bw'
      → IsTimed bw'
  run-IsTimed bw bw' [] v h = unfold run in ground arith
  run-IsTimed bw bw' (c ∷ cs) v h =
      let (b, p, rest) = returns (step bw c) (λ b. run b cs) bw' (unfold run in h) in
      run-IsTimed b bw' cs (step-IsTimed bw b c v p) rest

  -- After any history of writes, timeouts and closing, the mutex is free; a batch with anything in it
  -- has been kicked, and a kicked one has a timer that has not run out.
  pub history-IsTimed :
      (cs : List Call) (bw : BatchedWriter Txn)
      → run (new_batched_writer o) cs ≡ returned bw
      → IsTimed bw
  history-IsTimed cs bw h = run-IsTimed (new_batched_writer o) bw cs new-IsTimed h
