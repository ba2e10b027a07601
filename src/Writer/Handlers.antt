-- ===== src/Writer/Handlers.antt =====
-- Every handler that the batch has taken is given to a goroutine exactly once, whatever the order of
-- writes, commits, callbacks and flushes.
use nats_requeue.Prelude.{
  subst, sym, ℕ, List, [], ◌∷◌, ◌++◌, map, Option, none, some, ◌≡◌, refl, ap, ◌∙◌, arith,
}
use mathlib.Core.List.Perm
use mathlib.Core.List.{Perm}
use mathlib.Core.List.{append-nil, append_assoc, map-append}
use nats_requeue.Bytes.{Bytes}
use nats_requeue.Result.{Error}
use nats_requeue.Store.{Entry}
use nats_requeue.Writer.{
  IsSchedule, drain, flush, txn_sent_entry, txn_delete, new_write_batch, Added, added, TxnOps,
  WriteBatch, fire, exec_commit_handlers, callback, keep_error, add_commit_handler, with_handler,
  commit, again, write, handle_entry, delete_key, flush_begin, flush_end,
}

-- The handlers that are not nil.
abbrev pub somes : List (Option ℕ) → List ℕ
somes [] = []
somes (none ∷ hs) = somes hs
somes (some h ∷ hs) = h ∷ somes hs

somes-append : (hs ks : List (Option ℕ)) → somes (hs ++ ks) ≡ somes hs ++ somes ks
somes-append [] ks = refl
somes-append (none ∷ hs) ks = somes-append hs ks
somes-append (some h ∷ hs) ks = ap (λ l. h ∷ l) (somes-append hs ks)

abbrev pub first : ℕ × Option Error → ℕ
first e = e.0

map-fire : (hs : List (Option ℕ)) (e : Option Error) → map first (fire hs e) ≡ somes hs
unfolding fire
map-fire [] e = refl
map-fire (none ∷ hs) e = map-fire hs e
map-fire (some h ∷ hs) e = ap (λ l. h ∷ l) (map-fire hs e)

-- Every handler taken so far: those that were given to goroutines, then those that wait.
abbrev pub taken : {T : Type 0} → WriteBatch T → List ℕ
taken wb = map first wb.fired ++ somes wb.handlers

taken-fire :
    (fired : List (ℕ × Option Error)) (hs : List (Option ℕ)) (e : Option Error)
    → map first (fired ++ fire hs e) ++ [] ≡ map first fired ++ somes hs
taken-fire fired hs e = simp (append-nil, map-append, map-fire)

module _ {T : Type 0} where
  taken-exec : (wb : WriteBatch T) (e : Option Error) → taken (exec_commit_handlers wb e) ≡ taken wb
  unfolding exec_commit_handlers
  taken-exec wb e = ground (arith, taken-fire wb.fired wb.handlers e)

  handlers-exec : (wb : WriteBatch T) (e : Option Error) → (exec_commit_handlers wb e).handlers ≡ []
  unfolding exec_commit_handlers
  handlers-exec wb e = ground arith

  taken-keep : (wb : WriteBatch T) (e : Option Error) → taken (keep_error wb e) ≡ taken wb
  unfolding keep_error
  taken-keep wb e = ground arith

  taken-callback :
      (wb : WriteBatch T) (rest : List T) (e : Option Error) → taken (callback wb rest e) ≡ taken wb
  unfolding callback
  taken-callback wb rest e =
      taken-keep (exec_commit_handlers (record wb { pending = rest }) e) e
      ∙ taken-exec (record wb { pending = rest }) e

-- What a write adds to the handlers taken: its own, where it reports no error.
abbrev pub taken_by : Option ℕ → Option Error → List ℕ
taken_by cb (some e) = []
taken_by cb none = somes (cb ∷ [])

-- The calls on a batch, and those of the database, with what the throttle answers.
pub data Op (T : Type 0) : Type 0 where
  set_entry : Entry → Option ℕ → Option Error → Op T
  delete : Bytes → Option ℕ → Option Error → Op T
  called_back : List T → Option Error → Op T
  flushes : Option Error → Op T
  flushed : Option Error → Op T

module _ (o : TxnOps) where
  open o use {Txn}

  taken-commit : (wb : WriteBatch Txn) (t : Option Error) → taken (commit o wb t).0 ≡ taken wb
  unfolding commit
  taken-commit wb t = ground arith

  -- An attempt at a write that takes the handler `cb` where it succeeds.
  abbrev Takes : (WriteBatch Txn → Added (WriteBatch Txn)) → Option ℕ → Type 0
  Takes attempt cb =
      (wb wb' : WriteBatch Txn) → attempt wb ≡ added wb' → taken wb' ≡ taken wb ++ somes (cb ∷ [])

  taken-handler :
      (wb wb' : WriteBatch Txn) (cb : Option ℕ) (r : Added Txn)
      → with_handler o wb cb r ≡ added wb'
      → taken wb' ≡ taken wb ++ somes (cb ∷ [])
  unfolding with_handler add_commit_handler
  taken-handler wb wb' cb r h = ground (
    arith,
    somes-append wb.handlers (cb ∷ []),
    append_assoc (map first wb.fired) (somes wb.handlers) (somes (cb ∷ [])),
  )

  taken-write :
      (attempt : WriteBatch Txn → Added (WriteBatch Txn)) (cb : Option ℕ)
      → Takes attempt cb
      → (wb : WriteBatch Txn) (t : Option Error)
      → let r = write o attempt wb t in taken r.0 ≡ taken wb ++ taken_by cb r.1
  unfolding write again
  taken-write attempt cb h wb t = grind (arith, h, taken-commit, append-nil)

  unfoldable pub step : WriteBatch Txn → Op Txn → WriteBatch Txn × Option Error
  step wb (set_entry e cb t) = handle_entry o wb e cb t
  step wb (delete k cb t) = delete_key o wb k cb t
  step wb (called_back rest e) = (callback wb rest e, none)
  step wb (flushes t) = (flush_begin o wb t, none)
  step wb (flushed e) = flush_end o wb e

  -- The handlers that a call takes.
  accepted : Op Txn → Option Error → List ℕ
  accepted (set_entry e cb t) r = taken_by cb r
  accepted (delete k cb t) r = taken_by cb r
  accepted _ r = []

  taken-flush_end : (wb : WriteBatch Txn) (e : Option Error) → taken (flush_end o wb e).0 ≡ taken wb
  unfolding flush_end
  taken-flush_end wb none = taken-exec wb wb.error
  taken-flush_end wb (some e) = taken-exec wb (some e)

  handlers-flush_end : (wb : WriteBatch Txn) (e : Option Error) → (flush_end o wb e).0.handlers ≡ []
  unfolding flush_end
  handlers-flush_end wb none = handlers-exec wb wb.error
  handlers-flush_end wb (some e) = handlers-exec wb (some e)

  pub taken-handle_entry :
      (wb : WriteBatch Txn) (e : Entry) (cb : Option ℕ) (t : Option Error)
      → let r = handle_entry o wb e cb t in taken r.0 ≡ taken wb ++ taken_by cb r.1
  unfolding handle_entry txn_sent_entry
  taken-handle_entry wb e cb t =
      taken-write (λ b. txn_sent_entry o b e cb) cb (λ b b'. taken-handler b b' cb _) wb t

  step-taken :
      (wb : WriteBatch Txn) (op : Op Txn)
      → taken (step wb op).0 ≡ taken wb ++ accepted op (step wb op).1
  unfolding step accepted delete_key txn_delete
  step-taken wb (set_entry e cb t) = taken-handle_entry wb e cb t
  step-taken wb (delete k cb t) =
      taken-write (λ b. txn_delete o b k cb) cb (λ b b'. taken-handler b b' cb _) wb t
  step-taken wb (called_back rest e) = rw append-nil (taken-callback wb rest e)
  step-taken wb (flushes t) = rw append-nil (unfold flush_begin in taken-commit wb t)
  step-taken wb (flushed e) = rw append-nil (taken-flush_end wb e)

  -- A history of calls: the batch, and the handlers of the writes that succeeded, in order.
  unfoldable pub run : WriteBatch Txn → List (Op Txn) → WriteBatch Txn × List ℕ
  unfolding step accepted
  run wb [] = (wb, [])
  run wb (op ∷ ops) =
      let (wb', r) = step wb op in let (last, rest) = run wb' ops in (last, accepted op r ++ rest)

  -- After any history, the handlers that were given to goroutines followed by those that wait are the handlers of the
  -- writes that succeeded, each once and in order.
  pub run-taken :
      (wb : WriteBatch Txn) (ops : List (Op Txn))
      → taken (run wb ops).0 ≡ taken wb ++ (run wb ops).1
  unfolding run
  run-taken wb [] = sym (append-nil (taken wb))
  run-taken wb (op ∷ ops) =
      run-taken (step wb op).0 ops
      ∙ ap (λ l. l ++ (run (step wb op).0 ops).1) (step-taken wb op)
      ∙ append_assoc (taken wb) (accepted op (step wb op).1) (run (step wb op).0 ops).1

  flush_gives_all :
      (ops : List (Op Txn)) (finished : Option Error)
      → let wb = (flush_end o (run (new_write_batch o) ops).0 finished).0 in
        (map first wb.fired ≡ (run (new_write_batch o) ops).1) × (wb.handlers ≡ [])
  flush_gives_all ops finished =
      let wb = (run (new_write_batch o) ops).0 in
      let all = taken-flush_end wb finished ∙ run-taken (new_write_batch o) ops in
      let flushed_all = handlers-flush_end wb finished in
      (
        sym (append-nil (map first (flush_end o wb finished).0.fired))
            ∙ (rw flushed_all at all)
            ∙ (unfold new_write_batch in refl),
        flushed_all,
      )

  -- When the flush of a batch returns, no handler waits in it; and when the goroutines that it has
  -- started by then have run, in whatever order, the handlers of all the writes that succeeded since
  -- the batch was new have run, each exactly once.
  pub flush_runs_all :
      (schedule : List (ℕ × Option Error) → List (ℕ × Option Error)) (ops : List (Op Txn))
      (finished : Option Error)
      → IsSchedule schedule
      → let wb = (flush_end o (run (new_write_batch o) ops).0 finished).0 in
        Perm (run (new_write_batch o) ops).1 (map first (schedule wb.fired)) × (wb.handlers ≡ [])
  flush_runs_all schedule ops finished any =
      let (given, none_waits) = flush_gives_all ops finished in
      let fired = (flush_end o (run (new_write_batch o) ops).0 finished).0.fired in
      (
        subst (λ l. Perm l (map first (schedule fired))) given (Perm.map first (any fired)),
        none_waits,
      )

  taken-drain :
      (wb : WriteBatch Txn) (ts : List Txn) (rs : List (Option Error))
      → taken (drain o wb ts rs) ≡ taken wb
  unfolding drain
  taken-drain wb [] rs = refl
  taken-drain wb (t ∷ ts) [] = taken-drain (callback wb ts none) ts [] ∙ taken-callback wb ts none
  taken-drain wb (t ∷ ts) (r ∷ rs) = taken-drain (callback wb ts r) ts rs ∙ taken-callback wb ts r

  -- A flush gives the handlers that waited to goroutines, behind those before.
  pub fired-flush :
      (wb : WriteBatch Txn) (t : Option Error) (rs : List (Option Error)) (f : Option Error)
      → map first (flush o wb t rs f).0.fired ≡ taken wb
  unfolding flush
  fired-flush wb t rs f =
      let begun = flush_begin o wb t in
      let drained = drain o begun begun.pending rs in
      sym (append-nil (map first (flush_end o drained f).0.fired))
      ∙ (rw (handlers-flush_end drained f) at (taken-flush_end drained f))
      ∙ taken-drain begun begun.pending rs
      ∙ (unfold flush_begin in taken-commit wb t)
