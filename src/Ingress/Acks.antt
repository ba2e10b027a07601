-- ===== src/Ingress/Acks.antt =====
-- The replies to the messages that come in.
use nats_requeue.Prelude.{
  Option-cases, ℕ, ◌+◌, ◌<◌, List, [], ◌∷◌, ◌++◌, map, length, Option, none, some, ◌≡◌, sym, ap,
  ◌∙◌, inl, inr, true, arith, ◌^◌,
}
use mathlib.Core.List.{append-nil, append_assoc}
use nats_requeue.Prelude.Int.{pos, ◌+ℤ◌}
use nats_requeue.Result.{Error}
use nats_requeue.Store.{Entry}
use nats_requeue.Stats.{add_count, add_int64}
use nats_requeue.Writer.{TxnOps, WriteBatch, commit_blocks, handle_entry}
use nats_requeue.Writer.Handlers.{first, taken, taken-handle_entry}
use nats_requeue.Batched.{BatchedWriter, returned, set_entry, timer_fires}
use nats_requeue.Batched.Flushing.{IsTimed, timer_fires_runs, set_entry-IsTimed}
use nats_requeue.Prelude.{false}
use nats_requeue.Ingress.{Replies, message_committed, run_callbacks}

-- The callbacks reply to every message once, in the order in which they run, whatever error its commit had.
pub acked-run_callbacks :
    (r : Replies) (es : List (ℕ × Option Error))
    → (run_callbacks r es).acked ≡ r.acked ++ map first es
unfolding run_callbacks message_committed
acked-run_callbacks r [] = sym (append-nil r.acked)
acked-run_callbacks r (e ∷ es) =
    acked-run_callbacks (message_committed r e) es ∙ append_assoc r.acked (e.0 ∷ []) (map first es)

-- The callbacks of a flush count every message, also where its commit failed, up to the greatest
-- int64.
pub count-run_callbacks :
    (r : Replies) (es : List (ℕ × Option Error)) (n : ℕ)
    → r.stats.count ≡ pos n
    → n + length es < 2 ^ 63
    → (run_callbacks r es).stats.count ≡ pos (n + length es)
unfolding run_callbacks message_committed add_count add_int64 ◌+ℤ◌
count-run_callbacks r [] n h b = ground (arith, h)
count-run_callbacks r (e ∷ es) n h b =
    ground (arith, h, count-run_callbacks (message_committed r e) es (n + 1))

module _ (o : TxnOps) where
  open o use {Txn}

  -- A write that reports no error leaves its handler waiting last, in a batch that has been kicked.
  set_entry-waits :
      (bw bw' : BatchedWriter Txn) (e : Entry) (h : ℕ) (t : Option Error)
      → set_entry o bw e (some h) t ≡ returned (bw', none)
      → (wb : WriteBatch Txn) × (wb' : WriteBatch Txn) × (bw.wb ≡ some wb)
        × (bw'.wb ≡ some wb')
        × (taken wb' ≡ taken wb ++ h ∷ [])
        × (bw'.flush_kicked ≡ true)
        × (bw'.fired ≡ bw.fired)
  unfolding set_entry
  set_entry-waits bw bw' e h t r = elim (Option-cases bw.wb) [
    | inl n ↦ absurd (ground (arith, n, r))
    | inr (wb, w) ↦
        let took = taken-handle_entry o wb e (some h) t in
        let done : (handle_entry o wb e (some h) t).1 ≡ none = ground (arith, w, r) in
        (
          wb,
          (handle_entry o wb e (some h) t).0,
          w,
          ground (arith, w, r),
          (rw done at took),
          ground (arith, w, r),
          ground (arith, w, r),
        )
  ]

  -- The handler of a write that the batch took is given to a goroutine when the writer's timer runs
  -- out, behind those of the writes before it.
  pub flush-acks :
      (bw bw' : BatchedWriter Txn) (e : Entry) (h : ℕ) (t t' : Option Error)
      (rs : List (Option Error)) (f : Option Error)
      → IsTimed o bw
      → set_entry o bw e (some h) t ≡ returned (bw', none)
      → ((wb : WriteBatch Txn) → bw'.wb ≡ some wb → commit_blocks wb t' ≡ false)
      → (last : BatchedWriter Txn) × (earlier : List ℕ) × (timer_fires o bw' t' rs f
          ≡ returned last)
        × (map first last.fired ≡ earlier ++ h ∷ [])
  flush-acks bw bw' e h t t' rs f v w room =
      let (wb, wb', _, b', tk, k, fd) = set_entry-waits bw bw' e h t w in
      let (last, fires, fired, _, _) =
        timer_fires_runs o bw' wb' t' rs f (set_entry-IsTimed o bw bw' e (some h) t none v w) b' k
          (room wb' b') in
      (
        last,
        map first bw.fired ++ taken wb,
        fires,
        fired
            ∙ ap (λ l. map first bw'.fired ++ l) tk
            ∙ ap (λ b. map first b ++ (taken wb ++ h ∷ [])) fd
            ∙ sym (append_assoc (map first bw.fired) (taken wb) (h ∷ [])),
      )
