-- ===== src/Republisher/Delivery.antt =====
-- A message that is not acknowledged outlives a run over its queue: the query, the workers, and the
-- saving of the checkpoint.
use nats_requeue.Prelude.{
  ℕ, suc, ◌+◌, [], Option, some, ◌≡◌, All, length, arith, refl, false, ◌<◌, ◌^◌, All-mono, All-and,
  ◌∙◌, sym, Option-cases, inl, inr, Bool,
}
use nats_requeue.Bytes.{Bytes}
use nats_requeue.Republisher.Survival.{IsLost, Survives, Holds, unacked_kept}
use nats_requeue.Republisher.Sends.{process_queue_source}
use nats_requeue.Republisher.Requeue.{requeue_ttl}
use nats_requeue.Protocol.{Codec, LawfulCodec}
use nats_requeue.Republisher.{Clock, new_run_queue, RunQueue, Codec, Shared}
use nats_requeue.Republisher.Run.{
  republish_queue, save_run_checkpoint, publish_messages, process_queue,
}
use nats_requeue.Republisher.Issued.{IsTidy}
use nats_requeue.QueueKey.Fresh.{
  IsOwn, IsMessageKey, IsNext, new-IsNext, IsIssued-mono, message-state_ne,
}
use nats_requeue.Result.{Result, Result-cases, ok}
use nats_requeue.Queue.{update_checkpoint, save_checkpoint, QueueItem, Queue}
use nats_requeue.QueueKey.{checkpoint_property}
use nats_requeue.Store.Writes.{find, Outlives, put_elsewhere, LawfulWrites}
use nats_requeue.Key.{Time, Source}
use nats_requeue.Store.{Store, Lawful, Item}
use nats_requeue.Republisher.Sends.{process_queue_sends}
use nats_requeue.Store.Writes.{find-All}

of_ok : (a b : Bytes) → ◌≡◌ {A = Result Bytes} (ok a) (ok b) → a ≡ b
of_ok a b h = cc h

module _ (s : Store) (writes : LawfulWrites s) where
  open s use {Db}

  save_run_checkpoint_other :
      (db : Db) (rq : RunQueue) (k : Bytes)
      → IsMessageKey k
      → find k (s.items (save_run_checkpoint s db rq).0 [] []) ≡ find k (s.items db [] [])
  unfolding save_run_checkpoint update_checkpoint save_checkpoint
  save_run_checkpoint_other db rq k mk =
      elim (Result-cases (save_checkpoint s db rq.q rq.min_checkpoint)) [
        | inr (x, e) ↦ rw (e, save_run_checkpoint, update_checkpoint) refl
        | inl (db', e) ↦
            rw (e, save_run_checkpoint, update_checkpoint)
              (put_elsewhere s writes db db' _ rq.min_checkpoint k e
                (λ same. message-state_ne k rq.q.name checkpoint_property mk (sym same)))
      ]

module _ (c : Codec) (s : Store) (writes : LawfulWrites s) where
  open s use {Db}

  save_run_checkpoint-Survives :
      (db : Db) (src : Source) (rq : RunQueue) (v : Bytes)
      → Survives c s db src v
      → Survives c s ((save_run_checkpoint s db rq).0) src v
  save_run_checkpoint-Survives db src rq v kept =
      let (item, found, value) = kept.held in
      record {
        key = kept.key;
        value = kept.value;
        held =
            (item, save_run_checkpoint_other s writes db rq kept.key kept.message ∙ found, value);
        same = kept.same;
        message = kept.message;
        issued = kept.issued;
      }

module _ (c : Codec) (codec : LawfulCodec c) (s : Store) (laws : Lawful s) (writes : LawfulWrites s)
    (env : QueueItem → Clock × Bool) where
  open s use {Db, items}

  -- What the sent items need to be.
  abbrev IsSafe : Source → Bytes → Bytes → QueueItem → Type 0
  IsSafe src k v qi = IsOwn src qi.k × (qi.k ≡ k → IsLost c s writes env codec v qi)

  -- Take an encoded message that the database holds under a message's key, with more than one retry
  -- left, and a run over any queue, up to any time, whose `quit` is closed at any point. If the message
  -- is never acknowledged, and has a time to live that at its requeueing lasts beyond the run, then
  -- after the run the database holds it still: the same queue, subject and
  -- payload, with at most one retry less, under its key or a new one. The key stands for one value and one time of expiry,
  -- no message's key of the database has yet to be issued, and the sequence numbers do not wrap in
  -- the run.
  pub republish_queue_keeps :
      (db db' : Db) (src src' : Source) (q q' : Queue) (until : Time) (quit : Option ℕ)
      (k v : Bytes) (end : ℕ)
      → src.instance_id < 2 ^ 64
      → suc src.seq + length (items db [] []) < 2 ^ 64
      → IsTidy s db src
      → All (λ (i : Item). i.key ≡ k → (i.value ≡ ok v) × (i.expires_at ≡ end)) (items db [] [])
      → IsMessageKey k
      → codec.IsStored v
      → 1 < (c.read v).retries
      → ((qi : QueueItem)
          → qi.k ≡ k
          → qi.v ≡ v
          → qi.expires_at ≡ end
          → ((env qi).1 ≡ false) × Outlives writes.span (some (requeue_ttl c ((env qi).0) qi)))
      → Holds s db k v
      → republish_queue s c env db src q until quit ≡ some (db', src', q')
      → Survives c s db' src' v
  unfolding republish_queue
  republish_queue_keeps db db' src src' q q' until quit k v end id room keys one mk coded r lost
        held e =
      elim (Option-cases (process_queue s db src (new_run_queue q) until quit)) [
        | inl n ↦ absurd (ground (arith, n, e))
        | inr ((sent, src₁, rq), sends) ↦
            let src_eq =
              process_queue_source s db src src₁ (new_run_queue q) rq until quit sent sends in
            let (ie, se) : IsNext src src₁ =
              rw src_eq (new-IsNext src until (omega (arith, room))) in
            let later = λ (j : Bytes). IsIssued-mono src src₁ j ie (omega (arith, se)) in
            let (safe, few) =
              process_queue_sends
                (λ (i : Item).
                  IsOwn src i.key × (i.key ≡ k → (i.value ≡ ok v) × (i.expires_at ≡ end)))
                (IsSafe src₁ k v)
                (λ i w h x. (
                  (λ m. later i.key (h.0 m)),
                  λ y.
                      let same = of_ok _ _ (sym x ∙ (h.1 y).0) in
                      let (unanswered, live) = lost _ y same ((h.1 y).1) in
                      (same, unanswered, live),
                ))
                s laws db src src₁ (new_run_queue q) rq until quit sent
                (All-and _ _ (items db [] []) keys one) sends in
            let start : Shared Db = record { db = db; source = src₁; rq = rq } in
            elim (Option-cases (publish_messages s c env start sent)) [
              | inl n ↦ absurd (ground (arith, n, sends, e))
              | inr (st, done) ↦
                  let kept =
                    unacked_kept c s writes env codec start st sent k v (omega (arith, ie, id))
                      (omega (arith, room, se, few)) mk
                      (later k (find-All (IsOwn src) k held.0 (items db [] []) held.1 keys mk))
                      (All-mono _ _ (λ x h. h.0) sent safe) (All-mono _ _ (λ x h. h.1) sent safe)
                      coded r held done in
                  let saved : (save_run_checkpoint s st.db st.rq).0 ≡ db' =
                    ground (arith, sends, done, e) in
                  let issuer : st.source ≡ src' = ground (arith, sends, done, e) in
                  rw (sym saved, sym issuer)
                    (save_run_checkpoint-Survives c s writes st.db st.source st.rq v kept)
            ]
      ]
