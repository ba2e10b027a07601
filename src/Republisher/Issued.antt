-- ===== src/Republisher/Issued.antt =====
-- The keys of the database: a run leaves none there that the instance has yet to issue.
use nats_requeue.Prelude.{
  ℕ, suc, ◌+◌, ◌<◌, ◌^◌, Bool, List, [], ◌∷◌, Option, Option-cases, some, ◌≡◌, ◌⊎◌, inl, inr, sym,
  ◌∙◌, All, All-mono, All-all, length, subst, arith,
}
use nats_requeue.QueueKey.{checkpoint_property}
use nats_requeue.Key.{Time, Source}
use nats_requeue.QueueKey.Fresh.{
  IsOwn, message-state_ne, new-IsNext, new-IsIssued, IsNext, IsIssued-mono,
}
use nats_requeue.Queue.{Queue, update_checkpoint, save_checkpoint, QueueItem}
use nats_requeue.Store.{Lawful, Store, Item}
use nats_requeue.Store.Writes.{all_put, LawfulWrites, all_replaced, all_removed}
use nats_requeue.Republisher.{
  RunQueue, Clock, Shared, new_run_queue, count_request, finish_message, remove_message_from_disk,
  publish_message,
}
use nats_requeue.Republisher.Checkpoint.{publish_messages_cons}
use nats_requeue.Republisher.Run.{
  save_run_checkpoint, publish_messages, process_queue, republish_queue,
}
use nats_requeue.Result.{Result-cases}
use nats_requeue.Protocol.{Codec}
use nats_requeue.Republisher.Sends.{process_queue_sends, process_queue_source}
use nats_requeue.Republisher.Advance.{done_nil, advance}
use nats_requeue.Republisher.Message.{publish_cases}
use nats_requeue.Republisher.Effects.{requeue_writes, next_time, next_name, publish_source}

-- No message's key of the database bears this instance's identity with a number yet to be issued.
abbrev pub IsTidy : (s : Store) → s.Db → Source → Type 0
IsTidy s db src = All (λ (i : Item). IsOwn src i.key) (s.items db [] [])

later-IsTidy :
    (s : Store) (db : s.Db) (src src' : Source)
    → (src' ≡ src) ⊎ IsNext src src'
    → IsTidy s db src
    → IsTidy s db src'
later-IsTidy s db src src' (inl e) tidy = rw e tidy
later-IsTidy s db src src' (inr (i, n)) tidy =
    All-mono (λ (i : Item). IsOwn src i.key) (λ (i : Item). IsOwn src' i.key)
      (λ (x : Item) h mk. IsIssued-mono src src' x.key i (omega (arith, n)) (h mk))
      (s.items db [] []) tidy

module _ (c : Codec) (s : Store) (writes : LawfulWrites s) where
  open s use {Db, items}

  finish_all :
      (P : Item → Type 0) (st : Shared Db) (qi : QueueItem)
      → All P (items st.db [] [])
      → All P (items (finish_message c s st qi).db [] [])
  unfolding finish_message remove_message_from_disk
  finish_all P st qi all = elim (Result-cases (remove_message_from_disk c s st.db qi)) [
    | inl (db, e) ↦ rw (e, finish_message) (all_removed s writes P st.db db qi.k e all)
    | inr (e, f) ↦ rw (f, finish_message) all
  ]

  publish_message-IsTidy :
      (clock : Clock) (acked : Bool) (st st' : Shared Db) (qi : QueueItem)
      → st.source.instance_id < 2 ^ 64
      → suc st.source.seq < 2 ^ 64
      → IsTidy s st.db st.source
      → publish_message c s clock acked st qi ≡ some st'
      → IsTidy s st'.db st'.source
  unfolding count_request
  publish_message-IsTidy clock acked st st' qi id room tidy h =
      let moved = publish_source c s writes clock acked st st' qi room h in
      let tidy' = later-IsTidy s st.db st.source st'.source moved tidy in
      elim (publish_cases c s clock acked st st' qi h) [
        | inl (_, same) ↦ rw same tidy
        | inr (inl (_, _, _, r, requeued)) ↦
            let (src_eq, made) =
              requeue_writes c s writes clock (count_request c s st) st' qi r requeued in
            elim made [
              | inl same ↦
                  subst (λ db. All (λ (i : Item). IsOwn st'.source i.key) (items db [] []))
                    (sym same) tidy'
              | inr (e, key, u) ↦
                  all_replaced s writes (λ (i : Item). IsOwn st'.source i.key) st.db st'.db e qi.k u
                    (λ i k v mk.
                      rw (k ∙ key, src_eq)
                        (new-IsIssued st.source (next_time c clock qi) (next_name c qi) id room))
                    tidy'
            ]
        | inr (inr (_, _, done)) ↦
            subst (λ (x : Shared Db). All (λ (i : Item). IsOwn st'.source i.key) (items x.db [] []))
              (sym done)
              (finish_all (λ (i : Item). IsOwn st'.source i.key) (count_request c s st) qi tidy')
      ]

  module _ (env : QueueItem → Clock × Bool) where
    publish_messages-IsTidy :
        (st st' : Shared Db) (qis : List QueueItem)
        → st.source.instance_id < 2 ^ 64
        → st.source.seq + length qis < 2 ^ 64
        → IsTidy s st.db st.source
        → publish_messages s c env st qis ≡ some st'
        → IsTidy s st'.db st'.source
    publish_messages-IsTidy st st' [] id room tidy h =
        subst (λ (x : Shared Db). IsTidy s x.db x.source) (done_nil c s writes env st st' h) tidy
    publish_messages-IsTidy st st' (qi ∷ qis) id room tidy h =
        let (st₁, p, rest) = publish_messages_cons c s env st st' qi qis h in
        let clock = (env qi).0 in
        let one =
          publish_message-IsTidy clock (env qi).1 st st₁ qi id (omega (arith, room)) tidy p in
        let moved = publish_source c s writes clock (env qi).1 st st₁ qi (omega (arith, room)) p in
        let (i, lo, hi) = advance st.source st₁.source moved in
        publish_messages-IsTidy st₁ st' qis (omega (arith, i, id)) (omega (arith, room, hi)) one
          rest

    save_run_checkpoint-IsTidy :
        (db : Db) (src : Source) (rq : RunQueue)
        → IsTidy s db src
        → IsTidy s ((save_run_checkpoint s db rq).0) src
    unfolding save_run_checkpoint update_checkpoint save_checkpoint
    save_run_checkpoint-IsTidy db src rq tidy =
        elim (Result-cases (save_checkpoint s db rq.q rq.min_checkpoint)) [
          | inr (x, e) ↦ rw (e, save_run_checkpoint, update_checkpoint) tidy
          | inl (db', e) ↦
              rw (e, save_run_checkpoint, update_checkpoint)
                (all_put s writes (λ (i : Item). IsOwn src i.key) db db' _ rq.min_checkpoint e
                  (λ i k v mk. absurd (message-state_ne i.key rq.q.name checkpoint_property mk k))
                  tidy)
        ]

    module _ (laws : Lawful s) where
      -- If no message's key of the database has yet to be issued before a run over a queue, in which
      -- the sequence numbers do not wrap, then none has after it.
      pub republish_queue-IsTidy :
          (db db' : Db) (src src' : Source) (q q' : Queue) (until : Time) (quit : Option ℕ)
          → src.instance_id < 2 ^ 64
          → suc src.seq + length (items db [] []) < 2 ^ 64
          → IsTidy s db src
          → republish_queue s c env db src q until quit ≡ some (db', src', q')
          → IsTidy s db' src'
      unfolding republish_queue
      republish_queue-IsTidy db db' src src' q q' until quit id room tidy e =
          elim (Option-cases (process_queue s db src (new_run_queue q) until quit)) [
            | inl n ↦ absurd (ground (arith, n, e))
            | inr ((sent, src₁, rq), sends) ↦
                let src_eq =
                  process_queue_source s db src src₁ (new_run_queue q) rq until quit sent sends in
                let (ie, se) : IsNext src src₁ =
                  rw src_eq (new-IsNext src until (omega (arith, room))) in
                let (_, few) =
                  process_queue_sends (λ (i : Item). Unit {0}) (λ (x : QueueItem). Unit {0})
                    (λ i v h k. tt) s laws db src src₁ (new_run_queue q) rq until quit sent
                    (All-all (λ (i : Item). Unit {0}) (λ i. tt) (items db [] [])) sends in
                let start : Shared Db = record { db = db; source = src₁; rq = rq } in
                elim (Option-cases (publish_messages s c env start sent)) [
                  | inl n ↦ absurd (ground (arith, n, sends, e))
                  | inr (st, done) ↦
                      let saved : (save_run_checkpoint s st.db st.rq).0 ≡ db' =
                        ground (arith, sends, done, e) in
                      let issuer : st.source ≡ src' = ground (arith, sends, done, e) in
                      let kept =
                        publish_messages-IsTidy start st sent (omega (arith, ie, id))
                          (omega (arith, room, se, few))
                          (later-IsTidy s db src src₁ (inr (ie, se)) tidy) done in
                      rw (sym saved, sym issuer)
                        (save_run_checkpoint-IsTidy st.db st.source st.rq kept)
                ]
          ]
