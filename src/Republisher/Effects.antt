-- ===== src/Republisher/Effects.antt =====
-- What the handling of one message leaves alone: every other key that was issued before.
use nats_requeue.Prelude.{
  Option-cases, suc, ◌<◌, ◌^◌, Bool, some, ◌≡◌, ◌≢◌, ◌⊎◌, inl, inr, refl, sym, ap, ◌∙◌, [], arith,
}
use nats_requeue.Prelude.Int.{◌+ℤ◌, int_of_u64}
use nats_requeue.Bytes.{Bytes}
use nats_requeue.Key
use nats_requeue.Key.{Time, Source}
use nats_requeue.QueueKey.Fresh.{IsIssued, IsNext, new_key, new-IsNext, issued-new_ne}
use nats_requeue.Result.{Result, ok, ◌>>=◌, Result-cases}
use nats_requeue.Store.{Store, Entry}
use nats_requeue.Store.Writes.{find, LawfulWrites, replaced_other, removed_other}
use nats_requeue.Queue.{QueueItem}
use nats_requeue.Protocol.{Codec, get_queue_name}
use nats_requeue.Republisher.{
  RunQueue, Clock, Shared, create_entry, count_request, finish_message, remove_message_from_disk,
  requeue_message_to_disk, publish_message,
}
use nats_requeue.Queue.{is_expired}
use nats_requeue.Prelude.{false}
use nats_requeue.Republisher.Message.{publish_cases}

-- The time and the queue of the key that a message is put back under.
abbrev pub next_time : Codec → Clock → QueueItem → Time
next_time c clock qi = clock.delay_from +ℤ int_of_u64 (c.read qi.v).delay

abbrev pub next_name : Codec → QueueItem → Bytes
next_name c qi = get_queue_name (c.read qi.v)

module _ (c : Codec) where
  create_entry_key :
      (clock : Clock) (src src' : Source) (rq rq' : RunQueue) (qi : QueueItem) (r : Result Entry)
      → create_entry c clock src rq qi ≡ some (r, src', rq')
      → (src' ≡ (Key.new src (next_time c clock qi)).1)
        × ((e : Entry) → r ≡ ok e → e.key ≡ new_key src (next_time c clock qi) (next_name c qi))
  unfolding create_entry
  create_entry_key clock src src' rq rq' qi r h = (ground (arith, h), λ e k. ground (arith, h, k))

  module _ (s : Store) (writes : LawfulWrites s) where
    open s use {Db}

    pub requeue_writes :
        (clock : Clock) (st st' : Shared Db) (qi : QueueItem) (r : Result (Unit {0}))
        → requeue_message_to_disk c s clock st qi ≡ some (r, st')
        → (st'.source ≡ (Key.new st.source (next_time c clock qi)).1)
          × ((st'.db ≡ st.db)
              ⊎ ((e : Entry) × (e.key ≡ new_key st.source (next_time c clock qi) (next_name c qi))
                  × (s.update st.db (λ t. s.set_entry t e >>= λ t'. s.delete t' qi.k) ≡ ok st'.db)))
    unfolding requeue_message_to_disk
    requeue_writes clock st st' qi r h =
        elim (Option-cases (create_entry c clock st.source st.rq qi)) [
          | inl e ↦ absurd (ground (arith, e, h))
          | inr ((res, src, rq), e) ↦
              let (moved, keyed) = create_entry_key clock st.source src st.rq rq qi res e in
              elim (Result-cases res) [
                | inr (x, k) ↦ (ground (arith, e, k, h, moved), inl (ground (arith, e, k, h)))
                | inl (entry, k) ↦
                    let replace = λ (t : s.Txn). s.set_entry t entry >>= λ t'. s.delete t' qi.k in
                    elim (Result-cases (s.update st.db replace)) [
                      | inr (x, u) ↦
                          (ground (arith, e, k, h, moved, u), inl (ground (arith, e, k, h, u)))
                      | inl (db, u) ↦ (
                        ground (arith, e, k, h, moved, u),
                        inr (entry, keyed entry k, ground (arith, e, k, h, u)),
                      )
                    ]
              ]
        ]

    finish_other :
        (st : Shared Db) (qi : QueueItem) (j : Bytes)
        → qi.k ≢ j
        → find j (s.items (finish_message c s st qi).db [] []) ≡ find j (s.items st.db [] [])
    unfolding finish_message remove_message_from_disk
    finish_other st qi j n = elim (Result-cases (remove_message_from_disk c s st.db qi)) [
      | inl (db, e) ↦ rw (e, finish_message) (removed_other s writes st.db db qi.k j e n)
      | inr (e, f) ↦ rw (f, finish_message) refl
    ]

    finish_source :
        (st : Shared Db) (qi : QueueItem) → (finish_message c s st qi).source ≡ st.source
    unfolding finish_message remove_message_from_disk
    finish_source st qi = ground arith

    -- The source has issued no key or one.
    pub publish_source :
        (clock : Clock) (acked : Bool) (st st' : Shared Db) (qi : QueueItem)
        → suc st.source.seq < 2 ^ 64
        → publish_message c s clock acked st qi ≡ some st'
        → (st'.source ≡ st.source) ⊎ IsNext st.source st'.source
    unfolding count_request
    publish_source clock acked st st' qi room h = elim (publish_cases c s clock acked st st' qi h) [
      | inl (_, same) ↦ rw same (inl refl)
      | inr (inl (_, _, _, r, requeued)) ↦
          rw (requeue_writes clock (count_request c s st) st' qi r requeued).0
            (inr (new-IsNext st.source (next_time c clock qi) room))
      | inr (inr (_, _, done)) ↦ rw done (inl (finish_source (count_request c s st) qi))
    ]

    -- The keys that were issued before are as they were, but for the message's own.
    pub publish_other :
        (clock : Clock) (acked : Bool) (st st' : Shared Db) (qi : QueueItem) (j : Bytes)
        → st.source.instance_id < 2 ^ 64
        → suc st.source.seq < 2 ^ 64
        → IsIssued st.source j
        → qi.k ≢ j
        → publish_message c s clock acked st qi ≡ some st'
        → find j (s.items st'.db [] []) ≡ find j (s.items st.db [] [])
    unfolding count_request
    publish_other clock acked st st' qi j id room issued n h =
        elim (publish_cases c s clock acked st st' qi h) [
          | inl (_, same) ↦ rw same refl
          | inr (inl (_, _, _, r, requeued)) ↦
              elim (requeue_writes clock (count_request c s st) st' qi r requeued).1 [
                | inl same ↦ ap (λ db. find j (s.items db [] [])) same
                | inr (e, key, u) ↦
                    replaced_other s writes st.db st'.db e qi.k j u
                      (λ k.
                        issued-new_ne st.source (next_time c clock qi) (next_name c qi) id room j
                          issued (sym (sym key ∙ k)))
                      n
              ]
          | inr (inr (_, _, done)) ↦ rw done (finish_other (count_request c s st) qi j n)
        ]

    -- A message that was not acknowledged and has retries left uses up a key, unless it is expired.
    pub unacked_source :
        (clock : Clock) (st st' : Shared Db) (qi : QueueItem)
        → 1 < (c.read qi.v).retries
        → is_expired clock.second qi ≡ false
        → publish_message c s clock false st qi ≡ some st'
        → st'.source ≡ (Key.new st.source (next_time c clock qi)).1
    unfolding count_request
    unacked_source clock st st' qi r x h = elim (publish_cases c s clock false st st' qi h) [
      | inl (y, _) ↦ absurd (ground (arith, x, y))
      | inr (inl (_, _, _, res, requeued)) ↦
          (requeue_writes clock (count_request c s st) st' qi res requeued).0
      | inr (inr (_, inl a, _)) ↦ absurd (ground (arith, a))
      | inr (inr (_, inr few, _)) ↦ absurd (omega (arith, few, r))
    ]
