-- ===== src/Republisher/Message.antt =====
-- What becomes of one message: it is passed over, deleted, or replaced; and what that does to the
-- queue's counters.
use nats_requeue.Prelude.{
  ◌^◌, ◌<◌, ◌≤◌, Bool, true, false, Option, none, some, ◌≡◌, ◌⊎◌, inl, inr, arith, ltb, Bool-cases,
  ap, ◌∙◌,
}
use nats_requeue.Prelude.Int.{ℤ, pos, negsuc, ◌+ℤ◌}
use nats_requeue.Key.{Source}
use nats_requeue.Result.{Result}
use nats_requeue.Store.{Store, Entry}
use nats_requeue.Stats.{add_int64, add_in_flight, add_count}
use nats_requeue.Queue.{Queue, QueueItem, is_expired}
use nats_requeue.Protocol.{Codec}
use nats_requeue.Republisher.{
  RunQueue, Clock, Shared, set_min_checkpoint, create_entry, requeue_message_to_disk, count_request,
  finish_message, publish_message,
}

-- A second component that was reached has a first beside it.
beside :
    {A B : Type 0} (o : Option (A × B)) (b : B)
    → (elim o as (λ x. Option B) [ none ↦ none | some x ↦ some x.1 ]) ≡ some b
    → (a : A) × (o ≡ some (a, b))
beside none b e = absurd (cc e)
beside (some (a, x)) b e = (a, cc)

module _ (c : Codec) (s : Store) where
  open s use {Db}

  -- Where it did not panic, what was read of the message is sound.
  read_soundly :
      (clock : Clock) (acked : Bool) (st st' : Shared Db) (qi : QueueItem)
      → publish_message c s clock acked st qi ≡ some st'
      → (c.is_payload_sound qi.v ≡ true)
        × (is_expired clock.second qi ≡ false → c.are_fields_sound qi.v ≡ true)
  unfolding publish_message
  read_soundly clock acked st st' qi e = (ground (arith, e), λ x. ground (arith, e, x))

  -- The branches of publishMessages.
  pub publish_cases :
      (clock : Clock) (acked : Bool) (st st' : Shared Db) (qi : QueueItem)
      → publish_message c s clock acked st qi ≡ some st'
      → ((is_expired clock.second qi ≡ true) × (st' ≡ st))
        ⊎ (((is_expired clock.second qi ≡ false)
              × (acked ≡ false)
              × (1 < (c.read qi.v).retries)
              × (r : Result (Unit {0})) × (requeue_message_to_disk c s clock
                    (count_request c s st)
                    qi
                  ≡ some (r, st')))
            ⊎ ((is_expired clock.second qi ≡ false)
                × ((acked ≡ true) ⊎ ((c.read qi.v).retries ≤ 1))
                × (st' ≡ finish_message c s (count_request c s st) qi)))
  unfolding publish_message
  publish_cases clock acked st st' qi e =
      let (payload, fields) = read_soundly clock acked st st' qi e in
      elim (Bool-cases (is_expired clock.second qi)) [
        | inl x ↦ inl (x, ground (arith, payload))
        | inr x ↦ inr (elim (Bool-cases acked) [
          | inl a ↦ inr (x, inl a, ground (arith, payload, fields x))
          | inr a ↦ elim (Bool-cases (ltb 1 (c.read qi.v).retries)) [
            | inl l ↦
                let (r, requeued) =
                  beside (requeue_message_to_disk c s clock (count_request c s st) qi) st'
                    (ground (arith, payload, fields x, x, a, l)) in
                inl (x, a, ground arith, r, requeued)
            | inr l ↦ inr (x, inr (ground arith), ground (arith, payload, fields x))
          ]
        ])
      ]

-- A message without a TTL has no expiry, for which Badger reports 0; IsExpired takes that for a time
-- in the past. So such a message is passed over in every run: it is neither sent nor removed.
pub no_ttl_never_published :
    (c : Codec) (s : Store) (clock : Clock) (acked : Bool) (st : Shared (s.Db)) (qi : QueueItem)
    → c.is_payload_sound qi.v ≡ true
    → qi.expires_at ≡ 0
    → publish_message c s clock acked st qi ≡ some st
unfolding publish_message
no_ttl_never_published c s clock acked st qi p h = ground arith

-- An int64.
abbrev pub IsInt64 : ℤ → Type 0
IsInt64 (pos n) = n < 2 ^ 63
IsInt64 (negsuc n) = n < 2 ^ 63

add_int64_back : (n : ℤ) → IsInt64 n → add_int64 (add_int64 n (pos 1)) (negsuc 0) ≡ n
unfolding add_int64 ◌+ℤ◌
add_int64_back (pos n) h = ground arith
add_int64_back (negsuc n) h = ground arith

module _ (c : Codec) (s : Store) where
  open s use {Db}

  create_entry_stats :
      (clock : Clock) (src src' : Source) (rq rq' : RunQueue) (qi : QueueItem) (r : Result Entry)
      → create_entry c clock src rq qi ≡ some (r, src', rq')
      → rq'.q ≡ rq.q
  unfolding create_entry set_min_checkpoint
  create_entry_stats clock src src' rq rq' qi r e = ground arith

  requeue_stats :
      (clock : Clock) (st st' : Shared Db) (qi : QueueItem) (r : Result (Unit {0}))
      → requeue_message_to_disk c s clock st qi ≡ some (r, st')
      → st'.rq.q ≡ st.rq.q
  unfolding requeue_message_to_disk
  requeue_stats clock st st' qi r e = grind (arith, create_entry_stats clock st.source)

  count_request_in_flight :
      (st : Shared Db)
      → IsInt64 st.rq.q.stats.in_flight
      → (count_request c s st).rq.q.stats.in_flight ≡ st.rq.q.stats.in_flight
  unfolding count_request add_in_flight
  count_request_in_flight st r = add_int64_back st.rq.q.stats.in_flight r

  finish_in_flight :
      (st : Shared Db) (qi : QueueItem)
      → (finish_message c s st qi).rq.q.stats.in_flight ≡ st.rq.q.stats.in_flight
  unfolding finish_message add_count
  finish_in_flight st qi = ground arith

  -- Whatever becomes of a message, the number of requests in flight is afterwards what it was
  -- before.
  publish_message_in_flight :
      (clock : Clock) (acked : Bool) (st st' : Shared Db) (qi : QueueItem)
      → IsInt64 st.rq.q.stats.in_flight
      → publish_message c s clock acked st qi ≡ some st'
      → st'.rq.q.stats.in_flight ≡ st.rq.q.stats.in_flight
  publish_message_in_flight clock acked st st' qi r e =
      let counted = count_request_in_flight st r in
      elim (publish_cases c s clock acked st st' qi e) [
        | inl (_, same) ↦ rw same
        | inr (inl (_, _, _, res, requeued)) ↦
            ap (λ (q : Queue). q.stats.in_flight)
              (requeue_stats clock (count_request c s st) st' qi res requeued)
            ∙ counted
        | inr (inr (_, _, done)) ↦ rw done (finish_in_flight (count_request c s st) qi ∙ counted)
      ]
