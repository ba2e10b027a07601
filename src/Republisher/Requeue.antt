-- ===== src/Republisher/Requeue.antt =====
-- The entry that a message is put back under when its request failed.
use nats_requeue.Store.Writes.{Outlives}
use nats_requeue.Prelude.{
  ℕ, subst, sym, ap, ◌∙◌, suc, ◌-◌, ◌<◌, some, ◌≡◌, ◌≢◌, inl, inr, refl, arith, if◌then◌else◌, ◌==◌,
  Bool-cases,
}
use nats_requeue.Prelude.Int.{ℤ, ◌+ℤ◌, u64_of_int, int_of_u64}
use nats_requeue.Bytes.{Bytes}
use nats_requeue.Key
use nats_requeue.Key.{Source, Time}
use nats_requeue.QueueKey.{bytes, new_queue_key_for_message}
use nats_requeue.Result.{ok}
use nats_requeue.Store.{Entry}
use nats_requeue.Queue.{QueueItem}
use nats_requeue.Protocol.{Codec, LawfulCodec, get_queue_name}
use nats_requeue.Republisher.{
  RunQueue, Clock, set_min_checkpoint, duration_until_expires, adj_msg_before_requeue_to_disk,
  create_entry,
}

-- The entry that a failed message is replaced by: one retry less, the time to live that is left if it
-- had one, all else as it was, under a new key of the same queue whose time is that of the end of the
-- delay.
pub record IsRequeued (c : Codec) (clock : Clock) (src : Source) (qi : QueueItem) (e : Entry)
    : Type 0 where
  pub key :
      e.key
      ≡ bytes (
          new_queue_key_for_message
            (get_queue_name (c.read qi.v))
            (Key.new src (clock.delay_from +ℤ int_of_u64 (c.read qi.v).delay)).0)
  pub fewer : suc (c.read e.value).retries ≡ (c.read qi.v).retries
  pub ttl : (c.read e.value).ttl ≡ (
      if (c.read qi.v).ttl == 0 then 0 else u64_of_int (duration_until_expires clock.until_from qi))
  pub delay : (c.read e.value).delay ≡ (c.read qi.v).delay
  pub queue_name : (c.read e.value).queue_name ≡ (c.read qi.v).queue_name
  pub subject : (c.read e.value).original_subject ≡ (c.read qi.v).original_subject
  pub payload : (c.read e.value).original_payload ≡ (c.read qi.v).original_payload
  pub expiry : e.ttl ≡ some (int_of_u64 (c.read e.value).ttl)

-- The duration given to WithTTL: 0 for a message that has no time to live, else what was left of it.
abbrev pub requeue_ttl : Codec → Clock → QueueItem → ℤ
requeue_ttl c clock qi =
    int_of_u64 (
      if (c.read qi.v).ttl == 0 then 0 else u64_of_int (duration_until_expires clock.until_from qi))

-- The entry lasts as long as that duration.
pub requeued-Outlives :
    (c : Codec) (clock : Clock) (src : Source) (qi : QueueItem) (e : Entry) (span : ℕ)
    → IsRequeued c clock src qi e
    → Outlives span (some (requeue_ttl c clock qi))
    → Outlives span e.ttl
requeued-Outlives c clock src qi e span again live =
    subst (Outlives span) (sym (again.expiry ∙ ap (λ n. some (int_of_u64 n)) again.ttl)) live

module _ (c : Codec) (laws : LawfulCodec c) where
  adjusted :
      (now : Time) (qi : QueueItem)
      → laws.IsStored qi.v
      → 1 < (c.read qi.v).retries
      → (v : Bytes) × (adj_msg_before_requeue_to_disk c now qi ≡ some (ok v))
        × (c.read v ≡ record (c.read qi.v) {
          retries = (c.read qi.v).retries - 1;
          ttl = if (c.read qi.v).ttl == 0 then 0 else u64_of_int (duration_until_expires now qi);
        })
  unfolding adj_msg_before_requeue_to_disk
  adjusted now qi st h =
      let (v, m, st', rd) = laws.retries_stored qi.v ((c.read qi.v).retries - 1) st (omega arith) in
      elim (Bool-cases ((c.read qi.v).ttl == 0)) [
        | inl z ↦ (v, ground (arith, m, rd, z), ground (arith, rd, z))
        | inr z ↦
            let left = u64_of_int (duration_until_expires now qi) in
            let kept : (c.read v).ttl ≢ 0 = ground (arith, rd, z) in
            let (v', m', _, rd') = laws.ttl_stored v left st' kept in
            (v', ground (arith, m, rd, z, m'), ground (arith, rd, rd', z))
      ]

  -- An encoded message with more than one retry left can always be requeued: there is no panic and no
  -- error.
  pub create_entry-IsRequeued :
      (clock : Clock) (src : Source) (rq : RunQueue) (qi : QueueItem)
      → laws.IsStored qi.v
      → 1 < (c.read qi.v).retries
      → (e : Entry) × (src' : Source) × (rq' : RunQueue) × (create_entry c clock src rq qi
          ≡ some (ok e, src', rq'))
        × IsRequeued c clock src qi e
  create_entry-IsRequeued clock src rq qi st h =
      let (v, adj, rd) = adjusted clock.until_from qi st h in
      let (key, src') = Key.new src (clock.delay_from +ℤ int_of_u64 (c.read qi.v).delay) in
      (
        record {
          key = bytes (new_queue_key_for_message (get_queue_name (c.read qi.v)) key);
          value = v;
          ttl = some (int_of_u64 (c.read v).ttl);
        },
        src',
        set_min_checkpoint rq key,
        unfold create_entry in ground (arith, adj),
        record {
          key = refl;
          fewer = ground (arith, rd);
          ttl = ground (arith, rd);
          delay = ground (arith, rd);
          queue_name = ground (arith, rd);
          subject = ground (arith, rd);
          payload = ground (arith, rd);
          expiry = refl;
        },
      )
