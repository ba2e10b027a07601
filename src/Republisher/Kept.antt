-- ===== src/Republisher/Kept.antt =====
-- A message whose request failed is not lost: it is replaced in one transaction.
use nats_requeue.Prelude.{◌<◌, [], some, none, ◌≡◌, ◌≢◌, ◌⊎◌, inl, inr, false, arith, sym, ◌∙◌}
use nats_requeue.Result.{ok, ◌>>=◌}
use nats_requeue.Store.{Store, Entry, Item}
use nats_requeue.Store.Writes.{find, Outlives, LawfulWrites, replaced}
use nats_requeue.Queue.{QueueItem, is_expired}
use nats_requeue.Protocol.{Codec, LawfulCodec, get_queue_name}
use nats_requeue.Republisher.{
  Clock, Shared, count_request, requeue_message_to_disk, publish_message, Bytes, Source, bytes,
  new_queue_key_for_message, ◌+ℤ◌, int_of_u64,
}
use nats_requeue.Republisher.Requeue.{
  IsRequeued, requeue_ttl, requeued-Outlives, create_entry-IsRequeued,
}
use nats_requeue.Key

-- The key that a message is put back under.
abbrev pub next_key : Codec → Clock → Source → QueueItem → Bytes
next_key c clock src qi = bytes (
    new_queue_key_for_message (get_queue_name (c.read qi.v))
      (Key.new src (clock.delay_from +ℤ int_of_u64 (c.read qi.v).delay)).0)

module _ (c : Codec) (laws : LawfulCodec c) (s : Store) (writes : LawfulWrites s) where
  open s use {Db}

  -- What became of a message that had to be requeued: the update failed and the database is as it
  -- was, or the update was made.
  pub requeue_cases :
      (clock : Clock) (st st' : Shared Db) (qi : QueueItem)
      → laws.IsStored qi.v
      → 1 < (c.read qi.v).retries
      → is_expired clock.second qi ≡ false
      → publish_message c s clock false st qi ≡ some st'
      → (e : Entry) × IsRequeued c clock st.source qi e
        × ((st'.db ≡ st.db)
            ⊎ (s.update st.db (λ t. s.set_entry t e >>= λ t'. s.delete t' qi.k) ≡ ok st'.db))
  unfolding publish_message requeue_message_to_disk count_request
  requeue_cases clock st st' qi coded r x h =
      let counted = count_request c s st in
      let (e, src', rq', made, ok_entry) =
        create_entry-IsRequeued c laws clock counted.source counted.rq qi coded r in
      (e, ok_entry, ground (arith, x, made, h))

  -- Take a live, encoded message with more than one retry left, whose request was not acknowledged,
  -- that is requeued with a time to live that lasts beyond its handling, and whose next key is not
  -- its present one. If its handling ends, then either the database is as it was, or
  -- the message is gone from its key, stands under its next key as IsRequeued says, and whatever any
  -- other key `j` holds is as it was.
  pub failed_message_kept :
      (clock : Clock) (st st' : Shared Db) (qi : QueueItem) (j : Bytes)
      → laws.IsStored qi.v
      → 1 < (c.read qi.v).retries
      → is_expired clock.second qi ≡ false
      → Outlives writes.span (some (requeue_ttl c clock qi))
      → qi.k ≢ next_key c clock st.source qi
      → next_key c clock st.source qi ≢ j
      → qi.k ≢ j
      → publish_message c s clock false st qi ≡ some st'
      → (st'.db ≡ st.db)
        ⊎ ((e : Entry) × (i : Item) × IsRequeued c clock st.source qi e
            × (find e.key (s.items st'.db [] []) ≡ some i)
            × (i.value ≡ ok e.value)
            × (find qi.k (s.items st'.db [] []) ≡ none)
            × (find j (s.items st'.db [] []) ≡ find j (s.items st.db [] [])))
  failed_message_kept clock st st' qi j coded r x live n p q h =
      let (e, again, made) = requeue_cases clock st st' qi coded r x h in
      elim made [
        | inl same ↦ inl same
        | inr done ↦
            let (i, found, value, gone, others) =
              replaced s writes st.db st'.db e qi.k j done
                (requeued-Outlives c clock st.source qi e writes.span again live)
                (λ k. n (k ∙ again.key)) (λ k. p (sym again.key ∙ k)) q in
            inr (e, i, again, found, value, gone, others)
      ]
