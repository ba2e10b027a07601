-- ===== src/Republisher/Survival.antt =====
-- A message that is not acknowledged outlives a run of the workers over any list of messages.
use nats_requeue.Republisher.Advance.{advance, publish_messages-Advances, publish_messages_other}
use nats_requeue.Prelude.{
  suc, ◌+◌, ◌<◌, ◌^◌, Bool, List, [], ◌∷◌, some, ◌≡◌, ◌≢◌, ◌⊎◌, inl, inr, refl, sym, ap, ◌∙◌, All,
  length, arith, Bool-cases, false,
}
use nats_requeue.Bytes.{Bytes, equal_bytes}
use nats_requeue.Prelude.{All-mono}
use nats_requeue.Key.{Source}
use nats_requeue.Key
use nats_requeue.QueueKey.Fresh.{
  IsOwn, IsIssued, IsIssued-mono, issued-new_ne, new-IsIssued, IsMessageKey, new_key,
}
use nats_requeue.Result.{ok}
use nats_requeue.Store.{Store, Item}
use nats_requeue.Store.Writes.{find, Outlives, LawfulWrites, replaced_new}
use nats_requeue.Queue.{QueueItem, is_expired}
use nats_requeue.Protocol.{Codec, LawfulCodec}
use nats_requeue.Republisher.{Clock, Shared, publish_message}
use nats_requeue.Republisher.Effects.{
  publish_source, publish_other, unacked_source, next_time, next_name,
}
use nats_requeue.Republisher.Requeue.{requeue_ttl, requeued-Outlives}
use nats_requeue.Republisher.Kept.{requeue_cases}
use nats_requeue.Bytes.Order.{equal_iff}
use nats_requeue.Republisher.Run.{publish_messages}
use nats_requeue.Republisher.Checkpoint.{publish_messages_cons}

-- The database holds the value under the key.
abbrev pub Holds : (s : Store) → s.Db → Bytes → Bytes → Type 0
Holds s db k v = (i : Item) × (find k (s.items db [] []) ≡ some i) × (i.value ≡ ok v)

-- The same message, put back at most once.
pub record IsSameMessage (c : Codec) (v v' : Bytes) : Type 0 where
  pub queue_name : (c.read v').queue_name ≡ (c.read v).queue_name
  pub subject : (c.read v').original_subject ≡ (c.read v).original_subject
  pub payload : (c.read v').original_payload ≡ (c.read v).original_payload
  pub retries :
      ((c.read v').retries ≡ (c.read v).retries) ⊎ (suc (c.read v').retries ≡ (c.read v).retries)

pub IsSameMessage-refl : (c : Codec) (v : Bytes) → IsSameMessage c v v
IsSameMessage-refl c v = record {
  queue_name = refl;
  subject = refl;
  payload = refl;
  retries = inl refl;
}

-- What there is of a message after a run: it stands under some message's key of this instance or
-- another, which was issued by now.
pub record Survives (c : Codec) (s : Store) (db : s.Db) (src : Source) (v : Bytes) : Type 0 where
  pub key : Bytes
  pub value : Bytes
  pub held : Holds s db key value
  pub same : IsSameMessage c v value
  pub message : IsMessageKey key
  pub issued : IsIssued src key

module _ (c : Codec) (s : Store) (writes : LawfulWrites s) (env : QueueItem → Clock × Bool) where
  open s use {Db}

  module _ (laws : LawfulCodec c) where
    -- The queue item of the message `v`, whose request is not acknowledged, and whose time to live at
    -- its requeueing lasts beyond the run.
    abbrev pub IsLost : Bytes → QueueItem → Type 0
    IsLost v qi =
        (qi.v ≡ v)
        × ((env qi).1 ≡ false)
        × Outlives writes.span (some (requeue_ttl c ((env qi).0) qi))

    -- One message that was not acknowledged: the database is as it was, or holds it under a new key.
    unacked_message :
        (clock : Clock) (st st' : Shared Db) (qi : QueueItem)
        → st.source.instance_id < 2 ^ 64
        → suc st.source.seq < 2 ^ 64
        → IsIssued st.source qi.k
        → laws.IsStored qi.v
        → 1 < (c.read qi.v).retries
        → Outlives writes.span (some (requeue_ttl c clock qi))
        → publish_message c s clock false st qi ≡ some st'
        → (st'.db ≡ st.db)
          ⊎ ((v' : Bytes) × Holds s st'.db
                (new_key st.source (next_time c clock qi) (next_name c qi))
                v'
              × IsSameMessage c qi.v v'
              × IsIssued st'.source (new_key st.source (next_time c clock qi) (next_name c qi)))
    unacked_message clock st st' qi id room issued coded r live h =
        elim (Bool-cases (is_expired clock.second qi)) [
          | inl x ↦ inl (unfold publish_message in ground (arith, x, h))
          | inr x ↦
              let (e, again, made) = requeue_cases c laws s writes clock st st' qi coded r x h in
              let time = next_time c clock qi in
              let name = next_name c qi in
              elim made [
                | inl same ↦ inl same
                | inr u ↦
                    let fresh = issued-new_ne st.source time name id room qi.k issued in
                    let (i, found, value) =
                      replaced_new s writes st.db st'.db e qi.k u
                        (requeued-Outlives c clock st.source qi e writes.span again live)
                        (λ k. fresh (k ∙ again.key)) in
                    let moved = unacked_source c s writes clock st st' qi r x h in
                    inr (
                      e.value,
                      (i, ap (λ k. find k (s.items st'.db [] [])) (sym again.key) ∙ found, value),
                      record {
                        queue_name = again.queue_name;
                        subject = again.subject;
                        payload = again.payload;
                        retries = inr again.fewer;
                      },
                      rw moved (new-IsIssued st.source time name id room),
                    )
              ]
        ]

    -- A message that stands under none of the keys that are handled stays.
    stays :
        (st st' : Shared Db) (qis : List QueueItem) (key v value : Bytes)
        → st.source.instance_id < 2 ^ 64
        → st.source.seq + length qis < 2 ^ 64
        → IsMessageKey key
        → IsIssued st.source key
        → All (λ (qi : QueueItem). qi.k ≢ key) qis
        → IsSameMessage c v value
        → Holds s st.db key value
        → publish_messages s c env st qis ≡ some st'
        → Survives c s st'.db st'.source v
    stays st st' qis key v value id room mk issued d same (i, found, value_eq) h =
        let (ie, lo, hi) = publish_messages-Advances c s writes env st st' qis room h in
        record {
          key = key;
          value = value;
          held = (
            i,
            publish_messages_other c s writes env st st' qis key id room issued d h ∙ found,
            value_eq,
          );
          same = same;
          message = mk;
          issued = IsIssued-mono st.source st'.source key ie lo issued;
        }

    -- Take an encoded message that the database holds under a message's key, with more than one retry
    -- left. If no request for it is acknowledged and its time to live lasts, then after the workers have gone through any list of
    -- messages the database holds it still: the same queue, subject and payload, with at most one retry
    -- less, under its key or a new one. All messages' keys were issued before, and the sequence numbers
    -- do not wrap.
    pub unacked_kept :
        (st st' : Shared Db) (qis : List QueueItem) (k v : Bytes)
        → st.source.instance_id < 2 ^ 64
        → st.source.seq + length qis < 2 ^ 64
        → IsMessageKey k
        → IsIssued st.source k
        → All (λ (qi : QueueItem). IsOwn st.source qi.k) qis
        → All (λ (qi : QueueItem). qi.k ≡ k → IsLost v qi) qis
        → laws.IsStored v
        → 1 < (c.read v).retries
        → Holds s st.db k v
        → publish_messages s c env st qis ≡ some st'
        → Survives c s st'.db st'.source v
    unacked_kept st st' [] k v id room mk issued all mine coded r held h =
        stays st st' [] k v v id room mk issued tt (IsSameMessage-refl c v) held h
    unacked_kept st st' (qi ∷ qis) k v id room mk issued (before, all) (mine, others) coded r held
          h =
        let (st₁, p, rest) = publish_messages_cons c s env st st' qi qis h in
        let clock = (env qi).0 in
        let moved = publish_source c s writes clock (env qi).1 st st₁ qi (omega (arith, room)) p in
        let (i, lo, hi) = advance st.source st₁.source moved in
        let id₁ : st₁.source.instance_id < 2 ^ 64 = omega (arith, i, id) in
        let room₁ : st₁.source.seq + length qis < 2 ^ 64 = omega (arith, room, hi) in
        let all₁ =
          All-mono (λ (x : QueueItem). IsOwn st.source x.k)
            (λ (x : QueueItem). IsOwn st₁.source x.k)
            (λ x own m. IsIssued-mono st.source st₁.source x.k i lo (own m)) qis all in
        let go : Holds s st₁.db k v → Survives c s st'.db st'.source v = λ held₁.
          unacked_kept st₁ st' qis k v id₁ room₁ mk
            (IsIssued-mono st.source st₁.source k i lo issued) all₁ others coded r held₁ rest in
        elim (Bool-cases (equal_bytes qi.k k)) [
          | inr n ↦
              let same =
                publish_other c s writes clock (env qi).1 st st₁ qi k id (omega (arith, room))
                  issued (λ e. ground (arith, equal_iff qi.k k, n, e)) p in
              let (item, found, value) = held in go (item, same ∙ found, value)
          | inl e ↦
              let k_eq : qi.k ≡ k = ground (arith, equal_iff qi.k k, e) in
              let (v_eq, lost, live) = mine k_eq in
              let p₁ : publish_message c s clock false st qi ≡ some st₁ = rw⁻¹ lost p in
              let key = new_key st.source (next_time c clock qi) (next_name c qi) in
              elim (unacked_message clock st st₁ qi id (omega (arith, room)) (before (rw k_eq mk))
                (rw v_eq coded) (omega (arith, r, ap (λ x. (c.read x).retries) v_eq)) live p₁) [
                  | inl same ↦ go (rw same held)
                  | inr (v', held', again, issued') ↦
                      stays st₁ st' qis key v v' id₁ room₁
                        (next_name c qi, (Key.new st.source (next_time c clock qi)).0, refl) issued'
                        (All-mono (λ (x : QueueItem). IsOwn st.source x.k)
                          (λ (x : QueueItem). x.k ≢ key)
                          (λ x own e.
                            issued-new_ne st.source (next_time c clock qi) (next_name c qi) id
                              (omega (arith, room)) x.k
                              (own
                                (next_name c qi, (Key.new st.source (next_time c clock qi)).0, e))
                              e)
                          qis all)
                        (rw⁻¹ v_eq again) held' rest
                ]
        ]
