-- ===== src/Republisher/Advance.antt =====
-- The keys' source over the workers' messages, and the keys that no message has.
use nats_requeue.Prelude.{
  ℕ, suc, ◌+◌, ◌≤◌, ◌<◌, ◌^◌, Bool, List, [], ◌∷◌, some, ◌≡◌, ◌≢◌, ◌⊎◌, inl, inr, refl, sym, ap,
  ◌∙◌, All, length, arith,
}
use nats_requeue.Bytes.{Bytes}
use nats_requeue.Key.{Source}
use nats_requeue.QueueKey.Fresh.{IsIssued, IsNext, IsIssued-mono}
use nats_requeue.Store.{Store}
use nats_requeue.Store.Writes.{find, LawfulWrites}
use nats_requeue.Queue.{QueueItem}
use nats_requeue.Protocol.{Codec}
use nats_requeue.Republisher.{Clock, Shared}
use nats_requeue.Republisher.Effects.{publish_source, publish_other}
use nats_requeue.Republisher.Run.{publish_messages}
use nats_requeue.Republisher.Checkpoint.{publish_messages_cons}

-- The source issued some keys, at most `n`.
abbrev pub Advances : Source → Source → ℕ → Type 0
Advances src src' n =
    (src'.instance_id ≡ src.instance_id) × (src.seq ≤ src'.seq) × (src'.seq ≤ src.seq + n)

pub advance : (src src₁ : Source) → (src₁ ≡ src) ⊎ IsNext src src₁ → Advances src src₁ 1
advance src src₁ (inl e) = (
  ap (λ (x : Source). x.instance_id) e,
  omega (arith, ap (λ (x : Source). x.seq) e),
  omega (arith, ap (λ (x : Source). x.seq) e),
)
advance src src₁ (inr (i, n)) = (i, omega (arith, n), omega (arith, n))

module _ (c : Codec) (s : Store) (writes : LawfulWrites s) (env : QueueItem → Clock × Bool) where
  open s use {Db}

  pub done_nil : (st st' : Shared Db) → publish_messages s c env st [] ≡ some st' → st ≡ st'
  unfolding publish_messages
  done_nil st st' h = cc

  one_more :
      (src src₁ src' : Source) (n : ℕ)
      → (src₁ ≡ src) ⊎ IsNext src src₁
      → Advances src₁ src' n
      → Advances src src' (suc n)
  one_more src src₁ src' n (inl e) (i, lo, hi) =
      let same = ap (λ (x : Source). x.seq) e in
      (i ∙ ap (λ (x : Source). x.instance_id) e, omega (arith, same, lo), omega (arith, same, hi))
  one_more src src₁ src' n (inr (j, e)) (i, lo, hi) =
      (i ∙ j, omega (arith, e, lo), omega (arith, e, hi))

  pub publish_messages-Advances :
      (st st' : Shared Db) (qis : List QueueItem)
      → st.source.seq + length qis < 2 ^ 64
      → publish_messages s c env st qis ≡ some st'
      → Advances st.source st'.source (length qis)
  publish_messages-Advances st st' [] room h =
      let same = ap (λ (x : Shared Db). x.source) (done_nil st st' h) in
      rw⁻¹ same (refl, omega arith, omega arith)
  publish_messages-Advances st st' (qi ∷ qis) room h =
      let (st₁, p, rest) = publish_messages_cons c s env st st' qi qis h in
      let moved =
        publish_source c s writes (env qi).0 (env qi).1 st st₁ qi (omega (arith, room)) p in
      let (_, _, hi) = advance st.source st₁.source moved in
      one_more st.source st₁.source st'.source (length qis) moved
        (publish_messages-Advances st₁ st' qis (omega (arith, room, hi)) rest)

  -- A key that was issued before and is none of the messages' is as it was.
  pub publish_messages_other :
      (st st' : Shared Db) (qis : List QueueItem) (j : Bytes)
      → st.source.instance_id < 2 ^ 64
      → st.source.seq + length qis < 2 ^ 64
      → IsIssued st.source j
      → All (λ (qi : QueueItem). qi.k ≢ j) qis
      → publish_messages s c env st qis ≡ some st'
      → find j (s.items st'.db [] []) ≡ find j (s.items st.db [] [])
  publish_messages_other st st' [] j id room issued d h =
      ap (λ (x : Shared Db). find j (s.items x.db [] [])) (sym (done_nil st st' h))
  publish_messages_other st st' (qi ∷ qis) j id room issued (n, d) h =
      let (st₁, p, rest) = publish_messages_cons c s env st st' qi qis h in
      let clock = (env qi).0 in
      let moved = publish_source c s writes clock (env qi).1 st st₁ qi (omega (arith, room)) p in
      let (i, lo, hi) = advance st.source st₁.source moved in
      publish_messages_other st₁ st' qis j (omega (arith, i, id)) (omega (arith, room, hi))
        (IsIssued-mono st.source st₁.source j i lo issued) d rest
      ∙ publish_other c s writes clock (env qi).1 st st₁ qi j id (omega (arith, room)) issued n p
