-- ===== src/Republisher/Sends.antt =====
-- What a run sends to the workers: items of the database, no more than there are.
use nats_requeue.Prelude.{
  ℕ, zero, suc, ◌+◌, ◌≤◌, List, [], ◌∷◌, Option, some, ◌≡◌, All, All-append, All-filter, length,
  length-append, length-filter, arith, ◌&&◌, Option-cases, inl, inr,
}
use nats_requeue.Bytes.{Bytes}
use nats_requeue.Republisher.{RunQueue}
use nats_requeue.Republisher.Run.{Sent, send, process_queue}
use nats_requeue.Result.{ok}
use nats_requeue.Queue.{Ranged, range, read_from_checkpoint, QueueItem}
use nats_requeue.QueueKey.{QueueKey, bytes, logged_key, new_queue_key_for_message}
use nats_requeue.Key.{prefix_of, Time, Source}
use nats_requeue.Key.Prefix.{has_prefix}
use nats_requeue.Store.{le_bytes, Store, Lawful, Item}
use nats_requeue.Queue.Preserves.{range_loop_preserves}
use nats_requeue.Key

-- What the run may send has the property, and it is no more than the items that there are.
module _ (P : Item → Type 0) (Q : QueueItem → Type 0)
    (shown : (i : Item) (v : Bytes)
      → P i
      → i.value ≡ ok v
      → Q (record { k = i.key; v = v; expires_at = i.expires_at })) where
  abbrev Room : ℕ → ℕ → Sent → Type 0
  Room total n st = All Q st.items × (length st.items + n ≤ total)

  send-Room :
      (total n : ℕ) (st : Sent) (qi : QueueItem)
      → Q qi
      → Room total (suc n) st
      → Room total n ((send st qi).0)
  unfolding send
  send-Room total n st qi q (all, few) =
      let more = All-append Q st.items (qi ∷ []) all (q, tt) in
      let longer = length-append st.items (qi ∷ []) in
      (ground (arith, more, all), ground (arith, few, longer))

  module _ (s : Store) (laws : Lawful s) where
    open s use {Db, items}

    range_sends :
        (db : Db) (seek until : QueueKey) (quit : Option ℕ) (r : Ranged Sent)
        → All P (items db [] [])
        → range s db seek until send (record { items = []; quit_after = quit }) ≡ some r
        → Room (length (items db [] [])) zero r.state
    unfolding range
    range_sends db seek until quit r p e =
        let total = length (items db [] []) in
        let start = bytes seek in
        let prefix = prefix_of start (bytes until) in
        let narrow = λ (i : Item). has_prefix prefix i.key && le_bytes start i.key in
        let fewer = length-filter narrow (items db [] []) in
        range_loop_preserves send P (Room total) (λ n st h. (h.0, omega (arith, h.1)))
          (λ n st i v h k. send-Room total n st _ (shown i v h k)) (bytes until)
          (items db prefix start) (record { items = []; quit_after = quit }) start r
          (rw (laws.narrowed db) (All-filter P narrow (items db [] []) p))
          (tt, rw (laws.narrowed db) (omega (arith, fewer))) e

    pub process_queue_sends :
        (db : Db) (src src' : Source) (rq rq' : RunQueue) (until : Time) (quit : Option ℕ)
        (sent : List QueueItem)
        → All P (items db [] [])
        → process_queue s db src rq until quit ≡ some (sent, src', rq')
        → All Q sent × (length sent ≤ length (items db [] []))
    unfolding process_queue read_from_checkpoint
    process_queue_sends db src src' rq rq' until quit sent p e =
        elim (Option-cases (logged_key rq.q.checkpoint)) [
          | inl n ↦ absurd (ground (arith, n, e))
          | inr (seek, k) ↦
              let end = new_queue_key_for_message rq.q.name (Key.new src until).0 in
              elim (Option-cases
                (range s db seek end send (record { items = []; quit_after = quit }))) [
                  | inl n ↦ absurd (ground (arith, n, k, e))
                  | inr (r, k') ↦
                      let (all, few) = range_sends db seek end quit r p k' in
                      let same : r.state.items ≡ sent = ground (arith, k, k', e) in
                      (rw⁻¹ same all, rw⁻¹ same (omega (arith, few)))
                ]
        ]

module _ (s : Store) where
  open s use {Db}

  pub process_queue_source :
      (db : Db) (src src' : Source) (rq rq' : RunQueue) (until : Time) (quit : Option ℕ)
      (sent : List QueueItem)
      → process_queue s db src rq until quit ≡ some (sent, src', rq')
      → src' ≡ (Key.new src until).1
  unfolding process_queue read_from_checkpoint
  process_queue_source db src src' rq rq' until quit sent e = ground (arith, e)
