-- ===== src/Stats/Refresh.antt =====
-- refreshStats counts the live items of a queue.
use nats_requeue.Prelude.{
  ℕ, ◌+◌, ◌<◌, ◌≤◌, ◌^◌, Bool, true, not, ◌&&◌, List, [], ◌∷◌, ◌++◌, length, filter, filter-filter,
  All, ◌≡◌, refl, ap, ◌∙◌, inl, inr, Bool-cases, arith,
}
use nats_requeue.Prelude.Int.{pos, ◌+ℤ◌}
use nats_requeue.Bytes.{Bytes}
use nats_requeue.Key
use nats_requeue.Key.{Key, prefix_of}
use nats_requeue.Key.Prefix.{has_prefix}
use nats_requeue.QueueKey.{
  sep, queues_namespace, messages_bucket, bytes, first_message, last_message, name_prefix,
  new_queue_key_for_message,
}
use nats_requeue.Store.{Store, Item, Lawful, le_bytes}
use nats_requeue.Stats.{QueueStats, add_int64, count_items, refresh_stats}

prefix_of-append : (p xs ys : Bytes) → prefix_of (p ++ xs) (p ++ ys) ≡ p ++ prefix_of xs ys
unfolding prefix_of
prefix_of-append [] xs ys = refl
prefix_of-append (x ∷ p) xs ys = ground (arith, prefix_of-append p xs ys)

-- The prefix that a queue's first and last message have in common is that of the queue's name.
prefix_of-messages :
    (name : Bytes)
    → prefix_of (bytes (first_message name)) (bytes (last_message name))
      ≡ name_prefix (first_message name)
unfolding prefix_of bytes first_message last_message name_prefix new_queue_key_for_message
prefix_of-messages name =
    ap (λ l. queues_namespace ++ (sep ∷ (messages_bucket ++ (sep ∷ l))))
      (prefix_of-append name (sep ∷ Key.min) (sep ∷ Key.max))

length-filter : {A : Type 0} (p : A → Bool) (xs : List A) → length (filter p xs) ≤ length xs
length-filter p [] = omega arith
length-filter p (x ∷ xs) = ground (arith, length-filter p xs)

-- The loop goes through a list with the prefix, and counts what is not deleted or expired.
count-live :
    (prefix : Bytes) (is : List Item) (n : ℕ)
    → All (λ (i : Item). has_prefix prefix i.key ≡ true) is
    → n + length is < 2 ^ 63
    → count_items prefix is (pos n)
      ≡ pos (n + length (filter (λ (i : Item). not i.is_deleted_or_expired) is))
unfolding count_items add_int64 ◌+ℤ◌
count-live prefix [] n h b = ground arith
count-live prefix (i ∷ is) n h b =
    ground (arith, h.0, count-live prefix is n h.1, count-live prefix is (n + 1) h.1)

All-kept :
    (p q : Item → Bool) (is : List Item)
    → All (λ (i : Item). p i ≡ true) (filter (λ (i : Item). p i && q i) is)
All-kept p q [] = tt
All-kept p q (i ∷ is) = elim (Bool-cases (p i)) [
  | inl e ↦ elim (Bool-cases (q i)) [
    | inl d ↦ rw (e, d) (e, All-kept p q is)
    | inr d ↦ rw (e, d) (All-kept p q is)
  ]
  | inr e ↦ rw e (All-kept p q is)
]

-- The item is live, is stored under the queue's name, and is not below the queue's first message.
abbrev pub is_counted : Bytes → Item → Bool
is_counted name i =
    (has_prefix (name_prefix (first_message name)) i.key
      && le_bytes (bytes (first_message name)) i.key)
    && not i.is_deleted_or_expired

-- A refresh sets the count to the number of the live items of the whole database that are stored under
-- the queue's name and not below its first message, in a database of fewer than 2^63 items.
pub count-refresh_stats :
    (s : Store) (laws : Lawful s) (db : s.Db) (qs : QueueStats)
    → length (s.items db [] []) < 2 ^ 63
    → (refresh_stats s db qs).count
      ≡ pos (length (filter (is_counted qs.queue_name) (s.items db [] [])))
unfolding refresh_stats
count-refresh_stats s laws db qs b =
    let seek = bytes (first_message qs.queue_name) in
    let prefix = name_prefix (first_message qs.queue_name) in
    let is = s.items db [] [] in
    let shown = filter (λ (i : Item). has_prefix prefix i.key && le_bytes seek i.key) is in
    let fewer = length-filter (λ (i : Item). has_prefix prefix i.key && le_bytes seek i.key) is in
    let live = filter (λ (i : Item). not i.is_deleted_or_expired) shown in
    let kept =
      All-kept (λ (i : Item). has_prefix prefix i.key) (λ (i : Item). le_bytes seek i.key) is in
    let counted : count_items prefix shown (pos 0) ≡ pos (length live) =
      count-live prefix shown 0 kept (omega (arith, b, fewer)) ∙ ap pos (omega arith) in
    rw (prefix_of-messages qs.queue_name, laws.narrowed db prefix seek)
      (counted ∙ ap (λ l. pos (length l)) (filter-filter _ _ is))
