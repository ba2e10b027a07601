-- ===== src/Tests/Kept.antt =====
-- The database in memory meets the laws of transactions, and a message of it is requeued.
use nats_requeue.Queue.{is_expired}
use nats_requeue.Bytes.{compare_bytes, put_uint64, Bytes, equal_bytes}
use nats_requeue.QueueKey.{bytes, new_queue_key_for_message}
use nats_requeue.Protocol.{get_queue_name}
use nats_requeue.Prelude.Int.{◌+ℤ◌}
use nats_requeue.Republisher.{
  create_entry, adj_msg_before_requeue_to_disk, duration_until_expires, Shared,
  requeue_message_to_disk, count_request, publish_message,
}
use nats_requeue.Prelude.{
  subst, All, All-filter, false, sym, ap, ◌∙◌, [], ◌∷◌, List, none, some, ◌≡◌, ◌≢◌, refl, arith,
  filter, ◌⊎◌,
}
use nats_requeue.Result.{Result, ok}
use nats_requeue.Store.{Item, Entry}
use nats_requeue.Republisher.Requeue.{IsRequeued}
use nats_requeue.Republisher.Kept.{failed_message_kept}
use nats_requeue.Tests.Wire.{wire-IsStored, wire, wire-LawfulCodec}
use nats_requeue.Tests.Queues.{messages, here, at}
use nats_requeue.Tests.Runs.{clock, st, due}
use nats_requeue.Bytes.Order.{equal_iff}
use nats_requeue.Store.Writes.{LawfulWrites, find}
use nats_requeue.Tests.Memory.{everything, memory, item, other, insert_item}
use nats_requeue.Key

find-insert :
    (k : Bytes) (e : Item) (is : List Item) → e.key ≢ k → find k (insert_item e is) ≡ find k is
unfolding find insert_item equal_bytes
find-insert k e [] h = ground (arith, equal_iff e.key k)
find-insert k e (i ∷ is) h =
    ground
      (arith, equal_iff e.key k, equal_iff i.key k, equal_iff e.key i.key, find-insert k e is h)

find-insert_self : (e : Item) (is : List Item) → find e.key (insert_item e is) ≡ some e
unfolding find insert_item equal_bytes
find-insert_self e [] = ground (arith, equal_iff e.key e.key)
find-insert_self e (i ∷ is) = ground (
  arith,
  equal_iff e.key e.key,
  equal_iff i.key e.key,
  equal_iff e.key i.key,
  find-insert_self e is,
)

find-remove_self : (k : Bytes) (is : List Item) → find k (filter (other k) is) ≡ none
unfolding find other equal_bytes
find-remove_self k [] = refl
find-remove_self k (i ∷ is) = ground (arith, equal_iff i.key k, find-remove_self k is)

find-remove : (k j : Bytes) (is : List Item) → k ≢ j → find j (filter (other k) is) ≡ find j is
unfolding find other equal_bytes
find-remove k j [] h = refl
find-remove k j (i ∷ is) h =
    ground (arith, equal_iff i.key k, equal_iff i.key j, find-remove k j is h)

All-insert_item :
    (P : Item → Type 0) (e : Item) (is : List Item) → P e → All P is → All P (insert_item e is)
unfolding insert_item
All-insert_item P e [] h all = (h, tt)
All-insert_item P e (i ∷ is) h (x, all) = ground (arith, h, x, all, All-insert_item P e is h all)

of_ok : {A : Type 0} (a b : A) → ◌≡◌ {A = Result A} (ok a) (ok b) → a ≡ b
of_ok a b h = cc h

pub memory-LawfulWrites : LawfulWrites memory
unfolding memory
memory-LawfulWrites = record {
  span = 0;
  view = λ t. t.0;
  committed = λ db db' f h. (db, db', sym (everything db.0), h, everything db'.0);
  set_self = λ t t' e l h.
      (item e, ap (λ u. find e.key u.0) (sym (of_ok _ t' h)) ∙ find-insert_self (item e) t.0, refl);
  set_other =
      λ t t' e k h n. ap (λ u. find k u.0) (sym (of_ok _ t' h)) ∙ find-insert k (item e) t.0 n;
  put_other = λ t t' k v j h n.
      ap (λ u. find j u.0) (sym (of_ok _ t' h))
      ∙ find-insert j (item (record { key = k; value = v; ttl = none })) t.0 n;
  set_all = λ P t t' e h new all.
      subst (λ u. All P u.0) (of_ok _ t' h)
        (All-insert_item P (item e) t.0 (new (item e) refl refl) all);
  put_all = λ P t t' k v h new all.
      let e = item (record { key = k; value = v; ttl = none }) in
      subst (λ u. All P u.0) (of_ok _ t' h) (All-insert_item P e t.0 (new e refl refl) all);
  delete_all =
      λ P t t' k h all. subst (λ u. All P u.0) (of_ok _ t' h) (All-filter P (other k) t.0 all);
  delete_self = λ t t' k h. ap (λ u. find k u.0) (sym (of_ok _ t' h)) ∙ find-remove_self k t.0;
  delete_other = λ t t' k j h n. ap (λ u. find j u.0) (sym (of_ok _ t' h)) ∙ find-remove k j t.0 n;
}

pub memory-span : memory-LawfulWrites.span ≡ 0
unfolding memory-LawfulWrites
memory-span = refl

differ : (a b : Bytes) → equal_bytes a b ≡ false → a ≢ b
differ a b h e = ground (arith, equal_iff a b, h, e)

-- The message at key 1 is not acknowledged.
abbrev after_failure : Shared (memory.Db)
after_failure =
    elim (requeue_message_to_disk wire memory clock (count_request wire memory st) due) [
      | none ↦ st
      | some (_, x) ↦ x
    ]

requeued : publish_message wire memory clock false st due ≡ some after_failure
unfolding publish_message wire is_expired requeue_message_to_disk memory create_entry Key.new
    Key.unix put_uint64 adj_msg_before_requeue_to_disk duration_until_expires
requeued = refl

failed_message_kept_example :
    (after_failure.db ≡ messages)
    ⊎ ((e : Entry) × (i : Item) × IsRequeued wire clock here due e
        × (find e.key (memory.items (after_failure.db) [] []) ≡ some i)
        × (i.value ≡ ok e.value)
        × (find (at 1) (memory.items (after_failure.db) [] []) ≡ none)
        × (find (at 2) (memory.items (after_failure.db) [] [])
            ≡ find (at 2) (memory.items messages [] [])))
unfolding wire is_expired equal_bytes compare_bytes bytes new_queue_key_for_message get_queue_name
    Key.new Key.unix put_uint64 ◌+ℤ◌ duration_until_expires
failed_message_kept_example =
    failed_message_kept wire wire-LawfulCodec memory memory-LawfulWrites clock st after_failure due
      (at 2) (wire-IsStored (due.v)) (omega arith) refl (rw memory-span refl) (differ _ _ refl)
      (differ _ _ refl) (differ _ _ refl) requeued
