-- ===== src/Queue/Visible.antt =====
-- What a range query promises: the queue items that it shows, in order, and the checkpoint that it
-- ends with, with no iterator and no early exit.
use nats_requeue.Prelude.{
  true, false, List, [], ◌∷◌, none, some, ◌≡◌, refl, Ordering, All, filter, arith, if◌then◌else◌,
}
use nats_requeue.Bytes.{Bytes, compare_bytes}
use nats_requeue.Bytes.Order.{Le, Le-trans, compare_of_Le}
use nats_requeue.QueueKey.{QueueKey, logged_key}
use nats_requeue.Result.{ok, err}
use nats_requeue.Store.{Item, le_bytes}
use nats_requeue.Store.Items.{le_bytes→Le}
use nats_requeue.Queue.{QueueItem, Callback, Ranged}

-- The items that are not deleted or expired, with the values that they hold.
abbrev pub queue_items : List Item → List QueueItem
queue_items [] = []
queue_items (i ∷ is) =
    let rest = queue_items is in
    if i.is_deleted_or_expired then rest else (elim i.value [
      | err e ↦ rest
      | ok v ↦ record { k = i.key; v = v; expires_at = i.expires_at } ∷ rest
    ])

-- The callback is fed one item after the other until it refuses one; the checkpoint is the last
-- item that it accepted.
unfoldable pub feed : {S : Type 0} → Callback S → List QueueItem → S → Bytes → Ranged S
feed f [] state checkpoint = record { state = state; checkpoint = checkpoint; error = none }
feed f (qi ∷ qis) state checkpoint =
    let r = f state qi in
    elim r.1 [
      | false ↦ record { state = r.0; checkpoint = checkpoint; error = none }
      | true ↦ feed f qis r.0 qi.k
    ]

-- The item's key can be parsed and printed, and its value can be read.
pub record IsReadable (i : Item) : Type 0 where
  pub parses : (q : QueueKey) × (logged_key i.key ≡ some q)
  pub reads : (v : Bytes) × (i.value ≡ ok v)

-- What lies behind the end of the range stays behind it.
pub beyond :
    (until k : Bytes) (is : List Item)
    → compare_bytes k until ≡ Ordering.gt
    → All (λ (j : Item). Le k j.key) is
    → filter (λ (j : Item). le_bytes j.key until) is ≡ []
beyond until k [] h d = refl
beyond until k (j ∷ is) h d = ground (
  arith,
  beyond until k is h d.1,
  Le-trans k j.key until d.0,
  le_bytes→Le j.key until,
  compare_of_Le k until,
)
