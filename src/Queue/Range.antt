-- ===== src/Queue/Range.antt =====
-- Range and ReadFromCheckpoint show exactly the live items of the database between their two ends.
use nats_requeue.Prelude.{List, [], ◌∷◌, some, ◌≡◌, refl, All, filter, arith}
use nats_requeue.Bytes.{Bytes}
use nats_requeue.Key
use nats_requeue.QueueKey.{QueueKey}
use nats_requeue.Store.{Store, Item, IsSorted, le_bytes}
use nats_requeue.Queue.{Queue, Callback, range_loop}
use nats_requeue.Queue.Visible.{queue_items, feed, IsReadable, beyond}

-- On a sorted iteration of readable items, the loop feeds the callback the live items up to the end.
pub range_loop-feed :
    {S : Type 0} (f : Callback S) (until : Bytes) (is : List Item) (state : S) (checkpoint : Bytes)
    → IsSorted is
    → All IsReadable is
    → range_loop f until is state checkpoint
      ≡ some
          (feed f (queue_items (filter (λ (i : Item). le_bytes i.key until) is)) state checkpoint)
unfolding range_loop feed
range_loop-feed f until [] state checkpoint h d = refl
range_loop-feed f until (i ∷ is) state checkpoint h d = grind (
  arith,
  d.0.parses.1,
  d.0.reads.1,
  range_loop-feed f until is state checkpoint h.1 d.1,
  range_loop-feed f until is
      (f state (record { k = i.key; v = d.0.reads.0; expires_at = i.expires_at })).0 i.key h.1 d.1,
  beyond until i.key is,
)
