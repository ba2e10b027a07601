-- ===== src/Republisher/Correct.antt =====
-- correctCheckpoint: no live message is left behind a queue's checkpoint.
use nats_requeue.Prelude.{List, [], some, ◌≡◌, arith}
use nats_requeue.Bytes.{Bytes}
use nats_requeue.Bytes.Order.{Le, Le-refl, Le_of_compare, Le_of_gt}
use nats_requeue.Key
use nats_requeue.Key.{Time, Source}
use nats_requeue.QueueKey.{QueueKey, bytes, first_message, new_queue_key_for_message}
use nats_requeue.Result.{ok}
use nats_requeue.Store.{Store}
use nats_requeue.Store.Items.{between}
use nats_requeue.Queue.{Queue, QueueItem, update_checkpoint_cond, compare_checkpoint}
use nats_requeue.Queue.Visible.{queue_items}
use nats_requeue.Republisher.Run.{gt}

-- The live messages of a queue from its first key up to a time.
abbrev pub live : (s : Store) → s.Db → Source → Queue → Time → List QueueItem
live s db src q until = queue_items (
    between (bytes (first_message q.name))
      (bytes (new_queue_key_for_message q.name (Key.new src until).0)) (s.items db [] []))

module _ (s : Store) where
  open s use {Db}

  -- A conditional update moves the checkpoint down to `c`, or finds it at or below `c` and leaves it.
  pub update_down :
      (db db' : Db) (q q' : Queue) (c : Bytes)
      → update_checkpoint_cond s db q c (some (λ cp. gt (compare_checkpoint q c))) ≡ ok (db', q')
      → Le q'.checkpoint c × Le q'.checkpoint q.checkpoint
  unfolding update_checkpoint_cond compare_checkpoint
  update_down db db' q q' c e = ground (
    arith,
    Le_of_gt q.checkpoint c,
    Le_of_compare q.checkpoint c,
    Le-refl c,
    Le-refl q.checkpoint,
  )
