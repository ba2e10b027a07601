-- ===== src/Manager/Loading.antt =====
-- loadFromDisk: Set of the queue builder refuses the first name that it is given, so no queue is
-- ever loaded.
use nats_requeue.Prelude.{true, List, [], ◌∷◌, some, ◌≡◌, ◌≢◌, refl, arith}
use nats_requeue.Bytes.{Bytes}
use nats_requeue.Bytes.Order.{equal_iff}
use nats_requeue.Key.Prefix.{has_prefix}
use nats_requeue.QueueKey.{QueueKey, parse_queue_key}
use nats_requeue.Result.{Result, ok, err, empty_queue_name}
use nats_requeue.Store.{Store, Item}
use nats_requeue.Queue.{new_queue}
use nats_requeue.Manager.{
  QueueBuilder, Queues, new_queue_builder, set, load_loop, load_rest, after_set, load_from_disk,
  state_prefix,
}
use nats_requeue.QueueKey.{bucket_prefix}

-- A builder with no name stays without one, and builds nothing.
after_set-unnamed :
    (b b' : QueueBuilder) (queues queues' : Queues) (key value : Bytes) (r : Result QueueBuilder)
    → b.name ≡ []
    → set b key value ≡ some r
    → after_set b queues r ≡ ok (b', queues')
    → (b'.name ≡ []) × (queues' ≡ queues)
unfolding set after_set new_queue
after_set-unnamed b b' queues queues' key value r n e h = ground (arith, equal_iff b.name [])

load_rest-unnamed :
    (b : QueueBuilder) (queues loaded : Queues)
    → b.name ≡ []
    → load_rest b queues ≡ ok loaded
    → loaded ≡ queues
unfolding load_rest new_queue
load_rest-unnamed b queues loaded n h = ground arith

load_loop-unnamed :
    (prefix : Bytes) (is : List Item) (b : QueueBuilder) (queues loaded : Queues)
    → b.name ≡ []
    → load_loop prefix is b queues ≡ some (ok loaded)
    → loaded ≡ queues
unfolding load_loop
load_loop-unnamed prefix [] b queues loaded n h = ground (arith, load_rest-unnamed b queues loaded)
load_loop-unnamed prefix (i ∷ is) b queues loaded n h =
    grind (arith, load_rest-unnamed, after_set-unnamed, load_loop-unnamed prefix is)

-- Whenever a start-up succeeds the manager has no queue, whatever queues the database holds.
pub load_from_disk-none :
    (s : Store) (db : s.Db) (loaded : Queues) → load_from_disk s db ≡ some (ok loaded) → loaded ≡ []
unfolding load_from_disk
load_from_disk-none s db loaded h = load_loop-unnamed _ _ new_queue_builder [] loaded refl h

-- A start-up fails where the first state entry holds a checkpoint of a queue that has a name: the
-- name is refused as a different one, and a queue without a name is then built.
pub load_from_disk-fails :
    (s : Store) (db : s.Db) (i : Item) (is : List Item) (value : Bytes) (qk : QueueKey)
    → s.items db [] state_prefix ≡ i ∷ is
    → has_prefix state_prefix i.key ≡ true
    → i.value ≡ ok value
    → parse_queue_key value ≡ some qk
    → qk.name ≢ []
    → load_from_disk s db ≡ some (err empty_queue_name)
unfolding load_from_disk bucket_prefix new_queue
load_from_disk-fails s db i is value qk e p v k n = rw e (ground (arith, equal_iff [] qk.name))
