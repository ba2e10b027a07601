-- ===== src/Manager.antt =====
-- internal/queue/manager.go and queue_builder.go: the queues in memory, their creation, and their
-- loading from disk at start-up. The lock is held for the whole of each method here. Go's iteration
-- over the map has no fixed order; here it is that of the association list.
pub mod Closing
pub mod Loading
pub mod Upsert
use nats_requeue.Prelude.{
  ℕ, Bool, true, false, ◌&&◌, List, [], ◌∷◌, ◌++◌, map, Option, none, some, if◌then◌else◌,
}
use nats_requeue.Bytes.{Bytes, equal_bytes}
use nats_requeue.Key.Prefix.{has_prefix}
use nats_requeue.QueueKey.{
  QueueKey, parse_queue_key, bucket_prefix, queues_namespace, state_bucket, new_queue_key_for_state,
}
use nats_requeue.Result.{
  Error, Result, ok, err, blank_queue_name, different_queue_name, empty_queue_name, ◌>>=◌,
}
use nats_requeue.Store.{Store, Item}
use nats_requeue.Queue
use nats_requeue.Queue.{Queue, new_queue}
use nats_requeue.Assoc.{lookup, insert}

pub record Kv : Type 0 where
  pub k : QueueKey
  pub v : Bytes

-- A nil list is an empty one: the only list that `append` does not make non-nil.
pub record QueueBuilder : Type 0 where
  pub kvs : List Kv
  pub name : Bytes

abbrev pub new_queue_builder : QueueBuilder
new_queue_builder = record { kvs = []; name = [] }

abbrev pub is_empty {ℓ} : {A : Type ℓ} → List A → Bool
is_empty [] = true
is_empty (x ∷ xs) = false

unfoldable pub reset : QueueBuilder → QueueBuilder
reset q = record { kvs = []; name = [] }

unfoldable pub is_zero : QueueBuilder → Bool
is_zero q = is_empty q.name && is_empty q.kvs

append_kv : QueueBuilder → QueueKey → Bytes → QueueBuilder
append_kv q qk value = record q { kvs = q.kvs ++ record { k = qk; v = value } ∷ [] }

-- Set of queue_builder.go; `none` is the panic of ParseQueueKey. The builder is as it was where the
-- result is an error.
unfoldable pub set : QueueBuilder → Bytes → Bytes → Option (Result QueueBuilder)
unfolding append_kv
set q key value = elim (parse_queue_key key) [
  | none ↦ none
  | some qk ↦ some (
      if is_empty q.name
      then (if equal_bytes q.name qk.name
          then ok (append_kv q qk value)
          else err different_queue_name)
      else ok (append_kv (record q { name = qk.name }) qk value))
]

unfoldable pub build : QueueBuilder → Result (Queue × QueueBuilder)
unfolding new_queue reset
build q = do new_q ← new_queue q.name; ok (new_q, reset q)

abbrev pub Queues : Type 0
Queues = List (Bytes × Queue)

unfoldable pub add_queue : Queue → Queues → Queues
unfolding insert
add_queue q queues = insert q.name q queues

-- The end of loadFromDisk: the queue of the last iteration.
unfoldable pub load_rest : QueueBuilder → Queues → Result Queues
unfolding build is_zero
load_rest builder queues =
    if is_zero builder then ok queues else (build builder >>= λ r. ok (add_queue r.0 queues))

-- What an iteration does with the result of Set: go on, build a queue and pass over the item, or
-- fail.
unfoldable pub after_set :
    QueueBuilder → Queues → Result QueueBuilder → Result (QueueBuilder × Queues)
unfolding build add_queue
after_set builder queues (ok builder') = ok (builder', queues)
after_set builder queues (err different_queue_name) =
    build builder >>= λ r. ok (r.1, add_queue r.0 queues)
after_set builder queues (err e) = err e

-- The loop of loadFromDisk. Both the key and the value are read by ValueCopy.
unfoldable pub load_loop : Bytes → List Item → QueueBuilder → Queues → Option (Result Queues)
load_loop prefix [] builder queues = some (load_rest builder queues)
load_loop prefix (item ∷ rest) builder queues = elim (has_prefix prefix item.key) [
  | false ↦ some (load_rest builder queues)
  | true ↦ elim item.value [
    | err e ↦ some (err e)
    | ok value ↦ elim (set builder value value) [
      | none ↦ none
      | some r ↦ elim (after_set builder queues r) [
        | err e ↦ some (err e)
        | ok (builder', queues') ↦ load_loop prefix rest builder' queues'
      ]
    ]
  ]
]

abbrev pub state_prefix : Bytes
state_prefix = b'_' ∷ b'q' ∷ b'.' ∷ b'_' ∷ b's' ∷ b'.' ∷ []

module _ (s : Store) where
  open s use {Db, items}

  -- Into the empty map of a new manager.
  unfoldable pub load_from_disk : Db → Option (Result Queues)
  unfolding load_loop load_rest after_set set
  load_from_disk db =
      let prefix = bucket_prefix (record {
        namespace = queues_namespace;
        bucket = state_bucket;
        name = [];
        property = [];
        key = none;
      }) in
      load_loop prefix (items db [] prefix) new_queue_builder []

  unfoldable pub create_queue : Db → Queues → QueueKey → Result (Db × Queues × Queue)
  unfolding add_queue
  create_queue db queues qk =
      if is_empty qk.name then err blank_queue_name else (elim (lookup qk.name queues) [
        | some q ↦ ok (db, queues, q)
        | none ↦ Queue.create_queue s db qk.name >>= λ r. ok (r.0, add_queue r.1 queues, r.1)
      ])

  -- The map is read under a read lock, and again by CreateQueue under the write lock.
  unfoldable pub upsert_queue_state : Db → Queues → QueueKey → Result (Db × Queues × Queue)
  unfolding create_queue
  upsert_queue_state db queues qk = elim (lookup qk.name queues) [
    | some q ↦ ok (db, queues, q)
    | none ↦ create_queue db queues qk
  ]

unfoldable pub get_queue : Bytes → Queues → Option Queue
unfolding lookup
get_queue name queues = lookup name queues

unfoldable pub queues_snapshot : Queues → List Queue
queues_snapshot queues = map (λ (e : Bytes × Queue). e.1) queues
