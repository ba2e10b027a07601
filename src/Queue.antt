-- ===== src/Queue.antt =====
-- internal/queue/queue.go and queue_item.go: a queue's checkpoint and the range queries over its
-- messages. A lock is held for the whole of each method here, so a method is one step. The log lines
-- are modelled where they can stop the program: their arguments parse keys.
pub mod Closing
pub mod Visible
pub mod Preserves
pub mod Range
pub mod Checkpoints
use nats_requeue.Prelude.{
  leb, ℕ, suc, Bool, true, false, List, [], ◌∷◌, Option, none, some, Ordering, if◌then◌else◌,
}
use nats_requeue.Prelude.Int.{ℤ, pos, ltb_ℤ}
use nats_requeue.Bytes.{Bytes, compare_bytes, equal_bytes}
use nats_requeue.Key
use nats_requeue.Key.{Time, Source, prefix_of}
use nats_requeue.QueueKey.{
  QueueKey, bytes, first_message, new_queue_key_for_message, new_queue_key_for_state,
  checkpoint_property, logged_key,
}
use nats_requeue.Result.{Error, Result, ok, err, empty_queue_name, unknown_property, ◌>>=◌}
use nats_requeue.Store.{Store, Item, Entry}
use nats_requeue.Stats.{QueueStats, new_queue_stats}

pub record Queue : Type 0 where
  pub name : Bytes
  pub checkpoint : Bytes
  pub stats : QueueStats

pub record QueueItem : Type 0 where
  pub k : Bytes
  pub v : Bytes
  pub expires_at : ℕ

-- The empty name is refused before NewQueueStats can refuse it.
unfoldable pub new_queue : Bytes → Result Queue
unfolding new_queue_stats
new_queue [] = err empty_queue_name
new_queue (x ∷ name) = do
  stats ← new_queue_stats (x ∷ name)
  ok (record { name = x ∷ name; checkpoint = bytes (first_message (x ∷ name)); stats = stats })

unfoldable pub compare_checkpoint : Queue → Bytes → Ordering
compare_checkpoint q b = compare_bytes q.checkpoint b

unfoldable pub set_checkpoint : Queue → Bytes → Queue
set_checkpoint q checkpoint = record q { checkpoint = checkpoint }

-- The two values that Range returns, with the callback's state.
pub record Ranged (S : Type 0) : Type 0 where
  pub state : S
  pub checkpoint : Bytes
  pub error : Option Error

-- The callback of a range query: its state, and whether to go on.
abbrev pub Callback : Type 0 → Type 0
Callback S = S → QueueItem → S × Bool

-- The iteration of Range. `none` is a panic in the log line of an item, which
-- parses its key and prints it.
unfoldable pub range_loop :
    {S : Type 0} → Callback S → Bytes → List Item → S → Bytes → Option (Ranged S)
range_loop f until [] state checkpoint =
    some (record { state = state; checkpoint = checkpoint; error = none })
range_loop f until (item ∷ rest) state checkpoint = elim (logged_key item.key) [
  | none ↦ none
  | some _ ↦ elim item.is_deleted_or_expired [
    | true ↦ range_loop f until rest state checkpoint
    | false ↦ elim (compare_bytes item.key until) [
      | Ordering.gt ↦ some (record { state = state; checkpoint = checkpoint; error = none })
      | _ ↦ elim item.value [
        | err e ↦ some (record { state = state; checkpoint = checkpoint; error = some e })
        | ok value ↦
            let r = f state (record { k = item.key; v = value; expires_at = item.expires_at }) in
            elim r.1 [
              | false ↦ some (record { state = r.0; checkpoint = checkpoint; error = none })
              | true ↦ range_loop f until rest r.0 item.key
            ]
      ]
    ]
  ]
]

-- QueueItem.IsExpired, at a time in seconds that is not before the epoch.
unfoldable pub is_expired : ℕ → QueueItem → Bool
is_expired now qi = leb qi.expires_at now

-- The callback takes the first item and stops at the second.
unfoldable pub only_first : Callback Bool
only_first true qi = (false, true)
only_first false qi = (false, false)

module _ (s : Store) where
  open s use {Db, Txn, update, set, items}

  -- The log lines print the two ends as well: of the callers' ends only a checkpoint can fail to be
  -- printed, which the caller does first.
  unfoldable pub range :
      {S : Type 0} → Db → QueueKey → QueueKey → Callback S → S → Option (Ranged S)
  unfolding range_loop
  range db seek until f state =
      range_loop f (bytes until) (items db (prefix_of (bytes seek) (bytes until)) (bytes seek))
        state (bytes seek)

  -- The end of the range is a new key of the given time, so the sequence number moves on.
  unfoldable pub read_from_checkpoint :
      {S : Type 0} → Db → Source → Queue → Time → Callback S → S → Option (Ranged S) × Source
  unfolding range
  read_from_checkpoint db src q until f state =
      let (key, src') = Key.new src until in
      (
        (elim (logged_key q.checkpoint) [
          | none ↦ none
          | some seek ↦ range db seek (new_queue_key_for_message q.name key) f state
        ]),
        src',
      )

  unfoldable pub earliest_checkpoint : Db → Source → Queue → Time → Option (Ranged Bool) × Source
  unfolding range only_first
  earliest_checkpoint db src q until =
      let (key, src') = Key.new src until in
      (
        (elim (logged_key q.checkpoint) [
          | none ↦ none
          | some _ ↦
              range db (first_message q.name) (new_queue_key_for_message q.name key) only_first true
        ]),
        src',
      )

  unfoldable pub save_checkpoint : Db → Queue → Bytes → Result Db
  save_checkpoint db q checkpoint =
      update db
        (λ txn. set txn (bytes (new_queue_key_for_state q.name checkpoint_property)) checkpoint)

  -- The lock is held; the checkpoint changes in memory only when it is on disk.
  unfoldable pub update_checkpoint : Db → Queue → Bytes → Result (Db × Queue)
  unfolding save_checkpoint set_checkpoint
  update_checkpoint db q checkpoint = do
    db' ← save_checkpoint db q checkpoint
    ok (db', set_checkpoint q checkpoint)

  -- A nil condition is `none`.
  unfoldable pub update_checkpoint_cond :
      Db → Queue → Bytes → Option (Bytes → Bool) → Result (Db × Queue)
  unfolding update_checkpoint
  update_checkpoint_cond db q checkpoint none = update_checkpoint db q checkpoint
  update_checkpoint_cond db q checkpoint (some cond) =
      if cond q.checkpoint then update_checkpoint db q checkpoint else ok (db, q)

  unfoldable pub create_queue : Db → Bytes → Result (Db × Queue)
  unfolding new_queue
  create_queue db name = do
    q ← new_queue name
    db' ← save_checkpoint db q (bytes (first_message name))
    ok (db', record q { checkpoint = bytes (first_message name) })
