-- ===== src/Tests/Queues.antt =====
-- Queues and the manager: the theorems at a database with two messages of the queue "q", and at one
-- with the state of a queue.
use nats_requeue.Prelude.{
  ℕ, ◌≡◌, refl, true, List, [], ◌∷◌, ◌++◌, some, none, arith, replicate, All,
}
use nats_requeue.Prelude.Int.{pos}
use nats_requeue.Bytes.{Bytes, compare_bytes}
use nats_requeue.Bytes.Order.{Le, Le_of_compare}
use nats_requeue.Key
use nats_requeue.Key.{Source, Key, min, prefix_of}
use nats_requeue.Key.Prefix.{has_prefix}
use nats_requeue.QueueKey.{
  QueueKey, bytes, logged_key, new_queue_key_for_message, new_queue_key_for_state, first_message,
  checkpoint_property, split_n, cut,
}
use nats_requeue.QueueKey.RoundTrip.{logged-bytes}
use nats_requeue.Result.{ok}
use nats_requeue.Store.{Item}
use nats_requeue.Queue
use nats_requeue.Queue.{Queue, Callback, range, new_queue}
use nats_requeue.Queue.Visible.{IsReadable}
use nats_requeue.Manager.{Queues, load_from_disk, upsert_queue_state, state_prefix}
use nats_requeue.Manager.Loading.{load_from_disk-none}
use nats_requeue.Manager.Upsert.{Upserted, upsert_queue_state-Upserted}
use nats_requeue.Assoc.{lookup, insert}
use nats_requeue.Tests.Memory.{item, memory}

-- "q"
abbrev pub q_name : Bytes
q_name = b'q' ∷ []

abbrev pub key_at : ℕ → Key
key_at n = replicate 23 0 ++ n ∷ []

abbrev pub at : ℕ → Bytes
at n = b'_' ∷ b'q' ∷ b'.' ∷ b'_' ∷ b'm' ∷ b'.' ∷ b'q' ∷ b'.' ∷ key_at n

abbrev pub message : ℕ → Item
message n = item (record { key = at n; value = n ∷ []; ttl = none })

pub at-lt : Le (at 1) (at 2)
unfolding compare_bytes
at-lt = Le_of_compare (at 1) (at 2) (λ e. cc)

unfoldable pub messages : memory.Db
unfolding memory
messages = (message 1 ∷ message 2 ∷ [], ((at-lt, tt), (tt, tt)))

parses_at : (n : ℕ) → logged_key (at n) ≡ some (new_queue_key_for_message q_name (key_at n))
unfolding bytes new_queue_key_for_message
parses_at n = logged-bytes q_name (key_at n) (omega arith) refl

pub readable : All IsReadable (memory.items messages [] [])
unfolding memory messages has_prefix compare_bytes
readable = (
  record { parses = (_, parses_at 1); reads = (_, refl) },
  (record { parses = (_, parses_at 2); reads = (_, refl) }, tt),
)

abbrev pub here : Source
here = record { seq = 6; instance_id = 77 }

-- The queue "q" with its checkpoint at its first key.
abbrev pub q : Queue
q = record {
  name = q_name;
  checkpoint = at 0;
  stats = record { queue_name = q_name; count = pos 0; in_flight = pos 0 };
}

abbrev pub seek : QueueKey
seek = new_queue_key_for_message q_name (key_at 0)

pub q_parses : logged_key q.checkpoint ≡ some seek
q_parses = parses_at 0

abbrev collect : Callback (List Bytes)
collect l qi = (l ++ qi.k ∷ [], true)

-- The query runs: it sees both messages, and ends at the second.
range_runs :
    range memory messages seek (new_queue_key_for_message q_name (key_at 9)) collect []
    ≡ some (record { state = at 1 ∷ at 2 ∷ []; checkpoint = at 2; error = none })
unfolding range memory messages has_prefix compare_bytes bytes new_queue_key_for_message prefix_of
    logged_key split_n cut
range_runs = refl

-- A database with the state of the queue "q", as CreateQueue writes it.
abbrev state_item : Item
state_item = item (record {
  key = b'_' ∷ b'q' ∷ b'.' ∷ b'_' ∷ b's' ∷ b'.' ∷ b'q' ∷ b'.' ∷ checkpoint_property;
  value = at 0;
  ttl = none;
})

unfoldable pub stateful : memory.Db
unfolding memory
stateful = (state_item ∷ [], (tt, tt))

unfoldable pub vacant : memory.Db
unfolding memory
vacant = ([], tt)

stateful_items : memory.items stateful [] state_prefix ≡ state_item ∷ []
unfolding memory stateful has_prefix compare_bytes
stateful_items = refl

vacant_loads : load_from_disk memory vacant ≡ some (ok [])
unfolding load_from_disk memory vacant
vacant_loads = refl

load_from_disk-none_example : ◌≡◌ {A = Queues} [] []
load_from_disk-none_example = load_from_disk-none memory vacant [] vacant_loads

abbrev state_key : QueueKey
state_key = new_queue_key_for_state q_name []

upsert_creates : upsert_queue_state memory vacant [] state_key ≡ ok (stateful, (q_name, q) ∷ [], q)
unfolding upsert_queue_state memory vacant stateful new_queue Queue.create_queue
    Queue.save_checkpoint lookup insert new_queue_key_for_state bytes first_message
upsert_creates = refl

upsert_queue_state-Upserted_example : Upserted memory vacant stateful [] ((q_name, q) ∷ []) q_name q
unfolding new_queue_key_for_state
upsert_queue_state-Upserted_example =
    upsert_queue_state-Upserted memory vacant stateful [] ((q_name, q) ∷ []) state_key q tt
      upsert_creates
