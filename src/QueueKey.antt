-- ===== src/QueueKey.antt =====
-- internal/queue/key.go: the database keys `_q._m.<queue>.<key>` of messages and
-- `_q._s.<queue>.<property>` of queue state, written as byte strings and parsed back.
pub mod Fresh
pub mod Prefix
pub mod RoundTrip
pub mod Isolation
use nats_requeue.Prelude.{
  ℕ, zero, suc, Bool, true, false, List, [], ◌∷◌, ◌++◌, Option, none, some, ◌==◌, if◌then◌else◌,
  leb, length, ◌&&◌,
}
use nats_requeue.Bytes.{Bytes, equal_bytes}
use nats_requeue.Key
use nats_requeue.Key.{Key}

-- b'.'
abbrev pub sep : ℕ
sep = b'.'

-- "_q", "_m", "_s", "checkpoint"
abbrev pub queues_namespace : Bytes
queues_namespace = b'_' ∷ b'q' ∷ []

abbrev pub messages_bucket : Bytes
messages_bucket = b'_' ∷ b'm' ∷ []

abbrev pub state_bucket : Bytes
state_bucket = b'_' ∷ b's' ∷ []

abbrev pub checkpoint_property : Bytes
checkpoint_property = b'c' ∷ b'h' ∷ b'e' ∷ b'c' ∷ b'k' ∷ b'p' ∷ b'o' ∷ b'i' ∷ b'n' ∷ b't' ∷ []

-- A nil `Key` is `none`.
pub record QueueKey : Type 0 where
  pub namespace : Bytes
  pub bucket : Bytes
  pub name : Bytes
  pub property : Bytes
  pub key : Option Key

unfoldable pub new_queue_key_for_message : Bytes → Key → QueueKey
new_queue_key_for_message queue key = record {
  namespace = queues_namespace;
  bucket = messages_bucket;
  name = queue;
  property = [];
  key = some key;
}

unfoldable pub new_queue_key_for_state : Bytes → Bytes → QueueKey
new_queue_key_for_state queue property = record {
  namespace = queues_namespace;
  bucket = state_bucket;
  name = queue;
  property = property;
  key = none;
}

-- bytes.SplitN(k, ".", n + 1): at most `n` cuts, at the first separators. The piece before the
-- first separator, and the rest behind it where there is one.
unfoldable pub cut : Bytes → Bytes × Option Bytes
cut [] = ([], none)
cut (x ∷ k) = let (piece, rest) = cut k in if x == sep then ([], some k) else (x ∷ piece, rest)

unfoldable pub split_n : ℕ → Bytes → List Bytes
split_n zero k = k ∷ []
split_n (suc n) k =
    let (piece, rest) = cut k in
    elim rest [ none ↦ piece ∷ [] | some rest ↦ piece ∷ split_n n rest ]

parsed : List Bytes → Option QueueKey
parsed (ns ∷ bk ∷ na ∷ key ∷ more) =
    some (record { namespace = ns; bucket = bk; name = na; property = []; key = some key })
parsed _ = none

-- ParseQueueKey. `none` is the panic of the index `spl[3]`: it stands in the arguments of
-- debug.Assert, which are computed also in a build without assertions. The length is then checked
-- only under the build tag `assert`, which the model leaves out.
unfoldable pub parse_queue_key : Bytes → Option QueueKey
unfolding parsed
parse_queue_key k = parsed (split_n 3 k)

-- Key.Print panics on a key that is shorter than its three numbers, unless the slice that it lies in
-- happens to go on behind it, which the model takes it not to do.
unfoldable pub is_printable : QueueKey → Bool
is_printable q = elim q.key [ none ↦ true | some k ↦ leb 24 (length k) ]

-- ParseQueueKey(k).String(), as log lines call it: the parsed key, or `none` for a panic of either.
unfoldable pub logged_key : Bytes → Option QueueKey
unfolding parse_queue_key is_printable
logged_key k = elim (parse_queue_key k) [
  | none ↦ none
  | some q ↦ if is_printable q then some q else none
]

unfoldable pub is_key : QueueKey → Bool
is_key q = elim q.key [ none ↦ false | some k ↦ true ]

suffix : QueueKey → Bytes
suffix q = elim q.key [ none ↦ q.property | some k ↦ k ]

-- Bytes: the pieces, copied one after the other into a slice of their total length.
unfoldable pub bytes : QueueKey → Bytes
unfolding suffix
bytes q = q.namespace ++ (sep ∷ (q.bucket ++ (sep ∷ (q.name ++ (sep ∷ suffix q)))))

unfoldable pub bucket_path : QueueKey → Bytes
bucket_path q = q.namespace ++ (sep ∷ q.bucket)

unfoldable pub bucket_prefix : QueueKey → Bytes
unfolding bucket_path
bucket_prefix q = bucket_path q ++ sep ∷ []

unfoldable pub name_path : QueueKey → Bytes
unfolding bucket_prefix
name_path q = bucket_prefix q ++ q.name

unfoldable pub name_prefix : QueueKey → Bytes
unfolding name_path
name_prefix q = name_path q ++ sep ∷ []

unfoldable pub first_message : Bytes → QueueKey
unfolding new_queue_key_for_message
first_message queue = new_queue_key_for_message queue Key.min

unfoldable pub last_message : Bytes → QueueKey
unfolding new_queue_key_for_message
last_message queue = new_queue_key_for_message queue Key.max
