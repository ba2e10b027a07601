-- ===== src/QueueKey/RoundTrip.antt =====
-- ParseQueueKey after Bytes.
use mathlib.Core.List.{append_assoc}
use nats_requeue.Prelude.{length, ℕ, ◌≡◌, ◌≢◌, refl, [], ◌∷◌, ◌++◌, some, arith, All}
use nats_requeue.Bytes.{Bytes}
use nats_requeue.Key.{Key}
use nats_requeue.QueueKey.{logged_key}
use nats_requeue.QueueKey.{
  sep, cut, split_n, parsed, parse_queue_key, bytes, new_queue_key_for_message,
  new_queue_key_for_state, queues_namespace,
}

-- No separator inside: what a queue's name must satisfy.
abbrev pub IsDotFree : Bytes → Type 0
IsDotFree = All (λ x. x ≢ sep)

pub cut-append : (p rest : Bytes) → IsDotFree p → cut (p ++ (sep ∷ rest)) ≡ (p, some rest)
unfolding cut
cut-append [] rest h = refl
cut-append (x ∷ p) rest h = ground (arith, cut-append p rest h.1)

-- The bytes of a message's key, with its parts laid out.
pub bytes-message :
    (name : Bytes) (k : Key)
    → bytes (new_queue_key_for_message name k)
      ≡ b'_' ∷ b'q' ∷ b'.' ∷ b'_' ∷ b'm' ∷ b'.' ∷ (name ++ (sep ∷ k))
unfolding bytes new_queue_key_for_message
bytes-message name k = refl

-- Behind the namespace and a bucket `_c`, the first cut of the rest decides the name and the key.
parse_of_cut :
    (c : ℕ) (tail name rest : Bytes)
    → c ≢ sep
    → cut tail ≡ (name, some rest)
    → parse_queue_key (b'_' ∷ b'q' ∷ b'.' ∷ b'_' ∷ c ∷ b'.' ∷ tail)
      ≡ some (record {
        namespace = queues_namespace;
        bucket = b'_' ∷ c ∷ [];
        name = name;
        property = [];
        key = some rest;
      })
unfolding parse_queue_key split_n cut parsed
parse_of_cut c tail name rest h e = ground arith

-- A message's key is read back whole, whatever bytes the inner key has, if the queue's name has no
-- dot.
pub parse-bytes :
    (name : Bytes) (k : Key)
    → IsDotFree name
    → parse_queue_key (bytes (new_queue_key_for_message name k))
      ≡ some (new_queue_key_for_message name k)
unfolding bytes new_queue_key_for_message
parse-bytes name k h =
    parse_of_cut b'm' (name ++ (sep ∷ k)) name k (omega arith) (cut-append name k h)

-- A log line can print it if it is whole.
pub logged-bytes :
    (name : Bytes) (k : Key)
    → IsDotFree name
    → length k ≡ 24
    → logged_key (bytes (new_queue_key_for_message name k))
      ≡ some (new_queue_key_for_message name k)
unfolding logged_key new_queue_key_for_message
logged-bytes name k h l = ground (arith, parse-bytes name k h, l)

-- The key of a queue's state is read back under its name too, with the property in place of the
-- key.
pub parse-bytes_state :
    (name property : Bytes)
    → IsDotFree name
    → parse_queue_key (bytes (new_queue_key_for_state name property))
      ≡ some (record (new_queue_key_for_state name []) { key = some property })
unfolding bytes new_queue_key_for_state
parse-bytes_state name property h =
    parse_of_cut b's' (name ++ (sep ∷ property)) name property (omega arith)
      (cut-append name property h)

-- A dot in the queue's name ends the name early: the message is parsed as one of the queue named by
-- the part before the dot, with the rest of the name in front of its key.
pub parse-bytes_dotted :
    (name more : Bytes) (k : Key)
    → IsDotFree name
    → parse_queue_key (bytes (new_queue_key_for_message (name ++ (sep ∷ more)) k))
      ≡ some (new_queue_key_for_message name (more ++ (sep ∷ k)))
unfolding bytes new_queue_key_for_message
parse-bytes_dotted name more k h =
    parse_of_cut b'm' ((name ++ (sep ∷ more)) ++ (sep ∷ k)) name (more ++ (sep ∷ k)) (omega arith)
      (rw (append_assoc name (sep ∷ more) (sep ∷ k)) (cut-append name (more ++ (sep ∷ k)) h))
