-- ===== src/QueueKey/Isolation.antt =====
-- The range from FirstMessage to LastMessage of a queue, and the messages of other queues.
use mathlib.Core.List.{append_assoc}
use nats_requeue.Prelude.{
  ◌<◌, ◌≡◌, inl, inr, refl, [], ◌∷◌, ◌++◌, arith, All, length, length-append,
}
use nats_requeue.Bytes.{Bytes, IsBytes}
use nats_requeue.Bytes.Order.{Le, Le-append}
use nats_requeue.Key.{Key, size, min, max}
use nats_requeue.Key.Order.{Le-zeros, Le-ones}
use nats_requeue.QueueKey.{sep, bytes, new_queue_key_for_message, first_message, last_message}
use nats_requeue.QueueKey.RoundTrip.{IsDotFree}

-- A message's key lies in the range of a queue.
pub record InRange (queue k : Bytes) : Type 0 where
  pub from : Le (bytes (first_message queue)) k
  pub to : Le k (bytes (last_message queue))

name_between :
    (a b u v k : Bytes)
    → IsDotFree a
    → IsDotFree b
    → Le (a ++ (sep ∷ u)) (b ++ (sep ∷ k))
    → Le (b ++ (sep ∷ k)) (a ++ (sep ∷ v))
    → a ≡ b
name_between [] [] u v k d e lo hi = refl
name_between [] (y ∷ b) u v k d e lo hi = ground arith
name_between (x ∷ a) [] u v k d e lo hi = ground arith
name_between (x ∷ a) (y ∷ b) u v k d e lo hi = ground (arith, name_between a b u v k d.1 e.1)

header_cancel :
    (xs ys : Bytes)
    → Le
        (b'_' ∷ b'q' ∷ b'.' ∷ b'_' ∷ b'm' ∷ b'.' ∷ xs)
        (b'_' ∷ b'q' ∷ b'.' ∷ b'_' ∷ b'm' ∷ b'.' ∷ ys)
    → Le xs ys
header_cancel xs ys h = ground arith

header :
    (xs ys : Bytes)
    → Le xs ys
    → Le
        (b'_' ∷ b'q' ∷ b'.' ∷ b'_' ∷ b'm' ∷ b'.' ∷ xs)
        (b'_' ∷ b'q' ∷ b'.' ∷ b'_' ∷ b'm' ∷ b'.' ∷ ys)
header xs ys h = Le-append (b'_' ∷ b'q' ∷ b'.' ∷ b'_' ∷ b'm' ∷ b'.' ∷ []) xs ys h

-- Between queues without dots in their names, the range of one holds no message of the other.
pub range_isolated :
    (queue name : Bytes) (k : Key)
    → IsDotFree queue
    → IsDotFree name
    → InRange queue (bytes (new_queue_key_for_message name k))
    → queue ≡ name
unfolding bytes first_message last_message new_queue_key_for_message
range_isolated queue name k d e r =
    name_between queue name _ _ k d e (header_cancel _ _ r.from) (header_cancel _ _ r.to)

-- The range of a queue holds every message of the queue, whose inner key is of the fixed size.
pub range_complete :
    (queue : Bytes) (k : Key)
    → IsBytes k
    → length k ≡ size
    → InRange queue (bytes (new_queue_key_for_message queue k))
unfolding bytes first_message last_message new_queue_key_for_message
range_complete queue k d h = record {
  from = header _ _ (Le-append queue _ _ (inr (refl, Le-zeros 24 k (omega arith))));
  to = header _ _ (Le-append queue _ _ (inr (refl, Le-ones 24 k d h)));
}

text_below :
    (more : Bytes) (k v : Bytes) → All (λ x. x < 255) more → Le (more ++ (sep ∷ k)) (255 ∷ v)
text_below [] k v h = inl (omega arith)
text_below (x ∷ more) k v h = inl h.0

-- A queue whose name goes on from another's with a dot, and then with bytes below 255, stores its
-- messages in the other's range.
range_dotted :
    (queue more : Bytes) (k : Key)
    → All (λ x. x < 255) more
    → length k ≡ size
    → InRange queue (bytes (new_queue_key_for_message (queue ++ (sep ∷ more)) k))
unfolding bytes first_message last_message new_queue_key_for_message
range_dotted queue more k d h =
    rw append_assoc (record { from = header _ _ lo; to = header _ _ hi })
  where
    lo : Le (queue ++ (sep ∷ min)) (queue ++ (sep ∷ (more ++ (sep ∷ k))))
    lo =
        Le-append queue _ _
          (inr (refl, Le-zeros 24 _ (omega (arith, length-append more (sep ∷ k)))))

    hi : Le (queue ++ (sep ∷ (more ++ (sep ∷ k)))) (queue ++ (sep ∷ max))
    hi = Le-append queue _ _ (inr (refl, text_below more k _ d))
