-- ===== src/Tests/Keys.antt =====
-- Keys: tests, and the theorems at concrete keys.
use nats_requeue.Prelude.{◌≡◌, refl, [], ◌∷◌, some, arith, replicate}
use nats_requeue.Prelude.Int.{pos, u64_of_int}
use nats_requeue.Bytes.{Bytes, put_uint64, uint64}
use nats_requeue.Bytes.Order.{and_then}
use nats_requeue.Key
use nats_requeue.Key.{Source, prefix_of, min, max, first, last}
use nats_requeue.Key.Order.{next_seq, compare-new}
use nats_requeue.QueueKey.{bytes, parse_queue_key, new_queue_key_for_message}
use nats_requeue.QueueKey.Prefix
use nats_requeue.QueueKey.Prefix.{prefix_of_lem}
use nats_requeue.QueueKey.RoundTrip.{parse-bytes}
use nats_requeue.QueueKey.Isolation.{InRange, range_isolated, range_complete}
use Prim.Native.Nat

abbrev here : Source
here = record { seq = 6; instance_id = 77 }

abbrev there : Source
there = record { seq = 9; instance_id = 3 }

-- "high" and "low"
abbrev high : Bytes
high = b'h' ∷ b'i' ∷ b'g' ∷ b'h' ∷ []

abbrev low : Bytes
low = b'l' ∷ b'o' ∷ b'w' ∷ []

second_of_new : Key.unix_timestamp (Key.new here (pos 5_900_000_000)).0 ≡ 5
unfolding Key.unix_timestamp Key.new Key.unix put_uint64 uint64
second_of_new = refl

message_bytes :
    bytes (new_queue_key_for_message low (1 ∷ 2 ∷ []))
    ≡ b'_' ∷ b'q' ∷ b'.' ∷ b'_' ∷ b'm' ∷ b'.' ∷ b'l' ∷ b'o' ∷ b'w' ∷ b'.' ∷ 1 ∷ 2 ∷ []
unfolding bytes new_queue_key_for_message
message_bytes = refl

compare-new_example :
    Key.compare (Key.new here (pos 0)).0 (Key.new there (pos 0)).0
    ≡ and_then
        (Nat.compare (u64_of_int (Key.unix (pos 0))) (u64_of_int (Key.unix (pos 0))))
        (and_then (Nat.compare (next_seq here) (next_seq there)) (Nat.compare 77 3))
compare-new_example = compare-new here there (pos 0) (pos 0) (omega arith) (omega arith)

parse-bytes_example :
    parse_queue_key (bytes (new_queue_key_for_message high (replicate 24 46)))
    ≡ some (new_queue_key_for_message high (replicate 24 46))
parse-bytes_example = parse-bytes high (replicate 24 46) (omega arith)

range_complete_example : InRange high (bytes (new_queue_key_for_message high (replicate 24 7)))
range_complete_example = range_complete high (replicate 24 7) (omega arith) (omega arith)

range_isolated_example : high ≡ high
range_isolated_example =
    range_isolated high high (replicate 24 7) (omega arith) (omega arith)
      (range_complete high (replicate 24 7) (omega arith) (omega arith))

prefix_of_lem_example :
    Prefix.prefix_of (3 ∷ 5 ∷ 7 ∷ []) (3 ∷ 5 ∷ 8 ∷ 9 ∷ [])
    ≡ some (Key.prefix_of (3 ∷ 5 ∷ 7 ∷ []) (3 ∷ 5 ∷ 8 ∷ 9 ∷ []))
prefix_of_lem_example = prefix_of_lem (3 ∷ 5 ∷ 7 ∷ []) (3 ∷ 5 ∷ 8 ∷ 9 ∷ [])
