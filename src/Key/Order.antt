-- ===== src/Key/Order.antt =====
-- What a key holds, and how keys are ordered: by time, then sequence number, then instance.
use nats_requeue.Prelude.{
  ℕ, suc, ◌+◌, ◌%◌, ◌^◌, ◌<◌, ◌≤◌, ◌≡◌, refl, [], ◌∷◌, ◌++◌, Ordering, arith, length, zero,
  replicate, All-append,
}
use nats_requeue.Prelude.Int.{u64_of_int, u64_of_int-lt}
use nats_requeue.Bytes.{Bytes, IsBytes, put_uint64}
use nats_requeue.Bytes.Order.{Le, and_then, compare_bytes-append}
use nats_requeue.Bytes.Word.{put_uint64-IsBytes, uint64-put_uint64, compare-put_uint64}
use nats_requeue.Key.{
  Key, Time, Source, unix, size, min, max, first, last, new, compare, unix_timestamp, seq,
  instance_id,
}
use Prim.Native.Nat

-- The number that the next key takes.
abbrev pub next_seq : Source → ℕ
next_seq s = (s.seq + 1) % 2 ^ 64

pub length-new : (s : Source) (t : Time) → length (new s t).0 ≡ size
unfolding new put_uint64
length-new s t = refl

-- A new key gives back the three words that it was made of, and New moves the sequence number on and
-- leaves the instance's identity, a 64-bit word, as it is.
pub new_fields :
    (s : Source) (t : Time)
    → s.instance_id < 2 ^ 64
    → (unix_timestamp (new s t).0 ≡ u64_of_int (unix t))
      × (seq (new s t).0 ≡ next_seq s)
      × (instance_id (new s t).0 ≡ s.instance_id)
      × ((new s t).1 ≡ record s { seq = next_seq s })
unfolding new unix_timestamp seq instance_id put_uint64
new_fields s t h = (
  (let e = uint64-put_uint64 (u64_of_int (unix t)) (u64_of_int-lt (unix t)) in
      unfold put_uint64 in e),
  (let e = uint64-put_uint64 (next_seq s) (omega arith) in unfold put_uint64 in e),
  (let e = uint64-put_uint64 s.instance_id h in unfold put_uint64 in e),
  refl,
)

and_then_assoc : (a b c : Ordering) → and_then (and_then a b) c ≡ and_then a (and_then b c)
and_then_assoc Ordering.lt b c = refl
and_then_assoc Ordering.eq b c = refl
and_then_assoc Ordering.gt b c = refl

-- Two new keys compare as their times in seconds do, then their sequence numbers, then their
-- instances, where the instances are 64-bit words.
pub compare-new :
    (s s' : Source) (t t' : Time)
    → s.instance_id < 2 ^ 64
    → s'.instance_id < 2 ^ 64
    → compare (new s t).0 (new s' t').0
      ≡ and_then (Nat.compare (u64_of_int (unix t)) (u64_of_int (unix t'))) (
          and_then
            (Nat.compare (next_seq s) (next_seq s'))
            (Nat.compare s.instance_id s'.instance_id))
unfolding new compare
compare-new s s' t t' h h' =
    rw
      (
        compare_bytes-append (put_uint64 (u64_of_int (unix t)) ++ put_uint64 (next_seq s))
            (put_uint64 (u64_of_int (unix t')) ++ put_uint64 (next_seq s')) _ _
            (unfold put_uint64 in refl),
        compare_bytes-append (put_uint64 (u64_of_int (unix t))) (put_uint64 (u64_of_int (unix t')))
            _ _ (unfold put_uint64 in refl),
        compare-put_uint64 (u64_of_int (unix t)) (u64_of_int (unix t')) (u64_of_int-lt (unix t))
            (u64_of_int-lt (unix t')),
        compare-put_uint64 (next_seq s) (next_seq s') (omega arith) (omega arith),
        compare-put_uint64 s.instance_id s'.instance_id h h',
      )
      (and_then_assoc (Nat.compare (u64_of_int (unix t)) (u64_of_int (unix t'))) _ _)

-- Every string lies above a run of zeros of its length or less, and below a run of 255 of its length.
pub Le-zeros : (n : ℕ) (k : Bytes) → n ≤ length k → Le (replicate n 0) k
Le-zeros zero k h = tt
Le-zeros (suc n) [] h = absurd (omega arith)
Le-zeros (suc n) (x ∷ k) h = ground (arith, Le-zeros n k)

pub Le-ones : (n : ℕ) (k : Bytes) → IsBytes k → length k ≡ n → Le k (replicate n 255)
Le-ones zero [] d h = tt
Le-ones zero (x ∷ k) d h = absurd (omega arith)
Le-ones (suc n) [] d h = tt
Le-ones (suc n) (x ∷ k) d h = ground (arith, Le-ones n k d.1)

-- `Min` and `Max` are what First and Last compute, and bound every 24-byte key.
pub key_bounds :
    (k : Key) → IsBytes k → length k ≡ size → Le min k × Le k max × (first ≡ min) × (last ≡ max)
unfolding first last
key_bounds k d h = (Le-zeros 24 k (omega arith), Le-ones 24 k d h, refl, refl)

pub new-IsBytes : (s : Source) (t : Time) → IsBytes (new s t).0
unfolding new
new-IsBytes s t =
    All-append _ (put_uint64 (u64_of_int (unix t)) ++ put_uint64 (next_seq s)) _
      (All-append _ (put_uint64 (u64_of_int (unix t))) _ (put_uint64-IsBytes _)
        (put_uint64-IsBytes _))
      (put_uint64-IsBytes _)
