-- ===== src/Key.antt =====
-- internal/key/key.go: the 24-byte message keys, made of the send time in seconds, a sequence number
-- and the instance's identity, each a big-endian uint64.
pub mod Order
pub mod Prefix
use nats_requeue.Prelude.{
  ℕ, suc, ◌+◌, ◌%◌, ◌^◌, ◌/◌, Bool, true, false, List, [], ◌∷◌, ◌++◌, Ordering, length, take, drop,
  replicate, ◌==◌, if◌then◌else◌,
}
use nats_requeue.Prelude.Int.{ℤ, pos, negsuc, ◌+ℤ◌, u64_of_int}
use nats_requeue.Bytes.{Bytes, compare_bytes, put_uint64, uint64}

-- A time.Time: nanoseconds since the Unix epoch.
abbrev pub Time : Type 0
Time = ℤ

-- time.Time.Unix: whole seconds, rounded down.
unfoldable pub unix : Time → ℤ
unix (pos n) = pos (n / 1_000_000_000)
unix (negsuc n) = negsuc (n / 1_000_000_000)

abbrev pub Key : Type 0
Key = Bytes

abbrev pub size : ℕ
size = 24

abbrev pub min : Key
min =
    0 ∷ 0 ∷ 0 ∷ 0 ∷ 0 ∷ 0 ∷ 0 ∷ 0 ∷ 0 ∷ 0 ∷ 0 ∷ 0 ∷ 0 ∷ 0 ∷ 0 ∷ 0 ∷ 0 ∷ 0 ∷ 0 ∷ 0 ∷ 0 ∷ 0 ∷ 0 ∷ 0
    ∷ []

abbrev pub max : Key
max =
    255 ∷ 255 ∷ 255 ∷ 255 ∷ 255 ∷ 255 ∷ 255 ∷ 255 ∷ 255 ∷ 255 ∷ 255 ∷ 255 ∷ 255 ∷ 255 ∷ 255 ∷ 255
    ∷ 255 ∷ 255 ∷ 255 ∷ 255 ∷ 255 ∷ 255 ∷ 255 ∷ 255 ∷ []

-- The package's variables: the sequence number, and the random identity drawn at start-up.
pub record Source : Type 0 where
  pub seq : ℕ
  pub instance_id : ℕ

-- New: `atomic.AddUint64(&seq, 1)` wraps, and the key holds the number after the increment.
unfoldable pub new : Source → Time → Key × Source
new s t =
    let seq = (s.seq + 1) % 2 ^ 64 in
    (
      put_uint64 (u64_of_int (unix t)) ++ put_uint64 seq ++ put_uint64 s.instance_id,
      record s { seq = seq },
    )

unfoldable pub compare : Key → Key → Ordering
compare a b = compare_bytes a b

-- The loop over the common length stops at the first difference.
unfoldable pub prefix_of : Bytes → Bytes → Bytes
prefix_of [] until = []
prefix_of (x ∷ seek) [] = []
prefix_of (x ∷ seek) (y ∷ until) =
    let rest = prefix_of seek until in if x == y then x ∷ rest else []

unfoldable pub first : Key
first = replicate size 0

unfoldable pub last : Key
last = replicate size 255

unfoldable pub unix_timestamp : Key → ℕ
unix_timestamp k = uint64 (take 8 k)

unfoldable pub seq : Key → ℕ
seq k = uint64 (take 8 (drop 8 k))

unfoldable pub instance_id : Key → ℕ
instance_id k = uint64 (take 8 (drop 16 k))
