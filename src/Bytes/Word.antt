-- ===== src/Bytes/Word.antt =====
-- Big-endian words: reading back what was written, and the order of the bytes is that of the words.
use nats_requeue.Prelude.{ℕ, ◌+◌, ◌*◌, ◌^◌, ◌<◌, ◌≡◌, refl, [], ◌∷◌, compare, arith, length}
use nats_requeue.Bytes.{Bytes, IsBytes, compare_bytes, put_uint64, uint64, from_digits}

pub length-put_uint64 : (v : ℕ) → length (put_uint64 v) ≡ 8
unfolding put_uint64
length-put_uint64 v = refl

pub uint64-put_uint64 : (v : ℕ) → v < 2 ^ 64 → uint64 (put_uint64 v) ≡ v
unfolding uint64 put_uint64
uint64-put_uint64 v h = omega arith

pub put_uint64-IsBytes : (v : ℕ) → IsBytes (put_uint64 v)
unfolding put_uint64
put_uint64-IsBytes v = omega arith

-- The order of two digit strings of one length, read after unequal numbers.
from_digits-lt :
    (a b : ℕ) (xs ys : Bytes)
    → IsBytes xs
    → length xs ≡ length ys
    → a < b
    → from_digits a xs < from_digits b ys
from_digits-lt a b [] [] d h lt = lt
from_digits-lt a b [] (y ∷ ys) d h lt = absurd (omega arith)
from_digits-lt a b (x ∷ xs) [] d h lt = absurd (omega arith)
from_digits-lt a b (x ∷ xs) (y ∷ ys) d h lt =
    from_digits-lt (a * 256 + x) (b * 256 + y) xs ys d.1 (omega arith) (let p = d.0 in omega arith)

compare-from_digits :
    (a : ℕ) (xs ys : Bytes)
    → IsBytes xs
    → IsBytes ys
    → length xs ≡ length ys
    → compare_bytes xs ys ≡ compare (from_digits a xs) (from_digits a ys)
unfolding compare_bytes
compare-from_digits a [] [] d e h = ground arith
compare-from_digits a [] (y ∷ ys) d e h = absurd (omega arith)
compare-from_digits a (x ∷ xs) [] d e h = absurd (omega arith)
compare-from_digits a (x ∷ xs) (y ∷ ys) d e h = ground (
  arith,
  compare-from_digits (a * 256 + x) xs ys d.1 e.1,
  from_digits-lt (a * 256 + x) (a * 256 + y) xs ys d.1,
  from_digits-lt (a * 256 + y) (a * 256 + x) ys xs e.1,
)

pub compare-put_uint64 :
    (v w : ℕ) → v < 2 ^ 64 → w < 2 ^ 64 → compare_bytes (put_uint64 v) (put_uint64 w) ≡ compare v w
unfolding uint64
compare-put_uint64 v w h k = ground (
  arith,
  compare-from_digits 0 (put_uint64 v) (put_uint64 w) (put_uint64-IsBytes v) (put_uint64-IsBytes w),
  length-put_uint64 v,
  length-put_uint64 w,
  uint64-put_uint64 v,
  uint64-put_uint64 w,
)
