-- ===== src/Bytes.antt =====
-- Byte strings, and what internal/key/key.go and internal/queue take from Go's packages bytes and
-- encoding/binary: bytes.Compare, and big-endian 64-bit words. A byte is a number below 256; a Go
-- string is its bytes.
pub mod Order
pub mod Word
use nats_requeue.Prelude.{
  ℕ, suc, ◌+◌, ◌*◌, ◌/◌, ◌%◌, ◌^◌, ◌<◌, ◌≡◌, Bool, true, false, List, [], ◌∷◌, Ordering, compare,
  All,
}

abbrev pub Bytes : Type 0
Bytes = List ℕ

abbrev pub IsBytes : Bytes → Type 0
IsBytes = All (λ x. x < 256)

-- The first difference decides, and where there is none the longer string is greater.
unfoldable pub compare_bytes : Bytes → Bytes → Ordering
compare_bytes [] [] = Ordering.eq
compare_bytes [] (y ∷ ys) = Ordering.lt
compare_bytes (x ∷ xs) [] = Ordering.gt
compare_bytes (x ∷ xs) (y ∷ ys) = elim (compare x y) [
  | Ordering.lt ↦ Ordering.lt
  | Ordering.eq ↦ compare_bytes xs ys
  | Ordering.gt ↦ Ordering.gt
]

unfoldable pub equal_bytes : Bytes → Bytes → Bool
equal_bytes xs ys = elim (compare_bytes xs ys) [ Ordering.eq ↦ true | _ ↦ false ]

-- binary.BigEndian.PutUint64.
unfoldable pub put_uint64 : ℕ → Bytes
put_uint64 v =
    (v / 2 ^ 56 % 256)
    ∷ (v / 2 ^ 48 % 256)
    ∷ (v / 2 ^ 40 % 256)
    ∷ (v / 2 ^ 32 % 256)
    ∷ (v / 2 ^ 24 % 256)
    ∷ (v / 2 ^ 16 % 256)
    ∷ (v / 2 ^ 8 % 256)
    ∷ (v % 256)
    ∷ []

abbrev pub from_digits : ℕ → Bytes → ℕ
from_digits acc [] = acc
from_digits acc (x ∷ xs) = from_digits (acc * 256 + x) xs

-- binary.BigEndian.Uint64, of eight bytes.
unfoldable pub uint64 : Bytes → ℕ
uint64 b = from_digits 0 b
