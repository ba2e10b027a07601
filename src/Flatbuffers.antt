-- ===== src/Flatbuffers.antt =====
-- The FlatBuffers library, as the generated code of flatbuf uses it: a builder that holds finished objects
-- and at most one open one, and a finished buffer that is read by position. It is a parameter,
-- and Laws has what its documentation says of it.
pub mod Laws
use nats_requeue.Prelude.{
  ℕ, zero, suc, ◌+◌, ◌*◌, Bool, true, false, List, [], ◌∷◌, Option, none, some, ◌≡◌, ◌≢◌,
  if◌then◌else◌, length, ◌==◌,
}
use nats_requeue.Prelude.Int.{ℤ, pos}
use nats_requeue.Bytes.{Bytes}

-- A field of a table.
pub data Slot : Type 0 where
  offset : ℕ → Slot
  int : ℤ → Slot
  uint : ℕ → Slot

pub data Object : Type 0 where
  text : Bytes → Object
  vector : List ℕ → Object
  table : List (ℕ × Slot) → Object

pub data Open : Type 0 where
  closed : Open
  open_vector : List ℕ → Open
  open_table : List (ℕ × Slot) → Open

unfoldable pub find {ℓ} : {A : Type ℓ} → ℕ → List (ℕ × A) → Option A
find k [] = none
find k ((j, x) ∷ m) = if j == k then some x else find k m

pub record Flatbuffers : Type 1 where
  pub Builder : Type 0
  pub Buffer : Type 0
  pub new_builder : Builder
  pub create_byte_string : Bytes → Builder → Builder × ℕ
  pub create_byte_vector : Bytes → Builder → Builder × ℕ
  pub start_vector : ℕ → ℕ → ℕ → Builder → Builder
  pub prepend_uoffset : ℕ → Builder → Builder
  pub end_vector : ℕ → Builder → Builder × ℕ
  pub start_object : ℕ → Builder → Builder
  pub prepend_uoffset_slot : ℕ → ℕ → ℕ → Builder → Builder
  pub prepend_int64_slot : ℕ → ℤ → ℤ → Builder → Builder
  pub prepend_uint64_slot : ℕ → ℕ → ℕ → Builder → Builder
  pub prepend_int8_slot : ℕ → ℤ → ℤ → Builder → Builder
  pub end_object : Builder → Builder × ℕ
  -- Finish, then FinishedBytes.
  pub finish : ℕ → Builder → Buffer
  -- The position of the root table, and what Offset finds for an entry of a table's vtable, read as a
  -- string, an int64, the length of a vector, or one of its tables; `none` is the offset 0.
  pub root : Buffer → ℕ
  pub byte_vector : ℕ → Buffer → ℕ → Option Bytes
  pub get_int64 : ℕ → Buffer → ℕ → Option ℤ
  pub get_uint64 : ℕ → Buffer → ℕ → Option ℕ
  pub get_int8 : ℕ → Buffer → ℕ → Option ℤ
  pub vector_len : ℕ → Buffer → ℕ → Option ℕ
  pub indirect : ℕ → ℕ → Buffer → ℕ → Option ℕ
  -- Writes in place, which fail (`none`) where the table does not hold the field.
  pub mutate_uint64_slot : ℕ → ℕ → Buffer → ℕ → Option Buffer
  pub mutate_int8_slot : ℕ → ℤ → Buffer → ℕ → Option Buffer

-- The entry of a slot in the vtable.
abbrev pub entry : ℕ → ℕ
entry slot = 4 + 2 * slot

-- The fields of a table after a write in place.
unfoldable pub replace : ℕ → Slot → List (ℕ × Slot) → List (ℕ × Slot)
replace k s [] = []
replace k s ((j, x) ∷ m) = let rest = replace k s m in if j == k then (k, s) ∷ m else (j, x) ∷ rest

-- `x == d` of an int64, where the default d is 0.
abbrev pub is_zero_int : ℤ → Bool
is_zero_int (pos zero) = true
is_zero_int _ = false
