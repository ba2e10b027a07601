-- ===== src/Tests/Buffers.antt =====
-- A FlatBuffers library: the finished objects in a list by their offset.
use nats_requeue.Prelude.{
  get_elem?, ℕ, suc, ◌+◌, ◌-◌, ◌/◌, List, [], ◌∷◌, Option, none, some, if◌then◌else◌, length, ◌==◌,
}
use nats_requeue.Prelude.Int.{ℤ}
use nats_requeue.Bytes.{Bytes}
use nats_requeue.Flatbuffers.{
  Flatbuffers, Slot, Object, Open, offset, int, uint, text, vector, table, closed, open_vector,
  open_table, find, replace, is_zero_int,
}

pub record Heap : Type 0 where
  pub objects : List (ℕ × Object)
  pub shape : Open

pub record Finished : Type 0 where
  pub objects : List (ℕ × Object)
  pub root : ℕ

unfoldable pub top : List (ℕ × Object) → ℕ
top [] = 0
top ((o, x) ∷ m) = o + top m

unfoldable pub add : Object → Heap → Heap × ℕ
add x h =
    (record { objects = (suc (top h.objects), x) ∷ h.objects; shape = closed }, suc (top h.objects))

unfoldable pub push : ℕ → Open → Open
push o (open_vector xs) = open_vector (o ∷ xs)
push o s = s

unfoldable pub put : ℕ → Slot → Open → Open
put i s (open_table fs) = open_table ((i, s) ∷ fs)
put i s o = o

unfoldable pub finished : Open → Object
finished (open_vector xs) = vector xs
finished (open_table fs) = table fs
finished closed = text []

unfoldable pub fields : Option Object → List (ℕ × Slot)
fields (some (table fs)) = fs
fields _ = []

unfoldable pub slot_at : ℕ → Finished → ℕ → Option Slot
slot_at e buf p = find ((e - 4) / 2) (fields (find p buf.objects))

unfoldable pub object_of : Finished → Option Slot → Option Object
object_of buf (some (offset o)) = find o buf.objects
object_of buf _ = none

unfoldable pub text_of : Option Object → Option Bytes
text_of (some (text s)) = some s
text_of _ = none

unfoldable pub members : Option Object → Option (List ℕ)
members (some (vector xs)) = some xs
members _ = none

unfoldable pub count_members : Option (List ℕ) → Option ℕ
count_members none = none
count_members (some xs) = some (length xs)

unfoldable pub element : ℕ → Option (List ℕ) → Option ℕ
element i none = none
element i (some xs) = get_elem? xs i

unfoldable pub uint_of : Option Slot → Option ℕ
uint_of (some (uint n)) = some n
uint_of _ = none

unfoldable pub int_of : Option Slot → Option ℤ
int_of (some (int n)) = some n
int_of _ = none

-- The objects with the one at a position replaced.
unfoldable pub put_object : ℕ → Object → List (ℕ × Object) → List (ℕ × Object)
put_object p x [] = []
put_object p x ((o, y) ∷ m) = (o, if o == p then x else y) ∷ put_object p x m

unfoldable pub written : ℕ → ℕ → Slot → Finished → Finished
written e p s buf = record buf {
  objects =
      put_object p (table (replace ((e - 4) / 2) s (fields (find p buf.objects)))) buf.objects;
}

unfoldable pub write_uint : ℕ → ℕ → Finished → ℕ → Option Finished
write_uint e n buf p = elim (uint_of (slot_at e buf p)) [
  | none ↦ none
  | some m ↦ some (written e p (uint n) buf)
]

unfoldable pub write_int : ℕ → ℤ → Finished → ℕ → Option Finished
write_int e n buf p = elim (int_of (slot_at e buf p)) [
  | none ↦ none
  | some m ↦ some (written e p (int n) buf)
]

unfoldable pub buffers : Flatbuffers
unfolding write_uint write_int
buffers = record {
  Builder = Heap;
  Buffer = Finished;
  new_builder = record { objects = []; shape = closed };
  create_byte_string = λ s h. add (text s) h;
  create_byte_vector = λ s h. add (text s) h;
  start_vector = λ size n alignment h. record h { shape = open_vector [] };
  prepend_uoffset = λ o h. record h { shape = push o h.shape };
  end_vector = λ n h. add (finished h.shape) h;
  start_object = λ n h. record h { shape = open_table [] };
  prepend_uoffset_slot =
      λ i o d h. record h { shape = if o == d then h.shape else put i (offset o) h.shape };
  prepend_int64_slot =
      λ i n d h. record h { shape = if is_zero_int n then h.shape else put i (int n) h.shape };
  prepend_int8_slot =
      λ i n d h. record h { shape = if is_zero_int n then h.shape else put i (int n) h.shape };
  prepend_uint64_slot =
      λ i n d h. record h { shape = if n == d then h.shape else put i (uint n) h.shape };
  end_object = λ h. add (finished h.shape) h;
  finish = λ r h. record { objects = h.objects; root = r };
  root = λ buf. buf.root;
  byte_vector = λ e buf p. text_of (object_of buf (slot_at e buf p));
  get_int64 = λ e buf p. int_of (slot_at e buf p);
  get_int8 = λ e buf p. int_of (slot_at e buf p);
  get_uint64 = λ e buf p. uint_of (slot_at e buf p);
  vector_len = λ e buf p. count_members (members (object_of buf (slot_at e buf p)));
  indirect = λ e i buf p. element i (members (object_of buf (slot_at e buf p)));
  mutate_uint64_slot = write_uint;
  mutate_int8_slot = write_int;
}
