-- ===== src/Flatbuffers/Laws.antt =====
-- What the documentation of the FlatBuffers library says of a builder's objects and a buffer's fields.
use nats_requeue.Prelude.{
  get_elem?, ℕ, List, [], ◌∷◌, Option, none, some, ◌≡◌, ◌≢◌, if◌then◌else◌, length, ◌==◌,
}
use nats_requeue.Prelude.Int.{ℤ, pos}
use nats_requeue.Bytes.{Bytes}
use nats_requeue.Flatbuffers.{
  Slot, offset, int, uint, Object, text, vector, table, Open, closed, open_vector, open_table, find,
  Flatbuffers, entry, replace, is_zero_int,
}

-- The finished objects of a builder by their offset, its open object, and the objects of a buffer.
pub record View (f : Flatbuffers) : Type 0 where
  pub object_at : f.Builder → ℕ → Option Object
  pub open_of : f.Builder → Open
  pub object_in : f.Buffer → ℕ → Option Object

module _ {f : Flatbuffers} (v : View f) where
  abbrev pub Grows : f.Builder → f.Builder → Type 0
  Grows b b' = (o : ℕ) (x : Object) → v.object_at b o ≡ some x → v.object_at b' o ≡ some x

  -- A step that leaves an object open.
  abbrev pub Opens : f.Builder → f.Builder → Open → Type 0
  Opens b b' shape = (v.open_of b' ≡ shape) × Grows b b'

  -- A step that adds a finished object, and returns its offset.
  abbrev pub Adds : f.Builder → f.Builder × ℕ → Object → Type 0
  Adds b r x =
      (v.open_of (r.0) ≡ closed) × Grows b (r.0) × (v.object_at (r.0) (r.1) ≡ some x) × (r.1 ≢ 0)

  -- A write in place to a table, which leaves the rest of the buffer alone.
  abbrev pub Writes : Option (f.Buffer) → f.Buffer → ℕ → ℕ → Slot → List (ℕ × Slot) → Type 0
  Writes written buf p slot s fs =
      (buf' : f.Buffer) × (written ≡ some buf')
      × (f.root buf' ≡ f.root buf)
      × (v.object_in buf' p ≡ some (table (replace slot s fs)))
      × ((o : ℕ) (x : Object) → o ≢ p → v.object_in buf o ≡ some x → v.object_in buf' o ≡ some x)

  pub Grows-trans : {b c d : f.Builder} → Grows b c → Grows c d → Grows b d
  Grows-trans g h o x e = h o x (g o x e)

-- A vector is filled from its end; a slot whose value is the default is not stored; the finished
-- buffer holds the objects at their offsets, and its fields are read as they were added.
pub record Lawful (f : Flatbuffers) : Type 0 where
  pub v : View f
  pub new_closed : v.open_of f.new_builder ≡ closed
  pub adds_text :
      (s : Bytes) (b : f.Builder)
      → v.open_of b ≡ closed
      → Adds v b (f.create_byte_string s b) (text s)
  pub adds_bytes :
      (s : Bytes) (b : f.Builder)
      → v.open_of b ≡ closed
      → Adds v b (f.create_byte_vector s b) (text s)
  pub opens_vector :
      (size n alignment : ℕ) (b : f.Builder)
      → v.open_of b ≡ closed
      → Opens v b (f.start_vector size n alignment b) (open_vector [])
  pub prepends :
      (o : ℕ) (xs : List ℕ) (b : f.Builder)
      → v.open_of b ≡ open_vector xs
      → Opens v b (f.prepend_uoffset o b) (open_vector (o ∷ xs))
  pub adds_vector :
      (xs : List ℕ) (b : f.Builder)
      → v.open_of b ≡ open_vector xs
      → Adds v b (f.end_vector (length xs) b) (vector xs)
  pub opens_table :
      (n : ℕ) (b : f.Builder)
      → v.open_of b ≡ closed
      → Opens v b (f.start_object n b) (open_table [])
  pub sets_offset :
      (slot o : ℕ) (fs : List (ℕ × Slot)) (b : f.Builder)
      → v.open_of b ≡ open_table fs
      → o ≢ 0
      → Opens v b (f.prepend_uoffset_slot slot o 0 b) (open_table ((slot, offset o) ∷ fs))
  pub sets_int :
      (slot : ℕ) (n : ℤ) (fs : List (ℕ × Slot)) (b : f.Builder)
      → v.open_of b ≡ open_table fs
      → Opens v b
          (f.prepend_int64_slot slot n (pos 0) b)
          (open_table (if is_zero_int n then fs else (slot, int n) ∷ fs))
  pub sets_int8 :
      (slot : ℕ) (n : ℤ) (fs : List (ℕ × Slot)) (b : f.Builder)
      → v.open_of b ≡ open_table fs
      → Opens v b
          (f.prepend_int8_slot slot n (pos 0) b)
          (open_table (if is_zero_int n then fs else (slot, int n) ∷ fs))
  pub sets_uint :
      (slot : ℕ) (n : ℕ) (fs : List (ℕ × Slot)) (b : f.Builder)
      → v.open_of b ≡ open_table fs
      → Opens v b
          (f.prepend_uint64_slot slot n 0 b)
          (open_table (if n == 0 then fs else (slot, uint n) ∷ fs))
  pub adds_table :
      (fs : List (ℕ × Slot)) (b : f.Builder)
      → v.open_of b ≡ open_table fs
      → Adds v b (f.end_object b) (table fs)
  pub finishes :
      (r o : ℕ) (b : f.Builder) (x : Object)
      → v.object_at b o ≡ some x
      → v.object_in (f.finish r b) o ≡ some x
  pub finishes_root : (r : ℕ) (b : f.Builder) → f.root (f.finish r b) ≡ r
  pub reads_text :
      (slot p o : ℕ) (fs : List (ℕ × Slot)) (s : Bytes) (buf : f.Buffer)
      → v.object_in buf p ≡ some (table fs)
      → find slot fs ≡ some (offset o)
      → v.object_in buf o ≡ some (text s)
      → f.byte_vector (entry slot) buf p ≡ some s
  pub reads_int :
      (slot p : ℕ) (n : ℤ) (fs : List (ℕ × Slot)) (buf : f.Buffer)
      → v.object_in buf p ≡ some (table fs)
      → find slot fs ≡ some (int n)
      → f.get_int64 (entry slot) buf p ≡ some n
  pub reads_no_int :
      (slot p : ℕ) (fs : List (ℕ × Slot)) (buf : f.Buffer)
      → v.object_in buf p ≡ some (table fs)
      → find slot fs ≡ none
      → f.get_int64 (entry slot) buf p ≡ none
  pub reads_int8 :
      (slot p : ℕ) (n : ℤ) (fs : List (ℕ × Slot)) (buf : f.Buffer)
      → v.object_in buf p ≡ some (table fs)
      → find slot fs ≡ some (int n)
      → f.get_int8 (entry slot) buf p ≡ some n
  pub reads_no_int8 :
      (slot p : ℕ) (fs : List (ℕ × Slot)) (buf : f.Buffer)
      → v.object_in buf p ≡ some (table fs)
      → find slot fs ≡ none
      → f.get_int8 (entry slot) buf p ≡ none
  pub reads_uint :
      (slot p : ℕ) (n : ℕ) (fs : List (ℕ × Slot)) (buf : f.Buffer)
      → v.object_in buf p ≡ some (table fs)
      → find slot fs ≡ some (uint n)
      → f.get_uint64 (entry slot) buf p ≡ some n
  pub reads_no_uint :
      (slot p : ℕ) (fs : List (ℕ × Slot)) (buf : f.Buffer)
      → v.object_in buf p ≡ some (table fs)
      → find slot fs ≡ none
      → f.get_uint64 (entry slot) buf p ≡ none
  pub reads_length :
      (slot p o : ℕ) (fs : List (ℕ × Slot)) (xs : List ℕ) (buf : f.Buffer)
      → v.object_in buf p ≡ some (table fs)
      → find slot fs ≡ some (offset o)
      → v.object_in buf o ≡ some (vector xs)
      → f.vector_len (entry slot) buf p ≡ some (length xs)
  pub reads_element :
      (slot p o i q : ℕ) (fs : List (ℕ × Slot)) (xs : List ℕ) (buf : f.Buffer)
      → v.object_in buf p ≡ some (table fs)
      → find slot fs ≡ some (offset o)
      → v.object_in buf o ≡ some (vector xs)
      → get_elem? xs i ≡ some q
      → f.indirect (entry slot) i buf p ≡ some q
  pub writes_uint :
      (slot p n m : ℕ) (fs : List (ℕ × Slot)) (buf : f.Buffer)
      → v.object_in buf p ≡ some (table fs)
      → find slot fs ≡ some (uint m)
      → Writes v (f.mutate_uint64_slot (entry slot) n buf p) buf p slot (uint n) fs
  pub writes_no_uint :
      (slot p n : ℕ) (fs : List (ℕ × Slot)) (buf : f.Buffer)
      → v.object_in buf p ≡ some (table fs)
      → find slot fs ≡ none
      → f.mutate_uint64_slot (entry slot) n buf p ≡ none
  pub writes_int8 :
      (slot p : ℕ) (n m : ℤ) (fs : List (ℕ × Slot)) (buf : f.Buffer)
      → v.object_in buf p ≡ some (table fs)
      → find slot fs ≡ some (int m)
      → Writes v (f.mutate_int8_slot (entry slot) n buf p) buf p slot (int n) fs
