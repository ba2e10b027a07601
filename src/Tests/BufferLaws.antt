-- ===== src/Tests/BufferLaws.antt =====
-- The library of Tests.Buffers meets the laws of FlatBuffers.
use nats_requeue.Prelude.{
  ◌∙◌, ℕ, Bool, true, false, suc, ap, ◌-◌, ◌/◌, ◌≤◌, List, [], ◌∷◌, Option, none, some, ◌≡◌, ◌≢◌,
  refl, if◌then◌else◌, ◌==◌, arith,
}
use nats_requeue.Prelude.Int.{ℤ}
use nats_requeue.Flatbuffers.{
  Slot, Object, Open, int, uint, text, vector, table, closed, open_vector, open_table, find,
  replace, is_zero_int, entry,
}
use nats_requeue.Flatbuffers.Laws.{Lawful, View}
use nats_requeue.Tests.Buffers.{
  Heap, Finished, top, add, push, put, finished, fields, slot_at, object_of, text_of, members,
  count_members, element, uint_of, int_of, put_object, written, write_uint, write_int, buffers,
}

find-le : (k : ℕ) (x : Object) (m : List (ℕ × Object)) → find k m ≡ some x → k ≤ top m
unfolding find top
find-le k x [] h = ground (arith, h)
find-le k x ((o, y) ∷ m) h = ground (arith, find-le k x m)

find-entry : (slot : ℕ) (fs : List (ℕ × Slot)) → find ((entry slot - 4) / 2) fs ≡ find slot fs
find-entry slot fs = ap (λ n. find n fs) (omega arith)

view : View buffers
unfolding buffers
view = record {
  object_at = λ h o. find o h.objects;
  open_of = λ h. h.shape;
  object_in = λ buf o. find o buf.objects;
}

grows :
    (x y : Object) (o : ℕ) (m : List (ℕ × Object))
    → find o m ≡ some y
    → find o ((suc (top m), x) ∷ m) ≡ some y
unfolding find
grows x y o m e = ground (arith, find-le o y m e, e)

added : (x : Object) (m : List (ℕ × Object)) → find (suc (top m)) ((suc (top m), x) ∷ m) ≡ some x
unfolding find
added x m = ground arith

abbrev Added : Heap → Heap × ℕ → Object → Type 0
Added h r x =
    ((r.0).shape ≡ closed)
    × ((o : ℕ) (y : Object) → find o h.objects ≡ some y → find o ((r.0).objects) ≡ some y)
    × (find (r.1) ((r.0).objects) ≡ some x)
    × (r.1 ≢ 0)

adds : (x : Object) (h : Heap) → Added h (add x h) x
unfolding add
adds x h = (refl, (λ o y e. grows x y o h.objects e), added x h.objects, (λ e. omega (arith, e)))

adds_open :
    (x : Object) (s : Open) (h : Heap)
    → h.shape ≡ s
    → finished s ≡ x
    → Added h (add (finished h.shape) h) x
unfolding add
adds_open x s h e e' = rw (e, e') (adds x h)

opens :
    (s s' : Open) (m : List (ℕ × Object))
    → s ≡ s'
    → (s ≡ s') × ((o : ℕ) (y : Object) → find o m ≡ some y → find o m ≡ some y)
opens s s' m e = (e, (λ o y h. h))

-- The fields of a table that is found at a position.
slot_found :
    (slot p : ℕ) (fs : List (ℕ × Slot)) (s : Option Slot) (buf : Finished)
    → find p buf.objects ≡ some (table fs)
    → find slot fs ≡ s
    → slot_at (entry slot) buf p ≡ s
unfolding slot_at fields
slot_found slot p fs s buf h e = rw (h, find-entry slot fs) e

not_zero : (o : ℕ) → o ≢ 0 → (o == 0) ≡ false
not_zero o h = ground (arith, h)

put_unless :
    (b : Bool) (slot : ℕ) (s : Slot) (fs : List (ℕ × Slot))
    → (if b then open_table fs else put slot s (open_table fs))
      ≡ open_table (if b then fs else (slot, s) ∷ fs)
unfolding put
put_unless true slot s fs = refl
put_unless false slot s fs = refl

find-put :
    (p : ℕ) (x y : Object) (m : List (ℕ × Object))
    → find p m ≡ some y
    → find p (put_object p x m) ≡ some x
unfolding find put_object
find-put p x y [] h = absurd (cc h)
find-put p x y ((o, z) ∷ m) h = ground (arith, h, find-put p x y m)

find-put_other :
    (p o : ℕ) (x : Object) (m : List (ℕ × Object)) → o ≢ p → find o (put_object p x m) ≡ find o m
unfolding find put_object
find-put_other p o x [] h = refl
find-put_other p o x ((q, z) ∷ m) h = ground (arith, h, find-put_other p o x m h)

written_table :
    (slot p : ℕ) (s : Slot) (fs : List (ℕ × Slot)) (buf : Finished)
    → find p buf.objects ≡ some (table fs)
    → (find p ((written (entry slot) p s buf).objects) ≡ some (table (replace slot s fs)))
      × ((o : ℕ) (x : Object)
          → o ≢ p
          → find o buf.objects ≡ some x
          → find o ((written (entry slot) p s buf).objects) ≡ some x)
unfolding written fields
written_table slot p s fs buf h = (
  rw h (
      find-put p _ (table fs) buf.objects h
      ∙ ap (λ k. some (table (replace k s fs))) (omega arith)),
  λ o x n e. find-put_other p o _ buf.objects n ∙ e,
)

write_uint_found :
    (e n m p : ℕ) (buf : Finished)
    → slot_at e buf p ≡ some (uint m)
    → write_uint e n buf p ≡ some (written e p (uint n) buf)
unfolding write_uint uint_of
write_uint_found e n m p buf h =
    ap (λ s. elim (uint_of s) [ none ↦ none | some k ↦ some (written e p (uint n) buf) ]) h

write_uint_missed :
    (e n p : ℕ) (buf : Finished) → slot_at e buf p ≡ none → write_uint e n buf p ≡ none
unfolding write_uint uint_of
write_uint_missed e n p buf h =
    ap (λ s. elim (uint_of s) [ none ↦ none | some k ↦ some (written e p (uint n) buf) ]) h

write_int_found :
    (e p : ℕ) (n m : ℤ) (buf : Finished)
    → slot_at e buf p ≡ some (int m)
    → write_int e n buf p ≡ some (written e p (int n) buf)
unfolding write_int int_of
write_int_found e p n m buf h =
    ap (λ s. elim (int_of s) [ none ↦ none | some k ↦ some (written e p (int n) buf) ]) h

pub buffers-Lawful : Lawful buffers
unfolding buffers view push put finished object_of text_of members int_of uint_of count_members
    element written
buffers-Lawful = record {
  v = view;
  new_closed = refl;
  adds_text = λ s h e. adds (text s) h;
  adds_bytes = λ s h e. adds (text s) h;
  opens_vector = λ size n alignment h e. opens _ _ h.objects refl;
  prepends = λ o xs h e. opens _ _ h.objects (rw e refl);
  adds_vector = λ xs h e. adds_open (vector xs) (open_vector xs) h e refl;
  opens_table = λ n h e. opens _ _ h.objects refl;
  sets_offset = λ slot o fs h e nz. opens _ _ h.objects (rw (e, not_zero o nz) refl);
  sets_int =
      λ slot n fs h e. opens _ _ h.objects (rw e (put_unless (is_zero_int n) slot (int n) fs));
  sets_int8 =
      λ slot n fs h e. opens _ _ h.objects (rw e (put_unless (is_zero_int n) slot (int n) fs));
  sets_uint = λ slot n fs h e. opens _ _ h.objects (rw e (put_unless (n == 0) slot (uint n) fs));
  adds_table = λ fs h e. adds_open (table fs) (open_table fs) h e refl;
  finishes = λ r o h x e. e;
  finishes_root = λ r h. refl;
  reads_text = λ slot p o fs s buf h e e'. rw (slot_found slot p fs _ buf h e, e') refl;
  reads_int = λ slot p n fs buf h e. rw (slot_found slot p fs _ buf h e) refl;
  reads_no_int = λ slot p fs buf h e. rw (slot_found slot p fs _ buf h e) refl;
  reads_int8 = λ slot p n fs buf h e. rw (slot_found slot p fs _ buf h e) refl;
  reads_no_int8 = λ slot p fs buf h e. rw (slot_found slot p fs _ buf h e) refl;
  reads_uint = λ slot p n fs buf h e. rw (slot_found slot p fs _ buf h e) refl;
  reads_no_uint = λ slot p fs buf h e. rw (slot_found slot p fs _ buf h e) refl;
  reads_length = λ slot p o fs xs buf h e e'. rw (slot_found slot p fs _ buf h e, e') refl;
  reads_element = λ slot p o i q fs xs buf h e e' g. rw (slot_found slot p fs _ buf h e, e') g;
  writes_uint = λ slot p n m fs buf h e. (
    written (entry slot) p (uint n) buf,
    write_uint_found (entry slot) n m p buf (slot_found slot p fs _ buf h e),
    refl,
    (written_table slot p (uint n) fs buf h).0,
    (written_table slot p (uint n) fs buf h).1,
  );
  writes_no_uint = λ slot p n fs buf h e.
      write_uint_missed (entry slot) n p buf (slot_found slot p fs _ buf h e);
  writes_int8 = λ slot p n m fs buf h e. (
    written (entry slot) p (int n) buf,
    write_int_found (entry slot) p n m buf (slot_found slot p fs _ buf h e),
    refl,
    (written_table slot p (int n) fs buf h).0,
    (written_table slot p (int n) fs buf h).1,
  );
}
