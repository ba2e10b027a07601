-- ===== src/Tests/Encoding.antt =====
-- The buffers of Tests.Buffers as byte strings, and the codec over them.
use mathlib.Core.List.{append_assoc, append-nil}
use nats_requeue.Prelude.{true, sym}
use nats_requeue.Prelude.{ℕ, zero, suc, List, [], ◌∷◌, ◌++◌, ◌≡◌, refl, ap, ◌∙◌, length}
use nats_requeue.Prelude.Int.{pos, negsuc}
use nats_requeue.Bytes.{Bytes}
use nats_requeue.Flatbuffers.{Slot, Object, offset, int, uint, text, vector, table}
use nats_requeue.Protocol.{LawfulCodec}
use nats_requeue.RequeueMsg.Coded.{requeue_codec, requeue_codec-LawfulCodec}
use nats_requeue.Prelude.{sym}
use nats_requeue.Tests.Buffers.{Finished, buffers}
use nats_requeue.Tests.BufferLaws.{buffers-Lawful}

-- A list of encoded items, and as many items read from the front.
put_all : {A : Type 0} → (A → Bytes) → List A → Bytes
put_all e [] = []
put_all e (x ∷ xs) = e x ++ put_all e xs

take_all : {A : Type 0} → ℕ → (Bytes → A × Bytes) → Bytes → List A × Bytes
take_all zero d bs = ([], bs)
take_all (suc n) d bs =
    let (x, after) = d bs in let (xs, rest) = take_all n d after in (x ∷ xs, rest)

take_all-put_all :
    {A : Type 0} (e : A → Bytes) (d : Bytes → A × Bytes)
    → ((x : A) (bs : Bytes) → d (e x ++ bs) ≡ (x, bs))
    → (xs : List A) (bs : Bytes) → take_all (length xs) d (put_all e xs ++ bs) ≡ (xs, bs)
unfolding take_all put_all
take_all-put_all e d h [] bs = refl
take_all-put_all e d h (x ∷ xs) bs =
    rw
      (append_assoc (e x) (put_all e xs) bs, h x (put_all e xs ++ bs), take_all-put_all e d h xs bs)
      refl

put_number : ℕ → Bytes
put_number n = n ∷ []

take_number : Bytes → ℕ × Bytes
take_number [] = (0, [])
take_number (n ∷ bs) = (n, bs)

put_field : ℕ × Slot → Bytes
put_field (i, offset o) = i ∷ 0 ∷ o ∷ []
put_field (i, uint n) = i ∷ 1 ∷ n ∷ []
put_field (i, int (pos n)) = i ∷ 2 ∷ n ∷ []
put_field (i, int (negsuc n)) = i ∷ 3 ∷ n ∷ []

take_field : Bytes → (ℕ × Slot) × Bytes
take_field (i ∷ zero ∷ o ∷ bs) = ((i, offset o), bs)
take_field (i ∷ suc zero ∷ n ∷ bs) = ((i, uint n), bs)
take_field (i ∷ suc (suc zero) ∷ n ∷ bs) = ((i, int (pos n)), bs)
take_field (i ∷ suc (suc (suc zero)) ∷ n ∷ bs) = ((i, int (negsuc n)), bs)
take_field bs = ((0, offset 0), bs)

put_object : ℕ × Object → Bytes
unfolding put_all put_number put_field
put_object (o, text s) = o ∷ 0 ∷ length s ∷ put_all put_number s
put_object (o, vector xs) = o ∷ 1 ∷ length xs ∷ put_all put_number xs
put_object (o, table fs) = o ∷ 2 ∷ length fs ∷ put_all put_field fs

take_object : Bytes → (ℕ × Object) × Bytes
unfolding take_all take_number take_field
take_object (o ∷ zero ∷ n ∷ bs) = let (s, rest) = take_all n take_number bs in ((o, text s), rest)
take_object (o ∷ suc zero ∷ n ∷ bs) =
    let (xs, rest) = take_all n take_number bs in ((o, vector xs), rest)
take_object (o ∷ suc (suc zero) ∷ n ∷ bs) =
    let (fs, rest) = take_all n take_field bs in ((o, table fs), rest)
take_object bs = ((0, text []), bs)

number_back : (n : ℕ) (bs : Bytes) → take_number (put_number n ++ bs) ≡ (n, bs)
unfolding take_number put_number
number_back n bs = refl

field_back : (x : ℕ × Slot) (bs : Bytes) → take_field (put_field x ++ bs) ≡ (x, bs)
unfolding take_field put_field
field_back (i, offset o) bs = refl
field_back (i, uint n) bs = refl
field_back (i, int (pos n)) bs = refl
field_back (i, int (negsuc n)) bs = refl

object_back : (x : ℕ × Object) (bs : Bytes) → take_object (put_object x ++ bs) ≡ (x, bs)
unfolding take_object put_object
object_back (o, text s) bs = rw (take_all-put_all put_number take_number number_back s bs) refl
object_back (o, vector xs) bs = rw (take_all-put_all put_number take_number number_back xs bs) refl
object_back (o, table fs) bs = rw (take_all-put_all put_field take_field field_back fs bs) refl

of_finished : Finished → Bytes
unfolding put_object
of_finished buf = buf.root ∷ length buf.objects ∷ put_all put_object buf.objects

to_finished : Bytes → Finished
unfolding take_object
to_finished (r ∷ n ∷ bs) = record { objects = (take_all n take_object bs).0; root = r }
to_finished bs = record { objects = []; root = 0 }

finished_back : (buf : Finished) → to_finished (of_finished buf) ≡ buf
unfolding to_finished of_finished
finished_back buf =
    let all = put_all put_object buf.objects in
    let taken =
      ap (take_all (length buf.objects) take_object) (sym (append-nil all))
      ∙ take_all-put_all put_object take_object object_back buf.objects [] in
    ap (λ r. record { objects = r.0; root = buf.root }) taken

of_buffer : buffers.Buffer → Bytes
unfolding buffers
of_buffer buf = of_finished buf

to_buffer : Bytes → buffers.Buffer
unfolding buffers
to_buffer bs = to_finished bs

buffer_back : (buf : buffers.Buffer) → to_buffer (of_buffer buf) ≡ buf
unfolding buffers to_buffer of_buffer
buffer_back buf = finished_back buf

requeue_codec-LawfulCodec_example :
    LawfulCodec (requeue_codec buffers of_buffer to_buffer (λ b. true) (λ b. true))
requeue_codec-LawfulCodec_example =
    requeue_codec-LawfulCodec buffers of_buffer to_buffer (λ b. true) (λ b. true) buffers-Lawful
      buffer_back (λ b m. (refl, refl))
