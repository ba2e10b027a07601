-- ===== src/Tests/Wire.antt =====
-- An encoding of messages that meets the laws of `Codec`: the numbers, then each string behind its
-- length.
use nats_requeue.Prelude.{
  true, arith, ℕ, zero, suc, ◌≡◌, refl, ap, ◌≢◌, [], ◌∷◌, ◌++◌, Option, none, some, length, take,
  drop,
}
use nats_requeue.Prelude.Int.{ℤ, pos, negsuc}
use nats_requeue.Bytes.{Bytes}
use nats_requeue.Protocol.{Codec, LawfulCodec, RequeueMessage}

take-append : (xs ys : Bytes) → take (length xs) (xs ++ ys) ≡ xs
take-append [] ys = refl
take-append (x ∷ xs) ys = ap (λ l. x ∷ l) (take-append xs ys)

drop-append : (xs ys : Bytes) → drop (length xs) (xs ++ ys) ≡ ys
drop-append [] ys = refl
drop-append (x ∷ xs) ys = drop-append xs ys

encode_int : ℤ → Bytes
encode_int (pos n) = 0 ∷ n ∷ []
encode_int (negsuc n) = 1 ∷ n ∷ []

decode_int : ℕ → ℕ → ℤ
decode_int zero n = pos n
decode_int (suc s) n = negsuc n

encode : RequeueMessage → Bytes
encode m =
    m.retries
    ∷ m.ttl
    ∷ m.delay
    ∷ (encode_int m.backoff_strategy
        ++ (length m.queue_name
            ∷ length m.original_subject
            ∷ (m.queue_name ++ (m.original_subject ++ m.original_payload))))

abbrev blank : RequeueMessage
blank = record {
  retries = 0;
  ttl = 0;
  delay = 0;
  backoff_strategy = pos 0;
  queue_name = [];
  original_subject = [];
  original_payload = [];
}

decode : Bytes → RequeueMessage
decode (r ∷ t ∷ d ∷ s ∷ b ∷ n ∷ k ∷ rest) = record {
  retries = r;
  ttl = t;
  delay = d;
  backoff_strategy = decode_int s b;
  queue_name = take n rest;
  original_subject = take k (drop n rest);
  original_payload = drop k (drop n rest);
}
decode _ = blank

set_retries : Bytes → ℕ → Option Bytes
set_retries (r ∷ b) n = some (n ∷ b)
set_retries [] n = none

set_ttl : Bytes → ℕ → Option Bytes
set_ttl (r ∷ t ∷ b) n = some (r ∷ n ∷ b)
set_ttl _ n = none

decode-encode : (m : RequeueMessage) → decode (encode m) ≡ m
unfolding decode encode encode_int decode_int
decode-encode m = ground (
  arith,
  take-append m.queue_name (m.original_subject ++ m.original_payload),
  drop-append m.queue_name (m.original_subject ++ m.original_payload),
  take-append m.original_subject m.original_payload,
  drop-append m.original_subject m.original_payload,
)

retries_stored :
    (b : Bytes) (n : ℕ)
    → (decode b).retries ≢ 0
    → (b' : Bytes) × (set_retries b n ≡ some b') × (decode b' ≡ record (decode b) { retries = n })
unfolding decode set_retries
retries_stored (r ∷ t ∷ d ∷ s ∷ b ∷ l ∷ k ∷ rest) n h =
    (n ∷ t ∷ d ∷ s ∷ b ∷ l ∷ k ∷ rest, refl, refl)
retries_stored _ n h = absurd (h refl)

ttl_stored :
    (b : Bytes) (n : ℕ)
    → (decode b).ttl ≢ 0
    → (b' : Bytes) × (set_ttl b n ≡ some b') × (decode b' ≡ record (decode b) { ttl = n })
unfolding decode set_ttl
ttl_stored (r ∷ t ∷ d ∷ s ∷ b ∷ l ∷ k ∷ rest) n h = (r ∷ n ∷ d ∷ s ∷ b ∷ l ∷ k ∷ rest, refl, refl)
ttl_stored _ n h = absurd (h refl)

unfoldable pub wire : Codec
unfolding decode encode encode_int decode_int set_retries set_ttl
wire = record {
  is_payload_sound = λ b. true;
  are_fields_sound = λ b. true;
  read = decode;
  write = encode;
  mutate_retries = set_retries;
  mutate_ttl = set_ttl;
}

pub wire-LawfulCodec : LawfulCodec wire
unfolding wire
wire-LawfulCodec = record {
  IsStored = λ b. Unit;
  stored_sound = λ b u. (refl, refl);
  write-IsStored = λ m. tt;
  read-write = λ m h. decode-encode m;
  retries_stored = λ b n h nz. let (b', e, r) = retries_stored b n nz in (b', e, tt, r);
  ttl_stored = λ b n h nz. let (b', e, r) = ttl_stored b n nz in (b', e, tt, r);
}

pub wire-IsStored : (b : Bytes) → wire-LawfulCodec.IsStored b
unfolding wire-LawfulCodec
wire-IsStored b = tt
