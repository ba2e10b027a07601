-- ===== src/RequeueMsg/Mutation.antt =====
-- The writes in place of flatbuf/requeue_msg.gen.go, by which the republisher changes the retries and
-- the time to live of a stored message.
use nats_requeue.Prelude.{
  ◌<◌, ℕ, List, [], ◌∷◌, Option, some, ◌≡◌, ◌≢◌, inl, inr, refl, if◌then◌else◌, arith, ◌∙◌,
}
use nats_requeue.Bytes.{Bytes}
use nats_requeue.Prelude.Int.{ℤ, ltb_ℤ}
use nats_requeue.Flatbuffers.{Flatbuffers, Slot, Object, uint, text, table, find, replace}
use nats_requeue.Flatbuffers.Laws.{Lawful}
use nats_requeue.Protocol.{RequeueMessage, backoff_strategy_to_flatbuf, fixed, undefined}
use nats_requeue.RequeueMsg.{
  requeue_to_flatbuf, requeue_read, mutate_retries, mutate_ttl, requeue_bytes,
}
use nats_requeue.RequeueMsg.Stored.{IsNumber, Holds, bytes-Holds}
use nats_requeue.RequeueMsg.Stored.{IsStrategy}
use nats_requeue.RequeueMsg.RoundTrip.{requeue_read_held}

find-replace :
    (k : ℕ) (s y : Slot) (fs : List (ℕ × Slot))
    → find k fs ≡ some y
    → find k (replace k s fs) ≡ some s
unfolding find replace
find-replace k s y [] h = absurd (cc h)
find-replace k s y ((j, x) ∷ fs) h = ground (arith, h, find-replace k s y fs)

find-replace_other :
    (k j : ℕ) (s : Slot) (fs : List (ℕ × Slot)) → j ≢ k → find j (replace k s fs) ≡ find j fs
unfolding find replace
find-replace_other k j s [] h = refl
find-replace_other k j s ((i, x) ∷ fs) h = ground (arith, h, find-replace_other k j s fs h)

stored_number : (s : Option Slot) (n : ℕ) → IsNumber s n → n ≢ 0 → s ≡ some (uint n)
stored_number s n (inl e) h = e
stored_number s n (inr (e, z)) h = absurd (h z)

module _ {f : Flatbuffers} (laws : Lawful f) where
  open laws use {v}
  open v use {object_in}

  -- An object that is a text does not stand where the table does.
  text_elsewhere :
      (buf : f.Buffer) (p o : ℕ) (fs : List (ℕ × Slot)) (s : Bytes)
      → object_in buf p ≡ some (table fs)
      → object_in buf o ≡ some (text s)
      → o ≢ p
  text_elsewhere buf p o fs s t x e = absurd (cc (e, t, x))

  -- A write to one of the numbers.
  written-Holds :
      (r : RequeueMessage) (p k a b c : ℕ) (d : ℤ) (s : Slot) (buf buf' : f.Buffer)
      (h : Holds laws buf p r)
      → k < 4
      → f.root buf' ≡ f.root buf
      → object_in buf' p ≡ some (table (replace k s h.fs))
      → ((o : ℕ) (x : Object) → o ≢ p → object_in buf o ≡ some x → object_in buf' o ≡ some x)
      → IsNumber (find 0 (replace k s h.fs)) a
      → IsNumber (find 1 (replace k s h.fs)) b
      → IsNumber (find 2 (replace k s h.fs)) c
      → IsStrategy (find 3 (replace k s h.fs)) d
      → Holds laws buf' p (record r { retries = a; ttl = b; delay = c; backoff_strategy = d })
  written-Holds r p k a b c d s buf buf' h low root t others ha hb hc hd =
      let kept = λ (o : ℕ) (w : Bytes) (x : object_in buf o ≡ some (text w)).
        others o (text w) (text_elsewhere buf p o h.fs w h.at_table x) x in
      let same = λ (j : ℕ) (y : j ≢ k). find-replace_other k j s h.fs y in
      record {
        fs = replace k s h.fs;
        name = h.name;
        subject = h.subject;
        payload = h.payload;
        at_root = root ∙ h.at_root;
        at_table = t;
        retries_slot = ha;
        ttl_slot = hb;
        delay_slot = hc;
        strategy_slot = hd;
        name_slot = same 4 (λ e. omega (arith, e, low)) ∙ h.name_slot;
        subject_slot = same 5 (λ e. omega (arith, e, low)) ∙ h.subject_slot;
        payload_slot = same 6 (λ e. omega (arith, e, low)) ∙ h.payload_slot;
        at_name = kept h.name r.queue_name h.at_name;
        at_subject = kept h.subject r.original_subject h.at_subject;
        at_payload = kept h.payload r.original_payload h.at_payload;
      }

  pub mutate_retries-Holds :
      (r : RequeueMessage) (n p : ℕ) (buf : f.Buffer)
      → Holds laws buf p r
      → r.retries ≢ 0
      → (buf' : f.Buffer) × (mutate_retries f n buf p ≡ some buf')
        × Holds laws buf' p (record r { retries = n })
  unfolding mutate_retries
  mutate_retries-Holds r n p buf h nz =
      let slot = stored_number (find 0 h.fs) r.retries h.retries_slot nz in
      let (buf', e, root, t, others) = laws.writes_uint 0 p n r.retries h.fs buf h.at_table slot in
      let same = λ (j : ℕ) (y : j ≢ 0). find-replace_other 0 j (uint n) h.fs y in
      (
        buf',
        e,
        written-Holds r p 0 n r.ttl r.delay r.backoff_strategy (uint n) buf buf' h (omega arith)
            root t others (inl (find-replace 0 (uint n) _ h.fs slot))
            (rw (same 1 (λ z. omega (arith, z))) h.ttl_slot)
            (rw (same 2 (λ z. omega (arith, z))) h.delay_slot)
            (rw (same 3 (λ z. omega (arith, z))) h.strategy_slot),
      )

  pub mutate_ttl-Holds :
      (r : RequeueMessage) (n p : ℕ) (buf : f.Buffer)
      → Holds laws buf p r
      → r.ttl ≢ 0
      → (buf' : f.Buffer) × (mutate_ttl f n buf p ≡ some buf')
        × Holds laws buf' p (record r { ttl = n })
  unfolding mutate_ttl
  mutate_ttl-Holds r n p buf h nz =
      let slot = stored_number (find 1 h.fs) r.ttl h.ttl_slot nz in
      let (buf', e, root, t, others) = laws.writes_uint 1 p n r.ttl h.fs buf h.at_table slot in
      let same = λ (j : ℕ) (y : j ≢ 1). find-replace_other 1 j (uint n) h.fs y in
      (
        buf',
        e,
        written-Holds r p 1 r.retries n r.delay r.backoff_strategy (uint n) buf buf' h (omega arith)
            root t others (rw (same 0 (λ z. omega (arith, z))) h.retries_slot)
            (inl (find-replace 1 (uint n) _ h.fs slot))
            (rw (same 2 (λ z. omega (arith, z))) h.delay_slot)
            (rw (same 3 (λ z. omega (arith, z))) h.strategy_slot),
      )

  -- For any library that meets its laws: in a message that Bytes encoded with retries and a time to
  -- live, both not zero, MutateRetries and then MutateTtl succeed, and the message is read from NATS
  -- with the two new numbers and otherwise as it was, but for a strategy above the named ones, which
  -- arrives as undefined.
  pub requeue_read-mutate_ttl :
      (r : RequeueMessage) (n t : ℕ)
      → r.retries ≢ 0
      → r.ttl ≢ 0
      → let buf = requeue_bytes f r in
        (buf₁ : f.Buffer) × (buf₂ : f.Buffer) × (mutate_retries f n buf (f.root buf) ≡ some buf₁)
        × (mutate_ttl f t buf₁ (f.root buf) ≡ some buf₂)
        × (requeue_read f buf₂ ≡ record r {
          retries = n;
          ttl = t;
          backoff_strategy =
              if ltb_ℤ fixed r.backoff_strategy then undefined else r.backoff_strategy;
        })
  unfolding requeue_bytes backoff_strategy_to_flatbuf
  requeue_read-mutate_ttl r n t has_retries has_ttl =
      let (b, p) = requeue_to_flatbuf f r f.new_builder in
      let (buf₁, e₁, h₁) =
        mutate_retries-Holds _ n p (f.finish p b) (bytes-Holds laws r) has_retries in
      let (buf₂, e₂, h₂) = mutate_ttl-Holds _ t p buf₁ h₁ has_ttl in
      (
        buf₁,
        buf₂,
        rw (laws.finishes_root p b) e₁,
        rw (laws.finishes_root p b) e₂,
        requeue_read_held laws _ p buf₂ h₂,
      )
