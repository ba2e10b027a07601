-- ===== src/QueueKey/Fresh.antt =====
-- The keys that an instance has issued: a new key differs from all of them, whatever its queue.
use mathlib.Core.List.{append_assoc}
use nats_requeue.Prelude.{
  suc, ◌-◌, ◌^◌, ◌≤◌, ◌<◌, ◌≡◌, ◌≢◌, refl, sym, ap, ◌∙◌, [], ◌∷◌, ◌++◌, length, drop, length-append,
  arith,
}
use nats_requeue.Bytes.{Bytes}
use nats_requeue.Key
use nats_requeue.Key.{Time, Source, size}
use nats_requeue.Key.Order.{length-new, new_fields}
use nats_requeue.QueueKey.RoundTrip.{bytes-message}
use nats_requeue.QueueKey.{bytes, new_queue_key_for_message, new_queue_key_for_state, sep}

-- The key at the end of a queue key's bytes.
unfoldable pub last_key : Bytes → Bytes
last_key k = drop (length k - size) k

-- If the key is of this instance, then its number is not above the instance's present one.
abbrev pub IsIssued : Source → Bytes → Type 0
IsIssued src k = Key.instance_id (last_key k) ≡ src.instance_id → Key.seq (last_key k) ≤ src.seq

-- The key is one of a message of some queue.
abbrev pub IsMessageKey : Bytes → Type 0
IsMessageKey k = (name : Bytes) × (key : Bytes) × (k ≡ bytes (new_queue_key_for_message name key))

-- If it is a message's key of this instance, then it was issued.
abbrev pub IsOwn : Source → Bytes → Type 0
IsOwn src k = IsMessageKey k → IsIssued src k

drop-append : (xs ys : Bytes) → drop (length xs) (xs ++ ys) ≡ ys
drop-append [] ys = refl
drop-append (x ∷ xs) ys = drop-append xs ys

last_key-append : (xs key : Bytes) → length key ≡ size → last_key (xs ++ key) ≡ key
unfolding last_key
last_key-append xs key h =
    ap (λ n. drop n (xs ++ key)) (omega (arith, length-append xs key, h)) ∙ drop-append xs key

last_key-bytes :
    (name key : Bytes)
    → length key ≡ size
    → last_key (bytes (new_queue_key_for_message name key)) ≡ key
last_key-bytes name key h =
    let header = λ (l : Bytes). b'_' ∷ b'q' ∷ b'.' ∷ b'_' ∷ b'm' ∷ b'.' ∷ l in
    ap last_key (bytes-message name key ∙ ap header (sym (append_assoc name (sep ∷ []) key)))
    ∙ last_key-append (header (name ++ sep ∷ [])) key h

-- A new key of the queue named, and the instance's state after it.
abbrev pub new_key : Source → Time → Bytes → Bytes
new_key src t name = bytes (new_queue_key_for_message name (Key.new src t).0)

-- One more key was issued.
abbrev pub IsNext : Source → Source → Type 0
IsNext src src' = (src'.instance_id ≡ src.instance_id) × (src'.seq ≡ suc src.seq)

pub new-IsNext : (src : Source) (t : Time) → suc src.seq < 2 ^ 64 → IsNext src ((Key.new src t).1)
unfolding Key.new
new-IsNext src t h = (refl, omega (arith, h))

pub IsIssued-mono :
    (src src' : Source) (k : Bytes)
    → src'.instance_id ≡ src.instance_id
    → src.seq ≤ src'.seq
    → IsIssued src k
    → IsIssued src' k
IsIssued-mono src src' k e l h i = omega (arith, h (i ∙ e), l)

module _ (src : Source) (t : Time) (name : Bytes) (id : src.instance_id < 2 ^ 64)
    (room : suc src.seq < 2 ^ 64) where
  seq_of_new : Key.seq (last_key (new_key src t name)) ≡ suc src.seq
  seq_of_new =
      let (_, s, _, _) = new_fields src t id in
      ap Key.seq (last_key-bytes name _ (length-new src t)) ∙ s ∙ omega (arith, room)

  id_of_new : Key.instance_id (last_key (new_key src t name)) ≡ src.instance_id
  id_of_new =
      let (_, _, i, _) = new_fields src t id in
      ap Key.instance_id (last_key-bytes name _ (length-new src t)) ∙ i

  -- A key that was issued before is not the new one.
  pub issued-new_ne : (k : Bytes) → IsIssued src k → k ≢ new_key src t name
  issued-new_ne k h e =
      let below = h (ap (λ x. Key.instance_id (last_key x)) e ∙ id_of_new) in
      let same = ap (λ x. Key.seq (last_key x)) e ∙ seq_of_new in omega (arith, below, same)

  pub new-IsIssued : IsIssued ((Key.new src t).1) (new_key src t name)
  unfolding Key.new
  new-IsIssued i = omega (arith, seq_of_new, room)

-- A message's key is not that of a queue's state.
pub message-state_ne :
    (k name property : Bytes) → IsMessageKey k → k ≢ bytes (new_queue_key_for_state name property)
unfolding bytes new_queue_key_for_message new_queue_key_for_state
message-state_ne k name property (n, key, e) h = ground (arith, e, h)
