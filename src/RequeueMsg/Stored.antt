-- ===== src/RequeueMsg/Stored.antt =====
-- What the buffer of an encoded requeue message holds: a table with the message's fields, in which a
-- number that is zero is not stored.
use nats_requeue.Prelude.{
  ℕ, zero, suc, List, [], ◌∷◌, Bool, true, false, Option, none, some, ◌≡◌, refl, ◌∙◌, if◌then◌else◌,
  ◌==◌, Bool-cases, inl, inr, arith, ◌⊎◌,
}
use nats_requeue.Prelude.Int.{ℤ, pos}
use nats_requeue.Flatbuffers.{
  Flatbuffers, Slot, Object, offset, int, uint, text, table, find, is_zero_int,
}
use nats_requeue.Flatbuffers.Laws.{Lawful, Grows-trans}
use nats_requeue.Protocol.{RequeueMessage, backoff_strategy_to_flatbuf}
use nats_requeue.RequeueMsg.{
  requeue_message_start, add_retries, add_ttl, add_delay, add_backoff_strategy,
  requeue_add_queue_name, add_original_subject, add_original_payload, requeue_to_flatbuf,
}

-- A slot that is set unless its value is the default.
abbrev set_unless : Bool → ℕ → Slot → List (ℕ × Slot) → List (ℕ × Slot)
set_unless b i s fs = if b then fs else (i, s) ∷ fs

find_other :
    (b : Bool) (i k : ℕ) (s : Slot) (fs : List (ℕ × Slot))
    → (i == k) ≡ false
    → find k (set_unless b i s fs) ≡ find k fs
unfolding find
find_other true i k s fs h = refl
find_other false i k s fs h = rw h refl

find_set :
    (b : Bool) (i : ℕ) (s : Slot) (fs : List (ℕ × Slot))
    → (i == i) ≡ true
    → find i fs ≡ none
    → find i (set_unless b i s fs) ≡ (if b then none else some s)
unfolding find
find_set true i s fs h e = e
find_set false i s fs h e = rw h refl

abbrev numbers : ℕ → ℕ → ℕ → ℤ → List (ℕ × Slot)
numbers r t d s = set_unless (is_zero_int s) 3 (int s) (
    set_unless (d == 0) 2 (uint d)
      (set_unless (t == 0) 1 (uint t) (set_unless (r == 0) 0 (uint r) [])))

find-numbers :
    (r t d : ℕ) (s : ℤ)
    → (find 0 (numbers r t d s) ≡ (if r == 0 then none else some (uint r)))
      × (find 1 (numbers r t d s) ≡ (if t == 0 then none else some (uint t)))
      × (find 2 (numbers r t d s) ≡ (if d == 0 then none else some (uint d)))
      × (find 3 (numbers r t d s) ≡ (if is_zero_int s then none else some (int s)))
unfolding find
find-numbers r t d s =
    let f0 = set_unless (r == 0) 0 (uint r) [] in
    let f1 = set_unless (t == 0) 1 (uint t) f0 in
    let f2 = set_unless (d == 0) 2 (uint d) f1 in
    (
      find_other _ 3 0 (int s) f2 refl
          ∙ find_other _ 2 0 (uint d) f1 refl
          ∙ find_other _ 1 0 (uint t) f0 refl
          ∙ find_set _ 0 (uint r) [] refl refl,
      find_other _ 3 1 (int s) f2 refl
          ∙ find_other _ 2 1 (uint d) f1 refl
          ∙ find_set _ 1 (uint t) f0 refl (find_other _ 0 1 (uint r) [] refl),
      find_other _ 3 2 (int s) f2 refl
          ∙ find_set _ 2 (uint d) f1 refl
              (find_other _ 1 2 (uint t) f0 refl ∙ find_other _ 0 2 (uint r) [] refl),
      find_set _ 3 (int s) f2 refl (
          find_other _ 2 3 (uint d) f1 refl
          ∙ find_other _ 1 3 (uint t) f0 refl
          ∙ find_other _ 0 3 (uint r) [] refl),
    )

abbrev slots : ℕ → ℕ → ℕ → RequeueMessage → List (ℕ × Slot)
slots name subject payload r =
    (6, offset payload)
    ∷ (5, offset subject)
    ∷ (4, offset name)
    ∷ numbers r.retries r.ttl r.delay (backoff_strategy_to_flatbuf r)

-- The table of a message and its three byte strings are among these objects.
abbrev StoresMessage : (ℕ → Option Object) → ℕ → RequeueMessage → Type 0
StoresMessage at p r =
    (name : ℕ) × (subject : ℕ) × (payload : ℕ) × (at p
      ≡ some (table (slots name subject payload r)))
    × (at name ≡ some (text r.queue_name))
    × (at subject ≡ some (text r.original_subject))
    × (at payload ≡ some (text r.original_payload))

-- A number that is stored, or is zero and is not.
abbrev pub IsNumber : Option Slot → ℕ → Type 0
IsNumber s n = (s ≡ some (uint n)) ⊎ ((s ≡ none) × (n ≡ 0))

abbrev pub IsStrategy : Option Slot → ℤ → Type 0
IsStrategy s n = (s ≡ some (int n)) ⊎ ((s ≡ none) × (n ≡ pos 0))

unless-IsNumber : (n : ℕ) → IsNumber (if n == 0 then none else some (uint n)) n
unless-IsNumber n = elim (Bool-cases (n == 0)) [
  | inl z ↦ rw z (inr (refl, ground (arith, z)))
  | inr z ↦ rw z (inl refl)
]

unless-IsStrategy : (n : ℤ) → IsStrategy (if is_zero_int n then none else some (int n)) n
unless-IsStrategy (pos zero) = inr (refl, refl)
unless-IsStrategy (pos (suc n)) = inl refl
unless-IsStrategy n = inl refl

module _ {f : Flatbuffers} (laws : Lawful f) where
  open laws use {v}
  open v use {object_at, open_of, object_in}

  store_message :
      (r : RequeueMessage)
      → StoresMessage
          (object_at ((requeue_to_flatbuf f r f.new_builder).0))
          ((requeue_to_flatbuf f r f.new_builder).1)
          r
  unfolding requeue_to_flatbuf requeue_message_start add_retries add_ttl add_delay
      add_backoff_strategy requeue_add_queue_name add_original_subject add_original_payload
  store_message r =
      let (c1, g1, a1, n1) = laws.adds_text r.queue_name f.new_builder laws.new_closed in
      let (c2, g2, a2, n2) = laws.adds_text r.original_subject _ c1 in
      let (c3, g3, a3, n3) = laws.adds_bytes r.original_payload _ c2 in
      let (c4, g4) = laws.opens_table 7 _ c3 in
      let (c5, g5) = laws.sets_uint 0 r.retries _ _ c4 in
      let (c6, g6) = laws.sets_uint 1 r.ttl _ _ c5 in
      let (c7, g7) = laws.sets_uint 2 r.delay _ _ c6 in
      let (c8, g8) = laws.sets_int8 3 (backoff_strategy_to_flatbuf r) _ _ c7 in
      let (c9, g9) = laws.sets_offset 4 _ _ _ c8 n1 in
      let (c10, g10) = laws.sets_offset 5 _ _ _ c9 n2 in
      let (c11, g11) = laws.sets_offset 6 _ _ _ c10 n3 in
      let (c12, g12, a12, n12) = laws.adds_table _ _ c11 in
      let fields =
        Grows-trans v g8 (Grows-trans v g9 (Grows-trans v g10 (Grows-trans v g11 g12))) in
      let up = Grows-trans v g4 (Grows-trans v g5 (Grows-trans v g6 (Grows-trans v g7 fields))) in
      (_, _, _, a12, up _ _ (g3 _ _ (g2 _ _ a1)), up _ _ (g3 _ _ a2), up _ _ a3)

  -- The buffer's root is the table of a message.
  pub record Holds (buf : f.Buffer) (p : ℕ) (r : RequeueMessage) : Type 0 where
    pub fs : List (ℕ × Slot)
    pub name : ℕ
    pub subject : ℕ
    pub payload : ℕ
    pub at_root : f.root buf ≡ p
    pub at_table : object_in buf p ≡ some (table fs)
    pub retries_slot : IsNumber (find 0 fs) r.retries
    pub ttl_slot : IsNumber (find 1 fs) r.ttl
    pub delay_slot : IsNumber (find 2 fs) r.delay
    pub strategy_slot : IsStrategy (find 3 fs) r.backoff_strategy
    pub name_slot : find 4 fs ≡ some (offset name)
    pub subject_slot : find 5 fs ≡ some (offset subject)
    pub payload_slot : find 6 fs ≡ some (offset payload)
    pub at_name : object_in buf name ≡ some (text r.queue_name)
    pub at_subject : object_in buf subject ≡ some (text r.original_subject)
    pub at_payload : object_in buf payload ≡ some (text r.original_payload)

  pub bytes-Holds :
      (r : RequeueMessage)
      → let (b, p) = requeue_to_flatbuf f r f.new_builder in
        Holds (f.finish p b) p (record r { backoff_strategy = backoff_strategy_to_flatbuf r })
  unfolding find
  bytes-Holds r =
      let (name, subject, payload, t, n, s, y) = store_message r in
      let p = (requeue_to_flatbuf f r f.new_builder).1 in
      let b = (requeue_to_flatbuf f r f.new_builder).0 in
      let done = λ (o : ℕ) (x : Object). laws.finishes p o b x in
      let (e0, e1, e2, e3) = find-numbers r.retries r.ttl r.delay (backoff_strategy_to_flatbuf r) in
      record {
        fs = slots name subject payload r;
        name = name;
        subject = subject;
        payload = payload;
        at_root = laws.finishes_root p b;
        at_table = done _ _ t;
        retries_slot = rw e0 (unless-IsNumber r.retries);
        ttl_slot = rw e1 (unless-IsNumber r.ttl);
        delay_slot = rw e2 (unless-IsNumber r.delay);
        strategy_slot = rw e3 (unless-IsStrategy (backoff_strategy_to_flatbuf r));
        name_slot = refl;
        subject_slot = refl;
        payload_slot = refl;
        at_name = done _ _ n;
        at_subject = done _ _ s;
        at_payload = done _ _ y;
      }
