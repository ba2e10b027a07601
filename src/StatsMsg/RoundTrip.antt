-- ===== src/StatsMsg/RoundTrip.antt =====
-- What is read of a statistics message is what was written: the queues in their order, and the
-- numbers also where they are zero and not stored.
use nats_requeue.Prelude.{
  get_elem?, ℕ, zero, suc, ◌+◌, List, [], ◌∷◌, Option, none, some, ◌≡◌, refl, ap, subst,
  if◌then◌else◌, length, arith, inl, inr, Bool-cases,
}
use nats_requeue.Prelude.Int.{ℤ, pos}
use nats_requeue.Stats.{QueueStatsMessage}
use nats_requeue.Flatbuffers.{
  Flatbuffers, Slot, Object, offset, int, text, vector, table, closed, open_vector, find,
  is_zero_int,
}
use nats_requeue.Flatbuffers.Laws.{Lawful, Grows, Grows-trans, Opens}
use nats_requeue.Prelude.{◌*◌}
use nats_requeue.StatsMsg.{
  InstanceStatsMessage, queue_to_flatbuf, queue_offsets, prepend_reversed, instance_to_flatbuf,
  instance_bytes, queue_from_flatbuf, read_queues, queues_length, instance_from_flatbuf,
  instance_unmarshal, instance_stats_message_from_nats, int_or_zero, length_or_zero, bytes_or_nil,
  queue_stats_message_start, add_queue_name, add_enqueued, add_in_flight_slot, start_queues_vector,
  instance_stats_message_start, add_instance_id, add_queues,
}

abbrev set_int : ℕ → ℤ → List (ℕ × Slot) → List (ℕ × Slot)
set_int slot n fs = if is_zero_int n then fs else (slot, int n) ∷ fs

abbrev stored : ℤ → Option Slot
stored n = if is_zero_int n then none else some (int n)

abbrev queue_slots : ℕ → QueueStatsMessage → List (ℕ × Slot)
queue_slots name q = set_int 2 q.in_flight (set_int 1 q.enqueued ((0, offset name) ∷ []))

find_slots :
    (name : ℕ) (q : QueueStatsMessage)
    → (find 0 (queue_slots name q) ≡ some (offset name))
      × (find 1 (queue_slots name q) ≡ stored q.enqueued)
      × (find 2 (queue_slots name q) ≡ stored q.in_flight)
unfolding find
find_slots name q = elim (Bool-cases (is_zero_int q.enqueued)) [
  | inl e ↦ elim (Bool-cases (is_zero_int q.in_flight)) [
    | inl i ↦ rw (e, i) (refl, refl, refl)
    | inr i ↦ rw (e, i) (refl, refl, refl)
  ]
  | inr e ↦ elim (Bool-cases (is_zero_int q.in_flight)) [
    | inl i ↦ rw (e, i) (refl, refl, refl)
    | inr i ↦ rw (e, i) (refl, refl, refl)
  ]
]

-- The table of a queue and its name are among these objects.
abbrev Stores : (ℕ → Option Object) → ℕ → QueueStatsMessage → Type 0
Stores at p q =
    (name : ℕ) × (at p ≡ some (table (queue_slots name q))) × (at name ≡ some (text q.queue_name))

abbrev StoresAll : (ℕ → Option Object) → List ℕ → List QueueStatsMessage → Type 0
StoresAll at [] [] = Unit
StoresAll at (p ∷ ps) (q ∷ qs) = Stores at p q × StoresAll at ps qs
StoresAll at _ _ = ⊥

-- The table of an instance, its identity, the vector of its queues and their tables.
abbrev StoresInstance : (ℕ → Option Object) → ℕ → InstanceStatsMessage → Type 0
StoresInstance at p i =
    (id : ℕ) × (queues : ℕ) × (os : List ℕ) × (at p
      ≡ some (table ((1, offset queues) ∷ (0, offset id) ∷ [])))
    × (at id ≡ some (text i.instance_id))
    × (at queues ≡ some (vector os))
    × StoresAll at os i.queues

abbrev Extends : (ℕ → Option Object) → (ℕ → Option Object) → Type 0
Extends at at' = (o : ℕ) (x : Object) → at o ≡ some x → at' o ≡ some x

extend_all :
    (at at' : ℕ → Option Object) (ps : List ℕ) (qs : List QueueStatsMessage)
    → Extends at at'
    → StoresAll at ps qs
    → StoresAll at' ps qs
extend_all at at' [] [] h s = tt
extend_all at at' (p ∷ ps) (q ∷ qs) h ((name, t, n), rest) =
    ((name, h p _ t, h name _ n), extend_all at at' ps qs h rest)
extend_all at at' [] (q ∷ qs) h s = absurd s
extend_all at at' (p ∷ ps) [] h s = absurd s

length_stored :
    (at : ℕ → Option Object) (ps : List ℕ) (qs : List QueueStatsMessage)
    → StoresAll at ps qs
    → length ps ≡ length qs
length_stored at [] [] s = refl
length_stored at (p ∷ ps) (q ∷ qs) s = ap (λ n. suc n) (length_stored at ps qs (s.1))
length_stored at [] (q ∷ qs) s = absurd s
length_stored at (p ∷ ps) [] s = absurd s

module _ {f : Flatbuffers} (laws : Lawful f) where
  open laws use {v}
  open v use {object_at, open_of, object_in}

  store_queue :
      (q : QueueStatsMessage) (b : f.Builder)
      → open_of b ≡ closed
      → (open_of ((queue_to_flatbuf f q b).0) ≡ closed)
        × Grows v b ((queue_to_flatbuf f q b).0)
        × Stores (object_at ((queue_to_flatbuf f q b).0)) ((queue_to_flatbuf f q b).1) q
  unfolding queue_to_flatbuf queue_stats_message_start add_queue_name add_enqueued
      add_in_flight_slot
  store_queue q b h =
      let (c1, g1, a1, n1) = laws.adds_text q.queue_name b h in
      let (c2, g2) = laws.opens_table 3 _ c1 in
      let (c3, g3) = laws.sets_offset 0 _ _ _ c2 n1 in
      let (c4, g4) = laws.sets_int 1 q.enqueued _ _ c3 in
      let (c5, g5) = laws.sets_int 2 q.in_flight _ _ c4 in
      let (c6, g6, a6, n6) = laws.adds_table _ _ c5 in
      let up = Grows-trans v g2 (Grows-trans v g3 (Grows-trans v g4 (Grows-trans v g5 g6))) in
      (c6, Grows-trans v g1 up, (_, a6, up _ _ a1))

  store_queues :
      (qs : List QueueStatsMessage) (b : f.Builder)
      → open_of b ≡ closed
      → (open_of ((queue_offsets f qs b).0) ≡ closed)
        × Grows v b ((queue_offsets f qs b).0)
        × StoresAll (object_at ((queue_offsets f qs b).0)) ((queue_offsets f qs b).1) qs
  unfolding queue_offsets
  store_queues [] b h = (h, (λ o x e. e), tt)
  store_queues (q ∷ qs) b h =
      let (c1, g1, (name, t, n)) = store_queue q b h in
      let (c2, g2, s2) = store_queues qs _ c1 in
      (c2, (λ o x e. g2 o x (g1 o x e)), ((name, g2 _ _ t, g2 _ _ n), s2))

  -- The vector is in the order of the offsets, as they are prepended from the last to the first.
  prepends_in_order :
      (os : List ℕ) (b : f.Builder)
      → open_of b ≡ open_vector []
      → Opens v b (prepend_reversed f os b) (open_vector os)
  unfolding prepend_reversed
  prepends_in_order [] b h = (h, (λ o x e. e))
  prepends_in_order (o ∷ os) b h =
      let (c1, g1) = prepends_in_order os b h in
      let (c2, g2) = laws.prepends o os _ c1 in (c2, (λ p x e. g2 p x (g1 p x e)))

  read_int :
      (slot p : ℕ) (n : ℤ) (fs : List (ℕ × Slot)) (buf : f.Buffer)
      → object_in buf p ≡ some (table fs)
      → find slot fs ≡ stored n
      → int_or_zero (f.get_int64 (4 + 2 * slot) buf p) ≡ n
  unfolding int_or_zero
  read_int slot p (pos zero) fs buf h e = rw (laws.reads_no_int slot p fs buf h e) refl
  read_int slot p (pos (suc n)) fs buf h e = rw (laws.reads_int slot p _ fs buf h e) refl
  read_int slot p n fs buf h e = rw (laws.reads_int slot p _ fs buf h e) refl

  read_queue :
      (q : QueueStatsMessage) (p : ℕ) (buf : f.Buffer)
      → Stores (object_in buf) p q
      → queue_from_flatbuf f buf p ≡ q
  unfolding queue_from_flatbuf bytes_or_nil
  read_queue q p buf (name, t, n) =
      let (s0, s1, s2) = find_slots name q in
      rw
        (
          laws.reads_text 0 p name _ _ buf t s0 n,
          read_int 1 p _ _ buf t s1,
          read_int 2 p _ _ buf t s2,
        )
        refl

  read_all :
      (qs : List QueueStatsMessage) (ps : List ℕ) (i p : ℕ) (buf : f.Buffer)
      → StoresAll (object_in buf) ps qs
      → ((j k o : ℕ) → k ≡ j + i → get_elem? ps j ≡ some o → f.indirect 6 k buf p ≡ some o)
      → read_queues f (length ps) i buf p ≡ qs
  unfolding read_queues
  read_all [] [] i p buf s h = refl
  read_all (q ∷ qs) (o ∷ os) i p buf (s, ss) h =
      let shifted =
        λ (j : ℕ) (k : ℕ) (x : ℕ) (e : k ≡ j + suc i). h (suc j) k x (omega (arith, e)) in
      rw
        (
          h zero i o (omega arith) refl,
          read_queue q o buf s,
          read_all qs os (suc i) p buf ss shifted,
        )
        refl
  read_all [] (o ∷ os) i p buf s h = absurd s
  read_all (q ∷ qs) [] i p buf s h = absurd s

  store_instance :
      (i : InstanceStatsMessage)
      → StoresInstance
          (object_at ((instance_to_flatbuf f i f.new_builder).0))
          ((instance_to_flatbuf f i f.new_builder).1)
          i
  unfolding instance_to_flatbuf start_queues_vector instance_stats_message_start add_instance_id
      add_queues
  store_instance i =
      let (c1, g1, s1) = store_queues i.queues f.new_builder laws.new_closed in
      let os = (queue_offsets f i.queues f.new_builder).1 in
      let (c2, g2) = laws.opens_vector 4 (length i.queues) 4 _ c1 in
      let (c3, g3) = prepends_in_order os _ c2 in
      let (c4, g4, a4, n4) = laws.adds_vector os _ c3 in
      let (c5, g5, a5, n5) = laws.adds_text i.instance_id _ c4 in
      let (c6, g6) = laws.opens_table 2 _ c5 in
      let (c7, g7) = laws.sets_offset 0 _ _ _ c6 n5 in
      let (c8, g8) = laws.sets_offset 1 _ _ _ c7 n4 in
      let (c9, g9, a9, n9) = laws.adds_table _ _ c8 in
      let up = Grows-trans v g6 (Grows-trans v g7 (Grows-trans v g8 g9)) in
      let above = Grows-trans v g2 (Grows-trans v g3 (Grows-trans v g4 (Grows-trans v g5 up))) in
      (_, _, os, a9, up _ _ a5, up _ _ (g5 _ _ a4), extend_all _ _ os i.queues above s1)

  read_instance :
      (i : InstanceStatsMessage) (p : ℕ) (buf : f.Buffer)
      → StoresInstance (object_in buf) p i
      → instance_from_flatbuf f buf p ≡ i
  unfolding instance_from_flatbuf queues_length bytes_or_nil length_or_zero find
  read_instance i p buf (id, queues, os, t, s, w, all) =
      let element = λ (j : ℕ) (k : ℕ) (o : ℕ) (e : k ≡ j + 0) (h : get_elem? os j ≡ some o).
        laws.reads_element 1 p queues k o _ os buf t refl w
          (subst (λ (n : ℕ). get_elem? os n ≡ some o) (omega (arith, e)) h) in
      rw
        (
          laws.reads_text 0 p id _ _ buf t refl s,
          laws.reads_length 1 p queues _ os buf t refl w,
          read_all i.queues os 0 p buf all element,
        )
        refl

  -- For any library that meets its laws: a message that Bytes encodes is read from NATS as the same
  -- message, with the queues in their order.
  pub from_nats-bytes :
      (i : InstanceStatsMessage) → instance_stats_message_from_nats f (instance_bytes f i) ≡ i
  unfolding instance_stats_message_from_nats instance_unmarshal instance_bytes
  from_nats-bytes i =
      let (id, queues, os, t, s, w, all) = store_instance i in
      let r = (instance_to_flatbuf f i f.new_builder).1 in
      let b = (instance_to_flatbuf f i f.new_builder).0 in
      let done = λ (o : ℕ) (x : Object). laws.finishes r o b x in
      rw (laws.finishes_root r b) (
        read_instance i r (f.finish r b)
          (id, queues, os, done _ _ t, done _ _ s, done _ _ w, extend_all _ _ os i.queues done all))
