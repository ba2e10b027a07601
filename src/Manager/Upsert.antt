-- ===== src/Manager/Upsert.antt =====
-- UpsertQueueState and CreateQueue: a queue is created once, under its own name.
use nats_requeue.Prelude.{[], ◌∷◌, none, some, ◌≡◌, ◌≢◌, ◌⊎◌, inl, inr, refl, arith, All}
use nats_requeue.Bytes.{Bytes}
use nats_requeue.QueueKey.{QueueKey, bytes, first_message}
use nats_requeue.Result.{ok}
use nats_requeue.Store.{Store}
use nats_requeue.Queue
use nats_requeue.Queue.{Queue, new_queue, save_checkpoint}
use nats_requeue.Assoc.{lookup, lookup-insert_self, lookup-insert_ne}
use nats_requeue.Manager.{Queues, add_queue, upsert_queue_state}

-- Every queue stands under its own name, and has one.
abbrev pub IsKeyed : Queues → Type 0
IsKeyed = All (λ (e : Bytes × Queue). (e.0 ≡ e.1.name) × (e.0 ≢ []))

add_queue-IsKeyed : (q : Queue) (m : Queues) → q.name ≢ [] → IsKeyed m → IsKeyed (add_queue q m)
unfolding add_queue
add_queue-IsKeyed q [] n h = ((refl, n), tt)
add_queue-IsKeyed q (e ∷ m) n h = ground (arith, add_queue-IsKeyed q m n h.1)

module _ (s : Store) where
  -- A created queue has the name asked for, a message key as its checkpoint, and its state on disk.
  pub create_queue_lem :
      (db db' : s.Db) (name : Bytes) (q : Queue)
      → Queue.create_queue s db name ≡ ok (db', q)
      → (q.name ≡ name)
        × (q.name ≢ [])
        × (q.checkpoint ≡ bytes (first_message name))
        × (save_checkpoint s db q (bytes (first_message name)) ≡ ok db')
  unfolding Queue.create_queue new_queue save_checkpoint
  create_queue_lem db db' [] q h = cc
  create_queue_lem db db' (x ∷ name) q h = ground arith

  upsert_cases :
      (db db' : s.Db) (m m' : Queues) (qk : QueueKey) (q : Queue)
      → upsert_queue_state s db m qk ≡ ok (db', m', q)
      → ((lookup qk.name m ≡ some q) × (db' ≡ db) × (m' ≡ m))
        ⊎ ((lookup qk.name m ≡ none)
            × (Queue.create_queue s db qk.name ≡ ok (db', q))
            × (m' ≡ add_queue q m))
  unfolding upsert_queue_state
  upsert_cases db db' m m' qk q h = ground arith

  -- What an upsert that succeeds promises: the queue is in the map, the other entries are as they
  -- were, and either it was there and nothing changed, or it is new, at the first message's key,
  -- which is saved.
  pub record Upserted (db db' : s.Db) (m m' : Queues) (name : Bytes) (q : Queue) : Type 0 where
    pub found : lookup name m' ≡ some q
    pub others : (j : Bytes) → name ≢ j → lookup j m' ≡ lookup j m
    pub keyed : IsKeyed m'
    pub old_or_new :
        ((lookup name m ≡ some q) × (m' ≡ m) × (db' ≡ db))
        ⊎ ((lookup name m ≡ none)
            × (q.name ≡ name)
            × (q.checkpoint ≡ bytes (first_message name))
            × (save_checkpoint s db q (bytes (first_message name)) ≡ ok db'))

  new_Upserted :
      (db db' : s.Db) (m : Queues) (name : Bytes) (q : Queue)
      → IsKeyed m
      → lookup name m ≡ none
      → Queue.create_queue s db name ≡ ok (db', q)
      → Upserted db db' m (add_queue q m) name q
  new_Upserted db db' m name q k l c =
      let (n, ne, cp, saved) = create_queue_lem db db' name q c in
      record {
        found = rw (← n) (unfold add_queue in lookup-insert_self q.name q m);
        others = λ j d. unfold add_queue in lookup-insert_ne q.name j q m (λ e. d (cc));
        keyed = add_queue-IsKeyed q m ne k;
        old_or_new = inr (l, n, cp, saved);
      }

  -- In a map of queues that stand under their own names, an upsert that succeeds returns a queue of
  -- the key's name, found or created as Upserted says, and keeps the map so.
  pub upsert_queue_state-Upserted :
      (db db' : s.Db) (m m' : Queues) (qk : QueueKey) (q : Queue)
      → IsKeyed m
      → upsert_queue_state s db m qk ≡ ok (db', m', q)
      → Upserted db db' m m' qk.name q
  upsert_queue_state-Upserted db db' m m' qk q k h = elim (upsert_cases db db' m m' qk q h) [
    | inl (l, d, e) ↦ record {
      found = rw e l;
      others = λ j n. rw e;
      keyed = rw e k;
      old_or_new = inl (l, e, d);
    }
    | inr (l, c, e) ↦ rw e (new_Upserted db db' m qk.name q k l c)
  ]

  -- Once upserted, a queue is found again, and neither the database nor the map changes.
  pub upsert_queue_state_twice :
      (db db' : s.Db) (m m' : Queues) (qk : QueueKey) (q : Queue)
      → IsKeyed m
      → upsert_queue_state s db m qk ≡ ok (db', m', q)
      → upsert_queue_state s db' m' qk ≡ ok (db', m', q)
  upsert_queue_state_twice db db' m m' qk q k h =
      let u = upsert_queue_state-Upserted db db' m m' qk q k h in
      unfold upsert_queue_state in ground (arith, u.found)
