-- ===== src/Ingress/Accepted.antt =====
-- A message that is taken in is replied to, and one whose queue cannot be created stops the program.
use nats_requeue.Prelude.{ℕ, List, [], ◌∷◌, Option, none, ◌≡◌, refl, arith}
use nats_requeue.Key.{Time}
use nats_requeue.QueueKey.{
  bytes, new_queue_key_for_state, checkpoint_property, first_message, new_queue_key_for_message,
}
use nats_requeue.Result.{Result, Error, err}
use nats_requeue.Manager.{create_queue, Queues, upsert_queue_state}
use nats_requeue.Queue.{new_queue, save_checkpoint, Queue}
use nats_requeue.Protocol.{RequeueMessage, default_queue_name, Codec, get_queue_name}
use nats_requeue.Ingress.{new_message_queue_key, Intake, process_ingress_message}
use nats_requeue.Assoc.{lookup}
use nats_requeue.Batched.{panicked}
use nats_requeue.Bytes.{Bytes}
use nats_requeue.Store.{Store}
use nats_requeue.Writer.{TxnOps}
use mathlib.Core.List.Perm
use mathlib.Core.List.{Perm}
use nats_requeue.Queue

module _ (o : TxnOps) (s : Store) (c : Codec) where
  open o use {Txn}
  open s use {Db}

  refused_upsert :
      (db : Db) (queues : Queues) (x : ℕ) (name : Bytes) (e : Error)
      → lookup (x ∷ name) queues ≡ none
      → ((f : s.Txn → Result (s.Txn)) → s.update db f ≡ err e)
      → upsert_queue_state s db queues (new_queue_key_for_state (x ∷ name) []) ≡ err e
  unfolding upsert_queue_state create_queue Queue.create_queue new_queue save_checkpoint
      new_queue_key_for_state
  refused_upsert db queues x name e h u = ground (
    arith,
    h,
    u (λ txn.
        s.set txn (bytes (new_queue_key_for_state (x ∷ name) checkpoint_property))
          (bytes (first_message (x ∷ name)))),
  )

  some_name : (m : RequeueMessage) → (x : ℕ) × (name : Bytes) × (get_queue_name m ≡ x ∷ name)
  unfolding get_queue_name
  some_name m = name_of m.queue_name
    where
      name_of :
          (b : Bytes)
          → (x : ℕ) × (name : Bytes) × ((elim b as (λ b. Bytes) [
            | [] ↦ default_queue_name
            | y ∷ l ↦ y ∷ l
          ])
              ≡ x ∷ name)
      name_of [] = (b'd', _, refl)
      name_of (x ∷ l) = (x, l, refl)

  -- If the queue of a message is not in the map and the database refuses the update that would save
  -- it, the handler panics.
  refused_queue_panics :
      (st : Intake Db Txn) (now : Time) (payload : Bytes) (n : ℕ) (t : Option Error) (e : Error)
      → lookup (get_queue_name (c.read payload)) st.queues ≡ none
      → ((f : s.Txn → Result (s.Txn)) → s.update st.db f ≡ err e)
      → process_ingress_message o s c st now payload n t ≡ panicked
  unfolding process_ingress_message new_message_queue_key new_queue_key_for_message
  refused_queue_panics st now payload n t e h u =
      let (x, name, g) = some_name (c.read payload) in
      let r = refused_upsert st.db st.queues x name e (rw g at h) u in ground (arith, g, r)
