-- ===== src/Store.antt =====
-- What the program uses of the Badger database, which is not in this repository: transactions that
-- set and delete keys, and iterations in key order. The database is a parameter of the model, and
-- its documented behaviour is the record `Lawful`.
pub mod Items
pub mod Writes
use nats_requeue.Prelude.{
  ℕ, Bool, true, false, not, ◌&&◌, List, [], ◌∷◌, Option, Ordering, ◌≡◌, filter, All,
}
use nats_requeue.Prelude.Int.{ℤ}
use nats_requeue.Bytes.{Bytes, compare_bytes}
use nats_requeue.Bytes.Order.{Le}
use nats_requeue.Key.Prefix.{has_prefix}
use nats_requeue.Result.{Result}

-- badger.NewEntry, and the duration given to WithTTL where it is called.
pub record Entry : Type 0 where
  pub key : Bytes
  pub value : Bytes
  pub ttl : Option ℤ

-- What an iterator shows of an item; `value` is the result of ValueCopy, and `expires_at` is in
-- seconds.
pub record Item : Type 0 where
  pub key : Bytes
  pub value : Result Bytes
  pub expires_at : ℕ
  pub is_deleted_or_expired : Bool

pub record Store : Type 1 where
  pub Db : Type 0
  pub Txn : Type 0
  -- db.Update: runs the function on a transaction and commits it, unless either step fails.
  pub update : Db → (Txn → Result Txn) → Result Db
  pub set : Txn → Bytes → Bytes → Result Txn
  pub set_entry : Txn → Entry → Result Txn
  pub delete : Txn → Bytes → Result Txn
  -- The items that an iterator with this `Prefix` option visits after Seek, up to the end.
  pub items : Db → Bytes → Bytes → List Item

-- bytes.Compare a b ≤ 0.
abbrev pub le_bytes : Bytes → Bytes → Bool
le_bytes a b = elim (compare_bytes a b) [ Ordering.gt ↦ false | _ ↦ true ]

-- Every item's key is followed by greater or equal ones.
abbrev pub IsSorted : List Item → Type 0
IsSorted [] = Unit
IsSorted (i ∷ is) = All (λ (j : Item). Le i.key j.key) is × IsSorted is

-- Iteration is in the order of bytes.Compare, and a prefix and a seek position leave out nothing
-- else.
pub record Lawful (s : Store) : Type 0 where
  pub sorted : (db : s.Db) → IsSorted (s.items db [] [])
  pub narrowed :
      (db : s.Db) (prefix seek : Bytes)
      → s.items db prefix seek
        ≡ filter (λ (i : Item). has_prefix prefix i.key && le_bytes seek i.key) (s.items db [] [])
