-- ===== src/Tests/Memory.antt =====
-- A database in memory that meets the laws of `Store`: a list of items sorted by key. A transaction
-- is such a list too, and commits by replacing the database.
use nats_requeue.Prelude.{
  ◌&&◌, Bool, true, false, refl, ◌≡◌, filter, List, [], ◌∷◌, none, some, Ordering, All, arith,
}
use nats_requeue.Bytes.{Bytes, compare_bytes}
use nats_requeue.Bytes.Order.{Le, Le_of_compare, Le_of_gt, Le-trans}
use nats_requeue.Result.{ok, Result}
use nats_requeue.Key.Prefix.{has_prefix}
use nats_requeue.Store.Items.{IsSorted-filter, Le→le_bytes}
use nats_requeue.Store.{Lawful, le_bytes, Store, Item, Entry, IsSorted}

-- A time to live gives an expiry far in the future.
abbrev pub item : Entry → Item
item e = record {
  key = e.key;
  value = ok e.value;
  expires_at = elim e.ttl [ none ↦ 0 | some t ↦ 4_000_000_000 ];
  is_deleted_or_expired = false;
}

unfoldable pub insert_item : Item → List Item → List Item
insert_item e [] = e ∷ []
insert_item e (i ∷ is) = elim (compare_bytes e.key i.key) [
  | Ordering.lt ↦ e ∷ i ∷ is
  | Ordering.eq ↦ e ∷ is
  | Ordering.gt ↦ i ∷ insert_item e is
]

All-insert :
    (k : Bytes) (e : Item) (is : List Item)
    → Le k e.key
    → All (λ (i : Item). Le k i.key) is
    → All (λ (i : Item). Le k i.key) (insert_item e is)
unfolding insert_item
All-insert k e [] h a = (h, tt)
All-insert k e (i ∷ is) h a = ground (arith, All-insert k e is h a.1)

All-below :
    (a b : Bytes) (is : List Item)
    → Le a b
    → All (λ (i : Item). Le b i.key) is
    → All (λ (i : Item). Le a i.key) is
All-below a b [] h d = tt
All-below a b (i ∷ is) h d = (Le-trans a b i.key h d.0, All-below a b is h d.1)

pub insert-IsSorted : (e : Item) (is : List Item) → IsSorted is → IsSorted (insert_item e is)
unfolding insert_item
insert-IsSorted e [] h = (tt, tt)
insert-IsSorted e (i ∷ is) h = ground (
  arith,
  Le_of_compare e.key i.key,
  Le_of_gt e.key i.key,
  All-below e.key i.key is,
  All-insert i.key e is,
  insert-IsSorted e is h.1,
)

abbrev pub Content : Type 0
Content = (is : List Item) × IsSorted is

visited : Content → Bytes → Bytes → List Item
visited db prefix seek = filter (λ (i : Item). has_prefix prefix i.key && le_bytes seek i.key) db.0

put : Content → Entry → Result Content
put db e = ok (insert_item (item e) db.0, insert-IsSorted (item e) db.0 db.1)

unfoldable pub other : Bytes → Item → Bool
other k i = elim (compare_bytes i.key k) [ Ordering.eq ↦ false | _ ↦ true ]

remove : Content → Bytes → Result Content
remove db k = ok (filter (other k) db.0, IsSorted-filter (other k) db.0 db.1)

commit : Content → (Content → Result Content) → Result Content
commit db f = f db

unfoldable pub memory : Store
unfolding visited put remove commit insert_item other
memory = record {
  Db = Content;
  Txn = Content;
  update = commit;
  set = λ t k v. put t (record { key = k; value = v; ttl = none });
  set_entry = put;
  delete = remove;
  items = visited;
}

filter_all : (p : Item → Bool) (is : List Item) → ((i : Item) → p i ≡ true) → filter p is ≡ is
filter_all p [] h = refl
filter_all p (i ∷ is) h = rw (h i, filter_all p is h)

le_bytes-nil : (k : Bytes) → le_bytes [] k ≡ true
le_bytes-nil k = Le→le_bytes [] k tt

pub everything :
    (is : List Item) → filter (λ (i : Item). has_prefix [] i.key && le_bytes [] i.key) is ≡ is
unfolding has_prefix
everything is = filter_all _ is (λ (i : Item). le_bytes-nil i.key)

pub memory-Lawful : Lawful memory
unfolding memory
memory-Lawful = record {
  sorted = λ db. rw (everything db.0) db.1;
  narrowed = λ db prefix seek. rw (everything db.0);
}
