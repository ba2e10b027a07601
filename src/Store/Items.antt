-- ===== src/Store/Items.antt =====
-- Lists of items: what a prefix and a seek position cut off.
use nats_requeue.Prelude.{
  filter-filter, filter-congr, All-filter, ◌∙◌, Bool, true, ◌&&◌, List, [], ◌∷◌, ◌≡◌, inl, inr,
  refl, filter, arith, Bool-cases,
}
use nats_requeue.Bytes.{Bytes}
use nats_requeue.Bytes.Order.{Le, Le_of_compare, compare_of_Le}
use nats_requeue.Key.{prefix_of}
use nats_requeue.Key.Prefix.{has_prefix, IsPrefix, prefix_of-between}
use nats_requeue.Store.{Item, Store, Lawful, IsSorted, le_bytes}

pub le_bytes→Le : (a b : Bytes) → le_bytes a b ≡ true → Le a b
le_bytes→Le a b h = Le_of_compare a b (ground arith)

pub Le→le_bytes : (a b : Bytes) → Le a b → le_bytes a b ≡ true
Le→le_bytes a b h = ground (arith, compare_of_Le a b h)

pub has_prefix_of_IsPrefix : (p k : Bytes) → IsPrefix p k → has_prefix p k ≡ true
unfolding has_prefix
has_prefix_of_IsPrefix [] k h = refl
has_prefix_of_IsPrefix (x ∷ p) [] h = absurd h
has_prefix_of_IsPrefix (x ∷ p) (y ∷ k) h = ground (arith, has_prefix_of_IsPrefix p k h.1)

-- Between the two ends, the narrowed iteration has every item.
abbrev pub between : Bytes → Bytes → List Item → List Item
between seek until = filter (λ (i : Item). le_bytes seek i.key && le_bytes i.key until)

between_prefix :
    (seek until k : Bytes)
    → ((has_prefix (prefix_of seek until) k && le_bytes seek k) && le_bytes k until)
      ≡ (le_bytes seek k && le_bytes k until)
between_prefix seek until k = elim (Bool-cases (le_bytes seek k)) [
  | inl lo ↦ elim (Bool-cases (le_bytes k until)) [
    | inl hi ↦ ground (
      arith,
      has_prefix_of_IsPrefix _ k
          (prefix_of-between seek until k (le_bytes→Le seek k lo) (le_bytes→Le k until hi)),
    )
    | inr hi ↦ ground arith
  ]
  | inr lo ↦ ground arith
]

filter-between :
    (seek until : Bytes) (is : List Item)
    → filter
        (λ (i : Item). le_bytes i.key until)
        (filter (λ (i : Item). has_prefix (prefix_of seek until) i.key && le_bytes seek i.key) is)
      ≡ between seek until is
filter-between seek until is =
    filter-filter _ _ is ∙ filter-congr _ _ is (λ (i : Item). between_prefix seek until i.key)

pub IsSorted-filter : (p : Item → Bool) (is : List Item) → IsSorted is → IsSorted (filter p is)
IsSorted-filter p [] h = tt
IsSorted-filter p (i ∷ is) h = elim (Bool-cases (p i)) [
  | inl e ↦ rw e (All-filter _ p is h.0, IsSorted-filter p is h.1)
  | inr e ↦ rw e (IsSorted-filter p is h.1)
]

-- The iteration that Range makes, with the common prefix of its two ends, is sorted, and it has
-- every item of the database that lies between them.
module _ (s : Store) (laws : Lawful s) (db : s.Db) (seek until : Bytes) where
  pub items-IsSorted : IsSorted (s.items db (prefix_of seek until) seek)
  items-IsSorted = rw (laws.narrowed db) (IsSorted-filter _ _ (laws.sorted db))

  pub items-between :
      filter (λ (i : Item). le_bytes i.key until) (s.items db (prefix_of seek until) seek)
      ≡ between seek until (s.items db [] [])
  items-between = rw (laws.narrowed db) (filter-between seek until (s.items db [] []))
