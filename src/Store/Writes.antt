-- ===== src/Store/Writes.antt =====
-- What a transaction of the database does: it starts from the database's items, its writes change
-- the item of their own key only, and its end becomes the database.
use nats_requeue.Prelude.Int.{ℤ, pos, ltb_ℤ}
use nats_requeue.Prelude.{
  ℕ, ◌+◌, true, subst, sym, List, [], ◌∷◌, Option, none, some, ◌≡◌, ◌≢◌, if◌then◌else◌, ap, refl,
  ◌∙◌, All, arith,
}
use nats_requeue.Bytes.Order.{equal_iff}
use nats_requeue.Bytes.{Bytes, equal_bytes}
use nats_requeue.Result.{Result, ok, err, ◌>>=◌}
use nats_requeue.Store.{Store, Item, Entry}

unfoldable pub find : Bytes → List Item → Option Item
find k [] = none
find k (i ∷ is) = let rest = find k is in if equal_bytes i.key k then some i else rest

-- What holds of every item's key holds of one that is found.
pub find-All :
    (R : Bytes → Type 0) (k : Bytes) (i : Item) (is : List Item)
    → find k is ≡ some i
    → All (λ (j : Item). R j.key) is
    → R k
unfolding find
find-All R k i [] h all = absurd (cc h)
find-All R k i (j ∷ is) h (r, all) = ground (arith, equal_iff j.key k, find-All R k i is, h, r, all)

-- An entry with this duration of WithTTL is shown `span` nanoseconds later: Badger keeps the second
-- of its end, and hides it when that second has come, at once where the duration is not positive.
abbrev pub Outlives : ℕ → Option ℤ → Type 0
Outlives span none = Unit
Outlives span (some d) = ltb_ℤ (pos (span + 1_000_000_000)) d ≡ true

-- `view` is what a transaction reads. The laws are of a time of `span` nanoseconds in which nothing
-- that the iterators showed at its start expires.
pub record LawfulWrites (s : Store) : Type 1 where
  pub span : ℕ
  pub view : s.Txn → List Item
  pub committed :
      (db db' : s.Db) (f : s.Txn → Result (s.Txn))
      → s.update db f ≡ ok db'
      → (t : s.Txn) × (t' : s.Txn) × (view t ≡ s.items db [] [])
        × (f t ≡ ok t')
        × (s.items db' [] [] ≡ view t')
  pub set_self :
      (t t' : s.Txn) (e : Entry)
      → Outlives span e.ttl
      → s.set_entry t e ≡ ok t'
      → (i : Item) × (find e.key (view t') ≡ some i) × (i.value ≡ ok e.value)
  pub set_other :
      (t t' : s.Txn) (e : Entry) (k : Bytes)
      → s.set_entry t e ≡ ok t'
      → e.key ≢ k
      → find k (view t') ≡ find k (view t)
  pub put_other :
      (t t' : s.Txn) (k v j : Bytes)
      → s.set t k v ≡ ok t'
      → k ≢ j
      → find j (view t') ≡ find j (view t)
  -- What holds of all items still does, if it holds of the one that is written.
  pub set_all :
      (P : Item → Type 0) (t t' : s.Txn) (e : Entry)
      → s.set_entry t e ≡ ok t'
      → ((i : Item) → i.key ≡ e.key → i.value ≡ ok e.value → P i)
      → All P (view t)
      → All P (view t')
  pub put_all :
      (P : Item → Type 0) (t t' : s.Txn) (k v : Bytes)
      → s.set t k v ≡ ok t'
      → ((i : Item) → i.key ≡ k → i.value ≡ ok v → P i)
      → All P (view t)
      → All P (view t')
  pub delete_all :
      (P : Item → Type 0) (t t' : s.Txn) (k : Bytes)
      → s.delete t k ≡ ok t'
      → All P (view t)
      → All P (view t')
  pub delete_self : (t t' : s.Txn) (k : Bytes) → s.delete t k ≡ ok t' → find k (view t') ≡ none
  pub delete_other :
      (t t' : s.Txn) (k j : Bytes)
      → s.delete t k ≡ ok t'
      → k ≢ j
      → find j (view t') ≡ find j (view t)

ok-bind :
    {A B : Type 0} (x : Result A) (f : A → Result B) (b : B)
    → x >>= f ≡ ok b
    → (a : A) × (x ≡ ok a) × (f a ≡ ok b)
ok-bind (ok a) f b h = (a, refl, h)
ok-bind (err e) f b h = absurd (cc h)

module _ (s : Store) (laws : LawfulWrites s) where
  -- One transaction that sets an entry and deletes a key, at a third one.
  pub replaced_other :
      (db db' : s.Db) (e : Entry) (old j : Bytes)
      → s.update db (λ t. s.set_entry t e >>= λ t'. s.delete t' old) ≡ ok db'
      → e.key ≢ j
      → old ≢ j
      → find j (s.items db' [] []) ≡ find j (s.items db [] [])
  replaced_other db db' e old j h p q =
      let (t, t'', start, both, done) = laws.committed db db' _ h in
      let (t', sets, deletes) = ok-bind (s.set_entry t e) (λ t'. s.delete t' old) t'' both in
      ap (find j) done
      ∙ laws.delete_other t' t'' old j deletes q
      ∙ laws.set_other t t' e j sets p
      ∙ ap (find j) start

  -- At the key that it sets.
  pub replaced_new :
      (db db' : s.Db) (e : Entry) (old : Bytes)
      → s.update db (λ t. s.set_entry t e >>= λ t'. s.delete t' old) ≡ ok db'
      → Outlives laws.span e.ttl
      → old ≢ e.key
      → (i : Item) × (find e.key (s.items db' [] []) ≡ some i) × (i.value ≡ ok e.value)
  replaced_new db db' e old h l n =
      let (t, t'', start, both, done) = laws.committed db db' _ h in
      let (t', sets, deletes) = ok-bind (s.set_entry t e) (λ t'. s.delete t' old) t'' both in
      let (i, found, value) = laws.set_self t t' e l sets in
      (i, ap (find e.key) done ∙ laws.delete_other t' t'' old e.key deletes n ∙ found, value)

  -- One transaction that sets an entry and then deletes another key.
  pub replaced :
      (db db' : s.Db) (e : Entry) (old j : Bytes)
      → s.update db (λ t. s.set_entry t e >>= λ t'. s.delete t' old) ≡ ok db'
      → Outlives laws.span e.ttl
      → old ≢ e.key
      → e.key ≢ j
      → old ≢ j
      → (i : Item) × (find e.key (s.items db' [] []) ≡ some i)
        × (i.value ≡ ok e.value)
        × (find old (s.items db' [] []) ≡ none)
        × (find j (s.items db' [] []) ≡ find j (s.items db [] []))
  replaced db db' e old j h l n p q =
      let (t, t'', start, both, done) = laws.committed db db' _ h in
      let (t', sets, deletes) = ok-bind (s.set_entry t e) (λ t'. s.delete t' old) t'' both in
      let (i, found, value) = replaced_new db db' e old h l n in
      (
        i,
        found,
        value,
        ap (find old) done ∙ laws.delete_self t' t'' old deletes,
        replaced_other db db' e old j h p q,
      )

  -- One transaction that deletes a key.
  pub removed_other :
      (db db' : s.Db) (old j : Bytes)
      → s.update db (λ t. s.delete t old) ≡ ok db'
      → old ≢ j
      → find j (s.items db' [] []) ≡ find j (s.items db [] [])
  removed_other db db' old j h n =
      let (t, t', start, deletes, done) = laws.committed db db' _ h in
      ap (find j) done ∙ laws.delete_other t t' old j deletes n ∙ ap (find j) start

  -- One transaction that sets a key.
  pub put_elsewhere :
      (db db' : s.Db) (k v j : Bytes)
      → s.update db (λ t. s.set t k v) ≡ ok db'
      → k ≢ j
      → find j (s.items db' [] []) ≡ find j (s.items db [] [])
  put_elsewhere db db' k v j h n =
      let (t, t', start, sets, done) = laws.committed db db' _ h in
      ap (find j) done ∙ laws.put_other t t' k v j sets n ∙ ap (find j) start

  module _ (P : Item → Type 0) where
    pub all_replaced :
        (db db' : s.Db) (e : Entry) (old : Bytes)
        → s.update db (λ t. s.set_entry t e >>= λ t'. s.delete t' old) ≡ ok db'
        → ((i : Item) → i.key ≡ e.key → i.value ≡ ok e.value → P i)
        → All P (s.items db [] [])
        → All P (s.items db' [] [])
    all_replaced db db' e old h new all =
        let (t, t'', start, both, done) = laws.committed db db' _ h in
        let (t', sets, deletes) = ok-bind (s.set_entry t e) (λ t'. s.delete t' old) t'' both in
        subst (λ is. All P is) (sym done)
          (laws.delete_all P t' t'' old deletes
            (laws.set_all P t t' e sets new (subst (λ is. All P is) (sym start) all)))

    pub all_removed :
        (db db' : s.Db) (old : Bytes)
        → s.update db (λ t. s.delete t old) ≡ ok db'
        → All P (s.items db [] [])
        → All P (s.items db' [] [])
    all_removed db db' old h all =
        let (t, t', start, deletes, done) = laws.committed db db' _ h in
        subst (λ is. All P is) (sym done)
          (laws.delete_all P t t' old deletes (subst (λ is. All P is) (sym start) all))

    pub all_put :
        (db db' : s.Db) (k v : Bytes)
        → s.update db (λ t. s.set t k v) ≡ ok db'
        → ((i : Item) → i.key ≡ k → i.value ≡ ok v → P i)
        → All P (s.items db [] [])
        → All P (s.items db' [] [])
    all_put db db' k v h new all =
        let (t, t', start, sets, done) = laws.committed db db' _ h in
        subst (λ is. All P is) (sym done)
          (laws.put_all P t t' k v sets new (subst (λ is. All P is) (sym start) all))
