-- ===== src/Tests/Reaping.antt =====
-- Databases in memory, each an association list, and a run of the reaper over them.
use nats_requeue.Prelude.{
  true, false, List, [], ◌∷◌, ◌++◌, none, some, ◌≡◌, ◌≢◌, ◌⊎◌, inl, inr, refl, sym, ◌∙◌, All,
  if◌then◌else◌, Bool-cases, Option-cases, arith,
}
use nats_requeue.Bytes.{Bytes, equal_bytes, compare_bytes}
use nats_requeue.Bytes.Order.{equal_iff}
use nats_requeue.Result.{Result, ok}
use nats_requeue.Assoc.{lookup, insert, lookup-insert}
use nats_requeue.Reaper.Databases.{
  Disk, Version, Kv, Content, content, Any, IsTruthful, Shows, Loses, Lawful,
}
use nats_requeue.Reaper.{Reaper, reap, trigger_reaped_callbacks, key_to_list}
use nats_requeue.Reaper.Pairs.{IsNoneOr}
use nats_requeue.Reaper.Run.{reap_loses_nothing}

abbrev Table : Type 0
Table = List (Bytes × Content)

abbrev Contents : Type 0
Contents = Bytes → Table

abbrev change : Contents → Bytes → Table → Contents
change s p t q = if equal_bytes q p then t else s q

abbrev version : Bytes → Content → Version
version k c = record {
  key = k;
  is_deleted_or_expired = false;
  value = ok c.value;
  user_meta = c.user_meta;
  version = 1;
  expires_at = 9;
}

-- The keys of a table, with what the whole table holds under them.
abbrev shown : Table → Table → List (Bytes × List Version)
shown whole [] = []
shown whole ((k, _) ∷ t) = elim (lookup k whole) [
  | none ↦ shown whole t
  | some c ↦ (k, version k c ∷ []) ∷ shown whole t
]

abbrev put_all : List Kv → Table → Table
put_all [] t = t
put_all (kv ∷ kvs) t = put_all kvs (insert kv.key (content kv) t)

abbrev disk : Disk
disk = record {
  State = Contents;
  Batch = List Kv;
  get = λ s p k. lookup k (s p);
  join = λ dir name. dir ++ (b'/' ∷ name);
  read_dir = λ s p. ok (
      record { name = b'a' ∷ []; is_dir = true }
      ∷ record { name = b'b' ∷ []; is_dir = true }
      ∷ record { name = b'f' ∷ []; is_dir = false }
      ∷ []);
  open_db = λ s p. (s, none);
  would_block = λ e. true;
  close_db = λ s p. s;
  stream = λ s p. ok (shown (s p) (s p));
  new_batch = λ p. [];
  write = λ s p b l. (s, ok (b ++ l));
  flush = λ s p b. (change s p (put_all b (s p)), none);
  drop_all = λ s p. (change s p [], none);
  acquire_lock = λ s p. (s, none);
  release = λ s p. s;
  remove_all = λ s p. (change s p [], none);
}

changed_other :
    (s : Contents) (p q k : Bytes) (t : Table) → q ≢ p → lookup k (change s p t q) ≡ lookup k (s q)
changed_other s p q k t n = elim (Bool-cases (equal_bytes q p)) [
  | inl e ↦ absurd (n ((equal_iff q p).0 e))
  | inr e ↦ rw e
]

changed_here : (s : Contents) (p k : Bytes) (t : Table) → lookup k (change s p t p) ≡ lookup k t
changed_here s p k t = rw ((equal_iff p p).1 refl)

lost : (s : Contents) (p : Bytes) → Loses disk p s (change s p [])
unfolding lookup
lost s p = record {
  others = λ q k n. changed_other s p q k [] n;
  gone = λ k. inr (changed_here s p k []);
}

shown-none :
    (whole t : Table) (k : Bytes) (x : Content)
    → lookup k whole ≡ none
    → shown whole ((k, x) ∷ t) ≡ shown whole t
shown-none whole t k x e = ground (arith, e)

shown-some :
    (whole t : Table) (k : Bytes) (x c : Content)
    → lookup k whole ≡ some c
    → shown whole ((k, x) ∷ t) ≡ (k, version k c ∷ []) ∷ shown whole t
shown-some whole t k x c e = ground (arith, e)

truthful : (whole t : Table) → All (IsTruthful (λ k. lookup k whole)) (shown whole t)
truthful whole [] = tt
truthful whole ((k, x) ∷ t) = elim (Option-cases (lookup k whole)) [
  | inl e ↦ rw (shown-none whole t k x e) (truthful whole t)
  | inr (c, e) ↦ rw (shown-some whole t k x c e) (
    λ _ _ v (h : ◌≡◌ {A = Result Bytes} (ok c.value) (ok v)).
        let same : c.value ≡ v = cc h in rw e (ground (arith, same)),
    truthful whole t,
  )
]

shows :
    (k : Bytes) (c : Content) (whole t : Table)
    → lookup k whole ≡ some c
    → lookup k t ≢ none
    → Any (Shows k) (shown whole t)
unfolding lookup
shows k c whole [] h n = absurd (n refl)
shows k c whole ((j, x) ∷ t) h n = elim (Bool-cases (equal_bytes j k)) [
  | inl e ↦
      let here = (equal_iff j k).0 e in
      rw (shown-some whole t j x c (rw here h)) (inl (here, here, refl))
  | inr e ↦
      let later = shows k c whole t h (rw e at n) in
      elim (Option-cases (lookup j whole)) [
        | inl o ↦ rw (shown-none whole t j x o) later
        | inr (c', o) ↦ rw (shown-some whole t j x c' o) (inr later)
      ]
]

put_all-given :
    (k : Bytes) (kvs : List Kv) (t : Table)
    → (lookup k (put_all kvs t) ≡ lookup k t)
      ⊎ Any (λ (kv : Kv). (kv.key ≡ k) × (lookup k (put_all kvs t) ≡ some (content kv))) kvs
put_all-given k [] t = inl refl
put_all-given k (kv ∷ kvs) t = elim (put_all-given k kvs (insert kv.key (content kv) t)) [
  | inr later ↦ inr (inr later)
  | inl same ↦ ground (arith, same, lookup-insert kv.key k (content kv) t, equal_iff kv.key k)
]

put_all-keeps :
    (k : Bytes) (kvs : List Kv) (t : Table) → lookup k t ≢ none → lookup k (put_all kvs t) ≢ none
put_all-keeps k [] t h = h
put_all-keeps k (kv ∷ kvs) t h =
    put_all-keeps k kvs (insert kv.key (content kv) t)
      (ground (arith, lookup-insert kv.key k (content kv) t))

put_all-holds :
    (kvs : List Kv) (t : Table) → All (λ (kv : Kv). lookup kv.key (put_all kvs t) ≢ none) kvs
put_all-holds [] t = tt
put_all-holds (kv ∷ kvs) t = (
  put_all-keeps kv.key kvs (insert kv.key (content kv) t)
      (ground (arith, lookup-insert kv.key kv.key (content kv) t, equal_iff kv.key kv.key)),
  put_all-holds kvs (insert kv.key (content kv) t),
)

disk-Lawful : Lawful disk
unfolding lookup
disk-Lawful = record {
  written = λ b. b;
  open_same = λ s p q k. refl;
  close_same = λ s p q k. refl;
  lock_same = λ s p q k. refl;
  release_same = λ s p q k. refl;
  truthful =
      λ s p l h. (let same : shown (s p) (s p) ≡ l = cc h in rw (← same) (truthful (s p) (s p)));
  shows = λ s p k c l h g.
      (let same : shown (s p) (s p) ≡ l = cc h in
        rw (← same) (shows k c (s p) (s p) g (λ e. cc (sym e ∙ g))));
  fresh = λ p. refl;
  write_gains = λ s p b l. record { others = λ q k n. refl; given = λ k. inl refl };
  write_written = λ s p b b' l h. (let same : b ++ l ≡ b' = cc h in sym same);
  flush_gains = λ s p b. record {
    others = λ q k n. changed_other s p q k (put_all b (s p)) n;
    given = λ k. rw (changed_here s p k (put_all b (s p))) (put_all-given k b (s p));
  };
  flush_holds = λ s p b h. rw ((equal_iff p p).1 refl) (put_all-holds b (s p));
  drop_loses = lost;
  drop_empties = λ s p k h. changed_here s p k [];
  remove_loses = lost;
}

abbrev reaper : Reaper
reaper = record {
  data_dir = b'd' ∷ [];
  dst_instance_dir = b'd' ∷ b'/' ∷ b'a' ∷ [];
  reaped_callbacks = none ∷ some 3 ∷ [];
}

abbrev path_b : Bytes
path_b = b'd' ∷ b'/' ∷ b'b' ∷ []

abbrev message : Content
message = record { value = 5 ∷ []; user_meta = 0 }

-- A dead instance with one message.
abbrev two_instances : Contents
two_instances p = if equal_bytes p path_b then (b'k' ∷ [], message) ∷ [] else []

-- The run moves it, and reports the instance.
reap_moves :
    let done = reap disk reaper two_instances in
    (disk.get done.state path_b (b'k' ∷ []) ≡ none)
    × (disk.get done.state reaper.dst_instance_dir (b'k' ∷ []) ≡ some message)
    × (done.calls ≡ (3, b'd' ∷ [], b'b' ∷ []) ∷ [])
unfolding reap equal_bytes compare_bytes lookup insert trigger_reaped_callbacks key_to_list
reap_moves = (refl, refl, refl)

agreed : (p : Bytes) → IsNoneOr message (disk.get two_instances p (b'k' ∷ []))
unfolding lookup
agreed p = elim (Bool-cases (equal_bytes p path_b)) [
  | inl e ↦ rw e (inr (rw ((equal_iff (b'k' ∷ []) (b'k' ∷ [])).1 refl)))
  | inr e ↦ rw e (inl refl)
]

reap_loses_nothing_example :
    let s' = (reap disk reaper two_instances).state in
    ((disk.get s' path_b (b'k' ∷ []) ≡ some message)
      ⊎ (disk.get s' reaper.dst_instance_dir (b'k' ∷ []) ≡ some message))
    × ((q : Bytes) → IsNoneOr message (disk.get s' q (b'k' ∷ [])))
unfolding lookup equal_bytes compare_bytes
reap_loses_nothing_example =
    reap_loses_nothing disk reaper disk-Lawful (b'k' ∷ []) message path_b two_instances agreed refl
