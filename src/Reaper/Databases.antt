-- ===== src/Reaper/Databases.antt =====
-- What the reaper uses of the file system and of Badger, which are not in this repository: listing a
-- directory, opening and dropping databases, streaming one and writing batches to another, locks.
-- `Lawful` is what their documentation says of the contents. A database is known by its directory.
use nats_requeue.Prelude.{
  ℕ, Bool, false, List, [], ◌∷◌, ◌++◌, Option, none, some, ◌≡◌, ◌≢◌, ◌⊎◌, All,
}
use nats_requeue.Bytes.{Bytes}
use nats_requeue.Result.{Error, Result, ok}

pub record File : Type 0 where
  pub name : Bytes
  pub is_dir : Bool

-- What a database holds under a live key. When it expires is left out: nothing says that a write
-- batch of Badger keeps the ExpiresAt of a pair.
pub record Content : Type 0 where
  pub value : Bytes
  pub user_meta : ℕ

-- What an iterator shows of one version of a key; `value` is the result of ValueCopy.
pub record Version : Type 0 where
  pub key : Bytes
  pub is_deleted_or_expired : Bool
  pub value : Result Bytes
  pub user_meta : ℕ
  pub version : ℕ
  pub expires_at : ℕ

-- pb.KV.
pub record Kv : Type 0 where
  pub key : Bytes
  pub value : Bytes
  pub user_meta : ℕ
  pub version : ℕ
  pub expires_at : ℕ

abbrev pub content : Kv → Content
content kv = record { value = kv.value; user_meta = kv.user_meta }

-- An operation that can fail returns the state after it too, since it may have done a part.
pub record Disk : Type 1 where
  pub State : Type 0
  pub Batch : Type 0
  pub get : State → Bytes → Bytes → Option Content
  -- filepath.Join
  pub join : Bytes → Bytes → Bytes
  -- os.Open and Readdir
  pub read_dir : State → Bytes → Result (List File)
  -- badger.Open, and whether an error's text has that of EWOULDBLOCK
  pub open_db : State → Bytes → State × Option Error
  pub would_block : Error → Bool
  pub close_db : State → Bytes → State
  -- the keys that Orchestrate hands to KeyToList, each with what its iterator then shows
  pub stream : State → Bytes → Result (List (Bytes × List Version))
  pub new_batch : Bytes → Batch
  pub write : State → Bytes → Batch → List Kv → State × Result Batch
  pub flush : State → Bytes → Batch → State × Option Error
  pub drop_all : State → Bytes → State × Option Error
  pub acquire_lock : State → Bytes → State × Option Error
  pub release : State → Bytes → State
  pub remove_all : State → Bytes → State × Option Error

abbrev pub Any {ℓ} : {A : Type ℓ} → (A → Type 0) → List A → Type 0
Any P [] = ⊥
Any P (x ∷ xs) = P x ⊎ Any P xs

-- The first version of a key in a stream, where it is live and can be read, is what the database
-- holds.
abbrev pub IsTruthful : (Bytes → Option Content) → Bytes × List Version → Type 0
IsTruthful held (k, []) = Unit
IsTruthful held (k, v ∷ vs) =
    v.key ≡ k
    → v.is_deleted_or_expired ≡ false
    → (x : Bytes) → v.value ≡ ok x
    → held k ≡ some (record { value = x; user_meta = v.user_meta })

-- A live key comes with its live version first.
abbrev pub Shows : Bytes → Bytes × List Version → Type 0
Shows k (j, []) = ⊥
Shows k (j, v ∷ vs) = (j ≡ k) × (v.key ≡ k) × (v.is_deleted_or_expired ≡ false)

module _ (d : Disk) where
  -- The databases after an operation on one hold what they held, but for that one, in which a key
  -- may have gone.
  pub record Loses (p : Bytes) (s s' : d.State) : Type 0 where
    pub others : (q k : Bytes) → q ≢ p → d.get s' q k ≡ d.get s q k
    pub gone : (k : Bytes) → (d.get s' p k ≡ d.get s p k) ⊎ (d.get s' p k ≡ none)

  -- And after writing pairs to one, in which a key may have been given the value of a pair.
  pub record Gains (p : Bytes) (kvs : List Kv) (s s' : d.State) : Type 0 where
    pub others : (q k : Bytes) → q ≢ p → d.get s' q k ≡ d.get s q k
    pub given :
        (k : Bytes)
        → (d.get s' p k ≡ d.get s p k)
          ⊎ Any (λ (kv : Kv). (kv.key ≡ k) × (d.get s' p k ≡ some (content kv))) kvs

  pub record Lawful : Type 0 where
    pub written : d.Batch → List Kv
    pub open_same : (s : d.State) (p q k : Bytes) → d.get (d.open_db s p).0 q k ≡ d.get s q k
    pub close_same : (s : d.State) (p q k : Bytes) → d.get (d.close_db s p) q k ≡ d.get s q k
    pub lock_same : (s : d.State) (p q k : Bytes) → d.get (d.acquire_lock s p).0 q k ≡ d.get s q k
    pub release_same : (s : d.State) (p q k : Bytes) → d.get (d.release s p) q k ≡ d.get s q k
    pub truthful :
        (s : d.State) (p : Bytes) (l : List (Bytes × List Version))
        → d.stream s p ≡ ok l
        → All (IsTruthful (d.get s p)) l
    pub shows :
        (s : d.State) (p k : Bytes) (c : Content) (l : List (Bytes × List Version))
        → d.stream s p ≡ ok l
        → d.get s p k ≡ some c
        → Any (Shows k) l
    pub fresh : (p : Bytes) → written (d.new_batch p) ≡ []
    pub write_gains :
        (s : d.State) (p : Bytes) (b : d.Batch) (l : List Kv)
        → Gains p (written b ++ l) s (d.write s p b l).0
    pub write_written :
        (s : d.State) (p : Bytes) (b b' : d.Batch) (l : List Kv)
        → (d.write s p b l).1 ≡ ok b'
        → written b' ≡ written b ++ l
    pub flush_gains :
        (s : d.State) (p : Bytes) (b : d.Batch) → Gains p (written b) s (d.flush s p b).0
    pub flush_holds :
        (s : d.State) (p : Bytes) (b : d.Batch)
        → (d.flush s p b).1 ≡ none
        → All (λ (kv : Kv). d.get (d.flush s p b).0 p kv.key ≢ none) (written b)
    pub drop_loses : (s : d.State) (p : Bytes) → Loses p s (d.drop_all s p).0
    pub drop_empties :
        (s : d.State) (p k : Bytes)
        → (d.drop_all s p).1 ≡ none
        → d.get (d.drop_all s p).0 p k ≡ none
    pub remove_loses : (s : d.State) (p : Bytes) → Loses p s (d.remove_all s p).0
