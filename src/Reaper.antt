-- ===== src/Reaper.antt =====
-- internal/reaper/reaper.go: a run of the reaper, which takes over the databases of instances that
-- have died. Another process at work on the same directories meanwhile is not modelled.
pub mod Options
pub mod Databases
pub mod Pairs
pub mod Copy
pub mod Kept
pub mod Run
use nats_requeue.Prelude.{
  ℕ, Bool, true, false, List, [], ◌∷◌, ◌++◌, Option, none, some, if◌then◌else◌,
}
use nats_requeue.Bytes.{Bytes, equal_bytes}
use nats_requeue.Result.{Error, Result, ok, err}
use nats_requeue.Reaper.Databases.{Disk, File, Version, Kv}

-- `dst` and `dst_instance_dir` are this instance's database and its directory, here one path; a nil
-- callback is `none`.
pub record Reaper : Type 0 where
  pub data_dir : Bytes
  pub dst_instance_dir : Bytes
  pub reaped_callbacks : List (Option ℕ)

-- The loop of KeyToList, whose every way through its first round ends it.
unfoldable pub key_to_list : Bytes → List Version → Result (List Kv)
key_to_list key [] = ok []
key_to_list key (item ∷ rest) =
    if item.is_deleted_or_expired
    then ok []
    else (if equal_bytes key item.key
        then (elim item.value [
          | err e ↦ err e
          | ok value ↦ ok (
              record {
                key = item.key;
                value = value;
                user_meta = item.user_meta;
                version = item.version;
                expires_at = item.expires_at;
              }
              ∷ [])
        ])
        else ok [])

-- `go cb(dir, instanceId)` for each callback that is not nil.
unfoldable pub trigger_reaped_callbacks : List (Option ℕ) → Bytes → Bytes → List (ℕ × Bytes × Bytes)
trigger_reaped_callbacks [] dir id = []
trigger_reaped_callbacks (none ∷ cbs) dir id = trigger_reaped_callbacks cbs dir id
trigger_reaped_callbacks (some cb ∷ cbs) dir id =
    (cb, dir, id) ∷ trigger_reaped_callbacks cbs dir id

module _ (d : Disk) where
  open d use {
    State, Batch, join, read_dir, open_db, would_block, close_db, stream, new_batch, write, flush,
    drop_all, acquire_lock, release, remove_all,
  }

  other_ids : Reaper → List File → List Bytes
  other_ids r [] = []
  other_ids r (file ∷ files) =
      let rest = other_ids r files in
      if file.is_dir
      then (if equal_bytes (join r.data_dir file.name) r.dst_instance_dir
          then rest
          else file.name ∷ rest)
      else rest

  unfoldable pub get_other_instance_ids : State → Reaper → Result (List Bytes)
  unfolding other_ids
  get_other_instance_ids s r = elim (read_dir s r.data_dir) [
    | err e ↦ err e
    | ok files ↦ ok (other_ids r files)
  ]

  -- The stream: each key's list is made by KeyToList and written to the batch by Send. The first
  -- error ends it.
  unfoldable pub copy_keys :
      State → Bytes → Batch → List (Bytes × List Version) → State × Result Batch
  copy_keys s dst wb [] = (s, ok wb)
  copy_keys s dst wb ((key, versions) ∷ rest) = elim (key_to_list key versions) [
    | err e ↦ (s, err e)
    | ok list ↦
        let (s', sent) = write s dst wb list in
        elim sent [ err e ↦ (s', err e) | ok wb' ↦ copy_keys s' dst wb' rest ]
  ]

  unfoldable pub copy_badger : State → Bytes → Bytes → State × Option Error
  unfolding copy_keys
  copy_badger s dst src = elim (stream s src) [
    | err e ↦ (s, some e)
    | ok keys ↦
        let (s', copied) = copy_keys s dst (new_batch dst) keys in
        elim copied [ err e ↦ (s', some e) | ok wb ↦ flush s' dst wb ]
  ]

  -- Opening an instance, with the error of a locked one passed over: `false` is the nil instance.
  unfoldable pub open_badger_instance : State → Bytes → State × Result Bool
  open_badger_instance s path =
      let (s1, opened) = open_db s path in
      elim opened [
        | none ↦ (s1, ok true)
        | some e ↦ (s1, (if would_block e then ok false else err e))
      ]

  -- The deferred Close comes last.
  unfoldable pub merge_instance : State → Bytes → Bytes → State × Result Bool
  unfolding copy_badger open_badger_instance
  merge_instance s dst path =
      let (s1, opened) = open_badger_instance s path in
      elim opened [
        | err e ↦ (s1, err e)
        | ok false ↦ (s1, ok false)
        | ok true ↦
            let (s2, copied) = copy_badger s1 dst path in
            elim copied [
              | some e ↦ (close_db s2 path, err e)
              | none ↦
                  let (s3, dropped) = drop_all s2 path in
                  elim dropped [
                    | some e ↦ (close_db s3 path, err e)
                    | none ↦ (close_db s3 path, ok true)
                  ]
            ]
      ]

  unfoldable pub remove_instance : State → Bytes → State × Option Error
  remove_instance s path =
      let (s1, locked) = acquire_lock s path in
      elim locked [
        | some e ↦ (s1, some e)
        | none ↦ let (s2, removed) = remove_all s1 path in (release s2 path, removed)
      ]

  -- What a run leaves: the state, its error, the calls of the callbacks, and the instances reaped.
  pub record Reaped : Type 0 where
    pub state : State
    pub error : Option Error
    pub calls : List (ℕ × Bytes × Bytes)
    pub ids : List Bytes

  -- The loop of reap, with what it has done so far.
  unfoldable pub reap_instances :
      Reaper → State → List (ℕ × Bytes × Bytes) → List Bytes → List Bytes → Reaped
  unfolding merge_instance remove_instance
  reap_instances r s calls done [] = record { state = s; error = none; calls = calls; ids = done }
  reap_instances r s calls done (id ∷ rest) =
      let path = join r.data_dir id in
      let (s1, merged) = merge_instance s r.dst_instance_dir path in
      elim merged [
        | err e ↦ record { state = s1; error = some e; calls = calls; ids = done }
        | ok false ↦ reap_instances r s1 calls done rest
        | ok true ↦
            let (s2, removed) = remove_instance s1 path in
            elim removed [
              | some e ↦ record { state = s2; error = some e; calls = calls; ids = done }
              | none ↦
                  reap_instances r s2
                    (calls ++ trigger_reaped_callbacks r.reaped_callbacks r.data_dir id)
                    (done ++ id ∷ []) rest
            ]
      ]

  unfoldable pub reap : Reaper → State → Reaped
  unfolding get_other_instance_ids reap_instances
  reap r s = elim (get_other_instance_ids s r) [
    | err e ↦ record { state = s; error = some e; calls = []; ids = [] }
    | ok ids ↦ reap_instances r s [] [] ids
  ]
