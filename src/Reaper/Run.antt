-- ===== src/Reaper/Run.antt =====
-- The reaper's loop over the other instances.
use nats_requeue.Prelude.{
  ℕ, true, false, List, [], ◌∷◌, ◌++◌, none, some, ◌≡◌, ◌≢◌, ◌⊎◌, inl, inr, All, Option-cases,
  arith,
}
use nats_requeue.Bytes.{Bytes}
use nats_requeue.Bytes.Order.{equal_iff}
use nats_requeue.Result.{Error, ok, err, Result-cases}
use nats_requeue.Reaper.Databases.{Disk, Content, File, Lawful}
use nats_requeue.Reaper.{
  Reaper, merge_instance, remove_instance, trigger_reaped_callbacks, reap_instances, reap,
  other_ids, get_other_instance_ids,
}
use nats_requeue.Reaper.Pairs.{IsNoneOr, Agrees}
use nats_requeue.Reaper.Kept.{IsSafe, merge_instance-IsMerge, remove-IsSafe}

module _ (d : Disk) (r : Reaper) where
  open d use {State, get, join}

  -- The ways through a round of the loop.
  module _ (s : State) (calls : List (ℕ × Bytes × Bytes)) (done : List Bytes) (id : Bytes)
      (rest : List Bytes) where
    abbrev path : Bytes
    path = join r.data_dir id

    abbrev merged : State
    merged = (merge_instance d s r.dst_instance_dir path).0

    abbrev removed : State
    removed = (remove_instance d merged path).0

    not_merged :
        (e : Error)
        → (merge_instance d s r.dst_instance_dir path).1 ≡ err e
        → (reap_instances d r s calls done (id ∷ rest)).state ≡ merged
    unfolding reap_instances
    not_merged e h = ground (arith, h)

    locked :
        (merge_instance d s r.dst_instance_dir path).1 ≡ ok false
        → reap_instances d r s calls done (id ∷ rest) ≡ reap_instances d r merged calls done rest
    unfolding reap_instances
    locked h = ground (arith, h)

    not_removed :
        (e : Error)
        → (merge_instance d s r.dst_instance_dir path).1 ≡ ok true
        → (remove_instance d merged path).1 ≡ some e
        → (reap_instances d r s calls done (id ∷ rest)).state ≡ removed
    unfolding reap_instances
    not_removed e h g = ground (arith, h, g)

    reaped :
        (merge_instance d s r.dst_instance_dir path).1 ≡ ok true
        → (remove_instance d merged path).1 ≡ none
        → reap_instances d r s calls done (id ∷ rest)
          ≡ reap_instances d r removed
              (calls ++ trigger_reaped_callbacks r.reaped_callbacks r.data_dir id)
              (done ++ id ∷ [])
              rest
    unfolding reap_instances
    reaped h g = ground (arith, h, g)

  unlisted : (s : State) (e : Error) → d.read_dir s r.data_dir ≡ err e → (reap d r s).state ≡ s
  unfolding reap get_other_instance_ids
  unlisted s e l = ground (arith, l)

  listed :
      (s : State) (files : List File)
      → d.read_dir s r.data_dir ≡ ok files
      → reap d r s ≡ reap_instances d r s [] [] (other_ids d r files)
  unfolding reap get_other_instance_ids
  listed s files l = ground (arith, l)

  abbrev Others : List Bytes → Type 0
  Others = All (λ id. join r.data_dir id ≢ r.dst_instance_dir)

  other_ids-Others : (files : List File) → Others (other_ids d r files)
  unfolding other_ids
  other_ids-Others [] = tt
  other_ids-Others (f ∷ files) =
      ground (arith, equal_iff (join r.data_dir f.name) r.dst_instance_dir, other_ids-Others files)

  module _ (laws : Lawful d) (k : Bytes) (c : Content) (p : Bytes) where
    instances-IsSafe :
        (s : State) (calls : List (ℕ × Bytes × Bytes)) (done ids : List Bytes)
        → Others ids
        → IsSafe d laws r.dst_instance_dir k c p s
        → IsSafe d laws r.dst_instance_dir k c p (reap_instances d r s calls done ids).state
    instances-IsSafe s calls done [] o v = unfold reap_instances in v
    instances-IsSafe s calls done (id ∷ rest) o v =
        let m =
          merge_instance-IsMerge d laws r.dst_instance_dir k c p s (path s calls done id rest) o.0
            v in
        let s1 = merged s calls done id rest in
        elim (Result-cases (merge_instance d s r.dst_instance_dir (path s calls done id rest)).1) [
          | inr (e, h) ↦ rw (not_merged s calls done id rest e h) m.safe
          | inl (false, h) ↦
              rw (locked s calls done id rest h) (instances-IsSafe s1 calls done rest o.1 m.safe)
          | inl (true, h) ↦
              let x = path s calls done id rest in
              let s2 = removed s calls done id rest in
              let v2 =
                remove-IsSafe d laws r.dst_instance_dir k c p s1 x o.0 (m.emptied h) m.safe in
              elim (Option-cases (remove_instance d s1 x).1) [
                | inr (e, g) ↦ rw (not_removed s calls done id rest e h g) v2
                | inl g ↦ rw (reaped s calls done id rest h g) (
                    instances-IsSafe s2
                      (calls ++ trigger_reaped_callbacks r.reaped_callbacks r.data_dir id)
                      (done ++ id ∷ []) rest o.1 v2)
              ]
        ]

    -- The content of a key is its value and its metadata, without the time at which it expires. Take a key under which every database holds nothing or one same content, and a database that
    -- holds it. After a run of the reaper, however it ends, that database or the reaper's own holds
    -- that content under the key, and no database holds another.
    pub reap_loses_nothing :
        (s : State)
        → Agrees d laws r.dst_instance_dir k c s
        → get s p k ≡ some c
        → let s' = (reap d r s).state in
          ((get s' p k ≡ some c) ⊎ (get s' r.dst_instance_dir k ≡ some c))
          × ((q : Bytes) → IsNoneOr c (get s' q k))
    reap_loses_nothing s a h =
        let v : IsSafe d laws r.dst_instance_dir k c p s = record { agrees = a; kept = inl h } in
        elim (Result-cases (d.read_dir s r.data_dir)) [
          | inr (e, l) ↦ rw (unlisted s e l) (inl h, a)
          | inl (files, l) ↦
              let v' = instances-IsSafe s [] [] (other_ids d r files) (other_ids-Others files) v in
              rw (listed s files l) (v'.kept, v'.agrees)
        ]
