-- ===== src/Reaper/Kept.antt =====
-- A run of the reaper loses no message, whatever fails in it.
use nats_requeue.Prelude.{
  Bool, true, false, Option, none, some, ◌≡◌, ◌≢◌, ◌⊎◌, inl, inr, sym, ◌∙◌, Bool-cases,
  Option-cases, if◌then◌else◌, arith,
}
use nats_requeue.Bytes.{Bytes, equal_bytes}
use nats_requeue.Bytes.Order.{equal_iff}
use nats_requeue.Result.{Error, Result, ok, err}
use nats_requeue.Reaper.Databases.{Disk, Content, Loses, Lawful}
use nats_requeue.Reaper.{copy_badger, merge_instance}
use nats_requeue.Reaper.Pairs.{Agrees}
use nats_requeue.Reaper.{remove_instance}
use nats_requeue.Reaper.Copy.{IsCopy, copy_badger-IsCopy}

module _ (d : Disk) (laws : Lawful d) (dst k : Bytes) (c : Content) (p : Bytes) where
  open d use {
    State, get, open_db, would_block, close_db, drop_all, acquire_lock, release, remove_all,
  }

  -- The databases agree on the key, and the one of `p` or the destination has it.
  pub record IsSafe (s : State) : Type 0 where
    pub agrees : Agrees d laws dst k c s
    pub kept : (get s p k ≡ some c) ⊎ (get s dst k ≡ some c)

  same-IsSafe : (s s' : State) → ((q j : Bytes) → get s' q j ≡ get s q j) → IsSafe s → IsSafe s'
  same-IsSafe s s' h v = record {
    agrees = λ q. rw (h q k) (v.agrees q);
    kept = elim v.kept [ inl a ↦ inl (h p k ∙ a) | inr a ↦ inr (h dst k ∙ a) ];
  }

  copy-IsSafe :
      (s s' : State) (src : Bytes) (r : Option Error)
      → IsCopy d laws dst k c s s' src r
      → IsSafe s
      → IsSafe s'
  copy-IsSafe s s' src r h v = record {
    agrees = h.agrees;
    kept = elim v.kept [ inl a ↦ inl (h.holds p a) | inr a ↦ inr (h.holds dst a) ];
  }

  -- A database may lose the key that the destination has too.
  Loses-IsSafe :
      (x : Bytes) (s s' : State)
      → Loses d x s s'
      → x ≢ dst
      → (get s x k ≡ some c → get s dst k ≡ some c)
      → IsSafe s
      → IsSafe s'
  Loses-IsSafe x s s' l n also v =
      let stays : get s' dst k ≡ get s dst k = l.others dst k (λ e. n (sym e)) in
      record {
        agrees = λ q. elim (Bool-cases (equal_bytes q x)) [
          | inl e ↦
              let here = (equal_iff q x).0 e in
              rw here (elim (l.gone k) [ inl same ↦ rw same (v.agrees x) | inr gone ↦ inl gone ])
          | inr e ↦ rw (l.others q k (λ here. cc ((equal_iff q x).1 here))) (v.agrees q)
        ];
        kept = elim v.kept [
          | inr a ↦ inr (stays ∙ a)
          | inl a ↦ elim (Bool-cases (equal_bytes p x)) [
            | inl e ↦ inr (stays ∙ also (rw ((equal_iff p x).0 e) at a))
            | inr e ↦ inl (l.others p k (λ here. cc ((equal_iff p x).1 here)) ∙ a)
          ]
        ];
      }

  -- The ways through mergeInstance.
  module _ (s : State) (x : Bytes) where
    abbrev opened : State
    opened = (open_db s x).0

    abbrev copied : State
    copied = (copy_badger d opened dst x).0

    abbrev dropped : State
    dropped = (drop_all copied x).0

    not_opened :
        (e : Error)
        → (open_db s x).1 ≡ some e
        → merge_instance d s dst x ≡ (opened, (if would_block e then ok false else err e))
    unfolding merge_instance
    not_opened e h = ground (arith, h)

    not_copied :
        (e : Error)
        → (open_db s x).1 ≡ none
        → (copy_badger d opened dst x).1 ≡ some e
        → merge_instance d s dst x ≡ (close_db copied x, err e)
    unfolding merge_instance
    not_copied e h g = ground (arith, h, g)

    not_dropped :
        (e : Error)
        → (open_db s x).1 ≡ none
        → (copy_badger d opened dst x).1 ≡ none
        → (drop_all copied x).1 ≡ some e
        → merge_instance d s dst x ≡ (close_db dropped x, err e)
    unfolding merge_instance
    not_dropped e h g f = ground (arith, h, g, f)

    merged :
        (open_db s x).1 ≡ none
        → (copy_badger d opened dst x).1 ≡ none
        → (drop_all copied x).1 ≡ none
        → merge_instance d s dst x ≡ (close_db dropped x, ok true)
    unfolding merge_instance
    merged h g f = ground (arith, h, g, f)

  -- A merge keeps the message, and where it succeeds the instance does not have it any more.
  pub record IsMerge (x : Bytes) (s' : State) (r : Result Bool) : Type 0 where
    pub safe : IsSafe s'
    pub emptied : r ≡ ok true → get s' x k ≡ none

  pub merge_instance-IsMerge :
      (s : State) (x : Bytes)
      → x ≢ dst
      → IsSafe s
      → IsMerge x (merge_instance d s dst x).0 (merge_instance d s dst x).1
  merge_instance-IsMerge s x n v =
      let v1 = same-IsSafe s (opened s x) (laws.open_same s x) v in
      let copy = copy_badger-IsCopy d laws dst k c (opened s x) x v1.agrees in
      let v2 =
        copy-IsSafe (opened s x) (copied s x) x (copy_badger d (opened s x) dst x).1 copy v1 in
      elim (Option-cases (open_db s x).1) [
        | inr (e, o) ↦
            rw (not_opened s x e o)
              (record { safe = v1; emptied = λ h. absurd (ground (arith, h)) })
        | inl o ↦ elim (Option-cases (copy_badger d (opened s x) dst x).1) [
          | inr (e, g) ↦ rw (not_copied s x e o g) (record {
            safe =
                same-IsSafe (copied s x) (close_db (copied s x) x) (laws.close_same (copied s x) x)
                  v2;
            emptied = λ h. absurd (cc h);
          })
          | inl g ↦
              let also = λ (h : get (copied s x) x k ≡ some c).
                copy.complete g (sym (copy.others x n) ∙ h) in
              let v3 =
                Loses-IsSafe x (copied s x) (dropped s x) (laws.drop_loses (copied s x) x) n also
                  v2 in
              let v4 =
                same-IsSafe (dropped s x) (close_db (dropped s x) x)
                  (laws.close_same (dropped s x) x) v3 in
              elim (Option-cases (drop_all (copied s x) x).1) [
                | inr (e, f) ↦
                    rw (not_dropped s x e o g f)
                      (record { safe = v4; emptied = λ h. absurd (cc h) })
                | inl f ↦ rw (merged s x o g f) (record {
                  safe = v4;
                  emptied = λ h.
                      laws.close_same (dropped s x) x x k ∙ laws.drop_empties (copied s x) x k f;
                })
              ]
        ]
      ]

  -- The ways through removeInstance.
  module _ (s : State) (x : Bytes) where
    abbrev locked : State
    locked = (acquire_lock s x).0

    abbrev removed : State
    removed = (remove_all locked x).0

    not_locked :
        (e : Error) → (acquire_lock s x).1 ≡ some e → remove_instance d s x ≡ (locked, some e)
    unfolding remove_instance
    not_locked e h = ground (arith, h)

    unlocked :
        (acquire_lock s x).1 ≡ none
        → remove_instance d s x ≡ (release removed x, (remove_all locked x).1)
    unfolding remove_instance
    unlocked h = ground (arith, h)

  -- A removal of an instance that does not have the message.
  pub remove-IsSafe :
      (s : State) (x : Bytes)
      → x ≢ dst
      → get s x k ≡ none
      → IsSafe s
      → IsSafe (remove_instance d s x).0
  remove-IsSafe s x n gone v =
      let v1 = same-IsSafe s (locked s x) (laws.lock_same s x) v in
      let none_there : get (locked s x) x k ≡ none = laws.lock_same s x x k ∙ gone in
      let v2 =
        Loses-IsSafe x (locked s x) (removed s x) (laws.remove_loses (locked s x) x) n
          (λ h. absurd (ground (arith, h, none_there))) v1 in
      elim (Option-cases (acquire_lock s x).1) [
        | inr (e, o) ↦ rw (not_locked s x e o) v1
        | inl o ↦ rw (unlocked s x o) (
            same-IsSafe (removed s x) (release (removed s x) x) (laws.release_same (removed s x) x)
              v2)
      ]
