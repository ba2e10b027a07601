-- ===== src/Writer/Throttle/Deadlock.antt =====
-- A commit at a full throttle.
use nats_requeue.Prelude.{ℕ, zero, suc, refl, ◌≤◌, ◌≡◌, arith}
use nats_requeue.Writer.Throttle.{Throttle, set_max_pending_txns, Step, Reach, nobody, committing}

-- A method waits at the throttle, and every slot of it is taken by a commit whose callback has not got
-- the lock.
record IsStuck (t : Throttle) : Type 0 where
  waits : t.owner ≡ committing
  full : t.running ≡ t.max
  none_finishing : t.finishing ≡ 0

Step-IsStuck : (t u : Throttle) → IsStuck t → Step t u → IsStuck u
Step-IsStuck t _ v (Step.lock a) = absurd (ground (arith, v.waits, a))
Step-IsStuck t _ v (Step.commit a) = absurd (ground (arith, v.waits, a))
Step-IsStuck t _ v (Step.unlock a) = absurd (ground (arith, v.waits, a))
Step-IsStuck t _ v (Step.committed a b) = absurd (omega (arith, b, v.full))
Step-IsStuck t _ v (Step.callback_locks n a b) = absurd (ground (arith, v.waits, b))
Step-IsStuck t _ v (Step.callback_unlocks a) = absurd (ground (arith, v.waits, a))
Step-IsStuck t _ v (Step.callback_done n a) = absurd (omega (arith, a, v.none_finishing))

reach-IsStuck : (t u : Throttle) → IsStuck t → Reach t u → IsStuck u
reach-IsStuck t _ v Reach.here = v
reach-IsStuck t w v (Reach.next {u} r s) = Step-IsStuck u w (reach-IsStuck t u v r) s

-- A method that commits while the throttle's maximum of commits is running, and no callback is past the
-- lock, never gets on, and none of those commits ends: it holds the lock that their callbacks take
-- before they call Done.
pub commit_deadlocks :
    (t u : Throttle)
    → t.owner ≡ committing
    → t.running ≡ t.max
    → t.finishing ≡ 0
    → Reach t u
    → (u.owner ≡ committing) × (u.running ≡ u.max)
commit_deadlocks t u w m n r =
    let v = reach-IsStuck t u (record { waits = w; full = m; none_finishing = n }) r in
    (v.waits, v.full)

-- So many commits that no callback has ended yet.
abbrev pub committed_only : ℕ → ℕ → Throttle
committed_only max n = record { max = max; owner = nobody; running = n; finishing = 0 }

fill : (max n : ℕ) → n ≤ max → Reach (set_max_pending_txns max) (committed_only max n)
unfolding set_max_pending_txns
fill max zero h = Reach.here
fill max (suc n) h =
    Reach.next
      (Reach.next (Reach.next (fill max n (omega (arith, h))) (Step.lock refl)) (Step.commit refl))
      (Step.committed refl (omega (arith, h)))

-- Whatever the maximum, a batch can get to such a commit: by that many commits, and one more before the
-- first of them has ended.
pub deadlock_reached :
    (max : ℕ)
    → Reach (set_max_pending_txns max) (record (committed_only max max) { owner = committing })
deadlock_reached max =
    Reach.next (Reach.next (fill max max (omega arith)) (Step.lock refl)) (Step.commit refl)
