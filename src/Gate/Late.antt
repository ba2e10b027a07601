-- ===== src/Gate/Late.antt =====
-- What is added while the gate is open: only the amounts of calls that were past the test of the state
-- when it was opened.
use nats_requeue.Prelude.{ℕ, ◌+◌, true, ◌∷◌, ◌≡◌, refl, ◌∙◌, ap, length, length-append, arith}
use nats_requeue.Gate.{add, Counter, Step, value}

-- Steps during which the gate stays open, and how many amounts they add.
pub data OpenRun (c : Counter) : ℕ → Counter → Type 0 where
  here : OpenRun c 0 c
  next :
      {k n : ℕ} {d e : Counter}
      → OpenRun c k d
      → Step d n e
      → e.is_open ≡ true
      → OpenRun c (n + k) e

record IsLate (c : Counter) (k : ℕ) (d : Counter) : Type 0 where
  stays_open : d.is_open ≡ true
  adds_left : k + length d.adding ≡ length c.adding
  unchanged : k ≡ 0 → value d ≡ value c

Step-IsLate :
    (c d e : Counter) (k n : ℕ) → IsLate c k d → Step d n e → e.is_open ≡ true → IsLate c (n + k) e
unfolding add
Step-IsLate c d _ k _ v Step.opens o = record {
  stays_open = refl;
  adds_left = omega (arith, v.adds_left);
  unchanged = λ z. v.unchanged (omega (arith, z));
}
Step-IsLate c d _ k _ v Step.closes o = absurd (ground (arith, o))
Step-IsLate c d _ k _ v (Step.returns_early a) o = record {
  stays_open = a;
  adds_left = omega (arith, v.adds_left);
  unchanged = λ z. v.unchanged (omega (arith, z));
}
Step-IsLate c d _ k _ v (Step.finds_closed n a) o = absurd (ground (arith, a, o))
Step-IsLate c d _ k _ v (Step.adds before n after e) o = record {
  stays_open = v.stays_open;
  adds_left = omega (
    arith,
    v.adds_left,
    ap length e ∙ length-append before (n ∷ after),
    length-append before after,
  );
  unchanged = λ z. absurd (omega (arith, z));
}

run-IsLate : (c d : Counter) (k : ℕ) → c.is_open ≡ true → OpenRun c k d → IsLate c k d
run-IsLate c _ _ o OpenRun.here = record {
  stays_open = o;
  adds_left = omega arith;
  unchanged = λ z. refl;
}
run-IsLate c e _ o (OpenRun.next {k = k} {n = n} {d = d} r s p) =
    Step-IsLate c d e k n (run-IsLate c d k o r) s p

-- From a state in which the gate is open, and for as long as it is, at most those calls of Add add
-- their amount that had found the gate closed before: the number that have added, and the number that
-- have yet to, make up the number of them. Where none has added, the counter is as it was.
pub late_adds :
    (c d : Counter) (k : ℕ)
    → c.is_open ≡ true
    → OpenRun c k d
    → (k + length d.adding ≡ length c.adding) × (k ≡ 0 → value d ≡ value c)
late_adds c d k o r = let v = run-IsLate c d k o r in (v.adds_left, v.unchanged)
