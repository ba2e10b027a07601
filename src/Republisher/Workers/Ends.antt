-- ===== src/Republisher/Workers/Ends.antt =====
-- Every run of the pool ends, with every message published.
use nats_requeue.Prelude.{
  ℕ, zero, suc, ◌+◌, ◌*◌, ◌≤◌, ◌<◌, true, ◌≡◌, ◌≢◌, ◌⊎◌, inl, inr, refl, arith, Bool-cases,
}
use nats_requeue.Prelude.Int.{ℤ}
use nats_requeue.Republisher.Workers.{
  Place, selecting, sending, waiting, finished, Pool, new_pool, may_start, Step, Steps, here, next,
}

abbrev place_weight : Place → ℕ
place_weight selecting = 2
place_weight sending = 5
place_weight waiting = 1
place_weight finished = 0

-- What is left to do: each step makes it less.
abbrev weight : Pool → ℕ
weight p = place_weight p.place + 6 * p.todo + 2 * p.starting + p.idle + 3 * p.busy

Step-weight-lt : (m : ℤ) (p q : Pool) → Step m p q → weight q < weight p
Step-weight-lt m p _ (Step.hand_over n i a b d) = ground arith
Step-weight-lt m p _ (Step.start_worker n a b d e) = ground arith
Step-weight-lt m p _ (Step.start_none n a b d e) = ground arith
Step-weight-lt m p _ (Step.sent i a b) = ground arith
Step-weight-lt m p _ (Step.close_channel a b) = ground arith
Step-weight-lt m p _ (Step.worker_ready n a) = ground arith
Step-weight-lt m p _ (Step.worker_done n a) = ground arith
Step-weight-lt m p _ (Step.worker_ends i a b) = ground arith
Step-weight-lt m p _ (Step.all_done a b d e) = ground arith

steps-weight : (m : ℤ) (p : Pool) (n : ℕ) (q : Pool) → Steps m p n q → n + weight q ≤ weight p
steps-weight m p n q here = omega arith
steps-weight m p n q (next {n = k} {q = r} s t) =
    omega (arith, steps-weight m p k r s, Step-weight-lt m r q t)

abbrev held : Place → ℕ
held sending = 1
held _ = 0

-- Every message is still to come, held for a send, with a worker, or published; and one that is held
-- has a worker that will take it.
record IsCounted (m : ℕ) (p : Pool) : Type 0 where
  pub total : p.todo + held p.place + p.busy + p.published ≡ m
  pub workers : p.place ≡ sending → 0 < p.starting + p.idle + p.busy
  pub none_left : (p.place ≡ waiting) ⊎ (p.place ≡ finished) → p.todo ≡ 0
  pub at_work : (p.place ≢ waiting) → p.place ≢ finished → p.running ≡ p.starting + p.idle + p.busy
  pub over : p.place ≡ finished → p.busy ≡ 0

Step-IsCounted :
    (k : ℤ) (m : ℕ) (p q : Pool) → may_start k 0 ≡ true → Step k p q → IsCounted m p → IsCounted m q
Step-IsCounted k m p _ ok (Step.hand_over n i a b d) v = ground arith
Step-IsCounted k m p _ ok (Step.start_worker n a b d e) v = ground arith
Step-IsCounted k m p _ ok (Step.start_none n a b d e) v = ground arith
Step-IsCounted k m p _ ok (Step.sent i a b) v = ground arith
Step-IsCounted k m p _ ok (Step.close_channel a b) v = ground arith
Step-IsCounted k m p _ ok (Step.worker_ready n a) v = ground arith
Step-IsCounted k m p _ ok (Step.worker_done n a) v = ground arith
Step-IsCounted k m p _ ok (Step.worker_ends i a b) v = ground arith
Step-IsCounted k m p _ ok (Step.all_done a b d e) v = ground arith

steps-IsCounted :
    (k : ℤ) (m n : ℕ) (p : Pool) → may_start k 0 ≡ true → Steps k (new_pool m) n p → IsCounted m p
steps-IsCounted k m n p free here = ground arith
steps-IsCounted k m n p free (next {q} r s) =
    Step-IsCounted k m q p free s (steps-IsCounted k m _ q free r)

finished_cases : (x : Place) → (x ≡ finished) ⊎ (x ≢ finished)
finished_cases x = ground arith

ℕ-cases : (n : ℕ) → (n ≡ 0) ⊎ ((k : ℕ) × (n ≡ suc k))
ℕ-cases zero = inl refl
ℕ-cases (suc k) = inr (k, refl)

place_cases : (x : Place) → (x ≡ selecting) ⊎ (x ≡ sending) ⊎ (x ≡ waiting) ⊎ (x ≡ finished)
place_cases x = ground arith

select : (k : ℤ) (p : Pool) → p.place ≡ selecting → (q : Pool) × Step k p q
select k p e = elim (ℕ-cases p.todo) [
  | inl et ↦ (_, Step.close_channel e et)
  | inr (t, et) ↦ elim (ℕ-cases p.idle) [
    | inr (i, ei) ↦ (_, Step.hand_over t i e et ei)
    | inl ei ↦ elim (Bool-cases (may_start k p.running)) [
      | inl free ↦ (_, Step.start_worker t e et ei free)
      | inr full ↦ (_, Step.start_none t e et ei full)
    ]
  ]
]

-- Some step can be taken until the loop is past the wait.
progress : (k : ℤ) (m : ℕ) (p : Pool) → IsCounted m p → p.place ≢ finished → (q : Pool) × Step k p q
progress k m p v n = elim (ℕ-cases p.starting) [
  | inr (s, es) ↦ (_, Step.worker_ready s es)
  | inl es ↦ elim (ℕ-cases p.busy) [
    | inr (b, eb) ↦ (_, Step.worker_done b eb)
    | inl eb ↦ elim (place_cases p.place) [
      | inl e ↦ select k p e
      | inr (inl e) ↦ elim (ℕ-cases p.idle) [
        | inl ei ↦ absurd (omega (arith, v.workers e))
        | inr (i, ei) ↦ (_, Step.sent i e ei)
      ]
      | inr (inr (inl e)) ↦ elim (ℕ-cases p.idle) [
        | inl ei ↦ (_, Step.all_done e es ei eb)
        | inr (i, ei) ↦ (_, Step.worker_ends i e ei)
      ]
      | inr (inr (inr e)) ↦ absurd (n e)
    ]
  ]
]

-- With no limit, or one that lets a worker start, a run on `m` messages has at most 6 m + 2 steps; and
-- it can go on until it has finished, when every message has been published.
pub pool_ends :
    (max_in_flight : ℤ) (m n : ℕ) (p : Pool)
    → may_start max_in_flight 0 ≡ true
    → Steps max_in_flight (new_pool m) n p
    → (n ≤ 6 * m + 2)
      × (((p.place ≡ finished) × (p.published ≡ m))
          ⊎ ((p.place ≢ finished) × ((q : Pool) × Step max_in_flight p q)))
pool_ends k m n p free r =
    let v = steps-IsCounted k m n p free r in
    (
      omega (arith, steps-weight k (new_pool m) n p r),
      elim (finished_cases p.place) [
        | inl e ↦ inl (e, ground arith)
        | inr e ↦ inr (e, progress k m p v e)
      ],
    )
