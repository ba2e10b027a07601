-- ===== src/Background/Ending.antt =====
-- Close can return.
use mathlib.Core.List.{append_assoc}
use nats_requeue.Prelude.{
  Bool, true, List, [], ◌∷◌, ◌++◌, ◌≡◌, inl, inr, All, subst, refl, Bool-cases,
}
use nats_requeue.Ticker
use nats_requeue.Ticker.{Place, Ticker, stop, checking, selecting, running, returned}
use nats_requeue.Background.{KeepsOn, Tasks, waiting, done, Step, Reach}

abbrev HasReturned : Ticker → Type 0
HasReturned t = t.place ≡ returned

-- A run of one loop.
data Runs (t : Ticker) : Ticker → Type 0 where
  none : Runs t t
  one : {u v : Ticker} → Runs t u → (s : Ticker.Step u v) → KeepsOn s → Runs t v

-- A loop whose ticker is stopped can end.
end_loop :
    (p : Place) (t : Ticker) → t.place ≡ p → t.quit ≡ true → (u : Ticker) × Runs t u × HasReturned u
end_loop checking t e q = (_, Runs.one Runs.none (Ticker.Step.check_quit e q) tt, refl)
end_loop selecting t e q = (_, Runs.one Runs.none (Ticker.Step.select_quit e q) tt, refl)
end_loop running t e q = (
  _,
  Runs.one (Runs.one Runs.none (Ticker.Step.returned_true e) tt) (Ticker.Step.check_quit refl q) tt,
  refl,
)
end_loop returned t e q = (t, Runs.none, e)

module _ (waits : Bool) where
  abbrev With : Tasks → List Ticker → Tasks
  With b ts = record b { loops = ts }

  reach_trans : {b c d : Tasks} → Reach waits b c → Reach waits c d → Reach waits b d
  reach_trans r Reach.here = r
  reach_trans r (Reach.next s x) = Reach.next (reach_trans r s) x

  run_loop :
      (b : Tasks) (before after : List Ticker) (t u : Ticker)
      → Runs t u
      → Reach waits (With b (before ++ t ∷ after)) (With b (before ++ u ∷ after))
  run_loop b before after t _ Runs.none = Reach.here
  run_loop b before after t v (Runs.one {u} r s o) =
      Reach.next (run_loop b before after t u r) (Step.loop before u v after refl s o)

  stop_loop :
      (b : Tasks) (before after : List Ticker) (t : Ticker)
      → b.closing ≡ waiting
      → (u : Ticker) × Reach waits (With b (before ++ t ∷ after)) (With b (before ++ u ∷ after))
        × HasReturned u
  stop_loop b before after t w = elim (Bool-cases t.quit) [
    | inl q ↦
        let (u, runs, e) = end_loop t.place t refl q in (u, run_loop b before after t u runs, e)
    | inr q ↦
        let (u, runs, e) = end_loop t.place (stop t) refl refl in
        let stops = Step.stop_ticker before t after refl (rw w refl) q in
        (u, reach_trans (Reach.next Reach.here stops) (run_loop b before after (stop t) u runs), e)
  ]

  -- One loop after another ends.
  stop_loops :
      (b : Tasks) (before after : List Ticker)
      → b.closing ≡ waiting
      → (ts : List Ticker) × Reach waits (With b (before ++ after)) (With b (before ++ ts))
        × All HasReturned ts
  stop_loops b before [] w = ([], Reach.here, tt)
  stop_loops b before (t ∷ after) w =
      let (u, first, e) = stop_loop b before after t w in
      let (ts, rest, all) = stop_loops b (before ++ u ∷ []) after w in
      let joined = λ (xs : List Ticker). append_assoc before (u ∷ []) xs in
      let moved =
        subst (λ xs. Reach waits (With b xs) (With b (before ++ u ∷ ts))) (joined after)
          (subst (λ xs. Reach waits (With b ((before ++ u ∷ []) ++ after)) (With b xs)) (joined ts)
            rest) in
      (u ∷ ts, reach_trans first moved, (e, all))

  -- Wherever the loops are when Close waits for them, it can go on to its return, if the functions that
  -- they run return: each loop then finds `quit` closed.
  pub close_can_return :
      (b : Tasks) → b.closing ≡ waiting → (d : Tasks) × Reach waits b d × (d.closing ≡ done)
  close_can_return b w =
      let (ts, r, all) = stop_loops b [] b.loops w in
      elim (Bool-cases waits) [
        | inl y ↦ (_, Reach.next r (Step.waited w all y), refl)
        | inr n ↦ (_, Reach.next r (Step.not_waited w n), refl)
      ]
