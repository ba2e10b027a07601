-- ===== src/Queue/Preserves.antt =====
-- What a callback of Range keeps true of its state, whatever items it is shown and wherever it stops.
use nats_requeue.Prelude.{inl, inr, ℕ, zero, suc, List, [], ◌∷◌, some, ◌≡◌, All, length, arith}
use nats_requeue.Bytes.{Bytes}
use nats_requeue.Result.{ok, Result-cases}
use nats_requeue.Store.{Item}
use nats_requeue.Queue.{Callback, Ranged, range_loop}

-- `I n` holds of a state that `n` more items may still be shown to.
module _ {S : Type 0} (f : Callback S) (P : Item → Type 0) (I : ℕ → S → Type 0)
    (skip : (n : ℕ) (st : S) → I (suc n) st → I n st)
    (show : (n : ℕ) (st : S) (i : Item) (v : Bytes)
      → P i
      → i.value ≡ ok v
      → I (suc n) st
      → I n ((f st (record { k = i.key; v = v; expires_at = i.expires_at })).0)) where
  stop : (n : ℕ) (st : S) → I n st → I zero st
  stop zero st h = h
  stop (suc n) st h = stop n st (skip n st h)

  pub range_loop_preserves :
      (until : Bytes) (is : List Item) (st : S) (checkpoint : Bytes) (r : Ranged S)
      → All P is
      → I (length is) st
      → range_loop f until is st checkpoint ≡ some r
      → I zero r.state
  unfolding range_loop
  range_loop_preserves until [] st checkpoint r p h e = grind arith
  range_loop_preserves until (i ∷ is) st checkpoint r (p, ps) h e =
      let skipped = skip (length is) st h in
      let over = range_loop_preserves until is st checkpoint r ps skipped in
      let here = stop (suc (length is)) st h in
      elim (Result-cases i.value) [
        | inr (x, k) ↦ ground (arith, k, over, here, e)
        | inl (v, k) ↦
            let st₁ = (f st (record { k = i.key; v = v; expires_at = i.expires_at })).0 in
            let shown = show (length is) st i v p k h in
            let next = range_loop_preserves until is st₁ i.key r ps shown in
            let last = stop (length is) st₁ shown in ground (arith, k, over, here, next, last, e)
      ]
