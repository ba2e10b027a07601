-- ===== src/Result.antt =====
-- The errors of the modelled functions, and Go's pair of a value and an error.
use nats_requeue.Prelude.{ℕ, ◌≡◌, ◌⊎◌, inl, inr, refl}

-- `external n` is an error of the database, of NATS or of the file system, which the code passes on.
pub data Error : Type 0 where
  empty_queue_name blank_queue_name different_queue_name unknown_property : Error
  txn_too_big retries_not_mutated ttl_not_mutated : Error
  external : ℕ → Error

pub data Result {ℓ} (A : Type ℓ) : Type ℓ where
  ok : A → Result A
  err : Error → Result A

infixl 5 ◌>>=◌
abbrev pub ◌>>=◌ {ℓ κ} : {A : Type ℓ} {B : Type κ} → Result A → (A → Result B) → Result B
ok a >>= f = f a
err e >>= f = err e

pub Result-cases {ℓ} :
    {A : Type ℓ} (x : Result A) → ((a : A) × (x ≡ ok a)) ⊎ ((e : Error) × (x ≡ err e))
Result-cases (ok a) = inl (a, refl)
Result-cases (err e) = inr (e, refl)
