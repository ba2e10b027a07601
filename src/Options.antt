-- ===== src/Options.antt =====
-- The options of the program's parts: functions that change a record of settings or fail, applied in
-- order by Connect and by the constructors New, NewReaper, NewStatsPublisher and NewQueueStats.
-- Durations are in nanoseconds.
use nats_requeue.Prelude.{ℕ, List, [], ◌∷◌, ◌++◌, Option, none, some}
use nats_requeue.Result.{Result, ok, err}

abbrev pub Setter {ℓ} : Type ℓ → Type ℓ
Setter O = O → Result O

-- The loop: a nil option is passed over, the first error ends it.
unfoldable pub apply_options {ℓ} : {O : Type ℓ} → O → List (Option (Setter O)) → Result O
apply_options o [] = ok o
apply_options o (none ∷ opts) = apply_options o opts
apply_options o (some opt ∷ opts) = elim (opt o) [ err e ↦ err e | ok o' ↦ apply_options o' opts ]

abbrev pub second : ℕ
second = 1_000_000_000

-- The last item of a list, or a default.
abbrev pub last {ℓ} : {A : Type ℓ} → A → List A → A
last d [] = d
last d (x ∷ xs) = last x xs

-- All items of the lists that a function makes of each item, in order.
abbrev pub concat_map {ℓ κ} : {A : Type ℓ} {B : Type κ} → (A → List B) → List A → List B
concat_map f [] = []
concat_map f (x ∷ xs) = f x ++ concat_map f xs

-- The options that are not nil.
abbrev pub keep_some {ℓ} : {A : Type ℓ} → List (Option A) → List A
keep_some [] = []
keep_some (none ∷ xs) = keep_some xs
keep_some (some x ∷ xs) = x ∷ keep_some xs
