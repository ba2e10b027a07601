-- ===== src/Gate.antt =====
-- internal/gate/counter.go: a counter that is adjusted only while its gate is closed. Add reads the
-- state and adds in two atomic operations, between which other goroutines may take steps.
pub mod Late
use nats_requeue.Prelude.{ℕ, zero, suc, Bool, true, false, List, [], ◌∷◌, ◌++◌, ◌≡◌}
use nats_requeue.Prelude.Int.{ℤ, pos}
use nats_requeue.Stats.{add_int64}

-- `adding`: the amounts of the calls of Add that have found the gate closed and have yet to add.
pub record Counter : Type 0 where
  pub is_open : Bool
  pub i : ℤ
  pub adding : List ℤ

-- The zero value: the gate is closed.
abbrev pub new_counter : Counter
new_counter = record { is_open = false; i = pos 0; adding = [] }

abbrev pub open_gate : Counter → Counter
open_gate c = record c { is_open = true }

abbrev pub close_gate : Counter → Counter
close_gate c = record c { is_open = false }

abbrev pub value : Counter → ℤ
value c = c.i

-- The second half of Add.
unfoldable pub add : ℤ → Counter → Counter
add n c = record c { i = add_int64 c.i n }

-- A step, and how many amounts it adds.
pub data Step (c : Counter) : ℕ → Counter → Type 0 where
  opens : Step c 0 (open_gate c)
  closes : Step c 0 (close_gate c)
  returns_early : c.is_open ≡ true → Step c 0 c
  finds_closed : (n : ℤ) → c.is_open ≡ false → Step c 0 (record c { adding = n ∷ c.adding })
  adds :
      (before : List ℤ) (n : ℤ) (after : List ℤ)
      → c.adding ≡ before ++ n ∷ after
      → Step c 1 (add n (record c { adding = before ++ after }))
