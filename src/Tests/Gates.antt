-- ===== src/Tests/Gates.antt =====
-- A call of Add that is between its two operations when the gate is opened.
use nats_requeue.Prelude.{ℕ, true, [], ◌∷◌, ◌+◌, ◌≡◌, refl, length}
use nats_requeue.Prelude.Int.{pos, ◌+ℤ◌}
use nats_requeue.Stats.{add_int64}
use nats_requeue.Gate.{add, Counter, Step, value}
use nats_requeue.Gate.Late.{OpenRun, late_adds}

abbrev opened : Counter
opened = record { is_open = true; i = pos 0; adding = pos 5 ∷ [] }

abbrev adjusted : Counter
adjusted = record { is_open = true; i = pos 5; adding = [] }

late_run : OpenRun opened 1 adjusted
unfolding add add_int64 ◌+ℤ◌
late_run = OpenRun.next OpenRun.here (Step.adds [] (pos 5) [] refl) refl

late_adds_example :
    (1 + length adjusted.adding ≡ length opened.adding)
    × (◌≡◌ {A = ℕ} 1 0 → value adjusted ≡ value opened)
late_adds_example = late_adds opened adjusted 1 refl late_run
