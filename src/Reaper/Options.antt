-- ===== src/Reaper/Options.antt =====
-- internal/reaper/reaper.go: the options, and the part of NewReaper that applies them. A callback is
-- known by a number, and a nil one is `none`.
use mathlib.Core.List.{append-nil, append_assoc}
use nats_requeue.Prelude.{ℕ, List, [], ◌∷◌, ◌++◌, map, Option, none, some, ◌≡◌, refl}
use nats_requeue.Prelude.Int.{ℤ, pos}
use nats_requeue.Result.{Result, ok}
use nats_requeue.Prelude.{sym}
use nats_requeue.Prelude.{◌*◌}
use nats_requeue.Prelude.{◌∙◌}
use nats_requeue.Options.{Setter, apply_options, second, last, concat_map, keep_some}

pub record ReaperOptions : Type 0 where
  pub reap_interval : ℤ
  pub reaped_callbacks : List ℕ

unfoldable pub default_reaper_options : ReaperOptions
default_reaper_options = record { reap_interval = pos (60 * second); reaped_callbacks = [] }

unfoldable pub reap_interval : ℤ → Setter ReaperOptions
reap_interval interval o = ok (record o { reap_interval = interval })

-- The loop of ReapedCallbacks.
unfoldable pub append_callbacks : List ℕ → List (Option ℕ) → List ℕ
append_callbacks cbs [] = cbs
append_callbacks cbs (none ∷ more) = append_callbacks cbs more
append_callbacks cbs (some cb ∷ more) = append_callbacks (cbs ++ cb ∷ []) more

unfoldable pub reaped_callbacks : List (Option ℕ) → Setter ReaperOptions
unfolding append_callbacks
reaped_callbacks callbacks o =
    ok (record o { reaped_callbacks = append_callbacks o.reaped_callbacks callbacks })

unfoldable pub new_reaper : List (Option (Setter ReaperOptions)) → Result ReaperOptions
new_reaper options = apply_options default_reaper_options options

-- A call of one of the two functions.
pub data Choice : Type 0 where
  interval : ℤ → Choice
  callbacks : List (Option ℕ) → Choice

abbrev pub setter : Choice → Option (Setter ReaperOptions)
setter (interval d) = some (reap_interval d)
setter (callbacks cbs) = some (reaped_callbacks cbs)

abbrev pub intervals : Choice → List ℤ
intervals (interval d) = d ∷ []
intervals _ = []

abbrev pub given : Choice → List ℕ
given (callbacks cbs) = keep_some cbs
given _ = []

abbrev pub chosen : ReaperOptions → List Choice → ReaperOptions
chosen o cs = record {
  reap_interval = last o.reap_interval (concat_map intervals cs);
  reaped_callbacks = o.reaped_callbacks ++ concat_map given cs;
}

append_callbacks-keep_some :
    (cbs : List ℕ) (more : List (Option ℕ)) → append_callbacks cbs more ≡ cbs ++ keep_some more
unfolding append_callbacks
append_callbacks-keep_some cbs [] = sym (append-nil cbs)
append_callbacks-keep_some cbs (none ∷ more) = append_callbacks-keep_some cbs more
append_callbacks-keep_some cbs (some cb ∷ more) =
    append_callbacks-keep_some (cbs ++ cb ∷ []) more ∙ append_assoc cbs (cb ∷ []) (keep_some more)

pub apply_options-chosen :
    (o : ReaperOptions) (cs : List Choice) → apply_options o (map setter cs) ≡ ok (chosen o cs)
unfolding apply_options reap_interval reaped_callbacks
apply_options-chosen o [] = rw (append-nil o.reaped_callbacks) refl
apply_options-chosen o (interval d ∷ cs) = apply_options-chosen _ cs
apply_options-chosen o (callbacks cbs ∷ cs) =
    rw
      (
        apply_options-chosen
            (record o { reaped_callbacks = append_callbacks o.reaped_callbacks cbs }) cs,
        append_callbacks-keep_some o.reaped_callbacks cbs,
        append_assoc o.reaped_callbacks (keep_some cbs) (concat_map given cs),
      )
      refl
