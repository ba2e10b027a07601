-- ===== src/Republisher/Options.antt =====
-- internal/republisher/republisher.go: the options, and the part of New that applies them.
use nats_requeue.Prelude.{List, [], ◌∷◌, map, Option, some, ◌≡◌, refl}
use nats_requeue.Prelude.Int.{ℤ, pos, negsuc}
use nats_requeue.Result.{Result, ok}
use nats_requeue.Prelude.{◌*◌}
use nats_requeue.Options.{Setter, apply_options, second, last, concat_map}

pub record RepublisherOptions : Type 0 where
  pub pub_interval : ℤ
  pub ack_timeout : ℤ
  pub checkpoint_correction_interval : ℤ
  pub max_in_flight : ℤ

unfoldable pub default_republisher_options : RepublisherOptions
default_republisher_options = record {
  pub_interval = pos (15 * second);
  ack_timeout = pos (15 * second);
  checkpoint_correction_interval = pos (60 * second);
  max_in_flight = negsuc 0;
}

unfoldable pub republish_interval : ℤ → Setter RepublisherOptions
republish_interval interval o = ok (record o { pub_interval = interval })

unfoldable pub ack_timeout : ℤ → Setter RepublisherOptions
ack_timeout timeout o = ok (record o { ack_timeout = timeout })

unfoldable pub checkpoint_correction_interval : ℤ → Setter RepublisherOptions
checkpoint_correction_interval interval o =
    ok (record o { checkpoint_correction_interval = interval })

unfoldable pub max_in_flight : ℤ → Setter RepublisherOptions
max_in_flight concurrent o = ok (record o { max_in_flight = concurrent })

unfoldable pub new_republisher :
    List (Option (Setter RepublisherOptions)) → Result RepublisherOptions
new_republisher options = apply_options default_republisher_options options

-- A call of one of the four functions.
pub data Choice : Type 0 where
  interval timeout correction limit : ℤ → Choice

abbrev pub setter : Choice → Option (Setter RepublisherOptions)
setter (interval d) = some (republish_interval d)
setter (timeout d) = some (ack_timeout d)
setter (correction d) = some (checkpoint_correction_interval d)
setter (limit n) = some (max_in_flight n)

-- The values given to each function.
abbrev pub intervals : Choice → List ℤ
intervals (interval d) = d ∷ []
intervals _ = []

abbrev pub timeouts : Choice → List ℤ
timeouts (timeout d) = d ∷ []
timeouts _ = []

abbrev pub corrections : Choice → List ℤ
corrections (correction d) = d ∷ []
corrections _ = []

abbrev pub limits : Choice → List ℤ
limits (limit n) = n ∷ []
limits _ = []

-- Each setting is the last value given for it, or as it was.
abbrev pub chosen : RepublisherOptions → List Choice → RepublisherOptions
chosen o cs = record {
  pub_interval = last o.pub_interval (concat_map intervals cs);
  ack_timeout = last o.ack_timeout (concat_map timeouts cs);
  checkpoint_correction_interval =
      last o.checkpoint_correction_interval (concat_map corrections cs);
  max_in_flight = last o.max_in_flight (concat_map limits cs);
}

pub apply_options-chosen :
    (o : RepublisherOptions) (cs : List Choice) → apply_options o (map setter cs) ≡ ok (chosen o cs)
unfolding apply_options republish_interval ack_timeout checkpoint_correction_interval max_in_flight
apply_options-chosen o [] = refl
apply_options-chosen o (interval d ∷ cs) = apply_options-chosen _ cs
apply_options-chosen o (timeout d ∷ cs) = apply_options-chosen _ cs
apply_options-chosen o (correction d ∷ cs) = apply_options-chosen _ cs
apply_options-chosen o (limit n ∷ cs) = apply_options-chosen _ cs
