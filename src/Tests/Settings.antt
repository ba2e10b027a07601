-- ===== src/Tests/Settings.antt =====
-- A connection that is given options for its republisher twice.
use nats_requeue.Prelude.{List, [], ◌∷◌, map, none, some, ◌≡◌, refl}
use nats_requeue.Prelude.Int.{pos}
use nats_requeue.Result.{ok}
use nats_requeue.Options.{concat_map}
use nats_requeue.Republisher.Options as RepublisherCalls
use nats_requeue.Republisher.Options.{new_republisher, default_republisher_options}
use nats_requeue.Reaper.Options as ReaperCalls
use nats_requeue.Reaper.Options.{new_reaper, default_reaper_options}
use nats_requeue.Conn.Options.{connect_options, default_conn_options}
use nats_requeue.Conn.Options.Handed.{
  Setting, setter, chosen, republisher_calls, reaper_calls, directory, republisher, reaper,
  connect_options-chosen,
}

abbrev settings : List Setting
settings =
    republisher (RepublisherCalls.limit (pos 4) ∷ [])
    ∷ directory (b'd' ∷ [])
    ∷ reaper (ReaperCalls.callbacks (none ∷ some 2 ∷ []) ∷ [])
    ∷ republisher (RepublisherCalls.interval (pos 9) ∷ RepublisherCalls.limit (pos 2) ∷ [])
    ∷ []

-- The later limit counts, and the nil callback does not.
limit_chosen :
    (RepublisherCalls.chosen default_republisher_options
      (concat_map republisher_calls settings)).max_in_flight
    ≡ pos 2
limit_chosen = refl

callback_chosen :
    (ReaperCalls.chosen default_reaper_options (concat_map reaper_calls settings)).reaped_callbacks
    ≡ 2 ∷ []
unfolding default_reaper_options
callback_chosen = refl

connect_options-chosen_example :
    let p = chosen (default_conn_options 0 (b'n' ∷ [])) settings in
    (connect_options 0 (b'n' ∷ []) (map setter settings) ≡ ok p)
    × (new_republisher p.republisher_opts
        ≡ ok (
            RepublisherCalls.chosen default_republisher_options
              (concat_map republisher_calls settings)))
    × (new_reaper p.reaper_opts
        ≡ ok (ReaperCalls.chosen default_reaper_options (concat_map reaper_calls settings)))
connect_options-chosen_example = connect_options-chosen 0 (b'n' ∷ []) settings
