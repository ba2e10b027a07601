-- ===== src/Conn/Options/Handed.antt =====
-- The settings with which a connection, its republisher and its reaper start.
use mathlib.Core.List.{append-nil, append_assoc, map-append}
use nats_requeue.Prelude.{ℕ, List, [], ◌∷◌, ◌++◌, map, Option, some, ◌≡◌, refl}
use nats_requeue.Bytes.{Bytes}
use nats_requeue.Result.{ok}
use nats_requeue.Options.{Setter, apply_options, last, concat_map}
use nats_requeue.Republisher.Options as RepublisherCalls
use nats_requeue.Republisher.Options.{new_republisher, default_republisher_options}
use nats_requeue.Reaper.Options as ReaperCalls
use nats_requeue.Reaper.Options.{new_reaper, default_reaper_options}
use nats_requeue.Conn.Options.{
  NatsOption, ConnOptions, default_conn_options, connect_context, nats_servers, nats_subject,
  nats_queue_name, nats_options, nats_connection_error, data_dir, badger_write_msg_err,
  republisher_options, reaper_options, connect_options,
}

-- A call of one of the ten functions, those of the republisher and the reaper with calls of their own.
pub data Setting : Type 0 where
  context : ℕ → Setting
  servers subject queue_name directory : Bytes → Setting
  options : List NatsOption → Setting
  conn_error write_error : Option ℕ → Setting
  republisher : List RepublisherCalls.Choice → Setting
  reaper : List ReaperCalls.Choice → Setting

abbrev pub setter : Setting → Option (Setter ConnOptions)
setter (context c) = some (connect_context c)
setter (servers s) = some (nats_servers s)
setter (subject s) = some (nats_subject s)
setter (queue_name s) = some (nats_queue_name s)
setter (directory s) = some (data_dir s)
setter (options os) = some (nats_options os)
setter (conn_error cb) = some (nats_connection_error cb)
setter (write_error cb) = some (badger_write_msg_err cb)
setter (republisher cs) = some (republisher_options (map RepublisherCalls.setter cs))
setter (reaper cs) = some (reaper_options (map ReaperCalls.setter cs))

-- What the calls give to each function.
abbrev pub contexts : Setting → List (ℕ)
contexts (context x) = x ∷ []
contexts _ = []

abbrev pub all_servers : Setting → List (Bytes)
all_servers (servers x) = x ∷ []
all_servers _ = []

abbrev pub subjects : Setting → List (Bytes)
subjects (subject x) = x ∷ []
subjects _ = []

abbrev pub queue_names : Setting → List (Bytes)
queue_names (queue_name x) = x ∷ []
queue_names _ = []

abbrev pub conn_errors : Setting → List (Option ℕ)
conn_errors (conn_error x) = x ∷ []
conn_errors _ = []

abbrev pub directories : Setting → List (Bytes)
directories (directory x) = x ∷ []
directories _ = []

abbrev pub write_errors : Setting → List (Option ℕ)
write_errors (write_error x) = x ∷ []
write_errors _ = []

abbrev pub given_options : Setting → List NatsOption
given_options (options os) = os
given_options _ = []

abbrev pub republisher_calls : Setting → List RepublisherCalls.Choice
republisher_calls (republisher cs) = cs
republisher_calls _ = []

abbrev pub reaper_calls : Setting → List ReaperCalls.Choice
reaper_calls (reaper cs) = cs
reaper_calls _ = []

-- A single value is the last one given, or as it was, and a list has what is given appended.
abbrev pub chosen : ConnOptions → List Setting → ConnOptions
chosen o ss = record {
  ctx = last o.ctx (concat_map contexts ss);
  nats_servers = last o.nats_servers (concat_map all_servers ss);
  nats_subject = last o.nats_subject (concat_map subjects ss);
  nats_queue_name = last o.nats_queue_name (concat_map queue_names ss);
  nats_conn_err_cb = last o.nats_conn_err_cb (concat_map conn_errors ss);
  data_dir = last o.data_dir (concat_map directories ss);
  badger_write_msg_err = last o.badger_write_msg_err (concat_map write_errors ss);
  nats_options = o.nats_options ++ concat_map given_options ss;
  republisher_opts =
      o.republisher_opts ++ map RepublisherCalls.setter (concat_map republisher_calls ss);
  reaper_opts = o.reaper_opts ++ map ReaperCalls.setter (concat_map reaper_calls ss);
}

apply_options-chosen :
    (o : ConnOptions) (ss : List Setting) → apply_options o (map setter ss) ≡ ok (chosen o ss)
unfolding apply_options connect_context nats_servers nats_subject nats_queue_name nats_options
    nats_connection_error data_dir badger_write_msg_err republisher_options reaper_options
apply_options-chosen o [] =
    rw (append-nil o.nats_options, append-nil o.republisher_opts, append-nil o.reaper_opts) refl
apply_options-chosen o (context x ∷ ss) = apply_options-chosen _ ss
apply_options-chosen o (servers x ∷ ss) = apply_options-chosen _ ss
apply_options-chosen o (subject x ∷ ss) = apply_options-chosen _ ss
apply_options-chosen o (queue_name x ∷ ss) = apply_options-chosen _ ss
apply_options-chosen o (conn_error x ∷ ss) = apply_options-chosen _ ss
apply_options-chosen o (directory x ∷ ss) = apply_options-chosen _ ss
apply_options-chosen o (write_error x ∷ ss) = apply_options-chosen _ ss
apply_options-chosen o (options os ∷ ss) =
    rw
      (
        apply_options-chosen (record o { nats_options = o.nats_options ++ os }) ss,
        append_assoc o.nats_options os (concat_map given_options ss),
      )
      refl
apply_options-chosen o (republisher cs ∷ ss) =
    let calls = map RepublisherCalls.setter cs in
    rw
      (
        apply_options-chosen (record o { republisher_opts = o.republisher_opts ++ calls }) ss,
        append_assoc o.republisher_opts calls
            (map RepublisherCalls.setter (concat_map republisher_calls ss)),
        map-append RepublisherCalls.setter cs (concat_map republisher_calls ss),
      )
      refl
apply_options-chosen o (reaper cs ∷ ss) =
    let calls = map ReaperCalls.setter cs in
    rw
      (
        apply_options-chosen (record o { reaper_opts = o.reaper_opts ++ calls }) ss,
        append_assoc o.reaper_opts calls (map ReaperCalls.setter (concat_map reaper_calls ss)),
        map-append ReaperCalls.setter cs (concat_map reaper_calls ss),
      )
      refl

-- With any list of calls of the package's own options, Connect gets past the options; each single
-- setting is the last value given for it or its default, and the options for NATS come after the two
-- defaults in order. The republisher and the reaper then start with the last value given for each of
-- their settings in all of the calls together, and the reaper with all callbacks that are not nil.
pub connect_options-chosen :
    (background : ℕ) (default_url : Bytes) (ss : List Setting)
    → let o = default_conn_options background default_url in
      let p = chosen o ss in
      (connect_options background default_url (map setter ss) ≡ ok p)
      × (new_republisher p.republisher_opts
          ≡ ok (
              RepublisherCalls.chosen default_republisher_options
                (concat_map republisher_calls ss)))
      × (new_reaper p.reaper_opts
          ≡ ok (ReaperCalls.chosen default_reaper_options (concat_map reaper_calls ss)))
unfolding connect_options default_conn_options new_republisher new_reaper
connect_options-chosen background default_url ss = (
  apply_options-chosen _ ss,
  RepublisherCalls.apply_options-chosen _ (concat_map republisher_calls ss),
  ReaperCalls.apply_options-chosen _ (concat_map reaper_calls ss),
)
