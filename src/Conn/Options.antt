-- ===== src/Conn/Options.antt =====
-- requeue.go: the options, Connect's loop over them, and what Connect hands on to New and NewReaper. A
-- context or a callback is known by a number, and a nil one is `none`.
pub mod Handed
use nats_requeue.Prelude.{ℕ, Bool, true, List, [], ◌∷◌, ◌++◌, Option, none, some}
use nats_requeue.Bytes.{Bytes}
use nats_requeue.Result.{Result, ok}
use nats_requeue.Options.{Setter, apply_options}
use nats_requeue.Republisher.Options.{RepublisherOptions}
use nats_requeue.Reaper.Options.{ReaperOptions}

-- An option of the NATS library: nats.Name, nats.RetryOnFailedConnect, or another.
pub data NatsOption : Type 0 where
  client_name : Bytes → NatsOption
  retry_on_failed_connect : Bool → NatsOption
  other : ℕ → NatsOption

pub record ConnOptions : Type 0 where
  pub ctx : ℕ
  pub nats_servers : Bytes
  pub nats_subject : Bytes
  pub nats_queue_name : Bytes
  pub nats_options : List NatsOption
  pub nats_conn_err_cb : Option ℕ
  pub data_dir : Bytes
  pub badger_write_msg_err : Option ℕ
  pub republisher_opts : List (Option (Setter RepublisherOptions))
  pub reaper_opts : List (Option (Setter ReaperOptions))

-- "requeue-nats"
abbrev pub default_nats_client_name : Bytes
default_nats_client_name =
    b'r' ∷ b'e' ∷ b'q' ∷ b'u' ∷ b'e' ∷ b'u' ∷ b'e' ∷ b'-' ∷ b'n' ∷ b'a' ∷ b't' ∷ b's' ∷ []

-- "requeue.>"
abbrev pub default_nats_subject : Bytes
default_nats_subject = b'r' ∷ b'e' ∷ b'q' ∷ b'u' ∷ b'e' ∷ b'u' ∷ b'e' ∷ b'.' ∷ b'>' ∷ []

-- "requeue-workers"
abbrev pub default_nats_queue_name : Bytes
default_nats_queue_name =
    b'r' ∷ b'e' ∷ b'q' ∷ b'u' ∷ b'e' ∷ b'u' ∷ b'e' ∷ b'-' ∷ b'w' ∷ b'o' ∷ b'r' ∷ b'k' ∷ b'e' ∷ b'r'
    ∷ b's' ∷ []

-- Arguments: context.Background() and nats.DefaultURL.
unfoldable pub default_conn_options : ℕ → Bytes → ConnOptions
default_conn_options background default_url = record {
  ctx = background;
  nats_servers = default_url;
  nats_subject = default_nats_subject;
  nats_queue_name = default_nats_queue_name;
  nats_options = client_name default_nats_client_name ∷ retry_on_failed_connect true ∷ [];
  nats_conn_err_cb = none;
  data_dir = [];
  badger_write_msg_err = none;
  republisher_opts = [];
  reaper_opts = [];
}

unfoldable pub connect_context : ℕ → Setter ConnOptions
connect_context ctx o = ok (record o { ctx = ctx })

unfoldable pub nats_servers : Bytes → Setter ConnOptions
nats_servers servers o = ok (record o { nats_servers = servers })

unfoldable pub nats_subject : Bytes → Setter ConnOptions
nats_subject subject o = ok (record o { nats_subject = subject })

unfoldable pub nats_queue_name : Bytes → Setter ConnOptions
nats_queue_name name o = ok (record o { nats_queue_name = name })

unfoldable pub nats_options : List NatsOption → Setter ConnOptions
nats_options options o = ok (record o { nats_options = o.nats_options ++ options })

unfoldable pub nats_connection_error : Option ℕ → Setter ConnOptions
nats_connection_error cb o = ok (record o { nats_conn_err_cb = cb })

unfoldable pub data_dir : Bytes → Setter ConnOptions
data_dir path o = ok (record o { data_dir = path })

unfoldable pub badger_write_msg_err : Option ℕ → Setter ConnOptions
badger_write_msg_err cb o = ok (record o { badger_write_msg_err = cb })

unfoldable pub republisher_options : List (Option (Setter RepublisherOptions)) → Setter ConnOptions
republisher_options options o = ok (record o { republisher_opts = o.republisher_opts ++ options })

unfoldable pub reaper_options : List (Option (Setter ReaperOptions)) → Setter ConnOptions
reaper_options options o = ok (record o { reaper_opts = o.reaper_opts ++ options })

-- Connect, up to the connection with the options it has made.
unfoldable pub connect_options : ℕ → Bytes → List (Option (Setter ConnOptions)) → Result ConnOptions
connect_options background default_url options =
    apply_options (default_conn_options background default_url) options
