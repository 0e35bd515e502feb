-- ===== src/Tests/Opening.antt =====
-- The driver over builders that keep a list of the pragmas that they are sent.
use sqlx_turso.Base.{length, ok, ℕ, ◌≡◌, refl, true, false, none, some, List, [], ◌∷◌, ◌++◌}
use sqlx_turso.Text.{Text, codes, text_eq, to_ascii_lowercase, eq_ignore_ascii_case}
use sqlx_turso.Text.Decimal.{show_digits, show_nat}
use sqlx_turso.Options.{TursoConnectOptions, default, pragma, mvcc, set_pragma}
use sqlx_turso.Options.Settings.{file, create_if_missing_mode}
use sqlx_turso.Driver.{
  any_autovacuum, validate_pragmas, validate_open_support, validate_sync_support, update_pragmas,
  validate_file_target, memory_database, database, apply_connection_options, connect_sync, connect,
}
use sqlx_turso.Builder.{Builders, Opening}
use sqlx_turso.Driver.Updates.{PragmaLog, valued, NoAutovacuum}
use sqlx_turso.Driver.Sent.{sent, connect-sent}
use sqlx_turso.Driver.Given.{sent_as, connect-given_last}
use sqlx_turso.Options.Setters.{Setter, to_mvcc, to_pragma, call_all}
use sqlx_turso.Driver.Accepts.{Accepted, connect-Accepted}
use sqlx_turso.Driver.Opens.{Willing, Succeeds, connect-Succeeds}

abbrev shared_options : TursoConnectOptions ℕ ℕ
shared_options = default 0 0

-- The world is the list of the pragmas that have been set.
abbrev recorded : Builders ℕ
recorded = record {
  World = List (Text × Text);
  Database = ℕ;
  Connection = ℕ;
  display = λ _. [];
  exists = λ path w. false;
  build = λ request w. (ok (length request.path), w);
  build_sync = λ request w. (ok 0, w);
  connect = λ d w. (ok d, w);
  pragma_update = λ key value c w. (ok tt, w ++ (key, value) ∷ []);
}

abbrev record_log : PragmaLog recorded
record_log = record {
  log = λ w. w;
  update_law = λ key value c w h. refl;
  build_law = λ r w. refl;
  build_sync_law = λ r w. refl;
  connect_law = λ d w. refl;
}

abbrev unrecorded : Opening recorded
unrecorded = record { world = []; cell = none }

connect-sent_example :
    ((connect recorded shared_options unrecorded).1.world ≡ sent recorded record_log shared_options)
    × NoAutovacuum (valued shared_options.pragmas)
unfolding default connect validate_pragmas any_autovacuum eq_ignore_ascii_case to_ascii_lowercase
    text_eq database validate_open_support memory_database apply_connection_options update_pragmas
    show_nat show_digits
connect-sent_example =
    connect-sent recorded record_log shared_options 8 unrecorded
      (connect recorded shared_options unrecorded).1 refl

recorded-Willing : Willing recorded
recorded-Willing = record {
  built = λ r w. (length r.path, refl);
  built_sync = λ r w. (0, refl);
  connected = λ d w. (d, refl);
  updated = λ key value c w. refl;
}

-- A file that may be created, with a sync connection.
abbrev file_options : TursoConnectOptions ℕ ℕ
file_options = record (default 0 0) {
  target = file (codes "a.db");
  open_mode = create_if_missing_mode;
  sync = some (record {
    remote_url = codes "r";
    auth_token = none;
    client_name = none;
    long_poll_timeout = none;
    bootstrap_if_empty = true;
  });
}

file_options-Accepted : Accepted recorded file_options unrecorded
unfolding default eq_ignore_ascii_case to_ascii_lowercase text_eq
file_options-Accepted = ((refl, tt), refl, refl, refl, refl)

connect-Succeeds_example : Succeeds (connect recorded file_options) unrecorded
connect-Succeeds_example =
    connect-Succeeds recorded recorded-Willing file_options unrecorded file_options-Accepted

connect-Accepted_example : Accepted recorded file_options unrecorded
unfolding default connect connect_sync validate_pragmas any_autovacuum eq_ignore_ascii_case
    to_ascii_lowercase text_eq validate_sync_support validate_file_target apply_connection_options
    update_pragmas show_nat show_digits
connect-Accepted_example =
    connect-Accepted recorded file_options 0 unrecorded (connect recorded file_options unrecorded).1
      refl

-- `journal_mode` is set twice.
abbrev setters : List (Setter ℕ ℕ)
setters = to_mvcc true ∷ to_pragma (codes "journal_mode") (some (codes "wal")) ∷ []

abbrev journal_options : TursoConnectOptions ℕ ℕ
journal_options = call_all setters (default 0 0)

connect-given_last_example :
    (added : List (Text × Text)) × ((connect recorded journal_options unrecorded).1.world ≡ added)
    × (sent_as (codes "journal_mode") added ≡ codes "wal" ∷ [])
unfolding default pragma mvcc set_pragma connect validate_pragmas any_autovacuum
    eq_ignore_ascii_case to_ascii_lowercase text_eq database validate_open_support memory_database
    apply_connection_options update_pragmas show_nat show_digits
connect-given_last_example =
    connect-given_last recorded record_log setters 0 0 (codes "journal_mode") 8 unrecorded
      (connect recorded journal_options unrecorded).1 refl refl
