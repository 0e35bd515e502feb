-- ===== src/Options/Settings.antt =====
-- crates/sqlx-turso-core/src/options.rs: the smaller types that the options are made of.
use sqlx_turso.Base.{
  ◌==◌, if◌then◌else◌, length, is_empty, Result, ok, err, ℕ, ◌%◌, Bool, true, false, not, ◌&&◌,
  ◌||◌, Option, none, some, [], ◌∷◌,
}
use sqlx_turso.Text.{Text, codes, text_eq, is_ascii_hexdigit}
use sqlx_turso.Error.{unknown_value, empty_cipher, empty_hexkey, bad_hexkey, Error, configuration}

pub data TursoDatabaseTarget : Type 0 where
  memory file : Text → TursoDatabaseTarget

pub data TursoOpenMode : Type 0 where
  read_write_mode create_if_missing_mode read_only_mode : TursoOpenMode

pub data TursoCacheMode : Type 0 where
  private shared : TursoCacheMode

unfoldable pub from_read_only : Bool → TursoOpenMode → TursoOpenMode
from_read_only true current = read_only_mode
from_read_only false read_only_mode = read_write_mode
from_read_only false current = current

unfoldable pub from_create_if_missing : Bool → TursoOpenMode → TursoOpenMode
from_create_if_missing true current = create_if_missing_mode
from_create_if_missing false create_if_missing_mode = read_write_mode
from_create_if_missing false current = current

abbrev pub is_read_only : TursoOpenMode → Bool
is_read_only read_only_mode = true
is_read_only _ = false

abbrev pub is_create : TursoOpenMode → Bool
is_create create_if_missing_mode = true
is_create _ = false

unfoldable pub url_mode : TursoDatabaseTarget → TursoOpenMode → Text
url_mode (memory _) m = codes "memory"
url_mode (file _) read_write_mode = codes "rw"
url_mode (file _) create_if_missing_mode = codes "rwc"
url_mode (file _) read_only_mode = codes "ro"

unfoldable pub from_shared : Bool → TursoCacheMode
from_shared true = shared
from_shared false = private

abbrev pub is_shared : TursoCacheMode → Bool
is_shared shared = true
is_shared private = false

unfoldable pub url_value : TursoCacheMode → Text
url_value private = codes "private"
url_value shared = codes "shared"

pub record TursoEncryptionOptions : Type 0 where
  pub cipher : Text
  pub hexkey : Text

unfoldable pub all_hexdigits : Text → Bool
all_hexdigits [] = true
all_hexdigits (c ∷ cs) = is_ascii_hexdigit c && all_hexdigits cs

-- `TursoEncryptionOptions::new`. `len` counts bytes: where every character is a hexadecimal digit
-- it counts the characters, and elsewhere both tests of the last guard refuse with the same error.
unfoldable pub new_encryption : Text → Text → Result TursoEncryptionOptions Error
unfolding all_hexdigits
new_encryption cipher hexkey =
    if is_empty cipher
    then err (configuration empty_cipher)
    else if is_empty hexkey
    then err (configuration empty_hexkey)
    else if not (length hexkey % 2 == 0) || not (all_hexdigits hexkey)
    then err (configuration bad_hexkey)
    else ok (record { cipher = cipher; hexkey = hexkey })

pub record TursoSyncOptions : Type 0 where
  pub remote_url : Text
  pub auth_token : Option Text
  pub client_name : Option Text
  pub long_poll_timeout : Option ℕ
  pub bootstrap_if_empty : Bool

-- `TursoSyncOptions::new`
abbrev pub new_sync : Text → TursoSyncOptions
new_sync url = record {
  remote_url = url;
  auth_token = none;
  client_name = none;
  long_poll_timeout = none;
  bootstrap_if_empty = true;
}

-- `TursoSyncOptions::default`
abbrev pub default_sync : TursoSyncOptions
default_sync = new_sync []

abbrev pub with_auth_token : Text → TursoSyncOptions → TursoSyncOptions
with_auth_token token s = record s { auth_token = some token }

abbrev pub with_client_name : Text → TursoSyncOptions → TursoSyncOptions
with_client_name name s = record s { client_name = some name }

abbrev pub with_long_poll_timeout : ℕ → TursoSyncOptions → TursoSyncOptions
with_long_poll_timeout timeout s = record s { long_poll_timeout = some timeout }

abbrev pub with_bootstrap_if_empty : Bool → TursoSyncOptions → TursoSyncOptions
with_bootstrap_if_empty b s = record s { bootstrap_if_empty = b }

-- `parse_bool`
unfoldable pub parse_bool : Text → Text → Result Bool Error
parse_bool name value =
    if text_eq value (codes "true") || text_eq value (codes "1")
    then ok true
    else if text_eq value (codes "false") || text_eq value (codes "0")
    then ok false
    else err (configuration (unknown_value value name))
