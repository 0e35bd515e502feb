-- ===== src/Value/Types.antt =====
-- crates/sqlx-turso-core/src/value.rs: the `Type` implementations, by the Rust type. The two types of
-- integers and of floats that share an implementation are one here.
use sqlx_turso.Base.{◌≡◌, refl, Bool, true, ◌||◌}
use sqlx_turso.Text.{
  codes, text_eq, to_ascii_lowercase, eq_ignore_ascii_case, contains, strip_prefix,
}
use sqlx_turso.TypeInfo.{
  TursoTypeInfo, new, has_integer_affinity, has_bool_affinity, has_text_affinity, has_blob_affinity,
  has_real_affinity, has_date_affinity, has_time_affinity, has_datetime_affinity,
}

pub data RustType : Type 0 where
  integer_type bool_type float_type str_type bytes_type : RustType
  uuid_type uuid_hyphenated uuid_simple json_type : RustType
  chrono_datetime chrono_naive_datetime chrono_naive_date chrono_naive_time : RustType
  time_offset_datetime time_primitive_datetime time_date time_time : RustType

-- `type_info`
unfoldable pub type_info : RustType → TursoTypeInfo
type_info integer_type = new (codes "INTEGER")
type_info bool_type = new (codes "BOOLEAN")
type_info float_type = new (codes "REAL")
type_info str_type = new (codes "TEXT")
type_info bytes_type = new (codes "BLOB")
type_info uuid_type = new (codes "BLOB")
type_info uuid_hyphenated = new (codes "TEXT")
type_info uuid_simple = new (codes "TEXT")
type_info json_type = new (codes "TEXT")
type_info chrono_datetime = new (codes "DATETIME")
type_info chrono_naive_datetime = new (codes "DATETIME")
type_info chrono_naive_date = new (codes "DATE")
type_info chrono_naive_time = new (codes "TIME")
type_info time_offset_datetime = new (codes "DATETIME")
type_info time_primitive_datetime = new (codes "DATETIME")
type_info time_date = new (codes "DATE")
type_info time_time = new (codes "TIME")

abbrev str_compatible : TursoTypeInfo → Bool
str_compatible t = has_text_affinity t

abbrev bytes_compatible : TursoTypeInfo → Bool
bytes_compatible t = has_blob_affinity t || has_text_affinity t

abbrev naive_datetime_compatible : TursoTypeInfo → Bool
naive_datetime_compatible t =
    has_datetime_affinity t || has_text_affinity t || has_integer_affinity t || has_real_affinity t

abbrev primitive_datetime_compatible : TursoTypeInfo → Bool
primitive_datetime_compatible t =
    has_datetime_affinity t || has_text_affinity t || has_integer_affinity t

-- `compatible`
unfoldable pub compatible : RustType → TursoTypeInfo → Bool
compatible integer_type t = has_integer_affinity t
compatible bool_type t = has_bool_affinity t || has_integer_affinity t
compatible float_type t = has_real_affinity t
compatible str_type t = str_compatible t
compatible bytes_type t = bytes_compatible t
compatible uuid_type t = bytes_compatible t
compatible uuid_hyphenated t = str_compatible t
compatible uuid_simple t = str_compatible t
compatible json_type t = str_compatible t
compatible chrono_datetime t = naive_datetime_compatible t
compatible chrono_naive_datetime t = naive_datetime_compatible t
compatible chrono_naive_date t = has_date_affinity t || has_text_affinity t
compatible chrono_naive_time t = has_time_affinity t || has_text_affinity t
compatible time_offset_datetime t = primitive_datetime_compatible t
compatible time_primitive_datetime t = primitive_datetime_compatible t
compatible time_date t = has_date_affinity t || has_text_affinity t
compatible time_time t = has_time_affinity t || has_text_affinity t

-- Every Rust type is compatible with the column type that it is announced as.
pub compatible-type_info : (r : RustType) → compatible r (type_info r) ≡ true
unfolding type_info compatible has_integer_affinity has_bool_affinity has_real_affinity
    has_text_affinity has_blob_affinity has_datetime_affinity has_date_affinity has_time_affinity
    text_eq to_ascii_lowercase eq_ignore_ascii_case contains strip_prefix
compatible-type_info integer_type = refl
compatible-type_info bool_type = refl
compatible-type_info float_type = refl
compatible-type_info str_type = refl
compatible-type_info bytes_type = refl
compatible-type_info uuid_type = refl
compatible-type_info uuid_hyphenated = refl
compatible-type_info uuid_simple = refl
compatible-type_info json_type = refl
compatible-type_info chrono_datetime = refl
compatible-type_info chrono_naive_datetime = refl
compatible-type_info chrono_naive_date = refl
compatible-type_info chrono_naive_time = refl
compatible-type_info time_offset_datetime = refl
compatible-type_info time_primitive_datetime = refl
compatible-type_info time_date = refl
compatible-type_info time_time = refl
