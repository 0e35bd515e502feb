-- ===== src/TypePath.antt =====
-- crates/sqlx-turso-core/src/macros.rs: which Rust type the checked macros give a column, and which
-- type prints a value for debugging. The features `chrono`, `time` and `uuid` are flags.
pub mod Sound
pub mod Uuid
use sqlx_turso.Base.{
  if◌then◌else◌, Result, ok, err, Bool, true, false, not, ◌&&◌, ◌||◌, Option, none, some,
}
use sqlx_turso.TypeInfo.{TursoTypeInfo, info_eq, has_date_affinity, has_datetime_affinity}
use sqlx_turso.Value.Types.{
  RustType, integer_type, bool_type, float_type, str_type, bytes_type, uuid_type,
  chrono_naive_datetime, chrono_naive_date, time_primitive_datetime, time_date, type_info,
  compatible,
}

-- `DateTimeCrate` and `NumericCrate` of `sqlx_core::config::macros`
pub data DateTimeCrate : Type 0 where
  inferred chrono_crate time_crate : DateTimeCrate

pub data NumericCrate : Type 0 where
  inferred_numeric big_decimal rust_decimal : NumericCrate

pub record PreferredCrates : Type 0 where
  pub date_time : DateTimeCrate
  pub numeric : NumericCrate

pub record Features : Type 0 where
  pub chrono : Bool
  pub time : Bool
  pub uuid : Bool

-- `sqlx_core::type_checking::Error`
pub data TypeCheckingError : Type 0 where
  no_mapping_found date_time_crate_feature_not_enabled numeric_crate_feature_not_enabled :
      TypeCheckingError

-- The paths, by the type that they name; both `i32` and `i64` are integers.
pub data TypePath : Type 0 where
  i32_path i64_path : TypePath
  path_of : RustType → TypePath

abbrev pub named_type : TypePath → RustType
named_type i32_path = integer_type
named_type i64_path = integer_type
named_type (path_of r) = r

-- `<T as Type<Turso>>::type_info() == *info`
abbrev pub is_announced : RustType → TursoTypeInfo → Bool
is_announced r t = info_eq (type_info r) t

unfoldable pub chrono_type_path : Features → TursoTypeInfo → Option TypePath
chrono_type_path fs t =
    if not fs.chrono
    then none
    else if is_announced chrono_naive_date t || has_date_affinity t
    then some (path_of chrono_naive_date)
    else if is_announced chrono_naive_datetime t || has_datetime_affinity t
    then some (path_of chrono_naive_datetime)
    else none

unfoldable pub time_type_path : Features → TursoTypeInfo → Option TypePath
time_type_path fs t =
    if not fs.time
    then none
    else if is_announced time_date t || has_date_affinity t
    then some (path_of time_date)
    else if is_announced time_primitive_datetime t || has_datetime_affinity t
    then some (path_of time_primitive_datetime)
    else none

-- `unwrap_or(Err(..))`
abbrev pub wanted : Option TypePath → Option (Result TypePath TypeCheckingError)
wanted none = some (err date_time_crate_feature_not_enabled)
wanted (some p) = some (ok p)

abbrev pub or_next : Option TypePath → Option TypePath → Option (Result TypePath TypeCheckingError)
or_next none none = none
or_next none (some p) = some (ok p)
or_next (some p) q = some (ok p)

unfoldable pub datetime_type_path :
    Features → TursoTypeInfo → DateTimeCrate → Option (Result TypePath TypeCheckingError)
unfolding chrono_type_path time_type_path
datetime_type_path fs t time_crate = wanted (time_type_path fs t)
datetime_type_path fs t chrono_crate = wanted (chrono_type_path fs t)
datetime_type_path fs t inferred = or_next (time_type_path fs t) (chrono_type_path fs t)

-- What `type_path_for_id` does where no date or time type is found.
unfoldable pub other_type_path : Features → TursoTypeInfo → Result TypePath TypeCheckingError
other_type_path fs t =
    if is_announced bool_type t
    then ok (path_of bool_type)
    else if is_announced integer_type t
    then ok i32_path
    else if is_announced integer_type t || compatible integer_type t
    then ok i64_path
    else if is_announced float_type t || compatible float_type t
    then ok (path_of float_type)
    else if is_announced str_type t || compatible str_type t
    then ok (path_of str_type)
    else if is_announced bytes_type t || compatible bytes_type t
    then ok (path_of bytes_type)
    else if fs.uuid && (is_announced uuid_type t || compatible uuid_type t)
    then ok (path_of uuid_type)
    else err no_mapping_found

abbrev pub is_decimal : NumericCrate → Bool
is_decimal big_decimal = true
is_decimal rust_decimal = true
is_decimal inferred_numeric = false

unfoldable pub type_path_for_id :
    Features → TursoTypeInfo → PreferredCrates → Result TypePath TypeCheckingError
unfolding datetime_type_path other_type_path
type_path_for_id fs t preferred =
    if is_decimal preferred.numeric
    then err numeric_crate_feature_not_enabled
    else elim (datetime_type_path fs t preferred.date_time) [
      | some path ↦ path
      | none ↦ other_type_path fs t
    ]

-- `fmt_value_debug`: the type that the value is printed as, if any.
unfoldable pub debug_type : Features → TursoTypeInfo → Option RustType
debug_type fs t =
    if fs.time && compatible time_primitive_datetime t
    then some time_primitive_datetime
    else if fs.time && compatible time_date t
    then some time_date
    else if fs.chrono && compatible chrono_naive_datetime t
    then some chrono_naive_datetime
    else if fs.chrono && compatible chrono_naive_date t
    then some chrono_naive_date
    else if compatible bool_type t
    then some bool_type
    else if compatible integer_type t
    then some integer_type
    else if compatible float_type t
    then some float_type
    else if compatible str_type t
    then some str_type
    else if compatible bytes_type t
    then some bytes_type
    else none
