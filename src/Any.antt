-- ===== src/Any.antt =====
-- crates/sqlx-turso-core/src/any.rs: the kind that a declared type has for the Any driver.
pub mod Install
pub mod Backend
use sqlx_turso.Base.{if◌then◌else◌}
use sqlx_turso.TypeInfo.{
  TursoTypeInfo, is_null, has_integer_affinity, has_bool_affinity, has_blob_affinity,
  has_real_affinity,
}

-- `sqlx_core::any::AnyTypeInfoKind`, as far as it is used here.
pub data AnyTypeInfoKind : Type 0 where
  null_kind bool_kind big_int double_kind blob_kind text_kind : AnyTypeInfoKind

unfoldable pub any_type_info_kind : TursoTypeInfo → AnyTypeInfoKind
any_type_info_kind t =
    if is_null t
    then null_kind
    else if has_bool_affinity t
    then bool_kind
    else if has_integer_affinity t
    then big_int
    else if has_real_affinity t
    then double_kind
    else if has_blob_affinity t
    then blob_kind
    else text_kind
