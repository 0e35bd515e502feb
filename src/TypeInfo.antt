-- ===== src/TypeInfo.antt =====
-- crates/sqlx-turso-core/src/type_info.rs: a declared column type by its name.
use sqlx_turso.Base.{Bool, ◌||◌}
use sqlx_turso.Text.{Text, codes, text_eq, contains, to_ascii_lowercase, eq_ignore_ascii_case}

pub record TursoTypeInfo : Type 0 where
  pub name : Text

-- `TursoTypeInfo::new` and `TursoTypeInfo::from_name`
abbrev pub new : Text → TursoTypeInfo
new name = record { name = name }

abbrev pub null_info : TursoTypeInfo
null_info = record { name = codes "NULL" }

-- `==` of the derived `PartialEq`
unfoldable pub info_eq : TursoTypeInfo → TursoTypeInfo → Bool
info_eq a b = text_eq a.name b.name

unfoldable pub is_null : TursoTypeInfo → Bool
is_null t = text_eq t.name null_info.name

unfoldable pub has_integer_affinity : TursoTypeInfo → Bool
has_integer_affinity t =
    let name = to_ascii_lowercase t.name in
    text_eq name (codes "int4") || text_eq name (codes "int8") || contains (codes "int") name

unfoldable pub has_bool_affinity : TursoTypeInfo → Bool
has_bool_affinity t =
    let name = to_ascii_lowercase t.name in
    text_eq name (codes "boolean") || text_eq name (codes "bool")

unfoldable pub has_text_affinity : TursoTypeInfo → Bool
has_text_affinity t =
    let name = to_ascii_lowercase t.name in
    contains (codes "char") name || contains (codes "clob") name || contains (codes "text") name

unfoldable pub has_blob_affinity : TursoTypeInfo → Bool
has_blob_affinity t = eq_ignore_ascii_case t.name (codes "blob")

unfoldable pub has_real_affinity : TursoTypeInfo → Bool
has_real_affinity t =
    let name = to_ascii_lowercase t.name in
    contains (codes "real") name || contains (codes "floa") name || contains (codes "doub") name

unfoldable pub has_date_affinity : TursoTypeInfo → Bool
has_date_affinity t = eq_ignore_ascii_case t.name (codes "date")

unfoldable pub has_time_affinity : TursoTypeInfo → Bool
has_time_affinity t = eq_ignore_ascii_case t.name (codes "time")

unfoldable pub has_datetime_affinity : TursoTypeInfo → Bool
has_datetime_affinity t =
    let name = to_ascii_lowercase t.name in
    text_eq name (codes "datetime") || text_eq name (codes "timestamp")
