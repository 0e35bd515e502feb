-- ===== src/Column.antt =====
-- crates/sqlx-turso-core/src/column.rs, and `turso_columns` of executor.rs.
use sqlx_turso.Base.{ℕ, ◌+◌, Option, none, some, List, [], ◌∷◌}
use sqlx_turso.Text.{Text}
use sqlx_turso.Map.{insert}
use sqlx_turso.TypeInfo.{TursoTypeInfo, new, null_info}
pub mod Names

pub record TursoColumn : Type 0 where
  pub ordinal : ℕ
  pub name : Text
  pub type_info : TursoTypeInfo

-- What `turso::Column` shows: its name and its declared type.
pub record EngineColumn : Type 0 where
  pub name : Text
  pub decl_type : Option Text

abbrev declared : Option Text → TursoTypeInfo
declared none = null_info
declared (some name) = new name

-- `TursoColumn::from_turso`
unfoldable pub from_turso : ℕ → EngineColumn → TursoColumn
from_turso ordinal c = record { ordinal = ordinal; name = c.name; type_info = declared c.decl_type }

-- `turso_columns`: `enumerate` and `map`, from the ordinal `n` on.
unfoldable pub columns_from : ℕ → List EngineColumn → List TursoColumn
unfolding from_turso
columns_from n [] = []
columns_from n (c ∷ cs) = from_turso n c ∷ columns_from (n + 1) cs

abbrev pub turso_columns : List EngineColumn → List TursoColumn
turso_columns = columns_from 0

abbrev pub NameMap : Type 0
NameMap = List (Text × ℕ)

-- The loop of `collect_column_names`.
unfoldable pub collect_onto : NameMap → List TursoColumn → NameMap
collect_onto m [] = m
collect_onto m (c ∷ cs) = collect_onto (insert c.name c.ordinal m) cs

abbrev pub collect_column_names : List TursoColumn → NameMap
collect_column_names = collect_onto []
