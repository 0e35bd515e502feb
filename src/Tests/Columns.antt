-- ===== src/Tests/Columns.antt =====
-- The theorems on the types that the macros give a column.
use sqlx_turso.Base.{true}
use sqlx_turso.Text.{codes}
use sqlx_turso.TypeInfo.{new as type_named}
use sqlx_turso.TypePath.{inferred, inferred_numeric, PreferredCrates, Features, type_path_for_id}
use sqlx_turso.TypePath.Sound.{ReadableResult, type_path_for_id-Readable}

abbrev all_features : Features
all_features = record { chrono = true; time = true; uuid = true }

abbrev inferred_crates : PreferredCrates
inferred_crates = record { date_time = inferred; numeric = inferred_numeric }

type_path_for_id-Readable_example :
    ReadableResult
      (type_named (codes "VARCHAR"))
      (type_path_for_id all_features (type_named (codes "VARCHAR")) inferred_crates)
type_path_for_id-Readable_example =
    type_path_for_id-Readable all_features (type_named (codes "VARCHAR")) inferred_crates
