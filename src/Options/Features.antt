-- ===== src/Options/Features.antt =====
-- crates/sqlx-turso-core/src/options.rs: the experimental features.
use sqlx_turso.Base.{if◌then◌else◌, Result, ok, err, Bool, false, ◌||◌, List, [], ◌∷◌}
use sqlx_turso.Text.{Text, codes, text_eq, join}
use sqlx_turso.Error.{unknown_feature, Error, configuration}

pub data TursoExperimentalFeature : Type 0 where
  attach custom_types generated_columns index_method : TursoExperimentalFeature
  materialized_views multiprocess_wal vacuum without_rowid : TursoExperimentalFeature

pub record TursoExperimentalFeatures : Type 0 where
  pub attach : Bool
  pub custom_types : Bool
  pub generated_columns : Bool
  pub index_method : Bool
  pub materialized_views : Bool
  pub multiprocess_wal : Bool
  pub vacuum : Bool
  pub without_rowid : Bool

-- `TursoExperimentalFeatures::default`
abbrev pub no_features : TursoExperimentalFeatures
no_features = record {
  attach = false;
  custom_types = false;
  generated_columns = false;
  index_method = false;
  materialized_views = false;
  multiprocess_wal = false;
  vacuum = false;
  without_rowid = false;
}

unfoldable pub is_enabled : TursoExperimentalFeatures → TursoExperimentalFeature → Bool
is_enabled s attach = s.attach
is_enabled s custom_types = s.custom_types
is_enabled s generated_columns = s.generated_columns
is_enabled s index_method = s.index_method
is_enabled s materialized_views = s.materialized_views
is_enabled s multiprocess_wal = s.multiprocess_wal
is_enabled s vacuum = s.vacuum
is_enabled s without_rowid = s.without_rowid

unfoldable pub set :
    TursoExperimentalFeature → Bool → TursoExperimentalFeatures → TursoExperimentalFeatures
set attach b s = record s { attach = b }
set custom_types b s = record s { custom_types = b }
set generated_columns b s = record s { generated_columns = b }
set index_method b s = record s { index_method = b }
set materialized_views b s = record s { materialized_views = b }
set multiprocess_wal b s = record s { multiprocess_wal = b }
set vacuum b s = record s { vacuum = b }
set without_rowid b s = record s { without_rowid = b }

-- The name of a feature in a query value.
abbrev pub query_name : TursoExperimentalFeature → Text
query_name attach = codes "attach"
query_name custom_types = codes "custom_types"
query_name generated_columns = codes "generated_columns"
query_name index_method = codes "index_method"
query_name materialized_views = codes "views"
query_name multiprocess_wal = codes "multiprocess_wal"
query_name vacuum = codes "vacuum"
query_name without_rowid = codes "without_rowid"

abbrev pub all_features : List TursoExperimentalFeature
all_features =
    attach ∷ custom_types ∷ generated_columns ∷ index_method ∷ materialized_views ∷ multiprocess_wal
    ∷ vacuum ∷ without_rowid ∷ []

-- `filter_map` of the enabled ones
unfoldable pub enabled_names : TursoExperimentalFeatures → List TursoExperimentalFeature → List Text
unfolding is_enabled
enabled_names s [] = []
enabled_names s (f ∷ fs) =
    let rest = enabled_names s fs in if is_enabled s f then query_name f ∷ rest else rest

unfoldable pub to_query_value : TursoExperimentalFeatures → Text
unfolding enabled_names join
to_query_value s = join (codes ",") (enabled_names s all_features)

unfoldable pub parse_experimental_feature : Text → Result TursoExperimentalFeature Error
parse_experimental_feature feature =
    if text_eq feature (codes "attach")
    then ok attach
    else if text_eq feature (codes "custom_types")
    then ok custom_types
    else if text_eq feature (codes "generated_columns")
    then ok generated_columns
    else if text_eq feature (codes "index_method")
    then ok index_method
    else if text_eq feature (codes "views") || text_eq feature (codes "materialized_views")
    then ok materialized_views
    else if text_eq feature (codes "multiprocess_wal")
    then ok multiprocess_wal
    else if text_eq feature (codes "vacuum")
    then ok vacuum
    else if text_eq feature (codes "without_rowid")
    then ok without_rowid
    else err (configuration (unknown_feature feature))
