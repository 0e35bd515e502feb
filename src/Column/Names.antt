-- ===== src/Column/Names.antt =====
-- Which column a name stands for.
use sqlx_turso.Base.{if◌then◌else◌, ℕ, ◌≡◌, refl, ◌∙◌, Option, none, some, List, [], ◌∷◌, ap}
use sqlx_turso.Text.{Text, text_eq}
use sqlx_turso.Map.{lookup, insert, lookup-insert}
use sqlx_turso.Column.{TursoColumn, NameMap, collect_onto, collect_column_names}

-- The ordinal of the last column of that name, else `found`.
abbrev pub last_named : Text → Option ℕ → List TursoColumn → Option ℕ
last_named k found [] = found
last_named k found (c ∷ cs) = last_named k (if text_eq c.name k then some c.ordinal else found) cs

lookup-collect_onto :
    (k : Text) (cs : List TursoColumn) (m : NameMap)
    → lookup k (collect_onto m cs) ≡ last_named k (lookup k m) cs
unfolding collect_onto
lookup-collect_onto k [] m = refl
lookup-collect_onto k (c ∷ cs) m =
    lookup-collect_onto k cs (insert c.name c.ordinal m)
    ∙ ap (λ o. last_named k o cs) (lookup-insert c.name k c.ordinal m)

-- The name map of a list of columns gives, for every name, the ordinal of the last column that
-- has the name, and nothing where no column has it.
pub lookup-collect_column_names :
    (k : Text) (cs : List TursoColumn) → lookup k (collect_column_names cs) ≡ last_named k none cs
unfolding lookup
lookup-collect_column_names k cs = lookup-collect_onto k cs []
