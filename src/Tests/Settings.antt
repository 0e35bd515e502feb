-- ===== src/Tests/Settings.antt =====
-- Options and the names of migration tables at concrete inputs.
use sqlx_turso.Base.{ok, ◌≡◌, refl, [], ◌∷◌, ◌++◌}
use sqlx_turso.Text.{Text, codes}
use sqlx_turso.Migrate.Identifier.{parse_prefix, display, parse_path, display_path}
use sqlx_turso.Migrate.Identifier.RoundTrip.{IsPath, parse_prefix-display, parse_path-reparse}

abbrev hostile : Text
hostile = codes "x\"; DROP TABLE users; --"

parse_prefix-display_example :
    parse_prefix (display hostile ++ codes " SET") (codes "x") ≡ ok (hostile, codes " SET")
parse_prefix-display_example = parse_prefix-display hostile (codes " SET") (codes "x") refl refl

main_t : parse_path (codes "main.t") ≡ ok (codes "main" ∷ codes "t" ∷ [])
unfolding parse_path
main_t = refl

parse_path-reparse_example :
    IsPath (codes "main" ∷ codes "t" ∷ [])
    × (parse_path (display_path (codes "main" ∷ codes "t" ∷ []))
        ≡ ok (codes "main" ∷ codes "t" ∷ []))
parse_path-reparse_example =
    parse_path-reparse (codes "main.t") (codes "main" ∷ codes "t" ∷ []) main_t
