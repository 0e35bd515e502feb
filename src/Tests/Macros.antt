-- ===== src/Tests/Macros.antt =====
-- The theorems on the rewriting of paths.
use sqlx_turso.Base.{◌≡◌, refl}
use sqlx_turso.Text.{codes, text_eq}
use sqlx_turso.Macros.Rewrite.{
  alone, joint, ident, punct, TokenStream, no_tokens, ◌▹◌, ◌+++◌, path_to, sqlx_word, turso_word,
  rewrite_sqlx_paths,
}
use sqlx_turso.Macros.Laws.{has_path, rewrite_sqlx_paths-same}
use sqlx_turso.Macros.Paths.{ends_in_colon, rewrite_sqlx_paths-path_to}

abbrev facade : TokenStream
facade = path_to (codes "db")

abbrev before : TokenStream
before = ident (codes "let") ▹ ident (codes "x") ▹ punct b'=' alone ▹ no_tokens

abbrev behind : TokenStream
behind = punct b':' joint ▹ punct b':' alone ▹ ident (codes "query") ▹ no_tokens

rewrite_sqlx_paths-path_to_example :
    (rewrite_sqlx_paths facade (before +++ (path_to sqlx_word +++ behind))
      ≡ rewrite_sqlx_paths facade before
        +++ ((facade +++ path_to sqlx_word) +++ rewrite_sqlx_paths facade behind))
    × (rewrite_sqlx_paths facade (before +++ (path_to turso_word +++ behind))
        ≡ rewrite_sqlx_paths facade before +++ (facade +++ rewrite_sqlx_paths facade behind))
unfolding ends_in_colon
rewrite_sqlx_paths-path_to_example = rewrite_sqlx_paths-path_to facade before behind refl

rewrite_sqlx_paths-same_example : rewrite_sqlx_paths facade (before +++ behind) ≡ before +++ behind
unfolding has_path text_eq
rewrite_sqlx_paths-same_example = rewrite_sqlx_paths-same facade (before +++ behind) refl
