-- ===== src/Macros/Rewrite.antt =====
-- crates/sqlx-turso-macros/src/lib.rs: `rewrite_sqlx_paths`, on the token trees of `proc_macro2`
-- without their spans. A stream holds trees and a group holds a stream.
use sqlx_turso.Base.{◌==◌, if◌then◌else◌, ℕ, Bool, true, false, ◌&&◌, Option, none, some}
use sqlx_turso.Text.{Text, codes, text_eq}

pub data Spacing : Type 0 where
  alone joint : Spacing

pub data Delimiter : Type 0 where
  parenthesis brace bracket no_delimiter : Delimiter

infixr 40 ◌▹◌
mutual
  pub data TokenTree : Type 0 where
    group : Delimiter → TokenStream → TokenTree
    ident : Text → TokenTree
    punct : ℕ → Spacing → TokenTree
    literal : Text → TokenTree

  pub data TokenStream : Type 0 where
    no_tokens : TokenStream
    ◌▹◌ : TokenTree → TokenStream → TokenStream

infixr 40 ◌+++◌
-- `extend`
abbrev pub ◌+++◌ : TokenStream → TokenStream → TokenStream
no_tokens +++ r = r
(t ▹ s) +++ r = t ▹ (s +++ r)

-- `is_colon_punct`
abbrev pub is_colon : TokenTree → Bool
is_colon (punct c _) = c == b':'
is_colon _ = false

-- `quote!(::#name)`
abbrev pub path_to : Text → TokenStream
path_to name = punct b':' joint ▹ punct b':' alone ▹ ident name ▹ no_tokens

abbrev pub sqlx_word : Text
sqlx_word = codes "sqlx"

abbrev pub turso_word : Text
turso_word = codes "sqlx_turso"

-- `absolute_path_replacement` of an identifier
unfoldable pub absolute_path_replacement : Text → TokenStream → Option TokenStream
unfolding text_eq
absolute_path_replacement name facade =
    if text_eq name sqlx_word
    then some (facade +++ path_to sqlx_word)
    else if text_eq name turso_word
    then some facade
    else none

-- What is put in the place of two colons and an identifier behind them.
abbrev pub replaced : TokenTree → TokenTree → Text → Option TokenStream → TokenStream → TokenStream
replaced first second name none rest = first ▹ second ▹ ident name ▹ rest
replaced first second name (some path) rest = path +++ rest

-- Two colons, or one token of another kind, in front of what follows.
abbrev by_colons : Bool → TokenTree → TokenStream → TokenStream → TokenStream
by_colons true first paired single = paired
by_colons false first paired single = first ▹ single

unfoldable mutual
  unfolding absolute_path_replacement

  -- `rewrite_sqlx_paths`
  pub rewrite_sqlx_paths : TokenStream → TokenStream → TokenStream
  rewrite_sqlx_paths facade no_tokens = no_tokens
  rewrite_sqlx_paths facade (group d s ▹ rest) =
      group d (rewrite_sqlx_paths facade s) ▹ rewrite_sqlx_paths facade rest
  rewrite_sqlx_paths facade (ident name ▹ rest) = ident name ▹ rewrite_sqlx_paths facade rest
  rewrite_sqlx_paths facade (literal text ▹ rest) = literal text ▹ rewrite_sqlx_paths facade rest
  rewrite_sqlx_paths facade (punct c spacing ▹ rest) = after_punct facade c spacing rest

  -- What follows a punctuation character, which it may form a pair of colons with.
  pub after_punct : TokenStream → ℕ → Spacing → TokenStream → TokenStream
  after_punct facade c spacing no_tokens = punct c spacing ▹ no_tokens
  after_punct facade c spacing (punct e next ▹ rest) =
      by_colons (c == b':' && e == b':') (punct c spacing)
        (after_colons facade (punct c spacing) (punct e next) rest) (after_punct facade e next rest)
  after_punct facade c spacing (group d s ▹ rest) =
      punct c spacing ▹ group d (rewrite_sqlx_paths facade s) ▹ rewrite_sqlx_paths facade rest
  after_punct facade c spacing (ident name ▹ rest) =
      punct c spacing ▹ ident name ▹ rewrite_sqlx_paths facade rest
  after_punct facade c spacing (literal text ▹ rest) =
      punct c spacing ▹ literal text ▹ rewrite_sqlx_paths facade rest

  -- What follows two colons.
  pub after_colons : TokenStream → TokenTree → TokenTree → TokenStream → TokenStream
  after_colons facade first second no_tokens = first ▹ second ▹ no_tokens
  after_colons facade first second (ident name ▹ rest) =
      replaced first second name (absolute_path_replacement name facade)
        (rewrite_sqlx_paths facade rest)
  after_colons facade first second (group d s ▹ rest) =
      first ▹ second ▹ group d (rewrite_sqlx_paths facade s) ▹ rewrite_sqlx_paths facade rest
  after_colons facade first second (literal text ▹ rest) =
      first ▹ second ▹ literal text ▹ rewrite_sqlx_paths facade rest
  after_colons facade first second (punct c spacing ▹ rest) =
      first ▹ second ▹ after_punct facade c spacing rest
