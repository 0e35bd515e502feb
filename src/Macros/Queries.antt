-- ===== src/Macros/Queries.antt =====
-- crates/sqlx-turso-macros/src/lib.rs: the tokens of each macro's query, and `expand_query`. The
-- parsers of `syn` and the expansion of `sqlx_macros_core` are parameters.
use sqlx_turso.Base.{Result, ok, err, ℕ, List, [], ◌∷◌, ◌++◌}
use sqlx_turso.Text.{Text, codes}
use sqlx_turso.Macros.Rewrite.{
  alone, parenthesis, bracket, group, ident, punct, literal, TokenStream, no_tokens, ◌▹◌, ◌+++◌,
  path_to, turso_word, rewrite_sqlx_paths,
}

-- What `syn` has parsed, as tokens.
pub record QueryInput : Type 0 where
  pub source : TokenStream
  pub args : List TokenStream

pub record QueryAsInput : Type 0 where
  pub record_type : TokenStream
  pub query : QueryInput

abbrev pub word : Text → TokenStream
word s = ident s ▹ no_tokens

abbrev mark : ℕ → TokenStream
mark c = punct c alone ▹ no_tokens

-- `#(#args),*`
abbrev separated : List TokenStream → TokenStream
separated [] = no_tokens
separated (a ∷ []) = a
separated (a ∷ b ∷ rest) = a +++ (mark b',' +++ separated (b ∷ rest))

-- `#key = #source, args = [#(#args),*]`
abbrev keyed_tokens : Text → QueryInput → TokenStream
keyed_tokens key q =
    word key
    +++ (mark b'='
        +++ (q.source
            +++ (mark b','
                +++ (word (codes "args")
                    +++ (mark b'=' +++ (group bracket (separated q.args) ▹ no_tokens))))))

-- `, record = #record`
abbrev record_tokens : TokenStream → TokenStream
record_tokens type = mark b',' +++ (word (codes "record") +++ (mark b'=' +++ type))

-- `, scalar = _`
abbrev scalar_tokens : TokenStream
scalar_tokens = mark b',' +++ (word (codes "scalar") +++ (mark b'=' +++ word (codes "_")))

unfoldable query_tokens : QueryInput → TokenStream
query_tokens input = keyed_tokens (codes "source") input

unfoldable query_as_tokens : QueryAsInput → TokenStream
query_as_tokens input =
    keyed_tokens (codes "source") input.query +++ record_tokens input.record_type

unfoldable query_file_tokens : QueryInput → TokenStream
query_file_tokens input = keyed_tokens (codes "source_file") input

unfoldable query_file_as_tokens : QueryAsInput → TokenStream
query_file_as_tokens input =
    keyed_tokens (codes "source_file") input.query +++ record_tokens input.record_type

-- `proc_macro_crate::FoundCrate`
pub data FoundCrate : Type 0 where
  itself : FoundCrate
  name : Text → FoundCrate

-- The crates that a macro calls: `crate_name("sqlx-turso")`, `parse2`, `expand_input` with the
-- driver of Turso, `to_compile_error`, and the literal that `quote!` makes of a text.
pub record MacroCrates : Type 1 where
  pub Input : Type 0
  pub crate_name : Result FoundCrate Text
  pub parse2 : TokenStream → Result Input Text
  pub expand_input : Input → Result TokenStream Text
  pub to_compile_error : Text → TokenStream
  pub string_literal : Text → Text

unfoldable facade_crate_path : Result FoundCrate Text → Result TokenStream Text
facade_crate_path (ok itself) = ok (path_to turso_word)
facade_crate_path (ok (name n)) = ok (path_to n)
facade_crate_path (err e) =
    err (codes "sqlx-turso macros must be used through the `sqlx-turso` facade crate: " ++ e)

module _ (m : MacroCrates) where
  -- `compile_error!(#message)`
  abbrev compile_error : Text → TokenStream
  compile_error message =
      ident (codes "compile_error")
      ▹ punct b'!' alone
      ▹ group parenthesis (literal (m.string_literal message) ▹ no_tokens)
      ▹ no_tokens

  abbrev expanded : TokenStream → Result TokenStream Text → TokenStream
  expanded facade (ok tokens) = rewrite_sqlx_paths facade tokens
  expanded facade (err e) = compile_error e

  abbrev expand_parsed : TokenStream → Result m.Input Text → TokenStream
  expand_parsed facade (ok input) = expanded facade (m.expand_input input)
  expand_parsed facade (err e) = m.to_compile_error e

  abbrev expand_in : TokenStream → Result TokenStream Text → TokenStream
  expand_in input (ok facade) = expand_parsed facade (m.parse2 input)
  expand_in input (err e) = m.to_compile_error e

  unfoldable expand_query : TokenStream → TokenStream
  unfolding facade_crate_path rewrite_sqlx_paths
  expand_query input = expand_in input (facade_crate_path m.crate_name)

  -- The macros, on what is parsed.
  unfoldable pub query : QueryInput → TokenStream
  unfolding expand_query query_tokens
  query input = expand_query (query_tokens input)

  unfoldable query_as : QueryAsInput → TokenStream
  unfolding expand_query query_as_tokens
  query_as input = expand_query (query_as_tokens input)

  unfoldable query_scalar : QueryInput → TokenStream
  unfolding expand_query query_tokens
  query_scalar input = expand_query (query_tokens input +++ scalar_tokens)

  unfoldable query_file : QueryInput → TokenStream
  unfolding expand_query query_file_tokens
  query_file input = expand_query (query_file_tokens input)

  unfoldable query_file_as : QueryAsInput → TokenStream
  unfolding expand_query query_file_as_tokens
  query_file_as input = expand_query (query_file_as_tokens input)

  unfoldable query_file_scalar : QueryInput → TokenStream
  unfolding expand_query query_file_tokens
  query_file_scalar input = expand_query (query_file_tokens input +++ scalar_tokens)
