-- ===== src/Executor/Inspect.antt =====
-- crates/sqlx-turso-core/src/executor.rs: `inspect_sql` and the scanners under it. A peekable
-- character iterator is the list of the characters that are left.
pub mod Fuel
pub mod Lexical
pub mod Sound
pub mod Judged
use sqlx_turso.Base.{
  ◌==◌, if◌then◌else◌, is_some, length, is_empty, ℕ, zero, suc, ◌^◌, ◌≡◌, refl, Bool, true, false,
  not, ◌&&◌, ◌||◌, Option, none, some, [], ◌∷◌,
}
use sqlx_turso.Text.{Text, codes, is_ascii_alphanumeric, is_whitespace, parse_unsigned}

pub record SqlInspection : Type 0 where
  pub may_contain_multiple_statements : Bool
  pub unsupported_named_placeholder : Option Text

unfoldable pub skip_single_quoted : Text → Text
skip_single_quoted [] = []
skip_single_quoted (c ∷ []) = []
skip_single_quoted (c ∷ d ∷ cs) =
    let doubled = skip_single_quoted cs in
    let inside = skip_single_quoted (d ∷ cs) in
    if c == b'\'' then if d == b'\'' then doubled else d ∷ cs else inside

unfoldable pub skip_quoted : ℕ → Text → Text
skip_quoted quote [] = []
skip_quoted quote (c ∷ cs) = let later = skip_quoted quote cs in if c == quote then cs else later

abbrev skip_line_comment : Text → Text
skip_line_comment = skip_quoted b'\n'

unfoldable pub skip_block_comment : ℕ → Text → Text
skip_block_comment previous [] = []
skip_block_comment previous (c ∷ cs) =
    let later = skip_block_comment c cs in if previous == b'*' && c == b'/' then cs else later

abbrev pub is_name_char : ℕ → Bool
is_name_char c = is_ascii_alphanumeric c || c == b'_'

-- `read_placeholder_name`: the name, and what is left behind it.
unfoldable pub read_placeholder_name : Text → Text × Text
read_placeholder_name [] = ([], [])
read_placeholder_name (c ∷ cs) =
    let more = read_placeholder_name cs in
    if is_name_char c then (c ∷ more.0, more.1) else ([], c ∷ cs)

-- `chars.next_if_eq(&c)` as a test, and what it leaves.
abbrev pub next_is : ℕ → Text → Bool
next_is c [] = false
next_is c (x ∷ xs) = x == c

abbrev pub rest_of : Text → Text
rest_of [] = []
rest_of (x ∷ xs) = xs

-- One round of `has_remaining_statement_text`: it returns true, or goes on with the rest.
pub data Look : Type 0 where
  found : Look
  look_on : Text → Look

unfoldable pub look : ℕ → Text → Look
look ch cs =
    if ch == b'-' && next_is b'-' cs
    then look_on (skip_line_comment (rest_of cs))
    else if ch == b'/' && next_is b'*' cs
    then look_on (skip_block_comment 0 (rest_of cs))
    else if not (is_whitespace ch) && not (ch == b';')
    then found
    else look_on cs

-- The fuel bounds the rounds; the length of the text is enough.
unfoldable pub remaining_loop : ℕ → Text → Bool
remaining_loop zero cs = false
remaining_loop (suc f) [] = false
remaining_loop (suc f) (ch ∷ cs) = elim (look ch cs) [
  | found ↦ true
  | look_on rest ↦ remaining_loop f rest
]

unfoldable pub has_remaining_statement_text : Text → Bool
unfolding remaining_loop
has_remaining_statement_text cs = remaining_loop (length cs) cs

-- The variables of the loop of `inspect_sql`.
pub record Scan : Type 0 where
  pub inspection : SqlInspection
  pub saw_statement : Bool

-- One round of the loop: it returns, or goes on with the rest.
pub data Move : Type 0 where
  stop : SqlInspection → Move
  go : Scan → Text → Move

abbrev usize_bound : ℕ
usize_bound = 2 ^ 64

abbrev pub seen : Scan → Scan
seen s = record s { saw_statement = true }

abbrev pub with_placeholder : Text → Scan → Scan
with_placeholder p s = record s {
  inspection = record (s.inspection) { unsupported_named_placeholder = some p };
}

-- What a placeholder is refused for: behind `$` a name that is no `usize`, else any name.
unfoldable pub is_unsupported : ℕ → Text → Bool
unfolding parse_unsigned
is_unsupported marker name =
    if marker == b'$' then not (is_some (parse_unsigned usize_bound name)) else not (is_empty name)

abbrev pub note_placeholder : ℕ → Text × Text → Scan → Move
note_placeholder marker (name, rest) s =
    go (if is_unsupported marker name then with_placeholder (marker ∷ name) (seen s) else seen s)
      rest

unfoldable pub advance : Scan → ℕ → Text → Move
advance s ch cs =
    if ch == b'\''
    then go (seen s) (skip_single_quoted cs)
    else if ch == b'"' || ch == b'`'
    then go (seen s) (skip_quoted ch cs)
    else if ch == b'['
    then go (seen s) (skip_quoted b']' cs)
    else if ch == b'-' && next_is b'-' cs
    then go s (skip_line_comment (rest_of cs))
    else if ch == b'/' && next_is b'*' cs
    then go s (skip_block_comment 0 (rest_of cs))
    else if ch == b';' && (s.saw_statement && has_remaining_statement_text cs)
    then stop (record (s.inspection) { may_contain_multiple_statements = true })
    else if ch == b'$' || (ch == b':' || ch == b'@')
    then note_placeholder ch (read_placeholder_name cs) s
    else if not (is_whitespace ch)
    then go (seen s) cs
    else go s cs

unfoldable pub inspect_loop : ℕ → Scan → Text → SqlInspection
inspect_loop zero s cs = s.inspection
inspect_loop (suc f) s [] = s.inspection
inspect_loop (suc f) s (ch ∷ cs) = elim (advance s ch cs) [
  | stop result ↦ result
  | go t rest ↦ inspect_loop f t rest
]

abbrev pub scan_start : Scan
scan_start = record {
  inspection = record {
    may_contain_multiple_statements = false;
    unsupported_named_placeholder = none;
  };
  saw_statement = false;
}

unfoldable pub inspect_sql : Text → SqlInspection
unfolding inspect_loop
inspect_sql sql = inspect_loop (length sql) scan_start sql

batch_test :
    (inspect_sql (codes "CREATE TABLE t (a); -- x\nINSERT")).may_contain_multiple_statements ≡ true
unfolding inspect_sql advance look remaining_loop has_remaining_statement_text skip_single_quoted
    skip_quoted skip_block_comment read_placeholder_name is_unsupported is_whitespace
batch_test = refl

quoted_test : inspect_sql (codes "SELECT ';' /* ; */, $1, $name ; ") ≡ record {
  may_contain_multiple_statements = false;
  unsupported_named_placeholder = some (codes "$name");
}
unfolding inspect_sql advance look remaining_loop has_remaining_statement_text skip_single_quoted
    skip_quoted skip_block_comment read_placeholder_name is_unsupported is_whitespace
quoted_test = refl
