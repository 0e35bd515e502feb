-- ===== src/Executor/Inspect/Lexical.antt =====
-- An independent description of SQL text: which texts consist of which tokens, and what the
-- inspection should say of a list of tokens.
use sqlx_turso.Base.{
  ◌==◌, if◌then◌else◌, All, ℕ, ◌≡◌, Bool, true, false, ◌&&◌, ◌||◌, List, [], ◌∷◌, ◌++◌,
}
use sqlx_turso.Text.{Text, is_whitespace}
use sqlx_turso.Executor.Inspect.{
  SqlInspection, is_name_char, next_is, Scan, seen, with_placeholder, is_unsupported,
}

pub data Token : Type 0 where
  word semicolon : Token
  placeholder : ℕ → Text → Token

-- The content of a string literal as it is written: each quote twice.
abbrev pub doubled : Text → Text
doubled [] = []
doubled (c ∷ cs) = if c == b'\'' then b'\'' ∷ b'\'' ∷ doubled cs else c ∷ doubled cs

abbrev pub Lacks : ℕ → Text → Type 0
Lacks q = All λ c. (c == q) ≡ false

-- No `*/` in the text, behind the character `p`.
abbrev pub Unclosed : ℕ → Text → Type 0
Unclosed p [] = Unit
Unclosed p (c ∷ cs) = ((p == b'*' && c == b'/') ≡ false) × Unclosed c cs

abbrev pub is_special : ℕ → Bool
is_special c =
    c == b'\''
    || c == b'"'
    || c == b'`'
    || c == b'['
    || c == b';'
    || c == b'$'
    || c == b':'
    || c == b'@'

-- `--` or `/*` starts here.
abbrev pub starts_comment : ℕ → Text → Bool
starts_comment c rest = (c == b'-' && next_is b'-' rest) || (c == b'/' && next_is b'*' rest)

abbrev pub name_follows : Text → Bool
name_follows [] = false
name_follows (c ∷ cs) = is_name_char c

pub data Lexes : Text → List Token → Type 0 where
  done : Lexes [] []
  string :
      (body rest : Text) {ts : List Token}
      → next_is b'\'' rest ≡ false
      → Lexes rest ts
      → Lexes (b'\'' ∷ (doubled body ++ (b'\'' ∷ rest))) (word ∷ ts)
  quoted :
      (q : ℕ) (body rest : Text) {ts : List Token}
      → (q == b'"' || q == b'`') ≡ true
      → Lacks q body
      → Lexes rest ts
      → Lexes (q ∷ (body ++ (q ∷ rest))) (word ∷ ts)
  bracketed :
      (body rest : Text) {ts : List Token}
      → Lacks b']' body
      → Lexes rest ts
      → Lexes (b'[' ∷ (body ++ (b']' ∷ rest))) (word ∷ ts)
  line_comment :
      (body rest : Text) {ts : List Token}
      → Lacks b'\n' body
      → Lexes rest ts
      → Lexes (b'-' ∷ b'-' ∷ (body ++ (b'\n' ∷ rest))) ts
  last_comment : (body : Text) → Lacks b'\n' body → Lexes (b'-' ∷ b'-' ∷ body) []
  block_comment :
      (body rest : Text) {ts : List Token}
      → Unclosed 0 body
      → Lexes rest ts
      → Lexes (b'/' ∷ b'*' ∷ (body ++ (b'*' ∷ b'/' ∷ rest))) ts
  bound :
      (marker : ℕ) (name rest : Text) {ts : List Token}
      → (marker == b'$' || (marker == b':' || marker == b'@')) ≡ true
      → All (λ c. is_name_char c ≡ true) name
      → name_follows rest ≡ false
      → Lexes rest ts
      → Lexes (marker ∷ (name ++ rest)) (placeholder marker name ∷ ts)
  separator : (rest : Text) {ts : List Token} → Lexes rest ts → Lexes (b';' ∷ rest) (semicolon ∷ ts)
  blank :
      (c : ℕ) (rest : Text) {ts : List Token}
      → is_whitespace c ≡ true
      → Lexes rest ts
      → Lexes (c ∷ rest) ts
  plain :
      (c : ℕ) (rest : Text) {ts : List Token}
      → is_whitespace c ≡ false
      → is_special c ≡ false
      → starts_comment c rest ≡ false
      → Lexes rest ts
      → Lexes (c ∷ rest) (word ∷ ts)

-- Some token is not a semicolon.
abbrev pub has_word : List Token → Bool
has_word [] = false
has_word (semicolon ∷ ts) = has_word ts
has_word (_ ∷ ts) = true

-- What the inspection should say from the token on, where `s` is what it knows so far: it stops at
-- the first semicolon that has a token before it and a word behind it; up to there it keeps the
-- last placeholder that is refused.
abbrev pub judge : Scan → List Token → SqlInspection
judge s [] = s.inspection
judge s (word ∷ ts) = judge (seen s) ts
judge s (semicolon ∷ ts) =
    let later = judge (seen s) ts in
    if s.saw_statement && has_word ts
    then record (s.inspection) { may_contain_multiple_statements = true }
    else later
judge s (placeholder m n ∷ ts) =
    judge (if is_unsupported m n then with_placeholder (m ∷ n) (seen s) else seen s) ts
