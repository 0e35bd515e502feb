-- ===== src/Executor/Inspect/Sound.antt =====
-- The scanners read texts as the lexical description does.
use sqlx_turso.Base.{
  ◌==◌, Bool-cases, length, All, ℕ, ◌≤◌, ◌≡◌, refl, ap, subst, ◌∙◌, inl, inr, true, false, ◌&&◌,
  ◌||◌, List, [], ◌∷◌, ◌++◌, arith,
}
use sqlx_turso.Text.{Text, is_whitespace}
use sqlx_turso.Executor.Inspect.{
  SqlInspection, skip_single_quoted, skip_quoted, skip_block_comment, is_name_char,
  read_placeholder_name, next_is, found, look_on, look, remaining_loop,
  has_remaining_statement_text, Scan, stop, go, seen, note_placeholder, advance, inspect_loop,
}
use sqlx_turso.Executor.Inspect.Fuel.{
  LooksWithin, look-within, GoesWithin, advance-within, remaining_loop_fuel, inspect_loop_fuel,
}
use sqlx_turso.Executor.Inspect.Lexical.{
  Token, doubled, Lacks, Unclosed, is_special, starts_comment, name_follows, Lexes, done, string,
  quoted, bracketed, line_comment, last_comment, block_comment, bound, separator, blank, plain,
  has_word,
}
use native.Mathlib.Nat.{le_refl}

skip_single_quoted-cons :
    (c : ℕ) (cs : Text) → (c == b'\'') ≡ false → skip_single_quoted (c ∷ cs) ≡ skip_single_quoted cs
unfolding skip_single_quoted
skip_single_quoted-cons c [] h = refl
skip_single_quoted-cons c (d ∷ cs) h = rw h

skip_single_quoted-end :
    (rest : Text) → next_is b'\'' rest ≡ false → skip_single_quoted (b'\'' ∷ rest) ≡ rest
unfolding skip_single_quoted
skip_single_quoted-end [] h = refl
skip_single_quoted-end (d ∷ cs) h = rw h

pub skip_single_quoted-doubled :
    (body rest : Text)
    → next_is b'\'' rest ≡ false
    → skip_single_quoted (doubled body ++ (b'\'' ∷ rest)) ≡ rest
unfolding skip_single_quoted
skip_single_quoted-doubled [] rest h = skip_single_quoted-end rest h
skip_single_quoted-doubled (c ∷ body) rest h = elim (Bool-cases (c == b'\'')) [
  | inl quote ↦ rw quote (skip_single_quoted-doubled body rest h)
  | inr other ↦
      rw other (skip_single_quoted-cons c _ other ∙ skip_single_quoted-doubled body rest h)
]

pub skip_quoted-Lacks :
    (q : ℕ) (body rest : Text) → Lacks q body → skip_quoted q (body ++ (q ∷ rest)) ≡ rest
unfolding skip_quoted
skip_quoted-Lacks q [] rest h = ground arith
skip_quoted-Lacks q (c ∷ body) rest h = rw h.0 (skip_quoted-Lacks q body rest h.1)

pub skip_quoted-all : (q : ℕ) (body : Text) → Lacks q body → skip_quoted q body ≡ []
unfolding skip_quoted
skip_quoted-all q [] h = refl
skip_quoted-all q (c ∷ body) h = rw h.0 (skip_quoted-all q body h.1)

pub skip_block_comment-Unclosed :
    (p : ℕ) (body rest : Text)
    → Unclosed p body
    → skip_block_comment p (body ++ (b'*' ∷ b'/' ∷ rest)) ≡ rest
unfolding skip_block_comment
skip_block_comment-Unclosed p [] rest h = ground arith
skip_block_comment-Unclosed p (c ∷ body) rest h =
    rw h.0 (skip_block_comment-Unclosed c body rest h.1)

pub read_placeholder_name-append :
    (name rest : Text)
    → All (λ c. is_name_char c ≡ true) name
    → name_follows rest ≡ false
    → read_placeholder_name (name ++ rest) ≡ (name, rest)
unfolding read_placeholder_name
read_placeholder_name-append [] [] h e = refl
read_placeholder_name-append [] (c ∷ cs) h e = rw e
read_placeholder_name-append (c ∷ name) rest h e =
    rw (h.0, read_placeholder_name-append name rest h.1 e)

whitespace_plain :
    (c : ℕ)
    → is_whitespace c ≡ true
    → (is_special c ≡ false) × ((c == b'-') ≡ false) × ((c == b'/') ≡ false)
unfolding is_whitespace
whitespace_plain c h = ground arith

-- One round of each loop, with the fuel that the text gives.
remaining-found :
    (c : ℕ) (cs : Text) → look c cs ≡ found → has_remaining_statement_text (c ∷ cs) ≡ true
unfolding has_remaining_statement_text remaining_loop
remaining-found c cs e =
    ap (λ l. elim l [ found ↦ true | look_on r ↦ remaining_loop (length cs) r ]) e

remaining-look_on :
    (c : ℕ) (cs rest : Text)
    → look c cs ≡ look_on rest
    → has_remaining_statement_text (c ∷ cs) ≡ has_remaining_statement_text rest
unfolding has_remaining_statement_text
remaining-look_on c cs rest e =
    step ∙ remaining_loop_fuel (length cs) (length rest) rest within (le_refl (length rest))
  where
    step : remaining_loop (length (c ∷ cs)) (c ∷ cs) ≡ remaining_loop (length cs) rest
    step =
        unfold remaining_loop in
        ap (λ l. elim l [ found ↦ true | look_on r ↦ remaining_loop (length cs) r ]) e

    within : length rest ≤ length cs
    within = subst (LooksWithin (length cs)) e (look-within c cs)

unfoldable pub scan : Scan → Text → SqlInspection
scan s cs = inspect_loop (length cs) s cs

pub scan-stop :
    (s : Scan) (c : ℕ) (cs : Text) (i : SqlInspection)
    → advance s c cs ≡ stop i
    → scan s (c ∷ cs) ≡ i
unfolding scan inspect_loop
scan-stop s c cs i e = ap (λ m. elim m [ stop r ↦ r | go t r ↦ inspect_loop (length cs) t r ]) e

pub scan-go :
    (s t : Scan) (c : ℕ) (cs rest : Text)
    → advance s c cs ≡ go t rest
    → scan s (c ∷ cs) ≡ scan t rest
unfolding scan
scan-go s t c cs rest e =
    step ∙ inspect_loop_fuel (length cs) (length rest) t rest within (le_refl (length rest))
  where
    step : inspect_loop (length (c ∷ cs)) s (c ∷ cs) ≡ inspect_loop (length cs) t rest
    step =
        unfold inspect_loop in
        ap (λ m. elim m [ stop r ↦ r | go u r ↦ inspect_loop (length cs) u r ]) e

    within : length rest ≤ length cs
    within = subst (GoesWithin (length cs)) e (advance-within s c cs)

quote_found : (q : ℕ) (cs : Text) → (q == b'"' || q == b'`') ≡ true → look q cs ≡ found
unfolding look is_whitespace
quote_found q cs e = ground arith

marker_found :
    (m : ℕ) (cs : Text) → (m == b'$' || (m == b':' || m == b'@')) ≡ true → look m cs ≡ found
unfolding look is_whitespace
marker_found m cs e = ground arith

-- Text behind a semicolon is statement text exactly if a word token is there.
pub remaining-has_word :
    {sql : Text} {ts : List Token} → Lexes sql ts → has_remaining_statement_text sql ≡ has_word ts
unfolding look
remaining-has_word done = unfold has_remaining_statement_text remaining_loop in refl
remaining-has_word (string body rest n l) =
    remaining-found b'\'' (doubled body ++ (b'\'' ∷ rest)) (unfold is_whitespace in refl)
remaining-has_word (quoted q body rest e h l) =
    remaining-found q (body ++ (q ∷ rest)) (quote_found q (body ++ (q ∷ rest)) e)
remaining-has_word (bracketed body rest h l) =
    remaining-found b'[' (body ++ (b']' ∷ rest)) (unfold is_whitespace in refl)
remaining-has_word (line_comment body rest h l) =
    remaining-look_on b'-' (b'-' ∷ (body ++ (b'\n' ∷ rest))) rest
      (ap look_on (skip_quoted-Lacks b'\n' body rest h))
    ∙ remaining-has_word l
remaining-has_word (last_comment body h) =
    remaining-look_on b'-' (b'-' ∷ body) [] (ap look_on (skip_quoted-all b'\n' body h))
    ∙ (unfold has_remaining_statement_text remaining_loop in refl)
remaining-has_word (block_comment body rest h l) =
    remaining-look_on b'/' (b'*' ∷ (body ++ (b'*' ∷ b'/' ∷ rest))) rest
      (ap look_on (skip_block_comment-Unclosed 0 body rest h))
    ∙ remaining-has_word l
remaining-has_word (bound m name rest e h n l) =
    remaining-found m (name ++ rest) (marker_found m (name ++ rest) e)
remaining-has_word (separator rest l) =
    remaining-look_on b';' rest rest (unfold is_whitespace in refl) ∙ remaining-has_word l
remaining-has_word (blank c rest w l) =
    remaining-look_on c rest rest (ground (arith, whitespace_plain c w)) ∙ remaining-has_word l
remaining-has_word (plain c rest w e k l) = remaining-found c rest (ground arith)

-- What one round does with each kind of token.
pub advance_quote :
    (s : Scan) (q : ℕ) (cs : Text)
    → (q == b'"' || q == b'`') ≡ true
    → advance s q cs ≡ go (seen s) (skip_quoted q cs)
unfolding advance
advance_quote s q cs e = ground arith

pub advance_marker :
    (s : Scan) (m : ℕ) (cs : Text)
    → (m == b'$' || (m == b':' || m == b'@')) ≡ true
    → advance s m cs ≡ note_placeholder m (read_placeholder_name cs) s
unfolding advance
advance_marker s m cs e = ground arith

pub advance_blank :
    (s : Scan) (c : ℕ) (cs : Text) → is_whitespace c ≡ true → advance s c cs ≡ go s cs
unfolding advance
advance_blank s c cs e = ground (arith, whitespace_plain c e)

pub advance_plain :
    (s : Scan) (c : ℕ) (cs : Text)
    → is_whitespace c ≡ false
    → is_special c ≡ false
    → starts_comment c cs ≡ false
    → advance s c cs ≡ go (seen s) cs
unfolding advance
advance_plain s c cs w e k = ground arith

pub advance_separator :
    (s : Scan) (cs : Text)
    → (s.saw_statement && has_remaining_statement_text cs) ≡ true
    → advance s b';' cs ≡ stop (record (s.inspection) { may_contain_multiple_statements = true })
unfolding advance
advance_separator s cs e = rw e

pub advance_separator_on :
    (s : Scan) (cs : Text)
    → (s.saw_statement && has_remaining_statement_text cs) ≡ false
    → advance s b';' cs ≡ go (seen s) cs
unfolding advance is_whitespace
advance_separator_on s cs e = rw e
