-- ===== src/Executor/Inspect/Judged.antt =====
-- `inspect_sql` on a text says what the description says of the tokens in it.
use sqlx_turso.Base.{Bool-cases, ◌≡◌, refl, ap, ◌∙◌, inl, inr, ◌&&◌, List, [], ◌∷◌, ◌++◌}
use sqlx_turso.Text.{Text}
use sqlx_turso.Executor.Inspect.{
  has_remaining_statement_text, Scan, go, seen, note_placeholder, advance, inspect_loop, scan_start,
  inspect_sql,
}
use sqlx_turso.Executor.Inspect.Lexical.{
  Token, semicolon, doubled, Lexes, done, string, quoted, bracketed, line_comment, last_comment,
  block_comment, bound, separator, blank, plain, has_word, judge,
}
use sqlx_turso.Executor.Inspect.Sound.{
  skip_single_quoted-doubled, skip_quoted-Lacks, skip_quoted-all, skip_block_comment-Unclosed,
  read_placeholder_name-append, scan, scan-stop, scan-go, remaining-has_word, advance_quote,
  advance_marker, advance_blank, advance_plain, advance_separator, advance_separator_on,
}

-- A semicolon: the loop returns if a statement precedes it and text follows it.
scan-separator :
    (s : Scan) {rest : Text} {ts : List Token}
    → Lexes rest ts
    → scan (seen s) rest ≡ judge (seen s) ts
    → scan s (b';' ∷ rest) ≡ judge s (semicolon ∷ ts)
scan-separator s {rest} {ts} l ih = elim (Bool-cases (s.saw_statement && has_word ts)) [
  | inl both ↦ rw both (scan-stop s b';' rest _ (advance_separator s rest (both_remaining ∙ both)))
  | inr other ↦ rw other (
      scan-go s (seen s) b';' rest rest (advance_separator_on s rest (both_remaining ∙ other)) ∙ ih)
]
  where
    both_remaining :
        (s.saw_statement && has_remaining_statement_text rest) ≡ (s.saw_statement && has_word ts)
    both_remaining = ap (λ b. s.saw_statement && b) (remaining-has_word l)

scan-judge : (s : Scan) {sql : Text} {ts : List Token} → Lexes sql ts → scan s sql ≡ judge s ts
unfolding advance
scan-judge s done = unfold scan inspect_loop in refl
scan-judge s (string body rest n l) =
    scan-go s (seen s) b'\'' (doubled body ++ (b'\'' ∷ rest)) rest
      (ap (go (seen s)) (skip_single_quoted-doubled body rest n))
    ∙ scan-judge (seen s) l
scan-judge s (quoted q body rest e h l) =
    scan-go s (seen s) q (body ++ (q ∷ rest)) rest (
      advance_quote s q (body ++ (q ∷ rest)) e ∙ ap (go (seen s)) (skip_quoted-Lacks q body rest h))
    ∙ scan-judge (seen s) l
scan-judge s (bracketed body rest h l) =
    scan-go s (seen s) b'[' (body ++ (b']' ∷ rest)) rest
      (ap (go (seen s)) (skip_quoted-Lacks b']' body rest h))
    ∙ scan-judge (seen s) l
scan-judge s (line_comment body rest h l) =
    scan-go s s b'-' (b'-' ∷ (body ++ (b'\n' ∷ rest))) rest
      (ap (go s) (skip_quoted-Lacks b'\n' body rest h))
    ∙ scan-judge s l
scan-judge s (last_comment body h) =
    scan-go s s b'-' (b'-' ∷ body) [] (ap (go s) (skip_quoted-all b'\n' body h))
    ∙ (unfold scan inspect_loop in refl)
scan-judge s (block_comment body rest h l) =
    scan-go s s b'/' (b'*' ∷ (body ++ (b'*' ∷ b'/' ∷ rest))) rest
      (ap (go s) (skip_block_comment-Unclosed 0 body rest h))
    ∙ scan-judge s l
scan-judge s (bound m name rest e h n l) =
    scan-go s _ m (name ++ rest) rest (
      advance_marker s m (name ++ rest) e
      ∙ ap (λ p. note_placeholder m p s) (read_placeholder_name-append name rest h n))
    ∙ scan-judge _ l
scan-judge s (separator rest l) = scan-separator s l (scan-judge (seen s) l)
scan-judge s (blank c rest w l) =
    scan-go s s c rest rest (advance_blank s c rest w) ∙ scan-judge s l
scan-judge s (plain c rest w e k l) =
    scan-go s (seen s) c rest rest (advance_plain s c rest w e k) ∙ scan-judge (seen s) l

-- On a text that consists of the tokens `ts` (string literals, quoted and bracketed names, comments,
-- placeholders, semicolons, white space and other characters), `inspect_sql` reports several
-- statements exactly if some semicolon has a token before it and a token that is no semicolon
-- behind it, and the last placeholder up to that semicolon that is refused.
pub inspect_sql-judge :
    {sql : Text} {ts : List Token} → Lexes sql ts → inspect_sql sql ≡ judge scan_start ts
unfolding inspect_sql scan
inspect_sql-judge l = scan-judge scan_start l
