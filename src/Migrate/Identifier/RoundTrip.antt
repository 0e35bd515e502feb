-- ===== src/Migrate/Identifier/RoundTrip.antt =====
-- Names that are written out are read back.
use sqlx_turso.Base.{
  ◌==◌, if◌then◌else◌, ==_iff, Bool-cases, if_elim, is_empty, Result, ok, err, ◌>>=◌, >>=-eq-ok, ℕ,
  zero, ◌≡◌, refl, ap, subst, ◌∙◌, inl, inr, false, not, Option, none, some, [], ◌∷◌, ◌++◌,
  append-nil, append_assoc, arith,
}
use sqlx_turso.Text.{Text, strip_prefix}
use sqlx_turso.Executor.Inspect.{next_is}
use sqlx_turso.Migrate.Identifier.{
  MigrateError, SqliteIdentifier, is_identifier_start, invalid_identifier, parse_bare_prefix,
  close_quote, parse_quoted_onto, parse_quoted_prefix, parse_prefix, parse, escaped, display,
  SqliteIdentifierPath, path_loop, parse_path, display_rest, display_path,
}

-- The closing quote is found wherever the text does not go on with another one.
parse_quoted_onto-close :
    (original name rest : Text)
    → is_empty name ≡ false
    → next_is b'"' rest ≡ false
    → parse_quoted_onto original name (b'"' ∷ rest) ≡ ok (name, rest)
unfolding parse_quoted_onto
parse_quoted_onto-close original name [] e n = rw e
parse_quoted_onto-close original name (c ∷ cs) e n = rw (n, e)

parse_quoted_onto-step :
    (original name : Text) (c : ℕ) (cs : Text)
    → (c == b'"') ≡ false
    → is_empty cs ≡ false
    → parse_quoted_onto original name (c ∷ cs) ≡ parse_quoted_onto original (name ++ c ∷ []) cs
unfolding parse_quoted_onto
parse_quoted_onto-step original name c [] e n = cc
parse_quoted_onto-step original name c (d ∷ cs) e n = rw e

append_nonempty : (xs : Text) (y : ℕ) (ys : Text) → is_empty (xs ++ (y ∷ ys)) ≡ false
append_nonempty [] y ys = refl
append_nonempty (x ∷ xs) y ys = refl

append_one_nonempty : (xs : Text) (y : ℕ) (ys : Text) → is_empty ((xs ++ y ∷ []) ++ ys) ≡ false
append_one_nonempty [] y ys = refl
append_one_nonempty (x ∷ xs) y ys = refl

parse_quoted_onto-escaped :
    (original name id rest : Text)
    → is_empty (name ++ id) ≡ false
    → next_is b'"' rest ≡ false
    → parse_quoted_onto original name (escaped id ++ (b'"' ∷ rest)) ≡ ok (name ++ id, rest)
unfolding escaped parse_quoted_onto
parse_quoted_onto-escaped original name [] rest e n = rw (append-nil name) (
    parse_quoted_onto-close original name rest (subst (λ m. is_empty m ≡ false) (append-nil name) e)
      n)
parse_quoted_onto-escaped original name (c ∷ id) rest e n = elim (Bool-cases (c == b'"')) [
  | inl quote ↦
      rw (quote, (==_iff c b'"').0 quote)
        (parse_quoted_onto-escaped original (name ++ b'"' ∷ []) id rest
            (append_one_nonempty name b'"' id) n
          ∙ ap (λ m. ok (m, rest)) (append_assoc name (b'"' ∷ []) id))
  | inr other ↦ rw other (
      parse_quoted_onto-step original name c (escaped id ++ (b'"' ∷ rest)) other
        (append_nonempty (escaped id) b'"' rest)
      ∙ parse_quoted_onto-escaped original (name ++ c ∷ []) id rest (append_one_nonempty name c id)
          n
      ∙ ap (λ m. ok (m, rest)) (append_assoc name (c ∷ []) id))
]

-- `parse_prefix` on a text that starts with a displayed identifier gives the identifier back and
-- leaves exactly the rest, whatever characters the identifier has, where it is not empty and the
-- rest does not start with a double quote.
pub parse_prefix-display :
    (id rest original : Text)
    → is_empty id ≡ false
    → next_is b'"' rest ≡ false
    → parse_prefix (display id ++ rest) original ≡ ok (id, rest)
unfolding display parse_prefix
parse_prefix-display id rest original e n =
    rw (append_assoc (escaped id) (b'"' ∷ []) rest)
      (parse_quoted_onto-escaped original [] id rest e n)

-- `display` of an identifier that is not empty parses back to the identifier.
parse-display : (id : SqliteIdentifier) → is_empty id ≡ false → parse (display id) ≡ ok id
unfolding parse
parse-display id e =
    subst
      (λ v.
        (parse_prefix v (display id) >>= λ (name, rest).
        if not (is_empty rest) then err (invalid_identifier (display id)) else ok name)
        ≡ ok id)
      (append-nil (display id)) (rw (parse_prefix-display id [] (display id) e refl) refl)

-- What `SqliteIdentifierPath::parse` gives: one or two names, none of them empty.
abbrev pub IsPath : SqliteIdentifierPath → Type 0
IsPath (a ∷ []) = is_empty a ≡ false
IsPath (a ∷ b ∷ []) = (is_empty a ≡ false) × (is_empty b ≡ false)
IsPath _ = zero ≡ 1

-- `display_path` of a path of one or two names that are not empty parses back to the path.
parse_path-display_path : (p : SqliteIdentifierPath) → IsPath p → parse_path (display_path p) ≡ ok p
unfolding parse_path display_path display_rest path_loop
parse_path-display_path [] h = absurd (omega arith)
parse_path-display_path (a ∷ []) h = rw (parse_prefix-display a [] (display a ++ []) h refl) refl
parse_path-display_path (a ∷ b ∷ []) h =
    rw (parse_prefix-display a (b'.' ∷ (display b ++ [])) (display_path (a ∷ b ∷ [])) h.0 refl)
      (rw (parse_prefix-display b [] (display_path (a ∷ b ∷ [])) h.1 refl) refl)
parse_path-display_path (a ∷ b ∷ c ∷ p) h = absurd (omega arith)

-- Where a parser gives an identifier, it is not empty.
abbrev Named : Result (SqliteIdentifier × Text) MigrateError → Type 0
Named (ok (id, rest)) = is_empty id ≡ false
Named (err e) = Unit

close_quote-Named : (original name rest : Text) → Named (close_quote original name rest)
close_quote-Named original [] rest = tt
close_quote-Named original (c ∷ name) rest = refl

parse_quoted_onto-Named :
    (original name value : Text) → Named (parse_quoted_onto original name value)
unfolding parse_quoted_onto
parse_quoted_onto-Named original name [] = tt
parse_quoted_onto-Named original name (c ∷ []) =
    if_elim Named (c == b'"') (λ _. close_quote-Named original name []) (λ _. tt)
parse_quoted_onto-Named original name (c ∷ d ∷ cs) =
    if_elim Named (c == b'"')
      (λ _.
        if_elim Named (d == b'"') (λ _. parse_quoted_onto-Named original (name ++ b'"' ∷ []) cs)
          (λ _. close_quote-Named original name (d ∷ cs)))
      (λ _. parse_quoted_onto-Named original (name ++ c ∷ []) (d ∷ cs))

parse_bare_prefix-Named : (value original : Text) → Named (parse_bare_prefix value original)
unfolding parse_bare_prefix
parse_bare_prefix-Named [] original = tt
parse_bare_prefix-Named (c ∷ cs) original =
    if_elim Named (not (is_identifier_start c)) (λ _. tt) (λ _. refl)

parse_prefix-Named : (value original : Text) → Named (parse_prefix value original)
unfolding parse_prefix strip_prefix parse_quoted_prefix
parse_prefix-Named [] original = parse_bare_prefix-Named [] original
parse_prefix-Named (c ∷ cs) original =
    if_elim
      (λ (o : Option Text). Named (elim o [
        | some quoted ↦ parse_quoted_prefix quoted original
        | none ↦ parse_bare_prefix (c ∷ cs) original
      ]))
      (c == b'"') (λ _. parse_quoted_onto-Named original [] cs)
      (λ _. parse_bare_prefix-Named (c ∷ cs) original)

parse_prefix-nonempty :
    (value original : Text) {id rest : Text}
    → parse_prefix value original ≡ ok (id, rest)
    → is_empty id ≡ false
parse_prefix-nonempty value original h = subst Named h (parse_prefix-Named value original)

-- The two rounds of the loop.
path_loop-two :
    (value rest : Text) (a b : SqliteIdentifier) {p : SqliteIdentifierPath}
    → path_loop 1 value (a ∷ b ∷ []) rest ≡ ok p
    → (a ∷ b ∷ []) ≡ p
unfolding path_loop strip_prefix
path_loop-two value [] a b h = cc
path_loop-two value (c ∷ cs) a b h = ground arith

path_loop-one :
    (value rest : Text) (a : SqliteIdentifier) {p : SqliteIdentifierPath}
    → is_empty a ≡ false
    → path_loop 2 value (a ∷ []) rest ≡ ok p
    → IsPath p
unfolding path_loop strip_prefix
path_loop-one value [] a {p} e h = subst IsPath same e
  where
    same : (a ∷ []) ≡ p
    same = cc
path_loop-one value (c ∷ cs) a {p} e h = elim (Bool-cases (c == b'.')) [
  | inr other ↦ absurd (ground arith)
  | inl dot ↦
      let ((b, remaining), parsed, looped) =
        >>=-eq-ok (parse_prefix cs value)
          (λ (part, remaining). path_loop 1 value (a ∷ part ∷ []) remaining) (ground arith) in
      subst IsPath (path_loop-two value remaining a b looped)
        (e, parse_prefix-nonempty cs value parsed)
]

-- What `SqliteIdentifierPath::parse` accepts is one or two names that are not empty, and the text
-- that the path is displayed as parses to the same path.
pub parse_path-reparse :
    (value : Text) (p : SqliteIdentifierPath)
    → parse_path value ≡ ok p
    → IsPath p × (parse_path (display_path p) ≡ ok p)
parse_path-reparse value p h = (path, parse_path-display_path p path)
  where
    path : IsPath p
    path =
        unfold parse_path in
        let ((first, rest), parsed, looped) =
          >>=-eq-ok (parse_prefix value value)
            (λ (first, rest). path_loop 2 value (first ∷ []) rest) h in
        path_loop-one value rest first (parse_prefix-nonempty value value parsed) looped
