-- ===== src/Macros/Laws.antt =====
-- What the rewriting of paths keeps and what it changes.
use sqlx_turso.Base.{
  ◌==◌, Bool-cases, ℕ, ◌≡◌, refl, ap, inl, inr, Bool, true, false, ◌&&◌, ◌||◌, none, arith,
}
use sqlx_turso.Text.{Text, text_eq}
use sqlx_turso.Macros.Rewrite.{
  Spacing, TokenTree, group, ident, punct, literal, TokenStream, no_tokens, ◌▹◌, sqlx_word,
  turso_word, absolute_path_replacement, rewrite_sqlx_paths, after_punct, after_colons,
}

-- The two names that a path is rewritten at.
abbrev is_rewritten : Text → Bool
is_rewritten name = text_eq name sqlx_word || text_eq name turso_word

-- Whether two colons, the first here, stand in front of such a name.
abbrev names_path : TokenTree → TokenStream → Bool
names_path (punct c _) (punct e _ ▹ ident name ▹ _) = c == b':' && (e == b':' && is_rewritten name)
names_path _ _ = false

unfoldable mutual
  -- Whether a path to one of the two names stands anywhere in the stream, its groups included.
  pub has_path : TokenStream → Bool
  has_path no_tokens = false
  has_path (t ▹ rest) = names_path t rest || (has_path_within t || has_path rest)

  has_path_within : TokenTree → Bool
  has_path_within (group _ s) = has_path s
  has_path_within (ident _) = false
  has_path_within (punct _ _) = false
  has_path_within (literal _) = false

kept :
    (name : Text) (facade : TokenStream)
    → is_rewritten name ≡ false
    → absolute_path_replacement name facade ≡ none
unfolding absolute_path_replacement
kept name facade h = ground arith

or_false : (a b : Bool) → (a || b) ≡ false → (a ≡ false) × (b ≡ false)
or_false a b h = ground arith

-- No path here: none behind the first token.
tail_lem :
    (t : TokenTree) (rest : TokenStream) → has_path (t ▹ rest) ≡ false → has_path rest ≡ false
unfolding has_path has_path_within
tail_lem t rest h =
    (or_false (has_path_within t) (has_path rest)
      ((or_false (names_path t rest) (has_path_within t || has_path rest) h).1)).1

name_lem :
    (a b r : Bool) (rest : Bool) → (a && b) ≡ true → (a && (b && r) || rest) ≡ false → r ≡ false
name_lem a b r rest h k = ground arith

mutual
  unfolding rewrite_sqlx_paths after_punct after_colons has_path has_path_within

  rewrite_same : (facade s : TokenStream) → has_path s ≡ false → rewrite_sqlx_paths facade s ≡ s
  rewrite_same facade no_tokens h = refl
  rewrite_same facade (group d s ▹ rest) h =
      let p = or_false (has_path s) (has_path rest) h in
      rw (rewrite_same facade s p.0, rewrite_same facade rest p.1) refl
  rewrite_same facade (ident name ▹ rest) h = ap (λ r. ident name ▹ r) (rewrite_same facade rest h)
  rewrite_same facade (literal text ▹ rest) h =
      ap (λ r. literal text ▹ r) (rewrite_same facade rest h)
  rewrite_same facade (punct c spacing ▹ rest) h = punct_same facade c spacing rest h

  punct_same :
      (facade : TokenStream) (c : ℕ) (spacing : Spacing) (rest : TokenStream)
      → has_path (punct c spacing ▹ rest) ≡ false
      → after_punct facade c spacing rest ≡ punct c spacing ▹ rest
  punct_same facade c spacing no_tokens h = refl
  punct_same facade c spacing (group d s ▹ rest) h =
      let p = or_false (has_path s) (has_path rest) h in
      rw (rewrite_same facade s p.0, rewrite_same facade rest p.1) refl
  punct_same facade c spacing (ident name ▹ rest) h =
      ap (λ r. punct c spacing ▹ ident name ▹ r) (rewrite_same facade rest h)
  punct_same facade c spacing (literal text ▹ rest) h =
      ap (λ r. punct c spacing ▹ literal text ▹ r) (rewrite_same facade rest h)
  punct_same facade c spacing (punct e next ▹ rest) h =
      let p =
        or_false (names_path (punct c spacing) (punct e next ▹ rest))
          (has_path (punct e next ▹ rest)) h in
      elim (Bool-cases (c == b':' && e == b':')) [
        | inl both ↦ rw both (colons_same facade c spacing e next rest both h)
        | inr single ↦ rw single (ap (λ r. punct c spacing ▹ r) (punct_same facade e next rest p.1))
      ]

  colons_same :
      (facade : TokenStream) (c : ℕ) (spacing : Spacing) (e : ℕ) (next : Spacing)
      (rest : TokenStream)
      → (c == b':' && e == b':') ≡ true
      → has_path (punct c spacing ▹ punct e next ▹ rest) ≡ false
      → after_colons facade (punct c spacing) (punct e next) rest
        ≡ punct c spacing ▹ punct e next ▹ rest
  colons_same facade c spacing e next no_tokens both h = refl
  colons_same facade c spacing e next (ident name ▹ rest) both h =
      rw
        (kept name facade (
          name_lem (c == b':') (e == b':') (is_rewritten name)
            (has_path (punct e next ▹ ident name ▹ rest)) both h))
        (ap (λ r. punct c spacing ▹ punct e next ▹ ident name ▹ r)
          (rewrite_same facade rest (
            tail_lem (ident name) rest (
              tail_lem (punct e next) (ident name ▹ rest)
                (tail_lem (punct c spacing) (punct e next ▹ ident name ▹ rest) h)))))
  colons_same facade c spacing e next (group d s ▹ rest) both h =
      let p = or_false (has_path s) (has_path rest) (
        tail_lem (punct e next) (group d s ▹ rest)
          (tail_lem (punct c spacing) (punct e next ▹ group d s ▹ rest) h)) in
      rw (rewrite_same facade s p.0, rewrite_same facade rest p.1) refl
  colons_same facade c spacing e next (literal text ▹ rest) both h =
      ap (λ r. punct c spacing ▹ punct e next ▹ literal text ▹ r)
        (rewrite_same facade rest (
          tail_lem (punct e next) (literal text ▹ rest)
            (tail_lem (punct c spacing) (punct e next ▹ literal text ▹ rest) h)))
  colons_same facade c spacing e next (punct f last ▹ rest) both h =
      ap (λ r. punct c spacing ▹ punct e next ▹ r)
        (punct_same facade f last rest (
          tail_lem (punct e next) (punct f last ▹ rest)
            (tail_lem (punct c spacing) (punct e next ▹ punct f last ▹ rest) h)))

-- Nothing else is changed: tokens without a path `::sqlx` or `::sqlx_turso` at any depth come back
-- as they are, with any facade.
pub rewrite_sqlx_paths-same :
    (facade s : TokenStream) → has_path s ≡ false → rewrite_sqlx_paths facade s ≡ s
rewrite_sqlx_paths-same facade s h = rewrite_same facade s h
