-- ===== src/Macros/Paths.antt =====
-- What a path in the middle of a stream is rewritten to.
use sqlx_turso.Base.{
  ◌==◌, Bool-cases, ℕ, ◌≡◌, refl, sym, ap, ◌∙◌, inl, inr, Bool, true, false, ◌&&◌, Option, none,
  some, arith,
}
use sqlx_turso.Text.{Text, text_eq}
use sqlx_turso.Macros.Rewrite.{
  Spacing, TokenTree, group, ident, punct, literal, TokenStream, no_tokens, ◌▹◌, ◌+++◌, is_colon,
  path_to, sqlx_word, turso_word, absolute_path_replacement, replaced, rewrite_sqlx_paths,
  after_punct, after_colons,
}

-- Whether the last token is a colon, which could pair with one behind it.
unfoldable pub ends_in_colon : TokenStream → Bool
ends_in_colon no_tokens = false
ends_in_colon (t ▹ no_tokens) = is_colon t
ends_in_colon (t ▹ (u ▹ rest)) = ends_in_colon (u ▹ rest)

ends_lem :
    (t : TokenTree) (rest : TokenStream)
    → ends_in_colon (t ▹ rest) ≡ false
    → ends_in_colon rest ≡ false
unfolding ends_in_colon
ends_lem t no_tokens h = refl
ends_lem t (u ▹ rest) h = h

+++_assoc : (a b c : TokenStream) → (a +++ b) +++ c ≡ a +++ (b +++ c)
+++_assoc no_tokens b c = refl
+++_assoc (t ▹ a) b c = ap (λ r. t ▹ r) (+++_assoc a b c)

replaced-+++ :
    (t u : TokenTree) (name : Text) (path : Option TokenStream) (a b : TokenStream)
    → replaced t u name path (a +++ b) ≡ replaced t u name path a +++ b
replaced-+++ t u name none a b = refl
replaced-+++ t u name (some path) a b = sym (+++_assoc path a b)

-- A character that is no colon stands alone.
after_other :
    (facade : TokenStream) (c : ℕ) (spacing : Spacing) (b : TokenStream)
    → (c == b':') ≡ false
    → after_punct facade c spacing b ≡ punct c spacing ▹ rewrite_sqlx_paths facade b
unfolding rewrite_sqlx_paths after_punct after_colons
after_other facade c spacing no_tokens h = refl
after_other facade c spacing (group _ _ ▹ _) h = refl
after_other facade c spacing (ident _ ▹ _) h = refl
after_other facade c spacing (literal _ ▹ _) h = refl
after_other facade c spacing (punct e next ▹ _) h = rw h refl

last_colon : (c e : ℕ) → (c == b':' && e == b':') ≡ true → (e == b':') ≡ false → ⊥
last_colon c e h k = ground arith

mutual
  unfolding rewrite_sqlx_paths after_punct after_colons ends_in_colon

  rewrite_append :
      (facade a b : TokenStream)
      → ends_in_colon a ≡ false
      → rewrite_sqlx_paths facade (a +++ b)
        ≡ rewrite_sqlx_paths facade a +++ rewrite_sqlx_paths facade b
  rewrite_append facade no_tokens b h = refl
  rewrite_append facade (group d s ▹ rest) b h =
      ap (λ r. group d (rewrite_sqlx_paths facade s) ▹ r)
        (rewrite_append facade rest b (ends_lem (group d s) rest h))
  rewrite_append facade (ident name ▹ rest) b h =
      ap (λ r. ident name ▹ r) (rewrite_append facade rest b (ends_lem (ident name) rest h))
  rewrite_append facade (literal text ▹ rest) b h =
      ap (λ r. literal text ▹ r) (rewrite_append facade rest b (ends_lem (literal text) rest h))
  rewrite_append facade (punct c spacing ▹ rest) b h = punct_append facade c spacing rest b h

  punct_append :
      (facade : TokenStream) (c : ℕ) (spacing : Spacing) (rest b : TokenStream)
      → ends_in_colon (punct c spacing ▹ rest) ≡ false
      → after_punct facade c spacing (rest +++ b)
        ≡ after_punct facade c spacing rest +++ rewrite_sqlx_paths facade b
  punct_append facade c spacing no_tokens b h = after_other facade c spacing b h
  punct_append facade c spacing (group d s ▹ rest) b h =
      ap (λ r. punct c spacing ▹ group d (rewrite_sqlx_paths facade s) ▹ r)
        (rewrite_append facade rest b (ends_lem (group d s) rest h))
  punct_append facade c spacing (ident name ▹ rest) b h =
      ap (λ r. punct c spacing ▹ ident name ▹ r)
        (rewrite_append facade rest b (ends_lem (ident name) rest h))
  punct_append facade c spacing (literal text ▹ rest) b h =
      ap (λ r. punct c spacing ▹ literal text ▹ r)
        (rewrite_append facade rest b (ends_lem (literal text) rest h))
  punct_append facade c spacing (punct e next ▹ rest) b h =
      elim (Bool-cases (c == b':' && e == b':')) [
        | inl both ↦ rw both (colons_append facade c spacing e next rest b both h)
        | inr single ↦
            rw single (ap (λ r. punct c spacing ▹ r) (punct_append facade e next rest b h))
      ]

  colons_append :
      (facade : TokenStream) (c : ℕ) (spacing : Spacing) (e : ℕ) (next : Spacing)
      → (rest b : TokenStream) → (c == b':' && e == b':') ≡ true
      → ends_in_colon (punct e next ▹ rest) ≡ false
      → after_colons facade (punct c spacing) (punct e next) (rest +++ b)
        ≡ after_colons facade (punct c spacing) (punct e next) rest +++ rewrite_sqlx_paths facade b
  colons_append facade c spacing e next no_tokens b both h = absurd (last_colon c e both h)
  colons_append facade c spacing e next (group d s ▹ rest) b both h =
      ap (λ r. punct c spacing ▹ punct e next ▹ group d (rewrite_sqlx_paths facade s) ▹ r)
        (rewrite_append facade rest b (ends_lem (group d s) rest h))
  colons_append facade c spacing e next (ident name ▹ rest) b both h =
      ap (replaced (punct c spacing) (punct e next) name (absolute_path_replacement name facade))
        (rewrite_append facade rest b (ends_lem (ident name) rest h))
      ∙ replaced-+++ (punct c spacing) (punct e next) name (absolute_path_replacement name facade)
          (rewrite_sqlx_paths facade rest) (rewrite_sqlx_paths facade b)
  colons_append facade c spacing e next (literal text ▹ rest) b both h =
      ap (λ r. punct c spacing ▹ punct e next ▹ literal text ▹ r)
        (rewrite_append facade rest b (ends_lem (literal text) rest h))
  colons_append facade c spacing e next (punct f last ▹ rest) b both h =
      ap (λ r. punct c spacing ▹ punct e next ▹ r) (punct_append facade f last rest b h)

path_lem :
    (facade b : TokenStream)
    → (rewrite_sqlx_paths facade (path_to sqlx_word +++ b)
        ≡ (facade +++ path_to sqlx_word) +++ rewrite_sqlx_paths facade b)
      × (rewrite_sqlx_paths facade (path_to turso_word +++ b)
          ≡ facade +++ rewrite_sqlx_paths facade b)
unfolding rewrite_sqlx_paths after_punct after_colons absolute_path_replacement text_eq
path_lem facade b = (refl, refl)

-- Behind a stream that does not end in a colon, a path `::sqlx` becomes the facade's path to its
-- `sqlx`, and a path `::sqlx_turso` the facade's path; what stands before it and behind it is
-- rewritten as if it stood alone.
pub rewrite_sqlx_paths-path_to :
    (facade a b : TokenStream)
    → ends_in_colon a ≡ false
    → (rewrite_sqlx_paths facade (a +++ (path_to sqlx_word +++ b))
        ≡ rewrite_sqlx_paths facade a
          +++ ((facade +++ path_to sqlx_word) +++ rewrite_sqlx_paths facade b))
      × (rewrite_sqlx_paths facade (a +++ (path_to turso_word +++ b))
          ≡ rewrite_sqlx_paths facade a +++ (facade +++ rewrite_sqlx_paths facade b))
rewrite_sqlx_paths-path_to facade a b h =
    let p = path_lem facade b in
    (
      rewrite_append facade a (path_to sqlx_word +++ b) h
          ∙ ap (λ r. rewrite_sqlx_paths facade a +++ r) p.0,
      rewrite_append facade a (path_to turso_word +++ b) h
          ∙ ap (λ r. rewrite_sqlx_paths facade a +++ r) p.1,
    )
