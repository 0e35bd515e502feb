-- ===== src/Options/Url/FeatureNames.antt =====
-- The value of `experimental` in a URL names exactly the features that are enabled.
use sqlx_turso.Base.{
  ◌==◌, if_elim, is_empty, All, ok, ℕ, ◌≡◌, refl, sym, ap, ◌∙◌, Bool, true, false, ◌||◌, List, [],
  ◌∷◌, ◌++◌, append-nil, append_assoc, arith,
}
use sqlx_turso.Options.{experimental_feature}
use sqlx_turso.Options.Url.{Params, apply_features}
use sqlx_turso.Text.{Text, codes, text_eq, split_onto, split, join}
use sqlx_turso.Options.Features.{
  TursoExperimentalFeature, attach, custom_types, generated_columns, index_method,
  materialized_views, multiprocess_wal, vacuum, without_rowid, TursoExperimentalFeatures,
  no_features, is_enabled, set, query_name, all_features, enabled_names, to_query_value,
  parse_experimental_feature,
}

abbrev has : ℕ → Text → Bool
has sep [] = false
has sep (c ∷ cs) = c == sep || has sep cs

split_onto-append :
    (sep : ℕ) (piece x rest : Text)
    → has sep x ≡ false
    → split_onto sep piece (x ++ (sep ∷ rest)) ≡ (piece ++ x) ∷ split_onto sep [] rest
unfolding split_onto
split_onto-append sep piece [] rest h = rw (append-nil piece) (ground arith)
split_onto-append sep piece (c ∷ cs) rest h = rw (no_head (c == sep) h) (
    split_onto-append sep (piece ++ c ∷ []) cs rest (no_tail (c == sep) h)
    ∙ ap (λ m. m ∷ split_onto sep [] rest) (append_assoc piece (c ∷ []) cs))
  where
    no_head : (b : Bool) → (b || has sep cs) ≡ false → b ≡ false
    no_head true e = e
    no_head false e = refl

    no_tail : (b : Bool) → (b || has sep cs) ≡ false → has sep cs ≡ false
    no_tail true e = cc
    no_tail false e = e

split_onto-whole :
    (sep : ℕ) (piece x : Text) → has sep x ≡ false → split_onto sep piece x ≡ (piece ++ x) ∷ []
unfolding split_onto
split_onto-whole sep piece [] h = ap (λ m. m ∷ []) (sym (append-nil piece))
split_onto-whole sep piece (c ∷ cs) h = rw (no_head (c == sep) h) (
    split_onto-whole sep (piece ++ c ∷ []) cs (no_tail (c == sep) h)
    ∙ ap (λ m. m ∷ []) (append_assoc piece (c ∷ []) cs))
  where
    no_head : (b : Bool) → (b || has sep cs) ≡ false → b ≡ false
    no_head true e = e
    no_head false e = refl

    no_tail : (b : Bool) → (b || has sep cs) ≡ false → has sep cs ≡ false
    no_tail true e = cc
    no_tail false e = e

split-join :
    (sep : ℕ) (x : Text) (xs : List Text)
    → has sep x ≡ false
    → All (λ y. has sep y ≡ false) xs
    → split sep (join (sep ∷ []) (x ∷ xs)) ≡ x ∷ xs
unfolding join
split-join sep x [] h hs = split_onto-whole sep [] x h
split-join sep x (y ∷ ys) h hs =
    split_onto-append sep [] x (join (sep ∷ []) (y ∷ ys)) h
    ∙ ap (λ m. x ∷ m) (split-join sep y ys hs.0 hs.1)

query_name-plain : (f : TursoExperimentalFeature) → has b',' (query_name f) ≡ false
query_name-plain attach = refl
query_name-plain custom_types = refl
query_name-plain generated_columns = refl
query_name-plain index_method = refl
query_name-plain materialized_views = refl
query_name-plain multiprocess_wal = refl
query_name-plain vacuum = refl
query_name-plain without_rowid = refl

names-plain :
    (s : TursoExperimentalFeatures) (fs : List TursoExperimentalFeature)
    → All (λ y. has b',' y ≡ false) (enabled_names s fs)
unfolding enabled_names
names-plain s [] = tt
names-plain s (f ∷ fs) =
    if_elim (λ (l : List Text). All (λ y. has b',' y ≡ false) l) (is_enabled s f)
      (λ _. (query_name-plain f, names-plain s fs)) (λ _. names-plain s fs)

parse-query_name :
    (f : TursoExperimentalFeature)
    → (parse_experimental_feature (query_name f) ≡ ok f) × (is_empty (query_name f) ≡ false)
unfolding parse_experimental_feature text_eq
parse-query_name attach = (refl, refl)
parse-query_name custom_types = (refl, refl)
parse-query_name generated_columns = (refl, refl)
parse-query_name index_method = (refl, refl)
parse-query_name materialized_views = (refl, refl)
parse-query_name multiprocess_wal = (refl, refl)
parse-query_name vacuum = (refl, refl)
parse-query_name without_rowid = (refl, refl)

set-same :
    (f : TursoExperimentalFeature) (s : TursoExperimentalFeatures) → set f (is_enabled s f) s ≡ s
unfolding set is_enabled
set-same attach s = refl
set-same custom_types s = refl
set-same generated_columns s = refl
set-same index_method s = refl
set-same materialized_views s = refl
set-same multiprocess_wal s = refl
set-same vacuum s = refl
set-same without_rowid s = refl

-- The features of `s` among the listed ones, added to `acc`.
abbrev copied :
    TursoExperimentalFeatures
    → List TursoExperimentalFeature
    → TursoExperimentalFeatures
    → TursoExperimentalFeatures
copied s [] acc = acc
copied s (f ∷ fs) acc = copied s fs (set f (is_enabled acc f || is_enabled s f) acc)

or_true : (b c : Bool) → c ≡ true → (b || c) ≡ true
or_true true c e = refl
or_true false c e = e

or_false : (b c : Bool) → c ≡ false → (b || c) ≡ b
or_false true c e = refl
or_false false c e = e

copied_all : (s : TursoExperimentalFeatures) → copied s all_features no_features ≡ s
unfolding set is_enabled
copied_all s = refl

module _ {Io Log : Type 0} where
  abbrev pub with_features : Params Io Log → TursoExperimentalFeatures → Params Io Log
  with_features p s = record p { options = record (p.options) { experimental_features = s } }

  apply_features-cons :
      (p : Params Io Log) (f : TursoExperimentalFeature) (names : List Text)
      → (acc : TursoExperimentalFeatures)
      → apply_features (query_name f ∷ names) (with_features p acc)
        ≡ apply_features names (with_features p (set f true acc))
  unfolding apply_features experimental_feature
  apply_features-cons p f names acc = rw ((parse-query_name f).1, (parse-query_name f).0) refl

  apply_features-enabled_names :
      (p : Params Io Log) (s acc : TursoExperimentalFeatures) (fs : List TursoExperimentalFeature)
      → apply_features (enabled_names s fs) (with_features p acc)
        ≡ ok (with_features p (copied s fs acc))
  unfolding enabled_names
  apply_features-enabled_names p s acc [] = unfold apply_features in refl
  apply_features-enabled_names p s acc (f ∷ fs) =
      if_elim
        (λ (l : List Text).
          apply_features l (with_features p acc) ≡ ok (with_features p (copied s (f ∷ fs) acc)))
        (is_enabled s f)
        (λ e.
          apply_features-cons p f (enabled_names s fs) acc
          ∙ apply_features-enabled_names p s (set f true acc) fs
          ∙ ap (λ b. ok (with_features p (copied s fs (set f b acc))))
              (sym (or_true (is_enabled acc f) (is_enabled s f) e)))
        (λ e.
          apply_features-enabled_names p s acc fs
          ∙ ap (λ a. ok (with_features p (copied s fs a)))
              (sym (
                ap (λ b. set f b acc) (or_false (is_enabled acc f) (is_enabled s f) e)
                ∙ set-same f acc)))

  apply_features-split :
      (p : Params Io Log) (names : List Text)
      → All (λ y. has b',' y ≡ false) names
      → apply_features (split b',' (join (codes ",") names)) p ≡ apply_features names p
  apply_features-split p [] h = unfold split_onto join apply_features in refl
  apply_features-split p (x ∷ xs) h = ap (λ l. apply_features l p) (split-join b',' x xs h.0 h.1)

  -- The value that a URL gives for `experimental` is read back: on options without features, it
  -- enables exactly the features that were enabled when it was written.
  pub apply_features-to_query_value :
      (p : Params Io Log) (s : TursoExperimentalFeatures)
      → apply_features (split b',' (to_query_value s)) (with_features p no_features)
        ≡ ok (with_features p s)
  unfolding to_query_value
  apply_features-to_query_value p s =
      apply_features-split (with_features p no_features) (enabled_names s all_features)
        (names-plain s all_features)
      ∙ apply_features-enabled_names p s no_features all_features
      ∙ ap (λ a. ok (with_features p a)) (copied_all s)
