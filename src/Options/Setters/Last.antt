-- ===== src/Options/Setters/Last.antt =====
-- crates/sqlx-turso-core/src/options.rs: the pragmas of options that a chain of setters has built,
-- against the value that each name was given last.
use sqlx_turso.Base.{
  if◌then◌else◌, Bool-cases, if_elim, ℕ, ◌≡◌, refl, ap, subst, ◌∙◌, ◌⊎◌, inl, inr, Bool, true,
  false, not, ◌&&◌, Option, none, some, List, [], ◌∷◌, arith,
}
use sqlx_turso.Text.{Text, codes, text_eq}
use sqlx_turso.Text.Laws.{text_eq_iff}
use sqlx_turso.Options.{
  TursoConnectOptions, is_memory, default_pragmas, set_pragma, find_pragma, default, filename,
  in_memory, read_only, create_if_missing, shared_cache, vfs, custom_io, experimental_feature,
  pragma, mvcc,
}
use sqlx_turso.Options.Setters.{
  set_immutable, set_busy_timeout, set_statement_cache_capacity, clear_custom_io,
  encryption_options, clear_encryption, with_sync_options, clear_sync_options, set_log, Setter,
  to_memory, to_mvcc, to_pragma, call, call_all,
}
use sqlx_turso.Options.Pragmas.{has_name}

-- The values of the entries of a name, in their order.
abbrev pub entries : Text → List (Text × Option Text) → List (Option Text)
entries key [] = []
entries key ((name, value) ∷ ps) =
    if text_eq name key then value ∷ entries key ps else entries key ps

-- The first value is replaced, else one is pushed.
abbrev replaced : Option Text → List (Option Text) → List (Option Text)
replaced value [] = value ∷ []
replaced value (_ ∷ values) = value ∷ values

entries-set_pragma :
    (key name : Text) (value : Option Text) (ps : List (Text × Option Text))
    → entries key (set_pragma name value ps)
      ≡ (if text_eq name key then replaced value (entries key ps) else entries key ps)
unfolding set_pragma
entries-set_pragma key name value [] = refl
entries-set_pragma key name value ((first, old) ∷ ps) = ground (
  arith,
  text_eq_iff name key,
  text_eq_iff first name,
  text_eq_iff first key,
  entries-set_pragma key name value ps,
)

-- The name has one entry with the value, or none, and the value is `none`.
abbrev pub HasOne : Text → Option Text → List (Text × Option Text) → Type 0
HasOne key value ps = (entries key ps ≡ value ∷ []) ⊎ ((entries key ps ≡ []) × (value ≡ none))

set_pragma-HasOne :
    (key name : Text) (value old : Option Text) (ps : List (Text × Option Text))
    → HasOne key old ps
    → HasOne key (if text_eq name key then value else old) (set_pragma name value ps)
set_pragma-HasOne key name value old ps h =
    let here = entries-set_pragma key name value ps in
    elim (Bool-cases (text_eq name key)) [
      | inl e ↦ rw e (inl (here ∙ rw e (replaced_one h)))
      | inr e ↦ rw (e, here, e) h
    ]
  where
    replaced_one : HasOne key old ps → replaced value (entries key ps) ≡ value ∷ []
    replaced_one (inl k) = ap (replaced value) k
    replaced_one (inr (k, _)) = ap (replaced value) k

-- Whether no two entries have the same name.
abbrev distinct : List (Text × Option Text) → Bool
distinct [] = true
distinct ((name, _) ∷ ps) = not (has_name name ps) && distinct ps

abbrev value_of : Option (Text × Option Text) → Option Text
value_of none = none
value_of (some (_, value)) = value

no_entries :
    (key : Text) (ps : List (Text × Option Text)) → has_name key ps ≡ false → entries key ps ≡ []
no_entries key [] h = refl
no_entries key ((name, value) ∷ ps) h = ground (arith, no_entries key ps)

distinct-HasOne :
    (key : Text) (ps : List (Text × Option Text))
    → distinct ps ≡ true
    → HasOne key (value_of (find_pragma key ps)) ps
unfolding find_pragma
distinct-HasOne key [] h = inr (refl, refl)
distinct-HasOne key ((name, value) ∷ ps) h = elim (Bool-cases (text_eq name key)) [
  | inl e ↦ rw e (
      inl (
        ap (λ vs. value ∷ vs)
          (no_entries key ps
            (subst (λ n. has_name n ps ≡ false) ((text_eq_iff name key).0 e) (ground arith)))))
  | inr e ↦ rw e (distinct-HasOne key ps (ground arith))
]

-- The value of a name in the default options.
abbrev pub default_value : Text → Option Text
default_value key = value_of (find_pragma key default_pragmas)

default-distinct : distinct default_pragmas ≡ true
unfolding text_eq
default-distinct = refl

module _ {Io Log : Type 0} where
  -- The value of a name behind a call of a setter.
  abbrev said : Text → Setter Io Log → Option Text → Option Text
  said key (to_pragma name value) old = if text_eq name key then value else old
  said key (to_mvcc true) old =
      if text_eq (codes "journal_mode") key then some (codes "'mvcc'") else old
  said key (to_mvcc false) old = if text_eq (codes "journal_mode") key then none else old
  said key _ old = old

  -- The value that a name was given last, where it had the other value in the beginning.
  abbrev pub given_last : Text → List (Setter Io Log) → Option Text → Option Text
  given_last key [] old = old
  given_last key (s ∷ ss) old = given_last key ss (said key s old)

  setter-HasOne :
      (key : Text) (s : Setter Io Log) (old : Option Text) (o : TursoConnectOptions Io Log)
      → HasOne key old o.pragmas
      → HasOne key (said key s old) (call s o).pragmas
  unfolding filename in_memory read_only create_if_missing shared_cache set_immutable
      set_busy_timeout set_statement_cache_capacity vfs custom_io clear_custom_io clear_encryption
      clear_sync_options encryption_options with_sync_options experimental_feature set_log mvcc
      pragma
  setter-HasOne key (to_pragma name value) old o h =
      set_pragma-HasOne key name value old o.pragmas h
  setter-HasOne key (to_mvcc true) old o h =
      set_pragma-HasOne key (codes "journal_mode") (some (codes "'mvcc'")) old o.pragmas h
  setter-HasOne key (to_mvcc false) old o h =
      set_pragma-HasOne key (codes "journal_mode") none old o.pragmas h
  setter-HasOne key (to_memory seqno false) old o h =
      if_elim {A = TursoConnectOptions Io Log} (λ p. HasOne key old p.pragmas) (is_memory o.target)
        (λ _. h) (λ _. h)
  setter-HasOne key _ old o h = h

  chain-HasOne :
      (key : Text) (ss : List (Setter Io Log)) (old : Option Text) (o : TursoConnectOptions Io Log)
      → HasOne key old o.pragmas
      → HasOne key (given_last key ss old) (call_all ss o).pragmas
  chain-HasOne key [] old o h = h
  chain-HasOne key (s ∷ ss) old o h =
      chain-HasOne key ss (said key s old) (call s o) (setter-HasOne key s old o h)

  -- Options built from the default ones by any calls of the setters have for each name one pragma
  -- with the value that the name was given last, or none where that is no value.
  pub call_all-HasOne :
      (key : Text) (ss : List (Setter Io Log)) (log : Log) (seqno : ℕ)
      → HasOne key (given_last key ss (default_value key)) (call_all ss (default log seqno)).pragmas
  unfolding default
  call_all-HasOne key ss log seqno =
      chain-HasOne key ss (default_value key) (default log seqno)
        (distinct-HasOne key default_pragmas default-distinct)
