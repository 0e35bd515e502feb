-- ===== src/Options/Setters/Invariant.antt =====
-- What holds of options however they were set.
use sqlx_turso.Base.{
  Bool-cases, is_some, if_elim, ℕ, ◌≡◌, refl, ap, ◌∙◌, inl, inr, Bool, true, false, ◌&&◌, Option,
  none, some, List, [], ◌∷◌, ◌++◌, append_assoc,
}
use sqlx_turso.Text.{Text, codes}
use sqlx_turso.Options.Settings.{file, private}
use sqlx_turso.Options.Pragmas.{names, has_name, names-set_pragma}
use sqlx_turso.Options.{
  TursoConnectOptions, is_memory, default_pragmas, set_pragma, default, filename, in_memory,
  read_only, create_if_missing, shared_cache, vfs, custom_io, experimental_feature, pragma, mvcc,
}
use sqlx_turso.Options.Setters.{
  set_immutable, set_busy_timeout, set_statement_cache_capacity, clear_custom_io,
  encryption_options, clear_encryption, with_sync_options, clear_sync_options, set_log, Setter,
  to_file, to_memory, to_read_only, to_create_if_missing, to_shared_cache, to_immutable, to_mvcc,
  to_busy_timeout, to_capacity, to_vfs, to_custom_io, to_no_custom_io, to_no_encryption, to_no_sync,
  to_encryption, to_sync, to_feature, to_pragma, to_log, call, call_all,
}

defaults-set_pragma :
    (key : Text) (value : Option Text) (pragmas : List (Text × Option Text))
    → (rest : List Text) × (names pragmas ≡ names default_pragmas ++ rest)
    → (rest : List Text) × (names (set_pragma key value pragmas) ≡ names default_pragmas ++ rest)
defaults-set_pragma key value pragmas (rest, h) = elim (Bool-cases (has_name key pragmas)) [
  | inl e ↦ (rest, names-set_pragma key value pragmas ∙ rw e h)
  | inr e ↦ (
    rest ++ key ∷ [],
    names-set_pragma key value pragmas
        ∙ rw e (ap (λ l. l ++ key ∷ []) h ∙ append_assoc (names default_pragmas) rest (key ∷ [])),
  )
]

module _ {Io Log : Type 0} where
  -- At most one source of IO is set, and the default pragmas come first, in their order.
  pub record IsConsistent (o : TursoConnectOptions Io Log) : Type 0 where
    pub one_io : (is_some o.vfs && is_some o.custom_io) ≡ false
    pub defaults_first : (rest : List Text) × (names o.pragmas ≡ names default_pragmas ++ rest)

  default-IsConsistent : (log : Log) (seqno : ℕ) → IsConsistent (default log seqno)
  unfolding default
  default-IsConsistent log seqno = record { one_io = refl; defaults_first = ([], refl) }

  -- What leaves the pragmas and the IO, given as a record with the other fields of any value.
  kept :
      (o p : TursoConnectOptions Io Log)
      → IsConsistent o
      → IsConsistent (record p { vfs = o.vfs; custom_io = o.custom_io; pragmas = o.pragmas })
  kept o p h = record { one_io = h.one_io; defaults_first = h.defaults_first }

  -- Without one of the two sources of IO.
  no_vfs :
      (o p : TursoConnectOptions Io Log)
      → IsConsistent o
      → IsConsistent (record p { vfs = none; pragmas = o.pragmas })
  no_vfs o p h = record { one_io = refl; defaults_first = h.defaults_first }

  no_custom_io :
      (o p : TursoConnectOptions Io Log)
      → IsConsistent o
      → IsConsistent (record p { custom_io = none; pragmas = o.pragmas })
  no_custom_io o p h = record { one_io = never (is_some p.vfs); defaults_first = h.defaults_first }
    where
      never : (b : Bool) → (b && false) ≡ false
      never true = refl
      never false = refl

  pragma-IsConsistent :
      (key : Text) (value : Option Text) (o : TursoConnectOptions Io Log)
      → IsConsistent o
      → IsConsistent (pragma key value o)
  unfolding pragma
  pragma-IsConsistent key value o h = record {
    one_io = h.one_io;
    defaults_first = defaults-set_pragma key value o.pragmas h.defaults_first;
  }

  call-IsConsistent :
      (s : Setter Io Log) (o : TursoConnectOptions Io Log)
      → IsConsistent o
      → IsConsistent (call s o)
  unfolding filename in_memory read_only create_if_missing shared_cache set_immutable
      set_busy_timeout set_statement_cache_capacity vfs custom_io clear_custom_io clear_encryption
      clear_sync_options encryption_options with_sync_options experimental_feature set_log mvcc
  call-IsConsistent (to_file path) o h = kept o (filename path o) h
  call-IsConsistent (to_memory seqno true) o h = kept o (in_memory seqno true o) h
  call-IsConsistent (to_memory seqno false) o h =
      if_elim IsConsistent (is_memory o.target)
        (λ _. kept o (record o { target = file (codes ":memory:"); cache_mode = private }) h)
        (λ _. h)
  call-IsConsistent (to_read_only b) o h = kept o (read_only b o) h
  call-IsConsistent (to_create_if_missing b) o h = kept o (create_if_missing b o) h
  call-IsConsistent (to_shared_cache b) o h = kept o (shared_cache b o) h
  call-IsConsistent (to_immutable b) o h = kept o (set_immutable b o) h
  call-IsConsistent (to_mvcc true) o h =
      pragma-IsConsistent (codes "journal_mode") (some (codes "'mvcc'")) o h
  call-IsConsistent (to_mvcc false) o h = pragma-IsConsistent (codes "journal_mode") none o h
  call-IsConsistent (to_busy_timeout t) o h = kept o (set_busy_timeout t o) h
  call-IsConsistent (to_capacity n) o h = kept o (set_statement_cache_capacity n o) h
  call-IsConsistent (to_vfs name) o h = no_custom_io o (vfs name o) h
  call-IsConsistent (to_custom_io io) o h = no_vfs o (custom_io io o) h
  call-IsConsistent to_no_custom_io o h = no_custom_io o (clear_custom_io o) h
  call-IsConsistent to_no_encryption o h = kept o (clear_encryption o) h
  call-IsConsistent to_no_sync o h = kept o (clear_sync_options o) h
  call-IsConsistent (to_encryption e) o h = kept o (encryption_options e o) h
  call-IsConsistent (to_sync s) o h = kept o (with_sync_options s o) h
  call-IsConsistent (to_feature f b) o h = kept o (experimental_feature f b o) h
  call-IsConsistent (to_pragma key value) o h = pragma-IsConsistent key value o h
  call-IsConsistent (to_log f) o h = kept o (set_log f o) h

  chain-IsConsistent :
      (ss : List (Setter Io Log)) (o : TursoConnectOptions Io Log)
      → IsConsistent o
      → IsConsistent (call_all ss o)
  chain-IsConsistent [] o h = h
  chain-IsConsistent (s ∷ ss) o h = chain-IsConsistent ss (call s o) (call-IsConsistent s o h)

  -- Options that are built from the default ones by any calls of the setters, in any order, never
  -- have both a VFS name and a custom IO backend, and their pragmas begin with the default ones in
  -- their order, the added ones behind them.
  pub call_all-IsConsistent :
      (ss : List (Setter Io Log)) (log : Log) (seqno : ℕ)
      → IsConsistent (call_all ss (default log seqno))
  call_all-IsConsistent ss log seqno =
      chain-IsConsistent ss (default log seqno) (default-IsConsistent log seqno)
