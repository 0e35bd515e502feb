-- ===== src/Error/Kinds.antt =====
-- Which engine errors become which kind of SQLx error.
use sqlx_turso.Base.{◌≢◌, refl}
use sqlx_turso.Text.{Text, text_eq}
use sqlx_turso.Error.{EngineError, constraint, other, turso_error_code, kind}

-- `e` is the engine's constraint failure.
abbrev IsConstraint : EngineError → Type 0
IsConstraint (constraint _) = Unit
IsConstraint _ = ⊥

-- The kind of an engine error, `kind` of what `from_turso` builds, is other than `other` only
-- for a constraint failure.
kind-IsConstraint :
    (display : EngineError → Text) (e : EngineError)
    → kind (record { code = turso_error_code e; message = display e }) ≢ other
    → IsConstraint e
unfolding kind turso_error_code text_eq
kind-IsConstraint display (constraint m) h = tt
kind-IsConstraint display _ h = h refl
