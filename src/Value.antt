-- ===== src/Value.antt =====
-- crates/sqlx-turso-core/src/value.rs: the values of arguments and rows.
pub mod Integers
pub mod Types
pub mod Codec
pub mod Chrono
pub mod Time
pub mod RoundTrip
use sqlx_turso.Base.{if◌then◌else◌, if_elim, Result, ok, err, ℤ, ℕ, ◌≡◌, refl, not, List}
use sqlx_turso.Text.{Text, codes}
use sqlx_turso.Error.{Message, unsupported}
use sqlx_turso.TypeInfo.{TursoTypeInfo, new, null_info, is_null}
use sqlx_turso.Engine.{EngineValue}

-- `TursoValueKind`, over `f64`. The integer is an `i64`: Integers.IsI64 says that a value is in range.
pub data TursoValueKind (F : Type 0) : Type 0 where
  null : TursoValueKind F
  integer : ℤ → TursoValueKind F
  real : F → TursoValueKind F
  text : Text → TursoValueKind F
  blob : List ℕ → TursoValueKind F

pub record TursoValue (F : Type 0) : Type 0 where
  pub type_info : TursoTypeInfo
  pub kind : TursoValueKind F

module _ {F : Type 0} where
  abbrev pub null_value : TursoValue F
  null_value = record { type_info = null_info; kind = null }

  abbrev pub integer_value : ℤ → TursoValue F
  integer_value v = record { type_info = new (codes "INTEGER"); kind = integer v }

  abbrev pub real_value : F → TursoValue F
  real_value v = record { type_info = new (codes "REAL"); kind = real v }

  abbrev pub text_value : Text → TursoValue F
  text_value v = record { type_info = new (codes "TEXT"); kind = text v }

  abbrev pub blob_value : List ℕ → TursoValue F
  blob_value v = record { type_info = new (codes "BLOB"); kind = blob v }

  -- `TursoValue::from_turso`
  unfoldable pub from_turso : EngineValue F → TursoValue F
  from_turso EngineValue.null = null_value
  from_turso (EngineValue.integer v) = integer_value v
  from_turso (EngineValue.real v) = real_value v
  from_turso (EngineValue.text v) = text_value v
  from_turso (EngineValue.blob v) = blob_value v

  -- `TursoValue::with_type_info`
  unfoldable pub with_type_info : TursoTypeInfo → TursoValue F → TursoValue F
  with_type_info t v = if not (is_null t) then record v { type_info = t } else v

  -- `TursoValue::into_turso`
  unfoldable pub into_turso : TursoValue F → EngineValue F
  into_turso v = elim (v.kind) [
    | null ↦ EngineValue.null
    | integer n ↦ EngineValue.integer n
    | real x ↦ EngineValue.real x
    | text s ↦ EngineValue.text s
    | blob b ↦ EngineValue.blob b
  ]

  -- The readers of `TursoValueRef`. A failure is boxed: its message is what matters.
  unfoldable pub as_integer : TursoValue F → Result ℤ Message
  as_integer v = elim (v.kind) [
    | integer n ↦ ok n
    | _ ↦ err (unsupported (codes "decoding non-integer Turso value as integer"))
  ]

  -- `real`, where `of_integer` is `as f64`.
  unfoldable pub as_real : (ℤ → F) → TursoValue F → Result F Message
  as_real of_integer v = elim (v.kind) [
    | real x ↦ ok x
    | integer n ↦ ok (of_integer n)
    | _ ↦ err (unsupported (codes "decoding non-real Turso value as float"))
  ]

  unfoldable pub as_text : TursoValue F → Result Text Message
  as_text v = elim (v.kind) [
    | text s ↦ ok s
    | _ ↦ err (unsupported (codes "decoding non-text Turso value as text"))
  ]

  unfoldable pub as_blob : TursoValue F → Result (List ℕ) Message
  as_blob v = elim (v.kind) [
    | blob b ↦ ok b
    | _ ↦ err (unsupported (codes "decoding non-blob Turso value as bytes"))
  ]

  -- What the engine gives comes back to it unchanged, whatever type the column declares.
  into_turso-from_turso :
      (t : TursoTypeInfo) (v : EngineValue F) → into_turso (with_type_info t (from_turso v)) ≡ v
  unfolding into_turso from_turso with_type_info
  into_turso-from_turso t v =
      if_elim (λ w. into_turso w ≡ v) (not (is_null t)) (λ _. kept t v) (λ _. same v)
    where
      same : (w : EngineValue F) → into_turso (from_turso w) ≡ w
      same EngineValue.null = refl
      same (EngineValue.integer _) = refl
      same (EngineValue.real _) = refl
      same (EngineValue.text _) = refl
      same (EngineValue.blob _) = refl

      kept :
          (u : TursoTypeInfo) (w : EngineValue F)
          → into_turso (record (from_turso w) { type_info = u }) ≡ w
      kept u EngineValue.null = refl
      kept u (EngineValue.integer _) = refl
      kept u (EngineValue.real _) = refl
      kept u (EngineValue.text _) = refl
      kept u (EngineValue.blob _) = refl
