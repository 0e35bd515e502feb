-- ===== src/Arguments.antt =====
-- crates/sqlx-turso-core/src/arguments.rs: the buffer of the arguments of a query.
use sqlx_turso.Base.{
  length, take, take-length-append, Result, ok, err, ℕ, ◌+◌, ◌≡◌, ap, ◌∙◌, List, [], ◌∷◌, ◌++◌, map,
  append_assoc,
}
use sqlx_turso.Text.{Text, codes}
use sqlx_turso.Text.Decimal.{show_nat}
use sqlx_turso.Error.{Message}
use sqlx_turso.Engine.{EngineValue}
use sqlx_turso.Value.{null_value, into_turso}
use sqlx_turso.Value.Integers.{IsNull, yes, no, Buffer}

pub record TursoArguments (F : Type 0) : Type 0 where
  pub values : Buffer F

-- `Encode::encode` of the argument, run on the buffer.
abbrev pub Encoder : Type 0 → Type 0
Encoder F = Buffer F → Result IsNull Message × Buffer F

module _ {F : Type 0} where
  -- `into_turso_values`
  unfoldable pub into_turso_values : TursoArguments F → List (EngineValue F)
  into_turso_values args = map into_turso args.values

  -- What follows the encoder, by its outcome, where the buffer had `len` values before it.
  abbrev settle_add :
      ℕ → Result IsNull Message × Buffer F → Result (Unit {0}) Message × TursoArguments F
  settle_add len (ok yes, values) = (ok tt, record { values = values ++ null_value ∷ [] })
  settle_add len (ok no, values) = (ok tt, record { values = values })
  settle_add len (err e, values) = (err e, record { values = take len values })

  unfoldable pub add : Encoder F → TursoArguments F → Result (Unit {0}) Message × TursoArguments F
  add encode args = settle_add (length args.values) (encode args.values)

  -- `format_placeholder`: the text of the next argument's placeholder
  unfoldable format_placeholder : TursoArguments F → Text
  unfolding show_nat
  format_placeholder args = codes "?" ++ show_nat (length args.values + 1)

  -- What `add` should leave, where the encoder has pushed some values and then said `result`.
  abbrev added :
      Result IsNull Message
      → Buffer F
      → TursoArguments F
      → Result (Unit {0}) Message × TursoArguments F
  added (ok yes) pushed args =
      (ok tt, record { values = args.values ++ (pushed ++ null_value ∷ []) })
  added (ok no) pushed args = (ok tt, record { values = args.values ++ pushed })
  added (err e) pushed args = (err e, args)

  -- `add` is all or nothing: with an encoder that pushes values behind those that are there, what
  -- it pushed is kept, and one NULL more where it says so; where it fails, the arguments are those
  -- from before, whatever it had pushed.
  pub add-added :
      (encode : Encoder F) (args : TursoArguments F) (result : Result IsNull Message)
      → (pushed : Buffer F) → encode args.values ≡ (result, args.values ++ pushed)
      → add encode args ≡ added result pushed args
  unfolding add
  add-added encode args (ok yes) pushed h =
      ap (settle_add (length args.values)) h
      ∙ ap (λ m. (ok tt, record { values = m })) (append_assoc args.values pushed (null_value ∷ []))
  add-added encode args (ok no) pushed h = ap (settle_add (length args.values)) h
  add-added encode args (err e) pushed h =
      ap (settle_add (length args.values)) h
      ∙ ap (λ m. (err e, record { values = m })) (take-length-append args.values pushed)
