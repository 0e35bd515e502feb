-- ===== src/Value/Time.antt =====
-- crates/sqlx-turso-core/src/value.rs: `Encode` and `Decode` of the types of `time`. The crate is a
-- parameter; a format is named by the text that the macro `format_description!` is given.
use sqlx_turso.Base.{Result, ok, err, ◌>>=◌, ℤ, Option, none, some, List, [], ◌∷◌}
use sqlx_turso.Text.{Text, codes}
use sqlx_turso.Error.{Message, real_datetime}
use sqlx_turso.Value.{TursoValue, as_text}
use sqlx_turso.Value.Integers.{IsNull, Buffer}
use sqlx_turso.Value.Codec.{boxed, push_text}
use sqlx_turso.Value.Chrono.{
  TemporalValue, temporal_text, temporal_integer, temporal_real, text_or_integer_or_real,
  first_parsed, or_invalid_time,
}

pub record TimeCrate : Type 1 where
  pub OffsetDateTime : Type 0
  pub PrimitiveDateTime : Type 0
  pub Date : Type 0
  pub Time : Type 0
  pub parse_rfc3339 : Text → Option OffsetDateTime
  pub format_rfc3339 : OffsetDateTime → Result Text Text
  pub from_unix_timestamp : ℤ → Result OffsetDateTime Text
  pub assume_utc : PrimitiveDateTime → OffsetDateTime
  pub date_of : OffsetDateTime → Date
  pub time_of : OffsetDateTime → Time
  pub new_primitive : Date → Time → PrimitiveDateTime
  pub parse_primitive : Text → Text → Result PrimitiveDateTime Text
  pub format_primitive : PrimitiveDateTime → Text → Result Text Text
  pub parse_date : Text → Text → Result Date Text
  pub format_date : Date → Text → Result Text Text
  pub parse_time : Text → Text → Option Time
  pub format_time : Time → Text → Result Text Text

abbrev pub default_format : Text
default_format = codes "[year]-[month]-[day] [hour]:[minute]:[second].[subsecond]"

abbrev t_format : Text
t_format = codes "[year]-[month]-[day]T[hour]:[minute]:[second].[subsecond]"

abbrev pub date_format : Text
date_format = codes "[year]-[month]-[day]"

abbrev pub time_format : Text
time_format = codes "[hour]:[minute]:[second].[subsecond]"

abbrev time_formats : List Text
time_formats = time_format ∷ codes "[hour]:[minute]:[second]" ∷ codes "[hour]:[minute]" ∷ []

-- `if let Ok(..) = .. { return .. }`, and `or_else`.
abbrev or_result : {A : Type 0} → Result A Text → Result A Message → Result A Message
or_result (ok a) rest = ok a
or_result (err _) rest = rest

abbrev or_else : {A : Type 0} → Option A → Result A Message → Result A Message
or_else none rest = rest
or_else (some a) rest = ok a

module _ (c : TimeCrate) where
  unfoldable pub decode_time_primitive_datetime_from_text :
      Text → Result c.PrimitiveDateTime Message
  decode_time_primitive_datetime_from_text s =
      or_result (c.parse_primitive s default_format) (boxed (c.parse_primitive s t_format))

  unfoldable pub offset_of_temporal :
      {F : Type 0} → TemporalValue F → Result c.OffsetDateTime Message
  unfolding decode_time_primitive_datetime_from_text
  offset_of_temporal (temporal_text s) =
      or_else (c.parse_rfc3339 s)
        (decode_time_primitive_datetime_from_text s >>= λ d. ok (c.assume_utc d))
  offset_of_temporal (temporal_integer n) = boxed (c.from_unix_timestamp n)
  offset_of_temporal (temporal_real _) = err real_datetime

  unfoldable pub decode_time_offset_datetime :
      {F : Type 0} → TursoValue F → Result c.OffsetDateTime Message
  unfolding text_or_integer_or_real offset_of_temporal
  decode_time_offset_datetime v = do t ← text_or_integer_or_real v; offset_of_temporal t

  unfoldable pub primitive_of_temporal :
      {F : Type 0} → TemporalValue F → Result c.PrimitiveDateTime Message
  unfolding decode_time_primitive_datetime_from_text
  primitive_of_temporal (temporal_text s) = decode_time_primitive_datetime_from_text s
  primitive_of_temporal (temporal_integer n) = do
    parsed ← boxed (c.from_unix_timestamp n)
    ok (c.new_primitive (c.date_of parsed) (c.time_of parsed))
  primitive_of_temporal (temporal_real _) = err real_datetime

  unfoldable pub decode_time_primitive_datetime :
      {F : Type 0} → TursoValue F → Result c.PrimitiveDateTime Message
  unfolding text_or_integer_or_real primitive_of_temporal
  decode_time_primitive_datetime v = do t ← text_or_integer_or_real v; primitive_of_temporal t

  unfoldable pub encode_offset_datetime :
      {F : Type 0} → c.OffsetDateTime → Buffer F → Result IsNull Message × Buffer F
  encode_offset_datetime d buf = push_text (c.format_rfc3339 d) buf

  unfoldable pub encode_primitive_datetime :
      {F : Type 0} → c.PrimitiveDateTime → Buffer F → Result IsNull Message × Buffer F
  encode_primitive_datetime d buf = push_text (c.format_primitive d default_format) buf

  unfoldable pub encode_date : {F : Type 0} → c.Date → Buffer F → Result IsNull Message × Buffer F
  encode_date d buf = push_text (c.format_date d date_format) buf

  unfoldable pub decode_date : {F : Type 0} → TursoValue F → Result c.Date Message
  unfolding as_text
  decode_date v = do s ← as_text v; boxed (c.parse_date s date_format)

  unfoldable pub encode_time : {F : Type 0} → c.Time → Buffer F → Result IsNull Message × Buffer F
  encode_time t buf = push_text (c.format_time t time_format) buf

  unfoldable pub decode_time : {F : Type 0} → TursoValue F → Result c.Time Message
  unfolding as_text
  decode_time v = do s ← as_text v; or_invalid_time s (first_parsed (c.parse_time s) time_formats)
