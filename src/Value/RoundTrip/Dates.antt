-- ===== src/Value/RoundTrip/Dates.antt =====
-- The round trips of the types of `chrono` and `time`.
use sqlx_turso.Base.{ok, ◌≡◌, refl, ap, none, some}
use sqlx_turso.Text.{codes, Text}
use sqlx_turso.TypeInfo.{TursoTypeInfo}
use sqlx_turso.Value.{as_text}
use sqlx_turso.Value.Integers.{Buffer}
use sqlx_turso.Value.Codec.{Codec, boxed, push_text}
use sqlx_turso.Value.Chrono.{
  text_or_integer_or_real, FloatOps, ChronoCrate, encode_datetime, decode_chrono_datetime_from_text,
  decode_chrono_datetime, decode_utc, decode_naive_datetime, encode_naive_datetime,
  encode_naive_date, decode_naive_date, encode_naive_time, decode_naive_time,
}
use sqlx_turso.Value.RoundTrip.{Carries, text-Carries}
use sqlx_turso.Value.Time.{
  TimeCrate, default_format, date_format, time_format, decode_time_primitive_datetime_from_text,
  offset_of_temporal, decode_time_offset_datetime, primitive_of_temporal,
  decode_time_primitive_datetime, encode_offset_datetime, encode_primitive_datetime, encode_date,
  decode_date, encode_time, decode_time,
}

module _ {F : Type 0} (c : ChronoCrate) (ops : FloatOps F) where
  abbrev pub datetime_codec : Codec F c.DateTime
  datetime_codec = record {
    encode = encode_datetime c.to_rfc3339;
    decode = decode_chrono_datetime c ops;
  }

  abbrev pub utc_codec : Codec F c.DateTimeUtc
  utc_codec = record { encode = encode_datetime c.utc_to_rfc3339; decode = decode_utc c ops }

  abbrev pub naive_datetime_codec : Codec F c.NaiveDateTime
  naive_datetime_codec = record {
    encode = encode_naive_datetime c;
    decode = decode_naive_datetime c ops;
  }

abbrev pub naive_date_codec : {F : Type 0} (c : ChronoCrate) → Codec F c.NaiveDate
naive_date_codec c = record { encode = encode_naive_date c; decode = decode_naive_date c }

abbrev pub naive_time_codec : {F : Type 0} (c : ChronoCrate) → Codec F c.NaiveTime
naive_time_codec c = record { encode = encode_naive_time c; decode = decode_naive_time c }

-- What `chrono` documents of a date and time without offset: its text is no RFC 3339 text and no
-- date and time with an offset, the format that wrote it reads it, and UTC has the offset 0.
pub record IsNaive (c : ChronoCrate) (d : c.NaiveDateTime) : Type 0 where
  pub no_rfc3339 : c.parse_from_rfc3339 (c.format_naive d (codes "%F %T%.f")) ≡ none
  pub no_offset :
      c.datetime_parse_from_str (c.format_naive d (codes "%F %T%.f")) (codes "%F %T%.f") ≡ none
  pub reads :
      c.naive_parse_from_str (c.format_naive d (codes "%F %T%.f")) (codes "%F %T%.f") ≡ some d
  pub utc_offset : c.naive_local (c.utc_fix d) ≡ d

-- And of a time: the first format, which asks for a letter `f`, does not read its text.
pub record IsTime (c : ChronoCrate) (at : c.NaiveTime) : Type 0 where
  pub no_letter : c.time_parse_from_str (c.format_time at (codes "%T%.f")) (codes "%T.f") ≡ none
  pub reads : c.time_parse_from_str (c.format_time at (codes "%T%.f")) (codes "%T%.f") ≡ some at

module _ {F : Type 0} (c : ChronoCrate) (ops : FloatOps F) (t : TursoTypeInfo)
    (buf : Buffer F) where
  -- A date and time with an offset whose RFC 3339 text reads as that date and time decodes to
  -- itself.
  pub datetime-Carries :
      (d : c.DateTime)
      → c.parse_from_rfc3339 (c.to_rfc3339 d) ≡ some d
      → Carries (datetime_codec c ops) t buf d
  unfolding encode_datetime decode_chrono_datetime text_or_integer_or_real
      decode_chrono_datetime_from_text
  datetime-Carries d h =
      text-Carries (datetime_codec c ops) t buf d (c.to_rfc3339 d) refl (λ i. rw h refl)

  -- And so does one in UTC whose text reads as a date and time with its UTC reading.
  pub utc-Carries :
      (u : c.DateTimeUtc) (e : c.DateTime)
      → c.parse_from_rfc3339 (c.utc_to_rfc3339 u) ≡ some e
      → c.utc_from (c.naive_utc e) ≡ u
      → Carries (utc_codec c ops) t buf u
  unfolding encode_datetime decode_chrono_datetime decode_utc text_or_integer_or_real
      decode_chrono_datetime_from_text
  utc-Carries u e k l =
      text-Carries (utc_codec c ops) t buf u (c.utc_to_rfc3339 u) refl (λ i. rw k (ap ok l))

  -- A date and time without offset decodes to itself: neither RFC 3339 nor an offset reads its
  -- text, and the first of the twelve formats does, as UTC.
  pub naive_datetime-Carries :
      (d : c.NaiveDateTime) → IsNaive c d → Carries (naive_datetime_codec c ops) t buf d
  unfolding encode_naive_datetime decode_naive_datetime decode_chrono_datetime
      text_or_integer_or_real decode_chrono_datetime_from_text
  naive_datetime-Carries d h =
      text-Carries (naive_datetime_codec c ops) t buf d (c.format_naive d (codes "%F %T%.f")) refl
        (λ i. rw (h.no_rfc3339, h.no_offset, h.reads) (ap ok h.utc_offset))

  -- A date and a time decode to themselves.
  pub naive_date-Carries :
      (day : c.NaiveDate)
      → c.date_parse_from_str (c.format_date day (codes "%F")) (codes "%F") ≡ ok day
      → Carries (naive_date_codec c) t buf day
  unfolding encode_naive_date decode_naive_date as_text
  naive_date-Carries day h =
      text-Carries (naive_date_codec c) t buf day (c.format_date day (codes "%F")) refl
        (λ i. ap boxed h)

  pub naive_time-Carries : (at : c.NaiveTime) → IsTime c at → Carries (naive_time_codec c) t buf at
  unfolding encode_naive_time decode_naive_time as_text
  naive_time-Carries at k =
      text-Carries (naive_time_codec c) t buf at (c.format_time at (codes "%T%.f")) refl
        (λ i. rw (k.no_letter, k.reads) refl)

module _ {F : Type 0} (c : TimeCrate) where
  abbrev pub offset_datetime_codec : Codec F c.OffsetDateTime
  offset_datetime_codec = record {
    encode = encode_offset_datetime c;
    decode = decode_time_offset_datetime c;
  }

  abbrev pub primitive_datetime_codec : Codec F c.PrimitiveDateTime
  primitive_datetime_codec = record {
    encode = encode_primitive_datetime c;
    decode = decode_time_primitive_datetime c;
  }

  abbrev pub date_codec : Codec F c.Date
  date_codec = record { encode = encode_date c; decode = decode_date c }

  abbrev pub time_codec : Codec F c.Time
  time_codec = record { encode = encode_time c; decode = decode_time c }

-- A value of a type of `time` that has a text which reads as it decodes to itself.
module _ {F : Type 0} (c : TimeCrate) (t : TursoTypeInfo) (buf : Buffer F) (s : Text) where
  pub offset-Carries :
      (o : c.OffsetDateTime)
      → c.format_rfc3339 o ≡ ok s
      → c.parse_rfc3339 s ≡ some o
      → Carries (offset_datetime_codec c) t buf o
  unfolding encode_offset_datetime decode_time_offset_datetime text_or_integer_or_real
      offset_of_temporal
  offset-Carries o h k =
      text-Carries (offset_datetime_codec c) t buf o s (ap (λ r. push_text r buf) h)
        (λ i. rw k refl)

  pub primitive-Carries :
      (p : c.PrimitiveDateTime)
      → c.format_primitive p default_format ≡ ok s
      → c.parse_primitive s default_format ≡ ok p
      → Carries (primitive_datetime_codec c) t buf p
  unfolding encode_primitive_datetime decode_time_primitive_datetime
      decode_time_primitive_datetime_from_text text_or_integer_or_real primitive_of_temporal
  primitive-Carries p h k =
      text-Carries (primitive_datetime_codec c) t buf p s (ap (λ r. push_text r buf) h)
        (λ i. rw k refl)

  pub date-Carries :
      (d : c.Date)
      → c.format_date d date_format ≡ ok s
      → c.parse_date s date_format ≡ ok d
      → Carries (date_codec c) t buf d
  unfolding encode_date decode_date as_text
  date-Carries d h k =
      text-Carries (date_codec c) t buf d s (ap (λ r. push_text r buf) h) (λ i. rw k refl)

  pub time-Carries :
      (at : c.Time)
      → c.format_time at time_format ≡ ok s
      → c.parse_time s time_format ≡ some at
      → Carries (time_codec c) t buf at
  unfolding encode_time decode_time as_text
  time-Carries at h k =
      text-Carries (time_codec c) t buf at s (ap (λ r. push_text r buf) h) (λ i. rw k refl)
