-- ===== src/Value/Chrono.antt =====
-- crates/sqlx-turso-core/src/value.rs: `Encode` and `Decode` of the types of `chrono`. The crate is a
-- parameter, and so is the arithmetic of `f64` that reads a Julian day.
use sqlx_turso.Base.{
  ◌==◌, if◌then◌else◌, Result, ok, err, ◌>>=◌, ℤ, pos, negsuc, ℕ, zero, suc, ◌+◌, Bool, not, Option,
  none, some, List, [], ◌∷◌,
}
use sqlx_turso.Text.{Text, codes}
use sqlx_turso.Error.{Message, unsupported, invalid_time, invalid_datetime}
use sqlx_turso.Value.{integer, real, text, TursoValue, text_value, as_text}
use sqlx_turso.Value.Integers.{IsNull, Buffer}
use sqlx_turso.Value.Codec.{boxed, push}

-- `TursoTemporalValue`
pub data TemporalValue (F : Type 0) : Type 0 where
  temporal_text : Text → TemporalValue F
  temporal_integer : ℤ → TemporalValue F
  temporal_real : F → TemporalValue F

unfoldable pub text_or_integer_or_real :
    {F : Type 0} → TursoValue F → Result (TemporalValue F) Message
text_or_integer_or_real v = elim (v.kind) [
  | text s ↦ ok (temporal_text s)
  | integer n ↦ ok (temporal_integer n)
  | real x ↦ ok (temporal_real x)
  | _ ↦ err (unsupported (codes "decoding non-temporal Turso value as temporal"))
]

-- `f64`: its operators, the three literals, and the casts, which saturate.
pub record FloatOps (F : Type 0) : Type 0 where
  pub sub : F → F → F
  pub mul : F → F → F
  pub is_finite : F → Bool
  pub floor : F → F
  pub round : F → F
  pub as_i64 : F → ℤ
  pub as_u32 : F → ℕ
  pub of_i64 : ℤ → F
  pub unix_epoch : F
  pub seconds_per_day : F
  pub nanos_per_second : F

-- What is called of `chrono`, where only `Ok` of a parser is used an `Option`. `DateTime` has a fixed
-- offset; `utc_fix` and `timestamp_opt` are those of `Utc.fix()`, the latter with `single`.
pub record ChronoCrate : Type 1 where
  pub DateTime : Type 0
  pub DateTimeUtc : Type 0
  pub DateTimeLocal : Type 0
  pub NaiveDateTime : Type 0
  pub NaiveDate : Type 0
  pub NaiveTime : Type 0
  pub parse_from_rfc3339 : Text → Option DateTime
  pub datetime_parse_from_str : Text → Text → Option DateTime
  pub naive_parse_from_str : Text → Text → Option NaiveDateTime
  pub date_parse_from_str : Text → Text → Result NaiveDate Text
  pub time_parse_from_str : Text → Text → Option NaiveTime
  pub utc_fix : NaiveDateTime → DateTime
  pub timestamp_opt : ℤ → ℕ → Option DateTime
  pub naive_utc : DateTime → NaiveDateTime
  pub naive_local : DateTime → NaiveDateTime
  pub utc_from : NaiveDateTime → DateTimeUtc
  pub local_from : NaiveDateTime → DateTimeLocal
  pub to_rfc3339 : DateTime → Text
  pub utc_to_rfc3339 : DateTimeUtc → Text
  pub local_to_rfc3339 : DateTimeLocal → Text
  pub format_naive : NaiveDateTime → Text → Text
  pub format_date : NaiveDate → Text → Text
  pub format_time : NaiveTime → Text → Text

-- `if let Ok(..) = .. { return .. }` and what follows it.
abbrev or_parsed : {A : Type 0} → Option A → Option A → Option A
or_parsed none rest = rest
or_parsed (some a) rest = some a

-- The loop over the formats.
abbrev pub first_parsed : {A : Type 0} → (Text → Option A) → List Text → Option A
first_parsed parse [] = none
first_parsed parse (f ∷ fs) = or_parsed (parse f) (first_parsed parse fs)

abbrev parsed_map : {A B : Type 0} → (A → B) → Option A → Option B
parsed_map f none = none
parsed_map f (some a) = some (f a)

abbrev pub or_invalid_time : {A : Type 0} → Text → Option A → Result A Message
or_invalid_time s none = err (invalid_time s)
or_invalid_time s (some a) = ok a

abbrev sqlite_datetime_formats : List Text
sqlite_datetime_formats =
    codes "%F %T%.f"
    ∷ codes "%F %R"
    ∷ codes "%F %RZ"
    ∷ codes "%F %R%:z"
    ∷ codes "%F %T%.fZ"
    ∷ codes "%F %T%.f%:z"
    ∷ codes "%FT%R"
    ∷ codes "%FT%RZ"
    ∷ codes "%FT%R%:z"
    ∷ codes "%FT%T%.f"
    ∷ codes "%FT%T%.fZ"
    ∷ codes "%FT%T%.f%:z"
    ∷ []

abbrev sqlite_time_formats : List Text
sqlite_time_formats =
    codes "%T.f"
    ∷ codes "%T%.f"
    ∷ codes "%R"
    ∷ codes "%RZ"
    ∷ codes "%T%.fZ"
    ∷ codes "%R%:z"
    ∷ codes "%T%.f%:z"
    ∷ []

abbrev next_second : ℤ → ℤ
next_second (pos n) = pos (n + 1)
next_second (negsuc zero) = pos 0
next_second (negsuc (suc n)) = negsuc n

module _ {F : Type 0} (ops : FloatOps F) where
  abbrev pub julian_timestamp : F → F
  julian_timestamp x = ops.mul (ops.sub x ops.unix_epoch) ops.seconds_per_day

  abbrev pub whole_seconds : F → ℤ
  whole_seconds timestamp = ops.as_i64 (ops.floor timestamp)

  abbrev pub nanos_after : F → ℕ
  nanos_after timestamp = ops.as_u32 (
      ops.round
        (ops.mul (ops.sub timestamp (ops.of_i64 (whole_seconds timestamp))) ops.nanos_per_second))

-- The seconds and nanoseconds that are asked for: a full second of nanoseconds is carried. The sum
-- does not overflow an `i64`: where the seconds saturate, neighbouring floats are more than a second
-- apart, so that the nanoseconds are no full second.
abbrev pub carried : ℤ → ℕ → ℤ × ℕ
carried seconds nanos = if nanos == 1000000000 then (next_second seconds, 0) else (seconds, nanos)

-- `Encode` of `DateTime<Tz>`, by the time zone's writer.
unfoldable pub encode_datetime :
    {F D : Type 0} → (D → Text) → D → Buffer F → Result IsNull Message × Buffer F
encode_datetime to_rfc3339 d buf = push (text_value (to_rfc3339 d)) buf

module _ (c : ChronoCrate) where
  -- One step of the loop over the formats.
  abbrev parse_datetime : Text → Text → Option c.DateTime
  parse_datetime s f =
      or_parsed (c.datetime_parse_from_str s f) (parsed_map c.utc_fix (c.naive_parse_from_str s f))

  unfoldable pub decode_chrono_datetime_from_text : Text → Option c.DateTime
  decode_chrono_datetime_from_text s =
      or_parsed (c.parse_from_rfc3339 s) (first_parsed (parse_datetime s) sqlite_datetime_formats)

  unfoldable decode_chrono_datetime_from_int : ℤ → Option c.DateTime
  decode_chrono_datetime_from_int n = c.timestamp_opt n 0

  unfoldable pub decode_chrono_datetime_from_real :
      {F : Type 0} → FloatOps F → F → Option c.DateTime
  decode_chrono_datetime_from_real ops x =
      let timestamp = julian_timestamp ops x in
      let at = carried (whole_seconds ops timestamp) (nanos_after ops timestamp) in
      if not (ops.is_finite timestamp) then none else c.timestamp_opt at.0 at.1

  abbrev or_invalid : Option c.DateTime → Result c.DateTime Message
  or_invalid none = err invalid_datetime
  or_invalid (some d) = ok d

  unfoldable pub decode_chrono_datetime :
      {F : Type 0} → FloatOps F → TursoValue F → Result c.DateTime Message
  unfolding text_or_integer_or_real decode_chrono_datetime_from_text decode_chrono_datetime_from_int
      decode_chrono_datetime_from_real
  decode_chrono_datetime ops v = do
    t ← text_or_integer_or_real v
    or_invalid (elim t [
      | temporal_text s ↦ decode_chrono_datetime_from_text s
      | temporal_integer n ↦ decode_chrono_datetime_from_int n
      | temporal_real x ↦ decode_chrono_datetime_from_real ops x
    ])

  -- `Decode` of `DateTime<Utc>`, `DateTime<Local>` and `NaiveDateTime`
  unfoldable pub decode_utc :
      {F : Type 0} → FloatOps F → TursoValue F → Result c.DateTimeUtc Message
  unfolding decode_chrono_datetime
  decode_utc ops v = do d ← decode_chrono_datetime ops v; ok (c.utc_from (c.naive_utc d))

  unfoldable decode_local :
      {F : Type 0} → FloatOps F → TursoValue F → Result c.DateTimeLocal Message
  unfolding decode_chrono_datetime
  decode_local ops v = do d ← decode_chrono_datetime ops v; ok (c.local_from (c.naive_utc d))

  unfoldable pub decode_naive_datetime :
      {F : Type 0} → FloatOps F → TursoValue F → Result c.NaiveDateTime Message
  unfolding decode_chrono_datetime
  decode_naive_datetime ops v = do d ← decode_chrono_datetime ops v; ok (c.naive_local d)

  unfoldable pub encode_naive_datetime :
      {F : Type 0} → c.NaiveDateTime → Buffer F → Result IsNull Message × Buffer F
  encode_naive_datetime d buf = push (text_value (c.format_naive d (codes "%F %T%.f"))) buf

  unfoldable pub encode_naive_date :
      {F : Type 0} → c.NaiveDate → Buffer F → Result IsNull Message × Buffer F
  encode_naive_date d buf = push (text_value (c.format_date d (codes "%F"))) buf

  unfoldable pub decode_naive_date : {F : Type 0} → TursoValue F → Result c.NaiveDate Message
  unfolding as_text
  decode_naive_date v = do s ← as_text v; boxed (c.date_parse_from_str s (codes "%F"))

  unfoldable pub encode_naive_time :
      {F : Type 0} → c.NaiveTime → Buffer F → Result IsNull Message × Buffer F
  encode_naive_time t buf = push (text_value (c.format_time t (codes "%T%.f"))) buf

  unfoldable pub decode_naive_time : {F : Type 0} → TursoValue F → Result c.NaiveTime Message
  unfolding as_text
  decode_naive_time v = do
    s ← as_text v
    or_invalid_time s (first_parsed (c.time_parse_from_str s) sqlite_time_formats)
