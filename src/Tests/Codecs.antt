-- ===== src/Tests/Codecs.antt =====
-- The theorems on values, with crates whose values are their texts.
use sqlx_turso.Base.{
  ltb, ◌==◌, if◌then◌else◌, ok, ℤ, pos, pos_part, ℕ, ◌-◌, ◌<◌, ◌≡◌, refl, true, Option, none, some,
  List, [], ◌∷◌, arith,
}
use sqlx_turso.Text.{Text, codes, text_eq}
use sqlx_turso.TypeInfo.{TursoTypeInfo, new as type_named}
use sqlx_turso.Value.{text, text_value}
use sqlx_turso.Value.Types.{uuid_type}
use sqlx_turso.Value.Codec.{FloatType, UuidCrate, JsonType, decode_uuid}
use sqlx_turso.Value.Chrono.{FloatOps, ChronoCrate, decode_chrono_datetime_from_real}
use sqlx_turso.Value.Time.{TimeCrate}
use sqlx_turso.Value.Integers.{i8, fits, EncodedType}
use sqlx_turso.Arguments.{TursoArguments, into_turso_values}
use sqlx_turso.Value.RoundTrip.Bound.{
  add_all, Reads, AllI64, Bindable, of_integer, of_string, of_naive_datetime, of_offset, arguments,
  add_all-Reads,
}
use sqlx_turso.Value.RoundTrip.Kinds.{
  Crates, accepts, accepts-decodes, second_in_nanos, SameInstant, decode_real-SameInstant,
}

abbrev floats : FloatType ℕ
floats = record { Float = ℕ; into_f64 = λ x. x; as_float = λ x. x; of_integer = pos_part }

abbrev uuids : UuidCrate
uuids = record {
  Uuid = List ℕ;
  as_bytes = λ u. u;
  from_slice = λ b. ok b;
  parse_str = λ s. ok s;
  show_hyphenated = λ u. u;
  show_simple = λ u. u;
}

abbrev jsons : JsonType
jsons = record {
  Json = Text;
  encode_to_string = λ x. ok x;
  decode_from_string = λ s. ok s;
  decode_from_bytes = λ b. ok b;
}

-- A date and time without offset is a text; one with an offset has `+` in front.
abbrev with_plus : Text → Option Text
with_plus [] = none
with_plus (c ∷ s) = if c == b'+' then some s else none

abbrev without_plus : Text → Option Text
without_plus [] = none
without_plus (c ∷ s) = if c == b'+' then none else some (c ∷ s)

abbrev in_format : Text → Text → Option Text
in_format s f = if text_eq f (codes "%T%.f") then some s else none

abbrev chronos : ChronoCrate
chronos = record {
  DateTime = Text;
  DateTimeUtc = Text;
  DateTimeLocal = Text;
  NaiveDateTime = Text;
  NaiveDate = Text;
  NaiveTime = Text;
  parse_from_rfc3339 = with_plus;
  datetime_parse_from_str = λ s f. with_plus s;
  naive_parse_from_str = λ s f. without_plus s;
  date_parse_from_str = λ s f. ok s;
  time_parse_from_str = in_format;
  utc_fix = λ s. s;
  timestamp_opt = λ n m. if ltb m second_in_nanos then some (codes "then") else none;
  naive_utc = λ s. s;
  naive_local = λ s. s;
  utc_from = λ s. s;
  local_from = λ s. s;
  to_rfc3339 = λ s. b'+' ∷ s;
  utc_to_rfc3339 = λ s. b'+' ∷ s;
  local_to_rfc3339 = λ s. b'+' ∷ s;
  format_naive = λ s f. s;
  format_date = λ s f. s;
  format_time = λ s f. s;
}

-- Numbers of nanoseconds since 1970, so that a day is a nanosecond and every product is the first
-- factor.
abbrev numbers : FloatOps ℕ
numbers = record {
  sub = λ a b. a - b;
  mul = λ a b. a;
  is_finite = λ _. true;
  floor = λ a. a;
  round = λ a. a;
  as_i64 = λ a. pos 0;
  as_u32 = λ a. a;
  of_i64 = pos_part;
  unix_epoch = 0;
  seconds_per_day = 1;
  nanos_per_second = 1;
}

abbrev times : TimeCrate
times = record {
  OffsetDateTime = Text;
  PrimitiveDateTime = Text;
  Date = Text;
  Time = Text;
  parse_rfc3339 = λ s. some s;
  format_rfc3339 = λ s. ok s;
  from_unix_timestamp = λ n. ok (codes "then");
  assume_utc = λ s. s;
  date_of = λ s. s;
  time_of = λ s. s;
  new_primitive = λ d t. d;
  parse_primitive = λ s f. ok s;
  format_primitive = λ s f. ok s;
  parse_date = λ s f. ok s;
  format_date = λ s f. ok s;
  parse_time = λ s f. some s;
  format_time = λ s f. ok s;
}

abbrev crates : Crates ℕ
crates = record {
  float = floats;
  ops = numbers;
  uuid = uuids;
  json = jsons;
  chrono = chronos;
  time = times;
}

abbrev column : TursoTypeInfo
column = type_named (codes "TEXT")

abbrev noon : Text
noon = codes "12:00:00"

abbrev byte : EncodedType
byte = record { type = i8; encodes = refl }

-- Four values, bound in a row.
abbrev bound : List (TursoTypeInfo × Bindable crates)
bound =
    (type_named (codes "INTEGER"), of_integer byte (pos 5))
    ∷ (column, of_string noon)
    ∷ (column, of_naive_datetime (codes "2024-01-01 12:00:00"))
    ∷ (column, of_offset noon noon)
    ∷ []

add_all-Reads_example :
    (args : TursoArguments ℕ) × (add_all (arguments crates bound) (record { values = [] })
      ≡ (ok tt, args))
    × Reads (arguments crates bound) (into_turso_values args)
    × AllI64 args.values
unfolding fits
add_all-Reads_example = add_all-Reads crates bound (
  refl,
  (
    tt,
    (
      record { no_rfc3339 = refl; no_offset = refl; reads = refl; utc_offset = refl },
      ((refl, refl), tt),
    ),
  ),
)

accepts-decodes_example : accepts {F = ℕ} uuid_type (text noon) ≡ true
unfolding decode_uuid
accepts-decodes_example = accepts-decodes crates uuid_type (text_value noon) refl

decode_real-SameInstant_example :
    (s : ℤ) × (n : ℕ) × (n < second_in_nanos)
    × SameInstant s n (pos 0) second_in_nanos
    × (decode_chrono_datetime_from_real chronos numbers second_in_nanos ≡ chronos.timestamp_opt s n)
decode_real-SameInstant_example =
    decode_real-SameInstant chronos numbers second_in_nanos refl (omega arith)
