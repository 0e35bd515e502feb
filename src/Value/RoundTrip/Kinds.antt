-- ===== src/Value/RoundTrip/Kinds.antt =====
-- Which kinds of values each Rust type is decoded from, and the timestamp of a Julian day.
use sqlx_turso.Base.{
  Result, ok, err, ℤ, pos, negsuc, pos_part, neg_part, ℕ, zero, suc, ◌+◌, ◌*◌, ◌≤◌, ◌<◌, ◌≡◌, refl,
  Bool, true, false, arith,
}
use sqlx_turso.TypeInfo.{TursoTypeInfo}
use sqlx_turso.Value.{
  TursoValueKind, null, integer, real, text, blob, TursoValue, as_integer, as_real, as_text,
  as_blob,
}
use sqlx_turso.Value.Types.{
  RustType, integer_type, bool_type, float_type, str_type, bytes_type, uuid_type, uuid_hyphenated,
  uuid_simple, json_type, chrono_datetime, chrono_naive_datetime, chrono_naive_date,
  chrono_naive_time, time_offset_datetime, time_primitive_datetime, time_date, time_time,
}
use sqlx_turso.Value.Integers.{i64, decode_integer, decode_bool}
use sqlx_turso.Value.Codec.{
  FloatType, UuidCrate, JsonType, decode_float, decode_str, decode_bytes, decode_uuid,
  decode_hyphenated, decode_simple, decode_json,
}
use sqlx_turso.Value.Chrono.{
  text_or_integer_or_real, FloatOps, ChronoCrate, julian_timestamp, whole_seconds, nanos_after,
  carried, decode_chrono_datetime_from_real, decode_chrono_datetime, decode_naive_datetime,
  decode_naive_date, decode_naive_time,
}
use sqlx_turso.Value.Time.{
  TimeCrate, offset_of_temporal, decode_time_offset_datetime, primitive_of_temporal,
  decode_time_primitive_datetime, decode_date, decode_time,
}

abbrev is_ok : {A E : Type 0} → Result A E → Bool
is_ok (ok _) = true
is_ok (err _) = false

-- The other crates, and the casts of floats.
pub record Crates (F : Type 0) : Type 1 where
  pub float : FloatType F
  pub ops : FloatOps F
  pub uuid : UuidCrate
  pub json : JsonType
  pub chrono : ChronoCrate
  pub time : TimeCrate

-- Whether the type's decoder takes the value; an integer type is the widest, `i64`.
abbrev decodes : {F : Type 0} → Crates F → RustType → TursoValue F → Bool
decodes c integer_type v = is_ok (decode_integer i64 v)
decodes c bool_type v = is_ok (decode_bool v)
decodes c float_type v = is_ok (decode_float c.float v)
decodes c str_type v = is_ok (decode_str v)
decodes c bytes_type v = is_ok (decode_bytes v)
decodes c uuid_type v = is_ok (decode_uuid c.uuid v)
decodes c uuid_hyphenated v = is_ok (decode_hyphenated c.uuid v)
decodes c uuid_simple v = is_ok (decode_simple c.uuid v)
decodes c json_type v = is_ok (decode_json c.json v)
decodes c chrono_datetime v = is_ok (decode_chrono_datetime c.chrono c.ops v)
decodes c chrono_naive_datetime v = is_ok (decode_naive_datetime c.chrono c.ops v)
decodes c chrono_naive_date v = is_ok (decode_naive_date c.chrono v)
decodes c chrono_naive_time v = is_ok (decode_naive_time c.chrono v)
decodes c time_offset_datetime v = is_ok (decode_time_offset_datetime c.time v)
decodes c time_primitive_datetime v = is_ok (decode_time_primitive_datetime c.time v)
decodes c time_date v = is_ok (decode_date c.time v)
decodes c time_time v = is_ok (decode_time c.time v)

-- The types that are read from an integer, a float, a text and a blob; none is read from NULL.
abbrev takes_integer : RustType → Bool
takes_integer integer_type = true
takes_integer bool_type = true
takes_integer float_type = true
takes_integer chrono_datetime = true
takes_integer chrono_naive_datetime = true
takes_integer time_offset_datetime = true
takes_integer time_primitive_datetime = true
takes_integer _ = false

abbrev takes_real : RustType → Bool
takes_real float_type = true
takes_real chrono_datetime = true
takes_real chrono_naive_datetime = true
takes_real _ = false

abbrev takes_text : RustType → Bool
takes_text integer_type = false
takes_text bool_type = false
takes_text float_type = false
takes_text bytes_type = false
takes_text _ = true

abbrev takes_blob : RustType → Bool
takes_blob bytes_type = true
takes_blob uuid_type = true
takes_blob json_type = true
takes_blob _ = false

abbrev pub accepts : {F : Type 0} → RustType → TursoValueKind F → Bool
accepts r null = false
accepts r (integer _) = takes_integer r
accepts r (real _) = takes_real r
accepts r (text _) = takes_text r
accepts r (blob _) = takes_blob r

-- No decoder reads more than its kinds: where it takes a value, the value is of a kind that the
-- type is read from. NULL is of none; a number is never read from a text nor a text from a number,
-- and a time of the crate `time` never from a float.
pub accepts-decodes :
    {F : Type 0} (c : Crates F) (r : RustType) (v : TursoValue F)
    → decodes c r v ≡ true
    → accepts r v.kind ≡ true
unfolding decode_integer decode_bool decode_float decode_str decode_bytes decode_uuid
    decode_hyphenated decode_simple decode_json decode_chrono_datetime decode_naive_datetime
    decode_naive_date decode_naive_time decode_time_offset_datetime decode_time_primitive_datetime
    decode_date decode_time text_or_integer_or_real offset_of_temporal primitive_of_temporal
    as_integer as_real as_text as_blob
accepts-decodes {F} c r v = by_kind r v.type_info v.kind
  where
    by_kind :
        (r : RustType) (i : TursoTypeInfo) (k : TursoValueKind F)
        → decodes c r (record { type_info = i; kind = k }) ≡ true
        → accepts r k ≡ true
    by_kind integer_type i k h = ground arith
    by_kind bool_type i k h = ground arith
    by_kind float_type i k h = ground arith
    by_kind str_type i k h = ground arith
    by_kind bytes_type i k h = ground arith
    by_kind uuid_type i k h = ground arith
    by_kind uuid_hyphenated i k h = ground arith
    by_kind uuid_simple i k h = ground arith
    by_kind json_type i k h = ground arith
    by_kind chrono_datetime i k h = ground arith
    by_kind chrono_naive_datetime i k h = ground arith
    by_kind chrono_naive_date i k h = ground arith
    by_kind chrono_naive_time i k h = ground arith
    by_kind time_offset_datetime i null h = h
    by_kind time_offset_datetime i (integer _) h = refl
    by_kind time_offset_datetime i (real _) h = h
    by_kind time_offset_datetime i (text _) h = refl
    by_kind time_offset_datetime i (blob _) h = h
    by_kind time_primitive_datetime i null h = h
    by_kind time_primitive_datetime i (integer _) h = refl
    by_kind time_primitive_datetime i (real _) h = h
    by_kind time_primitive_datetime i (text _) h = refl
    by_kind time_primitive_datetime i (blob _) h = h
    by_kind time_date i k h = ground arith
    by_kind time_time i k h = ground arith

abbrev pub second_in_nanos : ℕ
second_in_nanos = 1000000000

-- That `s` seconds and `n` nanoseconds are `q` seconds and `m` nanoseconds.
abbrev pub SameInstant : ℤ → ℕ → ℤ → ℕ → Type 0
SameInstant s n q m =
    pos_part s * second_in_nanos + n + neg_part q * second_in_nanos
    ≡ pos_part q * second_in_nanos + m + neg_part s * second_in_nanos

carried-SameInstant :
    (q : ℤ) (m : ℕ)
    → m ≤ second_in_nanos
    → ((carried q m).1 < second_in_nanos) × SameInstant (carried q m).0 (carried q m).1 q m
carried-SameInstant (pos k) m h = ground arith
carried-SameInstant (negsuc zero) m h = ground arith
carried-SameInstant (negsuc (suc k)) m h = ground arith

-- A Julian day whose timestamp is finite, and whose rounded nanoseconds are at most a full second,
-- is read as `timestamp_opt` of less than a second of nanoseconds, at the same instant.
pub decode_real-SameInstant :
    {F : Type 0} (c : ChronoCrate) (ops : FloatOps F) (x : F)
    → ops.is_finite (julian_timestamp ops x) ≡ true
    → nanos_after ops (julian_timestamp ops x) ≤ second_in_nanos
    → (s : ℤ) × (n : ℕ) × (n < second_in_nanos)
      × SameInstant s n
          (whole_seconds ops (julian_timestamp ops x))
          (nanos_after ops (julian_timestamp ops x))
      × (decode_chrono_datetime_from_real c ops x ≡ c.timestamp_opt s n)
unfolding decode_chrono_datetime_from_real
decode_real-SameInstant c ops x h k =
    let at =
      carried (whole_seconds ops (julian_timestamp ops x))
        (nanos_after ops (julian_timestamp ops x)) in
    let p =
      carried-SameInstant (whole_seconds ops (julian_timestamp ops x))
        (nanos_after ops (julian_timestamp ops x)) k in
    (at.0, at.1, p.0, p.1, rw h refl)
