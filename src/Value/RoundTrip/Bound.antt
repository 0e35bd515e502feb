-- ===== src/Value/RoundTrip/Bound.antt =====
-- crates/sqlx-turso-core/src/arguments.rs, value.rs and row.rs: values that are bound in a row, and read
-- from the values that the engine was given.
use sqlx_turso.Base.{
  All, Result, ok, and_then, ℤ, ℕ, ◌≡◌, sym, ap, ◌∙◌, Bool, true, some, List, [], ◌∷◌, ◌++◌, map,
  append-nil, append_assoc,
}
use sqlx_turso.Text.{Text, codes}
use sqlx_turso.Error.{Message}
use sqlx_turso.TypeInfo.{TursoTypeInfo}
use sqlx_turso.Engine.{EngineValue}
use sqlx_turso.Value.{from_turso, into_turso, with_type_info}
use sqlx_turso.Value.Integers.{fits, EncodedType, no, Buffer, IsI64}
use sqlx_turso.Value.Codec.{
  Codec, float_codec, integer_codec, bool_codec, str_codec, bytes_codec, uuid_codec,
  hyphenated_codec, simple_codec, json_codec,
}
use sqlx_turso.Value.RoundTrip.{
  Carries, UuidLaws, integer-Carries, bool-Carries, float-Carries, str-Carries, bytes-Carries,
  uuid_blob-Carries, hyphenated-Carries, simple-Carries, json-Carries,
}
use sqlx_turso.Value.RoundTrip.Dates.{
  datetime_codec, utc_codec, naive_datetime_codec, naive_date_codec, naive_time_codec, IsNaive,
  IsTime, datetime-Carries, utc-Carries, naive_datetime-Carries, naive_date-Carries,
  naive_time-Carries, offset_datetime_codec, primitive_datetime_codec, date_codec, time_codec,
  offset-Carries, primitive-Carries, date-Carries, time-Carries,
}
use sqlx_turso.Value.Time.{default_format, date_format, time_format}
use sqlx_turso.Value.RoundTrip.Kinds.{Crates}
use sqlx_turso.Arguments.{TursoArguments, add, add-added, into_turso_values}

-- A value of a Rust type, with the type that the column declares in which it comes back.
pub record Argument (F : Type 0) : Type 1 where
  pub Host : Type 0
  pub codec : Codec F Host
  pub value : Host
  pub declared : TursoTypeInfo

module _ {F : Type 0} where
  abbrev IsCarried : Argument F → Type 0
  IsCarried a = (buf : Buffer F) → Carries a.codec a.declared buf a.value

  -- The calls of `bind`, which add one argument after the other.
  abbrev pub add_all :
      List (Argument F) → TursoArguments F → Result (Unit {0}) Message × TursoArguments F
  add_all [] args = (ok tt, args)
  add_all (a ∷ later) args = and_then (λ _. add_all later) (add (a.codec.encode a.value) args)

  -- The engine's values decode to the arguments, one by one.
  abbrev pub Reads : List (Argument F) → List (EngineValue F) → Type 0
  Reads [] [] = Unit
  Reads (a ∷ later) (e ∷ es) =
      (a.codec.decode (with_type_info a.declared (from_turso e)) ≡ ok a.value) × Reads later es
  Reads _ _ = ⊥

  abbrev AllCarried : List (Argument F) → Type 0
  AllCarried [] = Unit
  AllCarried (a ∷ later) = IsCarried a × AllCarried later

  -- Every integer is an `i64`.
  abbrev pub AllI64 : Buffer F → Type 0
  AllI64 = All (λ v. IsI64 v.kind)

  -- Behind the arguments that are there.
  add_all-from :
      (later : List (Argument F)) (args : TursoArguments F)
      → AllCarried later
      → (vs : Buffer F) × (add_all later args ≡ (ok tt, record { values = args.values ++ vs }))
        × Reads later (map into_turso vs)
        × AllI64 vs
  add_all-from [] args h =
      ([], ap (λ l. (ok tt, record { values = l })) (sym (append-nil args.values)), tt, tt)
  add_all-from (a ∷ later) args (h, hs) =
      let (v, encoded, decoded, ranged) = h args.values in
      let one = add-added (a.codec.encode a.value) args (ok no) (v ∷ []) encoded in
      let (vs, e, r, i) = add_all-from later (record { values = args.values ++ v ∷ [] }) hs in
      (
        v ∷ vs,
        ap (and_then (λ _. add_all later)) one
            ∙ e
            ∙ ap (λ l. (ok tt, record { values = l })) (append_assoc args.values (v ∷ []) vs),
        (decoded, r),
        (ranged, i),
      )

module _ {F : Type 0} (K : Crates F) where
  -- A value of a type that has `Encode` and `Decode`, with the text or the reading that a crate gives
  -- of it, where that may fail.
  pub data Bindable : Type 0 where
    of_integer : EncodedType → ℤ → Bindable
    of_bool : Bool → Bindable
    of_float : K.float.Float → Bindable
    of_string : Text → Bindable
    of_bytes : List ℕ → Bindable
    of_uuid of_hyphenated of_simple : K.uuid.Uuid → Bindable
    of_json : K.json.Json → Text → Bindable
    of_datetime : K.chrono.DateTime → Bindable
    of_utc : K.chrono.DateTimeUtc → K.chrono.DateTime → Bindable
    of_naive_datetime : K.chrono.NaiveDateTime → Bindable
    of_date : K.chrono.NaiveDate → Bindable
    of_time : K.chrono.NaiveTime → Bindable
    of_offset : K.time.OffsetDateTime → Text → Bindable
    of_primitive : K.time.PrimitiveDateTime → Text → Bindable
    of_time_date : K.time.Date → Text → Bindable
    of_time_time : K.time.Time → Text → Bindable

  -- What is asked of the value: that its Rust type has it, and that the crate reads what it writes.
  abbrev IsDocumented : Bindable → Type 0
  IsDocumented (of_integer type n) = fits type.type n ≡ true
  IsDocumented (of_bool b) = Unit
  IsDocumented (of_float x) = K.float.as_float (K.float.into_f64 x) ≡ x
  IsDocumented (of_string s) = Unit
  IsDocumented (of_bytes b) = Unit
  IsDocumented (of_uuid u) = UuidLaws K.uuid
  IsDocumented (of_hyphenated u) = UuidLaws K.uuid
  IsDocumented (of_simple u) = UuidLaws K.uuid
  IsDocumented (of_json x s) =
      (K.json.encode_to_string x ≡ ok s) × (K.json.decode_from_string s ≡ ok x)
  IsDocumented (of_datetime d) = K.chrono.parse_from_rfc3339 (K.chrono.to_rfc3339 d) ≡ some d
  IsDocumented (of_utc u e) =
      (K.chrono.parse_from_rfc3339 (K.chrono.utc_to_rfc3339 u) ≡ some e)
      × (K.chrono.utc_from (K.chrono.naive_utc e) ≡ u)
  IsDocumented (of_naive_datetime d) = IsNaive K.chrono d
  IsDocumented (of_date d) =
      K.chrono.date_parse_from_str (K.chrono.format_date d (codes "%F")) (codes "%F") ≡ ok d
  IsDocumented (of_time at) = IsTime K.chrono at
  IsDocumented (of_offset o s) =
      (K.time.format_rfc3339 o ≡ ok s) × (K.time.parse_rfc3339 s ≡ some o)
  IsDocumented (of_primitive p s) =
      (K.time.format_primitive p default_format ≡ ok s)
      × (K.time.parse_primitive s default_format ≡ ok p)
  IsDocumented (of_time_date d s) =
      (K.time.format_date d date_format ≡ ok s) × (K.time.parse_date s date_format ≡ ok d)
  IsDocumented (of_time_time at s) =
      (K.time.format_time at time_format ≡ ok s) × (K.time.parse_time s time_format ≡ some at)

  abbrev with_codec : {A : Type 0} → TursoTypeInfo → Codec F A → A → Argument F
  with_codec {A} t c a = record { Host = A; codec = c; value = a; declared = t }

  abbrev argument : TursoTypeInfo × Bindable → Argument F
  argument (t, of_integer type n) = with_codec t (integer_codec type) n
  argument (t, of_bool b) = with_codec t bool_codec b
  argument (t, of_float x) = with_codec t (float_codec K.float) x
  argument (t, of_string s) = with_codec t str_codec s
  argument (t, of_bytes b) = with_codec t bytes_codec b
  argument (t, of_uuid u) = with_codec t (uuid_codec K.uuid) u
  argument (t, of_hyphenated u) = with_codec t (hyphenated_codec K.uuid) u
  argument (t, of_simple u) = with_codec t (simple_codec K.uuid) u
  argument (t, of_json x s) = with_codec t (json_codec K.json) x
  argument (t, of_datetime d) = with_codec t (datetime_codec K.chrono K.ops) d
  argument (t, of_utc u e) = with_codec t (utc_codec K.chrono K.ops) u
  argument (t, of_naive_datetime d) = with_codec t (naive_datetime_codec K.chrono K.ops) d
  argument (t, of_date d) = with_codec t (naive_date_codec K.chrono) d
  argument (t, of_time at) = with_codec t (naive_time_codec K.chrono) at
  argument (t, of_offset o s) = with_codec t (offset_datetime_codec K.time) o
  argument (t, of_primitive p s) = with_codec t (primitive_datetime_codec K.time) p
  argument (t, of_time_date d s) = with_codec t (date_codec K.time) d
  argument (t, of_time_time at s) = with_codec t (time_codec K.time) at

  argument-IsCarried :
      (t : TursoTypeInfo) (b : Bindable) → IsDocumented b → IsCarried (argument (t, b))
  argument-IsCarried t (of_integer type n) h buf = integer-Carries t buf type n h
  argument-IsCarried t (of_bool b) h buf = bool-Carries t buf b
  argument-IsCarried t (of_float x) h buf = float-Carries t buf K.float x h
  argument-IsCarried t (of_string s) h buf = str-Carries t buf s
  argument-IsCarried t (of_bytes b) h buf = bytes-Carries t buf b
  argument-IsCarried t (of_uuid u) h buf = uuid_blob-Carries t buf K.uuid h u
  argument-IsCarried t (of_hyphenated u) h buf = hyphenated-Carries t buf K.uuid h u
  argument-IsCarried t (of_simple u) h buf = simple-Carries t buf K.uuid h u
  argument-IsCarried t (of_json x s) h buf = json-Carries t buf K.json x s (h.0) (h.1)
  argument-IsCarried t (of_datetime d) h buf = datetime-Carries K.chrono K.ops t buf d h
  argument-IsCarried t (of_utc u e) (h, k) buf = utc-Carries K.chrono K.ops t buf u e h k
  argument-IsCarried t (of_naive_datetime d) h buf = naive_datetime-Carries K.chrono K.ops t buf d h
  argument-IsCarried t (of_date d) h buf = naive_date-Carries K.chrono K.ops t buf d h
  argument-IsCarried t (of_time at) h buf = naive_time-Carries K.chrono K.ops t buf at h
  argument-IsCarried t (of_offset o s) (h, k) buf = offset-Carries K.time t buf s o h k
  argument-IsCarried t (of_primitive p s) (h, k) buf = primitive-Carries K.time t buf s p h k
  argument-IsCarried t (of_time_date d s) (h, k) buf = date-Carries K.time t buf s d h k
  argument-IsCarried t (of_time_time at s) (h, k) buf = time-Carries K.time t buf s at h k

  abbrev pub arguments : List (TursoTypeInfo × Bindable) → List (Argument F)
  arguments = map argument

  documented-AllCarried :
      (bs : List (TursoTypeInfo × Bindable))
      → All (λ b. IsDocumented b.1) bs
      → AllCarried (arguments bs)
  documented-AllCarried [] h = tt
  documented-AllCarried ((t, b) ∷ bs) (h, hs) =
      (argument-IsCarried t b h, documented-AllCarried bs hs)

  -- Values of any of the types, bound one after the other, are all taken, and the values that the
  -- engine is given decode to them in this order, whatever types the columns declare in which they
  -- come back; every integer among them is an `i64`. The types of integers are those that can be
  -- bound, and have them; a float's widening loses nothing, and the crates read what they write.
  pub add_all-Reads :
      (bs : List (TursoTypeInfo × Bindable))
      → All (λ b. IsDocumented b.1) bs
      → (args : TursoArguments F) × (add_all (arguments bs) (record { values = [] })
          ≡ (ok tt, args))
        × Reads (arguments bs) (into_turso_values args)
        × AllI64 args.values
  unfolding into_turso_values
  add_all-Reads bs h =
      let (vs, e, r, i) =
        add_all-from (arguments bs) (record { values = [] }) (documented-AllCarried bs h) in
      (record { values = vs }, e, r, i)
