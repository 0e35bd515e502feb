-- ===== src/Value/RoundTrip.antt =====
-- What an argument's value decodes to where the engine gives it back as it was bound.
pub mod Dates
pub mod Kinds
pub mod Bound
use sqlx_turso.Text.{Text, codes}
use sqlx_turso.Base.{
  if_elim, Result, ok, ℤ, pos, ℕ, ◌≡◌, refl, ap, ◌∙◌, Bool, true, false, not, List, [], ◌∷◌, ◌++◌,
}
use sqlx_turso.Error.{Message}
use sqlx_turso.TypeInfo.{TursoTypeInfo, new, null_info, is_null}
use sqlx_turso.Value.{
  TursoValueKind, null, integer, real, text, blob, TursoValue, integer_value, real_value,
  text_value, blob_value, from_turso, with_type_info, into_turso, as_integer, as_real, as_text,
  as_blob,
}
use sqlx_turso.Value.Integers.{
  fits, EncodedType, no, Buffer, fits-i64, IsI64, encode_integer, decode_integer, encode_bool,
  decode_bool,
}
use sqlx_turso.Value.Codec.{
  Codec, boxed, push_text, FloatType, UuidCrate, JsonType, decode_float, encode_float, encode_str,
  decode_str, encode_bytes, decode_bytes, encode_uuid, decode_uuid, encode_hyphenated,
  decode_hyphenated, encode_simple, decode_simple, encode_json, decode_json, float_codec,
  integer_codec, bool_codec, str_codec, bytes_codec, uuid_codec, hyphenated_codec, simple_codec,
  json_codec,
}

-- The value bound, and read from a column of the type `t`.
abbrev returned : {F : Type 0} → TursoTypeInfo → TursoValue F → TursoValue F
returned t v = with_type_info t (from_turso (into_turso v))

-- `a` is encoded as one value behind those that are there, its integer an `i64`, and decoded from
-- what comes back.
abbrev pub Carries : {F A : Type 0} → Codec F A → TursoTypeInfo → Buffer F → A → Type 0
Carries {F} c t buf a =
    (v : TursoValue F) × (c.encode a buf ≡ (ok no, buf ++ v ∷ []))
    × (c.decode (returned t v) ≡ ok a)
    × IsI64 v.kind

abbrev of_kind : {F : Type 0} → TursoValueKind F → TursoTypeInfo → TursoValue F
of_kind k i = record { type_info = i; kind = k }

kind-from_turso :
    {F : Type 0} (i : TursoTypeInfo) (k : TursoValueKind F)
    → (j : TursoTypeInfo) × (from_turso (into_turso (of_kind k i)) ≡ of_kind k j)
unfolding from_turso into_turso
kind-from_turso i null = (null_info, refl)
kind-from_turso i (integer _) = (new (codes "INTEGER"), refl)
kind-from_turso i (real _) = (new (codes "REAL"), refl)
kind-from_turso i (text _) = (new (codes "TEXT"), refl)
kind-from_turso i (blob _) = (new (codes "BLOB"), refl)

-- Only the type information may change.
returned_lem :
    {F : Type 0} (t : TursoTypeInfo) (v : TursoValue F)
    → (i : TursoTypeInfo) × (returned t v ≡ of_kind v.kind i)
unfolding with_type_info
returned_lem {F} t v =
    let p = kind-from_turso v.type_info v.kind in
    if_elim (λ (w : TursoValue F). (i : TursoTypeInfo) × (w ≡ of_kind v.kind i)) (not (is_null t))
      (λ _. (t, ap (λ (w : TursoValue F). record w { type_info = t }) p.1)) (λ _. p)

-- A decoder that reads the kind of the value only.
decode-returned :
    {F A : Type 0} (decode : TursoValue F → Result A Message) (t : TursoTypeInfo)
    → (v : TursoValue F) {r : Result A Message}
    → ((i : TursoTypeInfo) → decode (record { type_info = i; kind = v.kind }) ≡ r)
    → decode (returned t v) ≡ r
decode-returned decode t v h = let p = returned_lem t v in ap decode p.1 ∙ h p.0

-- What is written as a text and read from one.
pub text-Carries :
    {F A : Type 0} (c : Codec F A) (t : TursoTypeInfo) (buf : Buffer F) (a : A) (s : Text)
    → c.encode a buf ≡ (ok no, buf ++ text_value s ∷ [])
    → ((i : TursoTypeInfo) → c.decode (record { type_info = i; kind = text s }) ≡ ok a)
    → Carries c t buf a
text-Carries c t buf a s h k = (text_value s, h, decode-returned c.decode t (text_value s) k, tt)

-- What the crate `uuid` documents: the bytes and both forms of a UUID read as that UUID.
pub record UuidLaws (c : UuidCrate) : Type 0 where
  pub from_slice-as_bytes : (u : c.Uuid) → c.from_slice (c.as_bytes u) ≡ ok u
  pub parse_str-show_hyphenated : (u : c.Uuid) → c.parse_str (c.show_hyphenated u) ≡ ok u
  pub parse_str-show_simple : (u : c.Uuid) → c.parse_str (c.show_simple u) ≡ ok u

module _ {F : Type 0} (t : TursoTypeInfo) (buf : Buffer F) where
  pub integer-Carries :
      (type : EncodedType) (n : ℤ) → fits type.type n ≡ true → Carries (integer_codec type) t buf n
  unfolding encode_integer decode_integer as_integer
  integer-Carries type n h = (
    integer_value n,
    refl,
    decode-returned (decode_integer type.type) t (integer_value n) (λ i. rw h refl),
    fits-i64 type.type n type.encodes h,
  )

  pub bool-Carries : (b : Bool) → Carries bool_codec t buf b
  unfolding encode_bool decode_bool as_integer fits
  bool-Carries true = (
    integer_value (pos 1),
    refl,
    decode-returned decode_bool t (integer_value (pos 1)) (λ i. refl),
    refl,
  )
  bool-Carries false = (
    integer_value (pos 0),
    refl,
    decode-returned decode_bool t (integer_value (pos 0)) (λ i. refl),
    refl,
  )

  pub float-Carries :
      (T : FloatType F) (x : T.Float)
      → T.as_float (T.into_f64 x) ≡ x
      → Carries (float_codec T) t buf x
  unfolding encode_float decode_float as_real
  float-Carries T x h = (
    real_value (T.into_f64 x),
    refl,
    decode-returned (decode_float T) t (real_value (T.into_f64 x)) (λ i. ap ok h),
    tt,
  )

  pub str-Carries : (s : Text) → Carries str_codec t buf s
  unfolding encode_str decode_str as_text
  str-Carries s = text-Carries str_codec t buf s s refl (λ i. refl)

  pub bytes-Carries : (b : List ℕ) → Carries bytes_codec t buf b
  unfolding encode_bytes decode_bytes as_blob
  bytes-Carries b =
      (blob_value b, refl, decode-returned decode_bytes t (blob_value b) (λ i. refl), tt)

  pub uuid_blob-Carries :
      (c : UuidCrate) (laws : UuidLaws c) (u : c.Uuid) → Carries (uuid_codec c) t buf u
  unfolding encode_uuid decode_uuid
  uuid_blob-Carries c laws u = (
    blob_value (c.as_bytes u),
    refl,
    decode-returned (decode_uuid c) t (blob_value (c.as_bytes u))
        (λ i. ap boxed (laws.from_slice-as_bytes u)),
    tt,
  )

  pub hyphenated-Carries :
      (c : UuidCrate) (laws : UuidLaws c) (u : c.Uuid) → Carries (hyphenated_codec c) t buf u
  unfolding encode_hyphenated decode_hyphenated as_text
  hyphenated-Carries c laws u =
      text-Carries (hyphenated_codec c) t buf u (c.show_hyphenated u) refl
        (λ i. ap boxed (laws.parse_str-show_hyphenated u))

  pub simple-Carries :
      (c : UuidCrate) (laws : UuidLaws c) (u : c.Uuid) → Carries (simple_codec c) t buf u
  unfolding encode_simple decode_simple as_text
  simple-Carries c laws u =
      text-Carries (simple_codec c) t buf u (c.show_simple u) refl
        (λ i. ap boxed (laws.parse_str-show_simple u))

  -- A UUID, in each of its three forms, decodes to itself from what it was bound as; and what was
  -- bound in one of the textual forms decodes as a plain UUID too.
  uuid-Carries :
      (c : UuidCrate) (laws : UuidLaws c) (u : c.Uuid)
      → Carries (uuid_codec c) t buf u
        × Carries (hyphenated_codec c) t buf u
        × Carries (simple_codec c) t buf u
        × (decode_uuid {F = F} c (returned t (text_value (c.show_hyphenated u))) ≡ ok u)
        × (decode_uuid {F = F} c (returned t (text_value (c.show_simple u))) ≡ ok u)
  unfolding decode_uuid
  uuid-Carries c laws u = (
    uuid_blob-Carries c laws u,
    hyphenated-Carries c laws u,
    simple-Carries c laws u,
    decode-returned (decode_uuid c) t (text_value (c.show_hyphenated u))
        (λ i. ap boxed (laws.parse_str-show_hyphenated u)),
    decode-returned (decode_uuid c) t (text_value (c.show_simple u))
        (λ i. ap boxed (laws.parse_str-show_simple u)),
  )

  -- A value whose JSON text reads as that value decodes to itself.
  pub json-Carries :
      (T : JsonType) (x : T.Json) (s : Text)
      → T.encode_to_string x ≡ ok s
      → T.decode_from_string s ≡ ok x
      → Carries (json_codec T) t buf x
  unfolding encode_json decode_json
  json-Carries T x s h k =
      text-Carries (json_codec T) t buf x s (ap (λ r. push_text r buf) h) (λ i. ap boxed k)
