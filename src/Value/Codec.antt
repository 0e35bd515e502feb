-- ===== src/Value/Codec.antt =====
-- crates/sqlx-turso-core/src/value.rs: `Encode` and `Decode` of floats, texts, bytes, UUIDs and JSON.
-- What the crates `uuid` and `serde_json` do is a parameter, and so are the casts of `f32` and `f64`.
use sqlx_turso.Base.{Result, ok, err, ◌>>=◌, map_err, ℤ, ℕ, Bool, List, [], ◌∷◌, ◌++◌}
use sqlx_turso.Text.{Text, codes}
use sqlx_turso.Error.{Message, unsupported, Message.foreign}
use sqlx_turso.Value.{
  text, blob, TursoValue, real_value, text_value, blob_value, as_real, as_text, as_blob,
}
use sqlx_turso.Value.Integers.{
  EncodedType, IsNull, no, Buffer, encode_integer, decode_integer, encode_bool, decode_bool,
}

-- `Encode` and `Decode` of one Rust type, over `f64`.
pub record Codec (F A : Type 0) : Type 0 where
  pub encode : A → Buffer F → Result IsNull Message × Buffer F
  pub decode : TursoValue F → Result A Message

-- `?` on the error of another crate.
abbrev pub boxed : {A : Type 0} → Result A Text → Result A Message
boxed r = map_err foreign r

-- `buf.push(..)` and `Ok(IsNull::No)`
abbrev pub push : {F : Type 0} → TursoValue F → Buffer F → Result IsNull Message × Buffer F
push v buf = (ok no, buf ++ v ∷ [])

-- The same, of a text that another crate may fail to write.
abbrev pub push_text : {F : Type 0} → Result Text Text → Buffer F → Result IsNull Message × Buffer F
push_text (ok s) buf = push (text_value s) buf
push_text (err e) buf = (err (foreign e), buf)

-- `into` of `f32` and `f64`, and `as` to and from `f64`
pub record FloatType (F : Type 0) : Type 1 where
  pub Float : Type 0
  pub into_f64 : Float → F
  pub as_float : F → Float
  pub of_integer : ℤ → F

-- `uuid::Uuid` and the two types of its forms, which hold one: `Display` writes them.
pub record UuidCrate : Type 1 where
  pub Uuid : Type 0
  pub as_bytes : Uuid → List ℕ
  pub from_slice : List ℕ → Result Uuid Text
  pub parse_str : Text → Result Uuid Text
  pub show_hyphenated : Uuid → Text
  pub show_simple : Uuid → Text

-- `sqlx_core::types::Json<T>`
pub record JsonType : Type 1 where
  pub Json : Type 0
  pub encode_to_string : Json → Result Text Text
  pub decode_from_string : Text → Result Json Text
  pub decode_from_bytes : List ℕ → Result Json Text

module _ {F : Type 0} where
  unfoldable pub decode_float : (T : FloatType F) → TursoValue F → Result T.Float Message
  unfolding as_real
  decode_float T v = do x ← as_real T.of_integer v; ok (T.as_float x)

  unfoldable pub encode_float :
      (T : FloatType F) → T.Float → Buffer F → Result IsNull Message × Buffer F
  encode_float T x buf = push (real_value (T.into_f64 x)) buf

  unfoldable pub encode_str : Text → Buffer F → Result IsNull Message × Buffer F
  encode_str s buf = push (text_value s) buf

  -- `decode` of `&str` and of `String`
  unfoldable pub decode_str : TursoValue F → Result Text Message
  decode_str v = as_text v

  unfoldable pub encode_bytes : List ℕ → Buffer F → Result IsNull Message × Buffer F
  encode_bytes b buf = push (blob_value b) buf

  unfoldable pub decode_bytes : TursoValue F → Result (List ℕ) Message
  decode_bytes v = as_blob v

  unfoldable pub encode_uuid :
      (c : UuidCrate) → c.Uuid → Buffer F → Result IsNull Message × Buffer F
  encode_uuid c u buf = push (blob_value (c.as_bytes u)) buf

  unfoldable pub decode_uuid : (c : UuidCrate) → TursoValue F → Result c.Uuid Message
  decode_uuid c v = elim (v.kind) [
    | blob b ↦ boxed (c.from_slice b)
    | text s ↦ boxed (c.parse_str s)
    | _ ↦ err (unsupported (codes "decoding non-blob/text Turso value as uuid"))
  ]

  unfoldable pub encode_hyphenated :
      (c : UuidCrate) → c.Uuid → Buffer F → Result IsNull Message × Buffer F
  encode_hyphenated c u buf = push (text_value (c.show_hyphenated u)) buf

  -- `decode` of `Hyphenated`
  unfoldable pub decode_hyphenated : (c : UuidCrate) → TursoValue F → Result c.Uuid Message
  unfolding as_text
  decode_hyphenated c v = do s ← as_text v; boxed (c.parse_str s)

  unfoldable pub encode_simple :
      (c : UuidCrate) → c.Uuid → Buffer F → Result IsNull Message × Buffer F
  encode_simple c u buf = push (text_value (c.show_simple u)) buf

  -- `decode` of `Simple`
  unfoldable pub decode_simple : (c : UuidCrate) → TursoValue F → Result c.Uuid Message
  unfolding as_text
  decode_simple c v = do s ← as_text v; boxed (c.parse_str s)

  unfoldable pub encode_json : (T : JsonType) → T.Json → Buffer F → Result IsNull Message × Buffer F
  encode_json T x buf = push_text (T.encode_to_string x) buf

  unfoldable pub decode_json : (T : JsonType) → TursoValue F → Result T.Json Message
  decode_json T v = elim (v.kind) [
    | text s ↦ boxed (T.decode_from_string s)
    | blob b ↦ boxed (T.decode_from_bytes b)
    | _ ↦ err (unsupported (codes "decoding non-text/blob Turso value as json"))
  ]

-- The implementations, by type.
abbrev pub float_codec : {F : Type 0} (T : FloatType F) → Codec F T.Float
float_codec T = record { encode = encode_float T; decode = decode_float T }

abbrev pub integer_codec : {F : Type 0} → EncodedType → Codec F ℤ
integer_codec t = record { encode = encode_integer t; decode = decode_integer t.type }

abbrev pub bool_codec : {F : Type 0} → Codec F Bool
bool_codec = record { encode = encode_bool; decode = decode_bool }

abbrev pub str_codec : {F : Type 0} → Codec F Text
str_codec = record { encode = encode_str; decode = decode_str }

abbrev pub bytes_codec : {F : Type 0} → Codec F (List ℕ)
bytes_codec = record { encode = encode_bytes; decode = decode_bytes }

abbrev pub uuid_codec : {F : Type 0} (c : UuidCrate) → Codec F c.Uuid
uuid_codec c = record { encode = encode_uuid c; decode = decode_uuid c }

abbrev pub hyphenated_codec : {F : Type 0} (c : UuidCrate) → Codec F c.Uuid
hyphenated_codec c = record { encode = encode_hyphenated c; decode = decode_hyphenated c }

abbrev pub simple_codec : {F : Type 0} (c : UuidCrate) → Codec F c.Uuid
simple_codec c = record { encode = encode_simple c; decode = decode_simple c }

abbrev pub json_codec : {F : Type 0} (T : JsonType) → Codec F T.Json
json_codec T = record { encode = encode_json T; decode = decode_json T }
