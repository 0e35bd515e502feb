-- ===== src/Value/Integers.antt =====
-- crates/sqlx-turso-core/src/value.rs: `Type`, `Encode` and `Decode` of the integer types and `bool`.
use sqlx_turso.Base.{
  ltb, ◌==◌, if◌then◌else◌, Result, ok, err, ◌>>=◌, ℤ, pos, negsuc, ℕ, ◌^◌, ◌≤◌, ◌≡◌, ◌↔◌, Bool,
  true, false, not, List, [], ◌∷◌, ◌++◌, arith,
}
use sqlx_turso.Error.{Message, out_of_range}
use sqlx_turso.Value.{TursoValueKind, integer, TursoValue, integer_value, as_integer}

pub data IntegerType : Type 0 where
  i8 i16 i32 i64 u8 u16 u32 u64 : IntegerType

abbrev signed : ℕ → ℤ → Bool
signed w (pos n) = ltb n (2 ^ w)
signed w (negsuc n) = ltb n (2 ^ w)

abbrev unsigned : ℕ → ℤ → Bool
unsigned w (pos n) = ltb n (2 ^ w)
unsigned w (negsuc n) = false

-- Whether the type has the number: what `try_into` from an `i64` asks.
unfoldable pub fits : IntegerType → ℤ → Bool
fits i8 = signed 7
fits i16 = signed 15
fits i32 = signed 31
fits i64 = signed 63
fits u8 = unsigned 8
fits u16 = unsigned 16
fits u32 = unsigned 32
fits u64 = unsigned 64

-- The integer types that have `Encode`: all but `u64`.
abbrev has_encode : IntegerType → Bool
has_encode u64 = false
has_encode _ = true

pub record EncodedType : Type 0 where
  pub type : IntegerType
  pub encodes : has_encode type ≡ true

-- `IsNull` of `sqlx_core`
pub data IsNull : Type 0 where
  yes no : IsNull

abbrev pub Buffer : Type 0 → Type 0
Buffer F = List (TursoValue F)

wider : (v w a : ℕ) → (2 ^ v) ≤ (2 ^ w) → ltb a (2 ^ v) ≡ true → ltb a (2 ^ w) ≡ true
wider v w a le h = ground arith

signed-wider : (v : ℕ) (n : ℤ) → (2 ^ v) ≤ (2 ^ 63) → signed v n ≡ true → signed 63 n ≡ true
signed-wider v (pos n) le h = wider v 63 n le h
signed-wider v (negsuc n) le h = wider v 63 n le h

unsigned-wider : (v : ℕ) (n : ℤ) → (2 ^ v) ≤ (2 ^ 63) → unsigned v n ≡ true → signed 63 n ≡ true
unsigned-wider v (pos n) le h = wider v 63 n le h
unsigned-wider v (negsuc n) le h = cc

-- `i64::from`: every number of a type that has `Encode` is an `i64`.
pub fits-i64 : (t : IntegerType) (n : ℤ) → has_encode t ≡ true → fits t n ≡ true → fits i64 n ≡ true
unfolding fits
fits-i64 i8 n e h = signed-wider 7 n (omega arith) h
fits-i64 i16 n e h = signed-wider 15 n (omega arith) h
fits-i64 i32 n e h = signed-wider 31 n (omega arith) h
fits-i64 i64 n e h = h
fits-i64 u8 n e h = unsigned-wider 8 n (omega arith) h
fits-i64 u16 n e h = unsigned-wider 16 n (omega arith) h
fits-i64 u32 n e h = unsigned-wider 32 n (omega arith) h
fits-i64 u64 n e h = cc

module _ {F : Type 0} where
  -- The integer of a value is an `i64`.
  abbrev pub IsI64 : TursoValueKind F → Type 0
  IsI64 (integer n) = fits i64 n ≡ true
  IsI64 _ = Unit

  -- `Encode::encode_by_ref` of an integer type that has it, for a number of this type.
  unfoldable pub encode_integer : EncodedType → ℤ → Buffer F → Result IsNull Message × Buffer F
  encode_integer t v buf = (ok no, buf ++ integer_value v ∷ [])

  unfoldable pub decode_integer : IntegerType → TursoValue F → Result ℤ Message
  unfolding as_integer fits
  decode_integer t v = do n ← as_integer v; if fits t n then ok n else err out_of_range

  unfoldable pub encode_bool : Bool → Buffer F → Result IsNull Message × Buffer F
  encode_bool b buf = (ok no, buf ++ integer_value (pos (if b then 1 else 0)) ∷ [])

  unfoldable pub decode_bool : TursoValue F → Result Bool Message
  unfolding as_integer
  decode_bool v = do n ← as_integer v; ok (elim n [ pos k ↦ not (k == 0) | negsuc _ ↦ true ])

  -- A value decodes to `n` at an integer type exactly if it holds the integer `n` and the type
  -- has `n`; so what does not fit is refused and never truncated.
  pub decode_integer_iff :
      (t : IntegerType) (v : TursoValue F) (n : ℤ)
      → (decode_integer t v ≡ ok n) ↔ ((v.kind ≡ integer n) × (fits t n ≡ true))
  unfolding decode_integer
  decode_integer_iff t v n = ground arith
