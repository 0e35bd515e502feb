-- ===== src/Text.antt =====
-- Text as the list of its Unicode scalar values, with the operations of `str` that the crates use.
-- A native literal enters by `codes`.
use Prim.Native.Char.{code}
use Prim.Native.String.{String}
use sqlx_turso.Base.{
  ℕ, ◌+◌, ◌-◌, ◌*◌, Bool, true, false, ◌&&◌, ◌||◌, List, [], ◌∷◌, ◌++◌, map, Option, none, some,
  ltb, leb, ◌==◌, if◌then◌else◌,
}
pub mod Laws
pub mod Decimal

abbrev pub Text : Type 0
Text = List ℕ

abbrev pub codes : String → Text
codes String.[] = []
codes (String.◌∷◌ c s) = code c ∷ codes s

unfoldable pub text_eq : Text → Text → Bool
text_eq [] [] = true
text_eq (x ∷ xs) (y ∷ ys) = x == y && text_eq xs ys
text_eq _ _ = false

-- `str::starts_with` and `str::strip_prefix`
unfoldable pub strip_prefix : Text → Text → Option Text
strip_prefix [] s = some s
strip_prefix (c ∷ cs) [] = none
strip_prefix (c ∷ cs) (x ∷ xs) = if x == c then strip_prefix cs xs else none

abbrev starts_with : Text → Text → Bool
starts_with p s = elim (strip_prefix p s) [ none ↦ false | some _ ↦ true ]

-- `haystack.contains(needle)`, the needle first
unfoldable pub contains : Text → Text → Bool
unfolding strip_prefix
contains needle [] = starts_with needle []
contains needle (c ∷ cs) = starts_with needle (c ∷ cs) || contains needle cs

abbrev is_upper : ℕ → Bool
is_upper c = leb b'A' c && leb c b'Z'

abbrev is_lower : ℕ → Bool
is_lower c = leb b'a' c && leb c b'z'

abbrev pub is_digit : ℕ → Bool
is_digit c = leb b'0' c && leb c b'9'

abbrev pub is_ascii_alphabetic : ℕ → Bool
is_ascii_alphabetic c = is_upper c || is_lower c

abbrev pub is_ascii_alphanumeric : ℕ → Bool
is_ascii_alphanumeric c = is_ascii_alphabetic c || is_digit c

abbrev pub is_ascii_hexdigit : ℕ → Bool
is_ascii_hexdigit c = is_digit c || (leb b'a' c && leb c b'f') || (leb b'A' c && leb c b'F')

-- `char::is_whitespace`: the Unicode property `White_Space`
unfoldable pub is_whitespace : ℕ → Bool
is_whitespace c =
    (leb 9 c && leb c 13)
    || c == 32
    || c == 0x85
    || c == 0xa0
    || c == 0x1680
    || (leb 0x2000 c && leb c 0x200a)
    || c == 0x2028
    || c == 0x2029
    || c == 0x202f
    || c == 0x205f
    || c == 0x3000

abbrev lower : ℕ → ℕ
lower c = if is_upper c then c + 32 else c

unfoldable pub to_ascii_lowercase : Text → Text
to_ascii_lowercase = map lower

unfoldable pub eq_ignore_ascii_case : Text → Text → Bool
unfolding text_eq to_ascii_lowercase
eq_ignore_ascii_case a b = text_eq (to_ascii_lowercase a) (to_ascii_lowercase b)

-- `str::parse` for an unsigned integer below `bound`: one `+` is skipped, one digit at least is
-- wanted, and `checked_mul` and `checked_add` refuse what does not fit.
unfoldable pub parse_digits : ℕ → ℕ → Text → Option ℕ
parse_digits bound acc [] = some acc
parse_digits bound acc (c ∷ cs) =
    if is_digit c && ltb (acc * 10 + (c - b'0')) bound
    then parse_digits bound (acc * 10 + (c - b'0')) cs
    else none

unfoldable pub parse_unsigned : ℕ → Text → Option ℕ
unfolding parse_digits
parse_unsigned bound [] = none
parse_unsigned bound (c ∷ []) = if c == b'+' then none else parse_digits bound 0 (c ∷ [])
parse_unsigned bound (c ∷ d ∷ cs) =
    if c == b'+' then parse_digits bound 0 (d ∷ cs) else parse_digits bound 0 (c ∷ d ∷ cs)

-- `str::split` on one character
unfoldable pub split_onto : ℕ → Text → Text → List Text
split_onto sep piece [] = piece ∷ []
split_onto sep piece (c ∷ cs) =
    if c == sep then piece ∷ split_onto sep [] cs else split_onto sep (piece ++ c ∷ []) cs

abbrev pub split : ℕ → Text → List Text
split sep = split_onto sep []

-- `splitn(2, sep)`: what stands before the first separator, and what stands behind it
unfoldable pub split_once_onto : ℕ → Text → Text → Text × Option Text
split_once_onto sep piece [] = (piece, none)
split_once_onto sep piece (c ∷ cs) =
    if c == sep then (piece, some cs) else split_once_onto sep (piece ++ c ∷ []) cs

-- `join`
unfoldable pub join : Text → List Text → Text
join sep [] = []
join sep (x ∷ []) = x
join sep (x ∷ y ∷ ys) = x ++ (sep ++ join sep (y ∷ ys))
