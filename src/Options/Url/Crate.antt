-- ===== src/Options/Url/Crate.antt =====
-- What the URL that is built relies on in the crate url, for plain texts.
use sqlx_turso.Base.{
  ltb, ◌==◌, if◌then◌else◌, Bool-cases, All, ℕ, ◌≡◌, refl, inl, inr, Bool, true, false, not, ◌&&◌,
  ◌||◌, some, List, [], ◌∷◌, ◌++◌, arith,
}
use sqlx_turso.Text.{Text, codes}
use sqlx_turso.Options.Url.{UrlCodec}
use sqlx_turso.Options.Url.Build.{UrlCrate}

abbrev pub NoMark : Text → Type 0
NoMark t = All (λ (c : ℕ). (c == b'?') ≡ false) t

-- A small letter, a digit, `-` or `_`, which a URL never escapes.
abbrev plain_char : ℕ → Bool
plain_char c =
    (not (ltb c b'a') && not (ltb b'z' c))
    || ((not (ltb c b'0') && not (ltb b'9' c)) || (c == b'-' || c == b'_'))

abbrev all_plain : Text → Bool
all_plain [] = true
all_plain (c ∷ cs) = plain_char c && all_plain cs

-- A host of plain characters.
abbrev pub plain_host : Text → Bool
plain_host [] = false
plain_host (c ∷ cs) = plain_char c && all_plain cs

unfoldable mutual
  -- The rest of a segment, which may have dots, and its start, which has none.
  pub plain_inside : Text → Bool
  plain_inside [] = true
  plain_inside (c ∷ cs) =
      if c == b'/' then plain_segment cs else (plain_char c || c == b'.') && plain_inside cs

  pub plain_segment : Text → Bool
  plain_segment [] = false
  plain_segment (c ∷ cs) = plain_char c && plain_inside cs

-- A path is empty or has a slash in front of each of its segments.
abbrev pub plain_path : Text → Bool
plain_path [] = true
plain_path (c ∷ cs) = c == b'/' && plain_segment cs

plain_char_lem :
    (c : ℕ)
    → plain_char c ≡ true
    → ((c == b'/') ≡ false) × ((c == b':') ≡ false) × ((c == b'?') ≡ false)
plain_char_lem c h = ground arith

all_plain-NoMark : (t : Text) → all_plain t ≡ true → NoMark t
all_plain-NoMark [] h = tt
all_plain-NoMark (c ∷ cs) h =
    ((plain_char_lem c (ground arith)).2, all_plain-NoMark cs (ground arith))

pub plain_host-NoMark : (t : Text) → plain_host t ≡ true → NoMark t
plain_host-NoMark [] h = cc
plain_host-NoMark (c ∷ cs) h = all_plain-NoMark (c ∷ cs) h

pub plain_host_start :
    (host : Text)
    → plain_host host ≡ true
    → (c : ℕ) × (cs : Text) × (host ≡ c ∷ cs) × ((c == b'/') ≡ false) × ((c == b':') ≡ false)
plain_host_start [] h = cc
plain_host_start (c ∷ cs) h =
    let (slash, colon, mark) = plain_char_lem c (ground arith) in (c, cs, refl, slash, colon)

abbrev pub NoSlash : Text → Type 0
NoSlash t = All (λ (c : ℕ). (c == b'/') ≡ false) t

all_plain-NoSlash : (t : Text) → all_plain t ≡ true → NoSlash t
all_plain-NoSlash [] h = tt
all_plain-NoSlash (c ∷ cs) h =
    ((plain_char_lem c (ground arith)).0, all_plain-NoSlash cs (ground arith))

pub plain_host-NoSlash : (t : Text) → plain_host t ≡ true → NoSlash t
plain_host-NoSlash [] h = cc
plain_host-NoSlash (c ∷ cs) h = all_plain-NoSlash (c ∷ cs) h

mutual
  unfolding plain_inside plain_segment

  plain_inside-NoMark : (t : Text) → plain_inside t ≡ true → NoMark t
  plain_inside-NoMark [] h = tt
  plain_inside-NoMark (c ∷ cs) h = elim (Bool-cases (c == b'/')) [
    | inl e ↦ (ground arith, plain_segment-NoMark cs (ground arith))
    | inr e ↦ (ground arith, plain_inside-NoMark cs (ground arith))
  ]

  plain_segment-NoMark : (t : Text) → plain_segment t ≡ true → NoMark t
  plain_segment-NoMark [] h = cc
  plain_segment-NoMark (c ∷ cs) h =
      ((plain_char_lem c (ground arith)).2, plain_inside-NoMark cs (ground arith))

pub plain_path-NoMark : (t : Text) → plain_path t ≡ true → NoMark t
plain_path-NoMark [] h = tt
plain_path-NoMark (c ∷ cs) h = (ground arith, plain_segment-NoMark cs (ground arith))

-- What the crates document of the URLs that are built here. `Shows u host path pairs` says that `u` is
-- a URL of the scheme with this host and path, the query pairs that were appended to it, and nothing
-- else: no user, no port, no fragment. A plain host and a plain path are kept as they are, a query is
-- the form of its pairs, and a form is read as its pairs.
pub record UrlLaws (U : UrlCrate) (codec : UrlCodec) : Type 1 where
  pub Shows : U.Url → Text → Text → List (Text × Text) → Type 0
  pub form : List (Text × Text) → Text
  pub parse_law :
      (host path : Text)
      → plain_host host ≡ true
      → plain_path path ≡ true
      → (u : U.Url) × (U.parse (codes "turso://" ++ (host ++ path)) ≡ some u) × Shows u host path []
  pub set_path_law :
      (u : U.Url) (host path new_path : Text)
      → Shows u host path []
      → plain_path new_path ≡ true
      → Shows (U.set_path new_path u) host new_path []
  pub append_pair_law :
      (u : U.Url) (host path : Text) (pairs : List (Text × Text)) (key value : Text)
      → Shows u host path pairs
      → Shows (U.append_pair key value u) host path (pairs ++ (key, value) ∷ [])
  pub as_str_law :
      (u : U.Url) (host path : Text) (q : Text × Text) (qs : List (Text × Text))
      → Shows u host path (q ∷ qs)
      → U.as_str u ≡ codes "turso://" ++ ((host ++ path) ++ b'?' ∷ form (q ∷ qs))
  pub form_law : (pairs : List (Text × Text)) → codec.form_parse (form pairs) ≡ pairs
  pub decode_law :
      (host path : Text)
      → plain_host host ≡ true
      → plain_path path ≡ true
      → codec.percent_decode (host ++ path) ≡ some (host ++ path)
