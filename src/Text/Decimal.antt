-- ===== src/Text/Decimal.antt =====
-- Numbers as decimal text, and back.
use sqlx_turso.Base.{
  ltb, if◌then◌else◌, Bool-cases, if_elim, is_empty, ℕ, zero, suc, ◌+◌, ◌-◌, ◌*◌, ◌/◌, ◌%◌, ◌≤◌,
  ◌<◌, ◌≡◌, refl, ap, ◌∙◌, inl, inr, true, false, ◌&&◌, none, some, [], ◌∷◌, ◌++◌, arith,
}
use sqlx_turso.Text.{Text, is_digit, parse_digits, parse_unsigned}

-- The digits; each round drops one, so the number itself bounds the rounds.
unfoldable pub show_digits : ℕ → ℕ → Text
show_digits zero n = []
show_digits (suc f) n =
    let more = show_digits f (n / 10) in
    if ltb n 10 then (b'0' + n) ∷ [] else more ++ (b'0' + n % 10) ∷ []

-- `to_string` of an unsigned integer
unfoldable pub show_nat : ℕ → Text
unfolding show_digits
show_nat n = show_digits (suc n) n

-- Reading on from where another text ended.
parse_digits-append :
    (bound acc : ℕ) (xs ys : Text)
    → parse_digits bound acc (xs ++ ys)
      ≡ (elim (parse_digits bound acc xs) [ none ↦ none | some a ↦ parse_digits bound a ys ])
unfolding parse_digits
parse_digits-append bound acc [] ys = refl
parse_digits-append bound acc (c ∷ cs) ys =
    elim (Bool-cases (is_digit c && ltb (acc * 10 + (c - b'0')) bound)) [
      | inl e ↦ rw e (parse_digits-append bound (acc * 10 + (c - b'0')) cs ys)
      | inr e ↦ rw e refl
    ]

parse_digits-one :
    (bound acc d : ℕ)
    → d < 10
    → acc * 10 + d < bound
    → parse_digits bound acc ((b'0' + d) ∷ []) ≡ some (acc * 10 + d)
unfolding parse_digits
parse_digits-one bound acc d h k = ground arith

ltb_lt : (a b : ℕ) → ltb a b ≡ true → a < b
ltb_lt a b h = ground arith

ltb_le : (a b : ℕ) → ltb a b ≡ false → b ≤ a
ltb_le a b h = ground arith

parse_digits-show_digits :
    (bound f n : ℕ) → n < f → n < bound → parse_digits bound 0 (show_digits f n) ≡ some n
unfolding show_digits
parse_digits-show_digits bound zero n h k = absurd (omega arith)
parse_digits-show_digits bound (suc f) n h k = elim (Bool-cases (ltb n 10)) [
  | inl small ↦
      rw small
        (parse_digits-one bound 0 n (ltb_lt n 10 small) (omega arith) ∙ ap some (omega arith))
  | inr large ↦ rw large (
      parse_digits-append bound 0 (show_digits f (n / 10)) ((b'0' + n % 10) ∷ [])
      ∙ ap (λ o. elim o [ none ↦ none | some a ↦ parse_digits bound a ((b'0' + n % 10) ∷ []) ])
          (parse_digits-show_digits bound f (n / 10) (omega (arith, ltb_le n 10 large))
            (omega arith))
      ∙ parse_digits-one bound (n / 10) (n % 10) (omega arith) (omega arith)
      ∙ ap some (omega arith))
]

nonempty-append : (xs : Text) (y : ℕ) → is_empty (xs ++ y ∷ []) ≡ false
nonempty-append [] y = refl
nonempty-append (x ∷ xs) y = refl

show_nat-nonempty : (n : ℕ) → is_empty (show_nat n) ≡ false
unfolding show_nat show_digits
show_nat-nonempty n =
    if_elim (λ (t : Text). is_empty t ≡ false) (ltb n 10) (λ _. refl) (λ _. nonempty-append _ _)

-- What is read without a sign is read the same where a sign is allowed.
parse_unsigned-digits :
    (bound n : ℕ) (s : Text)
    → is_empty s ≡ false
    → parse_digits bound 0 s ≡ some n
    → parse_unsigned bound s ≡ some n
unfolding parse_unsigned parse_digits
parse_unsigned-digits bound n [] e h = cc
parse_unsigned-digits bound n (c ∷ []) e h = ground arith
parse_unsigned-digits bound n (c ∷ d ∷ cs) e h = ground arith

-- The decimal text of a number is read back as the number, at every type that has it.
pub parse_unsigned-show_nat : (bound n : ℕ) → n < bound → parse_unsigned bound (show_nat n) ≡ some n
parse_unsigned-show_nat bound n h =
    parse_unsigned-digits bound n (show_nat n) (show_nat-nonempty n)
      (unfold show_nat in parse_digits-show_digits bound (suc n) n (omega arith) h)
