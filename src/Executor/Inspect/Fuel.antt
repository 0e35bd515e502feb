-- ===== src/Executor/Inspect/Fuel.antt =====
-- The scanners only move forward, so the length of the text is fuel enough.
use sqlx_turso.Base.{length, ℕ, zero, suc, ◌≤◌, ◌≡◌, refl, true, [], ◌∷◌, arith}
use sqlx_turso.Text.{Text}
use sqlx_turso.Executor.Inspect.{
  skip_single_quoted, skip_quoted, skip_block_comment, read_placeholder_name, rest_of, Look, found,
  look_on, look, remaining_loop, Scan, Move, stop, go, advance, inspect_loop,
}

length-skip_quoted-le : (q : ℕ) (cs : Text) → length (skip_quoted q cs) ≤ length cs
unfolding skip_quoted
length-skip_quoted-le q [] = omega arith
length-skip_quoted-le q (c ∷ cs) = ground (arith, length-skip_quoted-le q cs)

length-skip_block_comment-le : (p : ℕ) (cs : Text) → length (skip_block_comment p cs) ≤ length cs
unfolding skip_block_comment
length-skip_block_comment-le p [] = omega arith
length-skip_block_comment-le p (c ∷ cs) = ground (arith, length-skip_block_comment-le c cs)

length-skip_single_quoted-le : (cs : Text) → length (skip_single_quoted cs) ≤ length cs
unfolding skip_single_quoted
length-skip_single_quoted-le [] = omega arith
length-skip_single_quoted-le (c ∷ []) = omega arith
length-skip_single_quoted-le (c ∷ d ∷ cs) =
    ground (arith, length-skip_single_quoted-le cs, length-skip_single_quoted-le (d ∷ cs))

length-read_placeholder_name-le : (cs : Text) → length (read_placeholder_name cs).1 ≤ length cs
unfolding read_placeholder_name
length-read_placeholder_name-le [] = omega arith
length-read_placeholder_name-le (c ∷ cs) = ground (arith, length-read_placeholder_name-le cs)

length-rest_of-le : (cs : Text) → length (rest_of cs) ≤ length cs
length-rest_of-le [] = omega arith
length-rest_of-le (c ∷ cs) = omega arith

abbrev pub LooksWithin : ℕ → Look → Type 0
LooksWithin n found = Unit
LooksWithin n (look_on rest) = length rest ≤ n

pub look-within : (ch : ℕ) (cs : Text) → LooksWithin (length cs) (look ch cs)
unfolding look
look-within ch cs = ground (
  arith,
  length-rest_of-le cs,
  length-skip_quoted-le b'\n' (rest_of cs),
  length-skip_block_comment-le 0 (rest_of cs),
)

abbrev pub GoesWithin : ℕ → Move → Type 0
GoesWithin n (stop _) = Unit
GoesWithin n (go _ rest) = length rest ≤ n

pub advance-within : (s : Scan) (ch : ℕ) (cs : Text) → GoesWithin (length cs) (advance s ch cs)
unfolding advance
advance-within s ch cs = ground (
  arith,
  length-rest_of-le cs,
  length-skip_single_quoted-le cs,
  length-skip_quoted-le ch cs,
  length-skip_quoted-le b']' cs,
  length-skip_quoted-le b'\n' (rest_of cs),
  length-skip_block_comment-le 0 (rest_of cs),
  length-read_placeholder_name-le cs,
)

pub remaining_loop_fuel :
    (f g : ℕ) (cs : Text)
    → length cs ≤ f
    → length cs ≤ g
    → remaining_loop f cs ≡ remaining_loop g cs
unfolding remaining_loop
remaining_loop_fuel zero zero cs h k = refl
remaining_loop_fuel zero (suc g) [] h k = refl
remaining_loop_fuel zero (suc g) (c ∷ cs) h k = absurd (omega arith)
remaining_loop_fuel (suc f) zero [] h k = refl
remaining_loop_fuel (suc f) zero (c ∷ cs) h k = absurd (omega arith)
remaining_loop_fuel (suc f) (suc g) [] h k = refl
remaining_loop_fuel (suc f) (suc g) (c ∷ cs) h k =
    rest (look c cs) (look-within c cs) (λ r. remaining_loop_fuel f g r)
  where
    rest :
        (l : Look)
        → LooksWithin (length cs) l
        → ((r : Text) → length r ≤ f → length r ≤ g → remaining_loop f r ≡ remaining_loop g r)
        → (elim l [ found ↦ true | look_on r ↦ remaining_loop f r ])
          ≡ (elim l [ found ↦ true | look_on r ↦ remaining_loop g r ])
    rest found w ih = refl
    rest (look_on r) w ih = ih r (omega arith) (omega arith)

-- Any two fuels that are at least the length of the text give the same inspection: the loop ends.
pub inspect_loop_fuel :
    (f g : ℕ) (s : Scan) (cs : Text)
    → length cs ≤ f
    → length cs ≤ g
    → inspect_loop f s cs ≡ inspect_loop g s cs
unfolding inspect_loop
inspect_loop_fuel zero zero s cs h k = refl
inspect_loop_fuel zero (suc g) s [] h k = refl
inspect_loop_fuel zero (suc g) s (c ∷ cs) h k = absurd (omega arith)
inspect_loop_fuel (suc f) zero s [] h k = refl
inspect_loop_fuel (suc f) zero s (c ∷ cs) h k = absurd (omega arith)
inspect_loop_fuel (suc f) (suc g) s [] h k = refl
inspect_loop_fuel (suc f) (suc g) s (c ∷ cs) h k =
    rest (advance s c cs) (advance-within s c cs) (λ t r. inspect_loop_fuel f g t r)
  where
    rest :
        (m : Move)
        → GoesWithin (length cs) m
        → ((t : Scan) (r : Text)
            → length r ≤ f
            → length r ≤ g
            → inspect_loop f t r ≡ inspect_loop g t r)
        → (elim m [ stop i ↦ i | go t r ↦ inspect_loop f t r ])
          ≡ (elim m [ stop i ↦ i | go t r ↦ inspect_loop g t r ])
    rest (stop i) w ih = refl
    rest (go t r) w ih = ih t r (omega arith) (omega arith)
