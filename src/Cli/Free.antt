-- ===== src/Cli/Free.antt =====
-- The search for a free name ends: more numbers are tried than names are taken.
use mathlib.Core.List.{append_cancel_left}
use sqlx_turso.Base.{
  ltb, if◌then◌else◌, Bool-cases, length, ℕ, zero, suc, ◌+◌, ◌≤◌, ◌<◌, ◌≡◌, refl, sym, ap, subst,
  ◌∙◌, inl, inr, Bool, true, false, ◌||◌, some, List, [], ◌∷◌, ◌++◌, arith,
}
use sqlx_turso.Text.{Text, text_eq, parse_unsigned}
use sqlx_turso.Text.Laws.{text_eq_iff}
use sqlx_turso.Text.Decimal.{show_nat, parse_unsigned-show_nat}
use sqlx_turso.Cli.{Paths, FileSystem}
use sqlx_turso.Cli.Sibling.{parent_dir, candidate_stem, candidate, attempts, unique_sibling}

abbrev pub member : Text → List Text → Bool
member x [] = false
member x (y ∷ ys) = text_eq x y || member x ys

abbrev remove : Text → List Text → List Text
remove x [] = []
remove x (y ∷ ys) = (let rest = remove x ys in if text_eq x y then rest else y ∷ rest)

length-remove : (x : Text) (ys : List Text) → length (remove x ys) ≤ length ys
length-remove x [] = omega arith
length-remove x (y ∷ ys) =
    let h = length-remove x ys in
    elim (Bool-cases (text_eq x y)) [ inl e ↦ rw e (omega arith) | inr e ↦ rw e (omega arith) ]

length-remove-member :
    (x : Text) (ys : List Text) → member x ys ≡ true → suc (length (remove x ys)) ≤ length ys
length-remove-member x [] h = absurd (ground arith)
length-remove-member x (y ∷ ys) h =
    let k = length-remove x ys in
    elim (Bool-cases (text_eq x y)) [
      | inl e ↦ rw e (omega arith)
      | inr e ↦ let more = length-remove-member x ys (rw e at h) in rw e (omega arith)
    ]

member_step :
    (z x y : Text) (ys : List Text)
    → (member z (remove x ys) ≡ false → member z ys ≡ false)
    → (text_eq z y || member z (remove x ys)) ≡ false
    → member z (y ∷ ys) ≡ false
member_step z x y ys h k = ground arith

member-remove :
    (z x : Text) (ys : List Text)
    → text_eq z x ≡ false
    → member z (remove x ys) ≡ false
    → member z ys ≡ false
member-remove z x [] h k = refl
member-remove z x (y ∷ ys) h k = elim (Bool-cases (text_eq x y)) [
  | inl e ↦
      let same = subst (λ w. text_eq z w ≡ false) ((text_eq_iff x y).0 e) h in
      rw (same, member-remove z x ys h (rw e at k)) refl
  | inr e ↦
      let more : (text_eq z y || member z (remove x ys)) ≡ false = rw e at k in
      member_step z x y ys (member-remove z x ys h) more
]

some-injective : (m n : ℕ) → some m ≡ some n → m ≡ n
some-injective m n h = ground arith

show_nat-injective : (m n : ℕ) → show_nat m ≡ show_nat n → m ≡ n
show_nat-injective m n h = some-injective m n (
    sym (parse_unsigned-show_nat (suc (m + n)) m (omega arith))
    ∙ ap (parse_unsigned (suc (m + n))) h
    ∙ parse_unsigned-show_nat (suc (m + n)) n (omega arith))

module _ (f : ℕ → Text) (f-injective : (m n : ℕ) → f m ≡ f n → m ≡ n) where
  different : (m n : ℕ) → m < n → text_eq (f m) (f n) ≡ false
  different m n h = elim (Bool-cases (text_eq (f m) (f n))) [
    | inl e ↦ absurd (not_below m n h (f-injective m n ((text_eq_iff (f m) (f n)).0 e)))
    | inr e ↦ e
  ]
    where
      not_below : (m n : ℕ) → m < n → m ≡ n → ⊥
      not_below m n h e = omega arith

  -- Of the first names of a sequence without repetition one is not in a list that is not longer.
  free_name :
      (k : ℕ) (names : List Text)
      → length names ≤ k
      → (n : ℕ) × (n ≤ k) × (member (f n) names ≡ false)
  free_name zero [] h = (0, omega arith, refl)
  free_name zero (x ∷ names) h = absurd (omega arith)
  free_name (suc k) names h = elim (Bool-cases (member (f (suc k)) names)) [
    | inl e ↦
        let shorter = length-remove-member (f (suc k)) names e in
        let more = free_name k (remove (f (suc k)) names) (omega arith) in
        (
          more.0,
          omega arith,
          member-remove (f more.0) (f (suc k)) names (different more.0 (suc k) (omega arith))
              more.2,
        )
    | inr e ↦ (suc k, omega arith, e)
  ]

below :
    (exists : Text → Bool) (f : ℕ → Text) (n m : ℕ)
    → n ≤ m
    → exists (f n) ≡ true
    → exists (f m) ≡ false
    → suc n ≤ m
below exists f n m h taken free = elim (Bool-cases (ltb n m)) [
  | inl e ↦ ltb_lt n m e
  | inr e ↦
      absurd (unlike (exists (f m)) (subst (λ k. exists (f k) ≡ true) (same n m h e) taken) free)
]
  where
    ltb_lt : (n m : ℕ) → ltb n m ≡ true → suc n ≤ m
    ltb_lt n m e = ground arith

    same : (n m : ℕ) → n ≤ m → ltb n m ≡ false → n ≡ m
    same n m h e = ground arith

    unlike : (b : Bool) → b ≡ true → b ≡ false → ⊥
    unlike b h k = ground arith

-- Where a number in reach is free, the loop ends at one that is not above it and free.
attempts_lem :
    (fuel : ℕ) (exists : Text → Bool) (f : ℕ → Text) (n m : ℕ)
    → n ≤ m
    → m < n + fuel
    → exists (f m) ≡ false
    → (j : ℕ) × (j ≤ m) × (attempts fuel exists f n ≡ some (f j)) × (exists (f j) ≡ false)
unfolding attempts
attempts_lem zero exists f n m low high free = absurd (omega arith)
attempts_lem (suc fuel) exists f n m low high free = elim (Bool-cases (exists (f n))) [
  | inl e ↦
      let more =
        attempts_lem fuel exists f (suc n) m (below exists f n m low e free) (omega arith) free in
      (more.0, more.1, rw e more.2, more.3)
  | inr e ↦ (n, low, rw e refl, e)
]

candidate-injective :
    (p : Paths) (pid : ℕ) (path suffix : Text)
    → ((a b : Text)
        → p.join (parent_dir p path) (b'.' ∷ a) ≡ p.join (parent_dir p path) (b'.' ∷ b)
        → b'.' ∷ a ≡ b'.' ∷ b)
    → (m n : ℕ) → candidate p pid path suffix m ≡ candidate p pid path suffix n
    → m ≡ n
candidate-injective p pid path suffix join-injective m n h = show_nat-injective m n (
    append_cancel_left (b'.' ∷ candidate_stem p pid path suffix) (show_nat m) (show_nat n) (
      join-injective (candidate_stem p pid path suffix ++ show_nat m)
        (candidate_stem p pid path suffix ++ show_nat n) h))

-- The search for a free sibling ends, with one attempt more than there are names that are taken:
-- its result is a candidate that does not exist, and of a number not above how many are taken. That
-- is where `names` has every path that exists, and the directory's path joined to different names
-- with a leading dot gives different paths.
pub unique_sibling-free :
    (fs : FileSystem) (p : Paths) (pid fuel : ℕ) (s : fs.State) (path suffix : Text)
    → (names : List Text) → ((q : Text) → fs.exists s q ≡ true → member q names ≡ true)
    → ((a b : Text)
        → p.join (parent_dir p path) (b'.' ∷ a) ≡ p.join (parent_dir p path) (b'.' ∷ b)
        → b'.' ∷ a ≡ b'.' ∷ b)
    → length names < fuel
    → (n : ℕ) × (n ≤ length names)
      × (unique_sibling fs p pid fuel s path suffix ≡ some (candidate p pid path suffix n))
      × (fs.exists s (candidate p pid path suffix n) ≡ false)
unfolding unique_sibling
unique_sibling-free fs p pid fuel s path suffix names finite join-injective enough =
    let free =
      free_name (candidate p pid path suffix) (candidate-injective p pid path suffix join-injective)
        (length names) names (omega arith) in
    let done =
      attempts_lem fuel (fs.exists s) (candidate p pid path suffix) 0 free.0 (omega arith)
        (omega arith)
        (absent (fs.exists s (candidate p pid path suffix free.0))
          (member (candidate p pid path suffix free.0) names)
          (finite (candidate p pid path suffix free.0)) free.2) in
    (done.0, omega arith, done.2, done.3)
  where
    absent : (a b : Bool) → (a ≡ true → b ≡ true) → b ≡ false → a ≡ false
    absent a b h k = ground arith
