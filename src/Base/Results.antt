-- ===== src/Base/Results.antt =====
-- Rust's `Result`, in the order `Result<T, E>`, with the bind that `?` stands for.
use mathlib.Core.Path.{◌≡◌, refl}
use mathlib.Core.Option.{Option, none, some}

pub data Result {ℓ κ} (A : Type ℓ) (E : Type κ) : Type (ℓ ⊔ κ) where
  ok : A → Result A E
  err : E → Result A E

infixl 5 ◌>>=◌
abbrev pub ◌>>=◌ {ℓ κ ε} :
    {A : Type ℓ} {B : Type κ} {E : Type ε} → Result A E → (A → Result B E) → Result B E
err failure >>= next = err failure
ok value >>= next = next value

abbrev pub map_err {ℓ ε φ} :
    {A : Type ℓ} {E : Type ε} {F : Type φ} → (E → F) → Result A E → Result A F
map_err f (ok a) = ok a
map_err f (err e) = err (f e)

abbrev pub ok_or {ℓ ε} : {A : Type ℓ} {E : Type ε} → E → Option A → Result A E
ok_or e none = err e
ok_or e (some a) = ok a

infixl 5 ◌>>◌
abbrev pub ◌>>◌ {κ ε} : {B : Type κ} {E : Type ε} → Result (Unit {0}) E → Result B E → Result B E
first >> second = first >>= λ _. second

-- `?` where a state is passed on, past an error too.
abbrev pub and_then {ℓ ε} :
    {A B S : Type ℓ} {X : Type ε} → (A → S → Result B X × S) → Result A X × S → Result B X × S
and_then f (ok a, s) = f a s
and_then f (err e, s) = (err e, s)

-- A chain that succeeds: what its first part gave.
pub >>=-eq-ok {ℓ κ ε} :
    {A : Type ℓ} {B : Type κ} {E : Type ε} (r : Result A E) (next : A → Result B E) {result : B}
    → (r >>= next) ≡ ok result
    → (value : A) × (r ≡ ok value) × (next value ≡ ok result)
>>=-eq-ok (err failure) next failed = cc
>>=-eq-ok (ok value) next done = (value, refl, done)

-- The same where a state is passed on.
pub and_then-ok {ℓ ε} :
    {A B S : Type ℓ} {X : Type ε} (f : A → S → Result B X × S) (r : Result A X × S) (b : B) (t : S)
    → and_then f r ≡ (ok b, t)
    → (a : A) × (s : S) × (r ≡ (ok a, s)) × (f a s ≡ (ok b, t))
and_then-ok f (ok a, s) b t h = (a, s, refl, h)
and_then-ok f (err e, s) b t h = cc
