-- ===== src/Action.antt =====
-- Methods that take `&mut self` and may fail: the state is passed on also where they fail.
use sqlx_turso.Base.{Result, ok, err, and_then}
use sqlx_turso.Error.{Error}

abbrev pub Action {ℓ} : Type ℓ → Type ℓ → Type ℓ
Action S A = S → Result A Error × S

-- What follows a call: `?` returns at once where it failed.
infixl 5 ◌>>=◌ ◌>>◌
abbrev pub ◌>>=◌ {ℓ} : {S A B : Type ℓ} → Action S A → (A → Action S B) → Action S B
◌>>=◌ m f s = and_then f (m s)

abbrev pub ◌>>◌ {ℓ} : {S A B : Type ℓ} → Action S A → Action S B → Action S B
m >> k = m >>= λ _. k

abbrev pub pure {ℓ} : {S A : Type ℓ} → A → Action S A
pure a s = (ok a, s)

abbrev pub fail {ℓ} : {S A : Type ℓ} → Error → Action S A
fail e s = (err e, s)

abbrev pub modify : {S : Type 0} → (S → S) → Action S (Unit {0})
modify f s = (ok tt, f s)

-- What both calls keep, the two in a row keep.
pub and_then-keeps :
    {S : Type 0} (P : S → Type 0) (k : Action S (Unit {0})) (out : Result (Unit {0}) Error × S)
    → P out.1
    → ((d : S) → P d → P (k d).1)
    → P (and_then (λ _. k) out).1
and_then-keeps P k (ok _, d) h next = next d h
and_then-keeps P k (err e, d) h next = h
