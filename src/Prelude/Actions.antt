-- ===== src/Prelude/Actions.antt =====
-- Steps that may fail and keep the state that they leave, errors included: a function over `&mut` state
-- that returns a `Result`.
use halyard.Prelude.Results.{Result, ok, err}

abbrev pub Action {ℓ} : Type 0 → Type ℓ → Type 0 → Type ℓ
Action E S A = S → Result E A × S

-- What follows a step that has returned.
abbrev pub and_then {ℓ} :
    {E : Type 0} {S : Type ℓ} {A B : Type 0} → Result E A × S → (A → Action E S B) → Result E B × S
and_then (ok a, s) f = f a s
and_then (err e, s) f = (err e, s)

infixl 5 ◌>>=◌ ◌>>◌
abbrev pub ◌>>=◌ {ℓ} :
    {E : Type 0} {S : Type ℓ} {A B : Type 0} → Action E S A → (A → Action E S B) → Action E S B
◌>>=◌ m f s = and_then (m s) f

abbrev pub ◌>>◌ {ℓ} :
    {E : Type 0} {S : Type ℓ} {B : Type 0} → Action E S (Unit {0}) → Action E S B → Action E S B
m >> k = m >>= λ _. k

abbrev pub done {ℓ} : {E : Type 0} {S : Type ℓ} {A : Type 0} → A → Action E S A
done a s = (ok a, s)

abbrev pub stop {ℓ} : {E : Type 0} {S : Type ℓ} {A : Type 0} → E → Action E S A
stop e s = (err e, s)
