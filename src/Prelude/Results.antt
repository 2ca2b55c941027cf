-- ===== src/Prelude/Results.antt =====
-- The result of a call that changes a state `S` and may fail: Go's `(A, error)` with the state
-- that the call leaves, on either branch.
use mathlib.Core.Path.{◌≡◌, refl}
use mathlib.Core.Logic.{◌⊎◌, inl, inr}

pub data Outcome (E S A : Type 0) : Type 0 where
  ok : A → S → Outcome E S A
  err : E → S → Outcome E S A

abbrev pub pure : {E S A : Type 0} → A → S → Outcome E S A
pure a s = ok a s

abbrev pub fail : {E S A : Type 0} → E → S → Outcome E S A
fail e s = err e s

infixl 5 ◌>>=◌ ◌>>◌
abbrev pub ◌>>=◌ :
    {E S A B : Type 0} → (S → Outcome E S A) → (A → S → Outcome E S B) → S → Outcome E S B
◌>>=◌ m f s = elim (m s) [ ok a s' ↦ f a s' | err e s' ↦ err e s' ]

abbrev pub ◌>>◌ : {E S A B : Type 0} → (S → Outcome E S A) → (S → Outcome E S B) → S → Outcome E S B
m >> k = m >>= λ _. k

-- The error that a call returns, wrapped.
abbrev pub map_err : {E F S A : Type 0} → (E → F) → (S → Outcome E S A) → S → Outcome F S A
map_err f m s = elim (m s) [ ok a s' ↦ ok a s' | err e s' ↦ err (f e) s' ]

-- The state behind an outcome.
abbrev pub state : {E S A : Type 0} → Outcome E S A → S
state (ok a s) = s
state (err e s) = s

pub Outcome-cases :
    {E S A : Type 0} (o : Outcome E S A)
    → ((a : A) × (s : S) × (o ≡ ok a s)) ⊎ ((e : E) × (s : S) × (o ≡ err e s))
Outcome-cases (ok a s) = inl (a, s, refl)
Outcome-cases (err e s) = inr (e, s, refl)
