-- ===== src/Common/Flow.antt =====
-- Go's way to run steps on shared state: `if err := step(); err != nil { return err }`.
use mathlib.Core.Path.{◌≡◌, refl}

-- A function `(A, error)` whose value is read only when the error is nil.
pub data Result {ℓ κ} (E : Type ℓ) (A : Type κ) : Type (ℓ ⊔ κ) where
  ok : A → Result E A
  err : E → Result E A

-- A function that mutates a state `S` and returns an error. `next` is a nil error, `fail` keeps
-- what was mutated before the error, and `panic` is a run-time panic such as a nil dereference.
pub data Step {ℓ κ} (E : Type ℓ) (S : Type κ) : Type (ℓ ⊔ κ) where
  next : S → Step E S
  fail : S → E → Step E S
  panic : Step E S

infixl 5 ◌>>=◌
abbrev pub ◌>>=◌ {ℓ κ} : {E : Type ℓ} {S : Type κ} → Step E S → (S → Step E S) → Step E S
next s >>= f = f s
fail s e >>= f = fail s e
panic >>= f = panic

-- Inversion of a sequence that succeeds: each of its steps did.
pub >>=-eq-next {ℓ κ} :
    {E : Type ℓ} {S : Type κ} (m : Step E S) (f : S → Step E S) {t : S}
    → (m >>= f) ≡ next t
    → (s : S) × (m ≡ next s) × (f s ≡ next t)
>>=-eq-next (next s) f h = (s, refl, h)
>>=-eq-next (fail s e) f h = cc
>>=-eq-next panic f h = cc

value_or {ℓ κ} : {E : Type ℓ} {S : Type κ} → S → Step E S → S
value_or d (next s) = s
value_or d (fail s e) = d
value_or d panic = d

pub next_injective {ℓ κ} :
    {E : Type ℓ} {S : Type κ} {s t : S} → ◌≡◌ {A = Step E S} (next s) (next t) → s ≡ t
unfolding value_or
next_injective {s} h = λ i. value_or s (h i)

ok_value {ℓ κ} : {E : Type ℓ} {A : Type κ} → A → Result E A → A
ok_value d (ok a) = a
ok_value d (err e) = d

pub ok_injective {ℓ κ} :
    {E : Type ℓ} {A : Type κ} {a b : A} → ◌≡◌ {A = Result E A} (ok a) (ok b) → a ≡ b
unfolding ok_value
ok_injective {a} h = λ i. ok_value a (h i)
