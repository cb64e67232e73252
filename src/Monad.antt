-- ===== src/Monad.antt =====
-- Methods of a mutable object that may raise: what was written before a raise stays written, so the
-- state comes back beside the error too. `E` is what a component can raise.
use hermes_k2_monitor.Prelude.{◌≡◌, refl, ap, ◌⊎◌, inl, inr}

pub data Result (E A : Type 0) : Type 0 where
  ok : A → Result E A
  raised : E → Result E A

abbrev pub Exec : Type 0 → Type 0 → Type 0 → Type 0
Exec E S A = S → Result E A × S

-- What follows a step, from the step's outcome.
abbrev pub continue : {E S A B : Type 0} → (A → Exec E S B) → Result E A × S → Result E B × S
continue f (ok a, s) = f a s
continue f (raised e, s) = (raised e, s)

infixl 5 ◌>>=◌ ◌>>◌
abbrev pub ◌>>=◌ : {E S A B : Type 0} → Exec E S A → (A → Exec E S B) → Exec E S B
◌>>=◌ m f s = continue f (m s)

abbrev pub ◌>>◌ : {E S A B : Type 0} → Exec E S A → Exec E S B → Exec E S B
m >> k = m >>= λ _. k

module _ {E S : Type 0} where
  abbrev pub pure : {A : Type 0} → A → Exec E S A
  pure a s = (ok a, s)

  abbrev pub raise : {A : Type 0} → E → Exec E S A
  raise e s = (raised e, s)

  abbrev pub gets : {A : Type 0} → (S → A) → Exec E S A
  gets f s = (ok (f s), s)

  abbrev pub modify : (S → S) → Exec E S Unit
  modify f s = (ok tt, f s)

module _ {E S A B : Type 0} (m : Exec E S A) (f : A → Exec E S B) (s : S) where
  -- A step that returns hands its result and its state on.
  pub >>=-ok : {a : A} {s' : S} → m s ≡ (ok a, s') → (m >>= f) s ≡ f a s'
  >>=-ok e = ap (continue f) e

  pub >>=-raised : {e : E} {s' : S} → m s ≡ (raised e, s') → (m >>= f) s ≡ (raised e, s')
  >>=-raised e = ap (continue f) e

pub Result-cases :
    {E A : Type 0} (r : Result E A) → ((a : A) × (r ≡ ok a)) ⊎ ((e : E) × (r ≡ raised e))
Result-cases (ok a) = inl (a, refl)
Result-cases (raised e) = inr (e, refl)

-- What holds of all that a step hands on, and of what it raises, holds of the two steps in a row.
pub continue-cases :
    {E S A B : Type 0} (P : Result E B × S → Type 0) (f : A → Exec E S B) (o : Result E A × S)
    → ((e : E) → o.0 ≡ raised e → P (raised e, o.1))
    → ((a : A) → o.0 ≡ ok a → P (f a o.1))
    → P (continue f o)
continue-cases P f (ok a, s) stops goes = goes a refl
continue-cases P f (raised e, s) stops goes = stops e refl

pub continue-ok :
    {E S A B : Type 0} (f : A → Exec E S B) (o : Result E A × S) (a : A)
    → o.0 ≡ ok a
    → continue f o ≡ f a o.1
continue-ok f (o, s) a e = ap (λ r. continue f (r, s)) e
