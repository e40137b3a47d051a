-- ===== src/Workflow/Yields.antt =====
-- What a fallible step guarantees of its value, and that it has not run out of the model's fuel.
use remote_code.Prelude.{ap, ◌≡◌, ◌≢◌, refl, Bool, true, false, Option, none, some, if◌then◌else◌}
use remote_code.Workflow.Model.{Error, Result, ok, err, ◌>>=◌, or_fail, fuel_exhausted, panicked}

pub record Yields {ℓ κ} {A : Type ℓ} (P : A → Type κ) (r : Result A) : Type (ℓ ⊔ κ) where
  pub at : (a : A) → r ≡ ok a → P a
  pub fueled : r ≢ err fuel_exhausted

module _ {ℓ κ} {A : Type ℓ} {P : A → Type κ} where
  pub Yields-ok : (a : A) → P a → Yields P (ok a)
  Yields-ok a h = record { at = λ b e. same_ok a b h e; fueled = λ e. cc }
    where
      same_ok : (a b : A) → P a → ok a ≡ ok b → P b
      same_ok a b h e = rw (← ok-injective a b e) h
        where
          ok-injective : (x y : A) → ok x ≡ ok y → x ≡ y
          ok-injective x y p = cc

  pub Yields-err : (e : Error) → e ≢ fuel_exhausted → Yields P (err e)
  Yields-err e h = record { at = λ b p. cc; fueled = λ p. h cc }

  pub Yields-if :
      (b : Bool) (r r' : Result A)
      → (b ≡ true → Yields P r)
      → (b ≡ false → Yields P r')
      → Yields P (if b then r else r')
  unfolding if◌then◌else◌
  Yields-if true r r' h h' = h refl
  Yields-if false r r' h h' = h' refl

module _ {ℓ κ} {A : Type ℓ} {P : A → Type κ} where
  pub Yields-then {μ ν} :
      {B : Type μ} {Q : B → Type ν} (r : Result A) (f : A → Result B)
      → Yields P r
      → ((a : A) → P a → Yields Q (f a))
      → Yields Q (r >>= f)
  unfolding ◌>>=◌
  Yields-then (ok a) f h k = k a (h.at a refl)
  Yields-then (err e) f h k = Yields-err e λ p. h.fueled (ap (λ x. err x) p)

module _ {ℓ κ μ} {A : Type ℓ} {P : A → Type κ} {Q : A → Type μ} where
  pub Yields-imp : (r : Result A) → Yields P r → ((a : A) → P a → Q a) → Yields Q r
  Yields-imp r h k = record { at = λ a e. k a (h.at a e); fueled = h.fueled }

-- A lookup that stops the program where it finds nothing.
pub Yields-present {ℓ κ μ} :
    {A : Type ℓ} {B : Type κ} {Q : B → Type μ} (o : Option A) (f : A → Result B)
    → ((a : A) → o ≡ some a → Yields Q (f a))
    → Yields Q (or_fail o panicked >>= f)
unfolding or_fail ◌>>=◌
Yields-present none f h = Yields-err panicked λ p. cc
Yields-present (some a) f h = h a refl
