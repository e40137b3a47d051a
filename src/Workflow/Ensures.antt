-- ===== src/Workflow/Ensures.antt =====
-- What a fallible step guarantees of the value that it returns, with a rule for each way in which
-- the operations of the service are put together.
use remote_code.Prelude.{◌≡◌, refl, Bool, true, false, Option, none, some, if◌then◌else◌}
use remote_code.Workflow.Model.{Error, Result, ok, err, ◌>>=◌, ◌>>◌, guard, or_fail}

pub record Ensures {ℓ κ} {A : Type ℓ} (P : A → Type κ) (r : Result A) : Type (ℓ ⊔ κ) where
  pub at : (a : A) → r ≡ ok a → P a

module _ {ℓ κ} {A : Type ℓ} {P : A → Type κ} where
  pub Ensures-ok : (a : A) → P a → Ensures P (ok a)
  Ensures-ok a h = record { at = λ b e. subst_ok a b h e }
    where
      subst_ok : (a b : A) → P a → ok a ≡ ok b → P b
      subst_ok a b h e = rw (← ok-injective a b e) h
        where
          ok-injective : (x y : A) → ok x ≡ ok y → x ≡ y
          ok-injective x y p = cc

  pub Ensures-err : (e : Error) → Ensures P (err e)
  Ensures-err e = record { at = λ b p. cc }

  pub Ensures-or_fail :
      (o : Option A) (e : Error) → ((a : A) → o ≡ some a → P a) → Ensures P (or_fail o e)
  unfolding or_fail
  Ensures-or_fail none e h = Ensures-err e
  Ensures-or_fail (some a) e h = Ensures-ok a (h a refl)

  pub Ensures-if :
      (b : Bool) (r r' : Result A)
      → (b ≡ true → Ensures P r)
      → (b ≡ false → Ensures P r')
      → Ensures P (if b then r else r')
  unfolding if◌then◌else◌
  Ensures-if true r r' h h' = h refl
  Ensures-if false r r' h h' = h' refl

module _ {ℓ κ μ} {A : Type ℓ} {B : Type κ} {Q : B → Type μ} where
  pub Ensures-bind :
      (r : Result A) (f : A → Result B)
      → ((a : A) → r ≡ ok a → Ensures Q (f a))
      → Ensures Q (r >>= f)
  unfolding ◌>>=◌
  Ensures-bind (ok a) f h = h a refl
  Ensures-bind (err e) f h = Ensures-err e

module _ {ℓ κ} {A : Type ℓ} {P : A → Type κ} where
  -- What a call guarantees, as a premise of the steps after it.
  pub Ensures-then {μ ν} :
      {B : Type μ} {Q : B → Type ν} (r : Result A) (f : A → Result B)
      → Ensures P r
      → ((a : A) → P a → Ensures Q (f a))
      → Ensures Q (r >>= f)
  Ensures-then r f h k = Ensures-bind r f (λ a e. k a (h.at a e))

module _ {ℓ κ μ} {A : Type ℓ} {P : A → Type κ} {Q : A → Type μ} where
  pub Ensures-imp : (r : Result A) → Ensures P r → ((a : A) → P a → Q a) → Ensures Q r
  Ensures-imp r h k = record { at = λ a e. k a (h.at a e) }

module _ {κ μ} {B : Type κ} {Q : B → Type μ} where
  pub Ensures-guard :
      (b : Bool) (e : Error) (r : Result B) → (b ≡ true → Ensures Q r) → Ensures Q (guard b e >> r)
  unfolding guard ◌>>◌
  Ensures-guard true e r h = h refl
  Ensures-guard false e r h = Ensures-err e

  pub Ensures-seq :
      (u : Result (Unit {0})) (r : Result B) → (u ≡ ok tt → Ensures Q r) → Ensures Q (u >> r)
  unfolding ◌>>◌ ◌>>=◌
  Ensures-seq (ok tt) r h = h refl
  Ensures-seq (err e) r h = Ensures-err e

-- A guard at the end.
pub Ensures-last {κ} :
    {Q : Type κ} (b : Bool) (e : Error) → (b ≡ true → Q) → Ensures (λ _. Q) (guard b e)
unfolding guard
Ensures-last true e h = Ensures-ok tt (h refl)
Ensures-last false e h = Ensures-err e
