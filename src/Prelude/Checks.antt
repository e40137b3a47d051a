-- ===== src/Prelude/Checks.antt =====
-- Results of fallible code with an error type of its own.
use mathlib.Core.Path.{◌≡◌, refl, subst}
use mathlib.Core.Bool.{Bool, true, false}
use mathlib.Core.Option.{Option, none, some}

pub data Checked {ℓ} (E : Type 0) (A : Type ℓ) : Type ℓ where
  accept : A → Checked E A
  reject : E → Checked E A

infixl 5 ◌and_then◌
unfoldable pub ◌and_then◌ {ℓ κ} :
    {E : Type 0} {A : Type ℓ} {B : Type κ} → Checked E A → (A → Checked E B) → Checked E B
accept a and_then f = f a
reject e and_then f = reject e

-- An early return with an error.
unfoldable pub reject_if {ℓ} : {E : Type 0} {A : Type ℓ} → Bool → E → Checked E A → Checked E A
reject_if true e r = reject e
reject_if false e r = r

-- A missing value is an error.
unfoldable pub or_reject {ℓ} : {E : Type 0} {A : Type ℓ} → Option A → E → Checked E A
or_reject none e = reject e
or_reject (some a) e = accept a

-- An error of a callee, wrapped.
unfoldable pub reject_as {ℓ} : {E F : Type 0} {A : Type ℓ} → (E → F) → Checked E A → Checked F A
reject_as f (accept a) = accept a
reject_as f (reject e) = reject (f e)

pub accept-injective {ℓ} :
    {E : Type 0} {A : Type ℓ} (a b : A) → ◌≡◌ {A = Checked E A} (accept a) (accept b) → a ≡ b
accept-injective a b h = cc

-- The predicate holds of the value, where there is one.
unfoldable pub Accepts {ℓ κ} : {E : Type 0} {A : Type ℓ} → (A → Type κ) → Checked E A → Type κ
Accepts P (accept a) = P a
Accepts P (reject e) = Unit

pub Accepts-accept {ℓ κ} :
    {A : Type ℓ} (E : Type 0) (P : A → Type κ) (a : A) → P a → Accepts {E = E} P (accept a)
unfolding Accepts
Accepts-accept E P a h = h

pub Accepts-reject_if {ℓ κ} :
    {E : Type 0} {A : Type ℓ} (P : A → Type κ) (b : Bool) (e : E) (r : Checked E A)
    → (b ≡ false → Accepts P r)
    → Accepts P (reject_if b e r)
unfolding Accepts reject_if
Accepts-reject_if P true e r h = tt
Accepts-reject_if P false e r h = h refl

pub Accepts-and_then {ℓ κ μ ν} :
    {E : Type 0} {A : Type ℓ} {B : Type κ} (P : A → Type μ) (Q : B → Type ν) (r : Checked E A)
    (f : A → Checked E B)
    → Accepts P r
    → ((a : A) → P a → Accepts Q (f a))
    → Accepts Q (r and_then f)
unfolding Accepts ◌and_then◌
Accepts-and_then P Q (accept a) f h k = k a h
Accepts-and_then P Q (reject e) f h k = tt

pub Accepts-at {ℓ κ} :
    {E : Type 0} {A : Type ℓ} (P : A → Type κ) (r : Checked E A) (a : A)
    → Accepts P r
    → r ≡ accept a
    → P a
unfolding Accepts
Accepts-at P (accept b) a h e = subst P (accept-injective b a e) h
Accepts-at P (reject x) a h e = cc

pub Accepts-self {ℓ κ} :
    {E : Type 0} {A : Type ℓ} (P : A → Type κ) (r : Checked E A)
    → ((a : A) → r ≡ accept a → P a)
    → Accepts P r
unfolding Accepts
Accepts-self P (accept a) h = h a refl
Accepts-self P (reject e) h = tt

pub Accepts-imp {ℓ κ μ} :
    {E : Type 0} {A : Type ℓ} (P : A → Type κ) (Q : A → Type μ) (r : Checked E A)
    → Accepts P r
    → ((a : A) → P a → Q a)
    → Accepts Q r
unfolding Accepts
Accepts-imp P Q (accept a) h k = k a h
Accepts-imp P Q (reject e) h k = tt

pub Accepts-or_reject {ℓ κ} :
    {E : Type 0} {A : Type ℓ} (P : A → Type κ) (o : Option A) (e : E)
    → ((a : A) → o ≡ some a → P a)
    → Accepts P (or_reject o e)
unfolding Accepts or_reject
Accepts-or_reject P none e h = tt
Accepts-or_reject P (some a) e h = h a refl

pub Accepts-reject_as {ℓ κ} :
    {E F : Type 0} {A : Type ℓ} (P : A → Type κ) (f : E → F) (r : Checked E A)
    → Accepts P r
    → Accepts P (reject_as f r)
unfolding Accepts reject_as
Accepts-reject_as P f (accept a) h = h
Accepts-reject_as P f (reject e) h = tt

-- The predicate holds of the error, where there is one.
unfoldable pub Rejects {ℓ κ} : {E : Type 0} {A : Type ℓ} → (E → Type κ) → Checked E A → Type κ
Rejects Q (accept a) = Unit
Rejects Q (reject e) = Q e

pub Rejects-accept {ℓ κ} :
    {A : Type ℓ} (E : Type 0) (Q : E → Type κ) (a : A) → Rejects {E = E} Q (accept a)
unfolding Rejects
Rejects-accept E Q a = tt

pub Rejects-reject_if {ℓ κ} :
    {E : Type 0} {A : Type ℓ} (Q : E → Type κ) (b : Bool) (e : E) (r : Checked E A)
    → (b ≡ true → Q e)
    → (b ≡ false → Rejects Q r)
    → Rejects Q (reject_if b e r)
unfolding Rejects reject_if
Rejects-reject_if Q true e r h k = h refl
Rejects-reject_if Q false e r h k = k refl

pub Rejects-and_then {ℓ κ μ} :
    {E : Type 0} {A : Type ℓ} {B : Type κ} (Q : E → Type μ) (r : Checked E A) (f : A → Checked E B)
    → Rejects Q r
    → ((a : A) → r ≡ accept a → Rejects Q (f a))
    → Rejects Q (r and_then f)
unfolding Rejects ◌and_then◌
Rejects-and_then Q (accept a) f h k = k a refl
Rejects-and_then Q (reject e) f h k = h

pub Rejects-at {ℓ κ} :
    {E : Type 0} {A : Type ℓ} (Q : E → Type κ) (r : Checked E A) (e : E)
    → Rejects Q r
    → r ≡ reject e
    → Q e
unfolding Rejects
Rejects-at Q (accept a) e h p = cc
Rejects-at {E} {A} Q (reject d) e h p = subst Q (reject-injective d e p) h
  where
    reject-injective : (a b : E) → ◌≡◌ {A = Checked E A} (reject a) (reject b) → a ≡ b
    reject-injective a b h = cc

pub Rejects-self {ℓ κ} :
    {E : Type 0} {A : Type ℓ} (Q : E → Type κ) (r : Checked E A)
    → ((e : E) → r ≡ reject e → Q e)
    → Rejects Q r
unfolding Rejects
Rejects-self Q (accept a) h = tt
Rejects-self Q (reject e) h = h e refl

pub Rejects-imp {ℓ κ μ} :
    {E : Type 0} {A : Type ℓ} (P : E → Type κ) (Q : E → Type μ) (r : Checked E A)
    → Rejects P r
    → ((e : E) → P e → Q e)
    → Rejects Q r
unfolding Rejects
Rejects-imp P Q (accept a) h k = tt
Rejects-imp P Q (reject e) h k = k e h

pub Rejects-or_reject {ℓ κ} :
    {E : Type 0} {A : Type ℓ} (Q : E → Type κ) (o : Option A) (e : E)
    → Q e
    → Rejects Q (or_reject o e)
unfolding Rejects or_reject
Rejects-or_reject Q none e h = h
Rejects-or_reject Q (some a) e h = tt

pub Rejects-reject_as {ℓ κ} :
    {E F : Type 0} {A : Type ℓ} (Q : F → Type κ) (f : E → F) (r : Checked E A)
    → Rejects (λ e. Q (f e)) r
    → Rejects Q (reject_as f r)
unfolding Rejects reject_as
Rejects-reject_as Q f (accept a) h = tt
Rejects-reject_as Q f (reject e) h = h

pub passes :
    {E A : Type 0} (b : Bool) (e : E) (r s : Checked E A) → b ≡ false → r ≡ s → reject_if b e r ≡ s
unfolding reject_if
passes true e r s h p = cc
passes false e r s h p = p

pub stops :
    {E A : Type 0} (b : Bool) (e : E) (r : Checked E A) → b ≡ true → reject_if b e r ≡ reject e
unfolding reject_if
stops true e r h = refl
stops false e r h = cc
