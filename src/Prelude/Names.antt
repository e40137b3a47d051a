-- ===== src/Prelude/Names.antt =====
-- Lists of names: membership as a test, and the sizes of lists without repetition.
use Prim.Native.Nat.{ℕ, suc, ◌+◌, ◌≤◌, ◌<◌}
use Prim.Native.String.{String, compare}
use text.Mathlib.Text.{is_le}
use mathlib.Core.Path.{◌≡◌, refl, ap, ◌∙◌}
use mathlib.Core.Logic.{◌⊎◌, inl, inr}
use mathlib.Core.Bool.{Bool, true, false, not, ◌||◌}
use mathlib.Core.List.{List, [], ◌∷◌, ◌++◌}
use native.Mathlib.Omega.{arith}
use text.Mathlib.TextEquality.{eq_iff}
use remote_code.Prelude.Tests.{if◌then◌else◌, Bool-cases}
use remote_code.Prelude.Lists.{length}
use remote_code.Prelude.Maps.{Map, lookup, insert, keys, str_eq, str_eq_refl, str_eq→eq}
use remote_code.Prelude.Text.{insert_sorted, sort_strings}
use mathlib.Core.Option.{Option, none, some}

abbrev pub has : String → List String → Bool
has x [] = false
has x (y ∷ ys) = str_eq y x || has x ys

abbrev pub IsDistinct : List String → Type 0
IsDistinct [] = Unit
IsDistinct (x ∷ xs) = (has x xs ≡ false) × IsDistinct xs

pub occurrences : String → List String → ℕ
occurrences x [] = 0
occurrences x (y ∷ ys) = if str_eq y x then suc (occurrences x ys) else occurrences x ys

pub occurrences-nil : (x : String) → occurrences x [] ≡ 0
unfolding occurrences
occurrences-nil x = refl

pub occurrences-cons :
    (x y : String) (ys : List String)
    → occurrences x (y ∷ ys) ≡ (if str_eq y x then suc (occurrences x ys) else occurrences x ys)
unfolding occurrences
occurrences-cons x y ys = refl

pub has-append : (x : String) (xs ys : List String) → has x (xs ++ ys) ≡ (has x xs || has x ys)
has-append x [] ys = refl
has-append x (y ∷ xs) ys = ground (arith, has-append x xs ys)

pub occurrences-append :
    (x : String) (xs ys : List String)
    → occurrences x (xs ++ ys) ≡ occurrences x xs + occurrences x ys
unfolding occurrences if◌then◌else◌
occurrences-append x [] ys = omega arith
occurrences-append x (y ∷ xs) ys = ground (arith, occurrences-append x xs ys)

pub occurrences-has : (x : String) (xs : List String) → has x xs ≡ true → 0 < occurrences x xs
unfolding occurrences if◌then◌else◌
occurrences-has x [] h = cc
occurrences-has x (y ∷ ys) h = ground (arith, occurrences-has x ys)

pub occurrences_absent : (x : String) (xs : List String) → has x xs ≡ false → occurrences x xs ≡ 0
unfolding occurrences if◌then◌else◌
occurrences_absent x [] h = refl
occurrences_absent x (y ∷ ys) h = ground (arith, occurrences_absent x ys)

remove : String → List String → List String
remove x [] = []
remove x (y ∷ ys) = if str_eq y x then ys else y ∷ remove x ys

remove-has :
    (x y : String) (ys : List String)
    → str_eq x y ≡ false
    → has y ys ≡ true
    → has y (remove x ys) ≡ true
unfolding remove if◌then◌else◌
remove-has x y [] d h = h
remove-has x y (z ∷ ys) d h = ground (arith, remove-has x y ys, eq_iff x y, eq_iff z x, eq_iff z y)

remove-length :
    (x : String) (ys : List String) → has x ys ≡ true → suc (length (remove x ys)) ≡ length ys
unfolding remove if◌then◌else◌
remove-length x [] h = cc
remove-length x (y ∷ ys) h = ground (arith, remove-length x ys)

abbrev pub Within : List String → List String → Type 0
Within xs ys = (x : String) → has x xs ≡ true → has x ys ≡ true

pub or_cases : (a b : Bool) → (a || b) ≡ true → (a ≡ true) ⊎ (b ≡ true)
or_cases true b h = inl refl
or_cases false b h = inr h

pub or_false : (a b : Bool) → (a || b) ≡ false → (a ≡ false) × (b ≡ false)
or_false true b h = cc
or_false false b h = (refl, h)

pub not-false : (b : Bool) → not b ≡ false → b ≡ true
not-false true h = refl
not-false false h = cc

pub or_right : (a b : Bool) → b ≡ true → (a || b) ≡ true
or_right true b h = refl
or_right false b h = h

-- A name outside a list differs from those in it.
pub has_apart :
    (x y : String) (xs : List String) → has x xs ≡ false → has y xs ≡ true → str_eq x y ≡ false
has_apart x y xs out h = elim (Bool-cases (str_eq x y)) [
  | inl e ↦ absurd (cc (rw (str_eq→eq x y e) at out))
  | inr e ↦ e
]

pub has_head : (x y : String) (xs : List String) → str_eq y x ≡ true → has x (y ∷ xs) ≡ true
has_head x y xs e = ground (arith, e)

pub has_first : (x : String) (xs : List String) → has x (x ∷ xs) ≡ true
has_first x xs = has_head x x xs (str_eq_refl x)

pub distinct-length : (xs ys : List String) → IsDistinct xs → Within xs ys → length xs ≤ length ys
distinct-length [] ys d w = omega arith
distinct-length (x ∷ xs) ys d w = omega (
  arith,
  remove-length x ys (w x (ground (arith, str_eq_refl x))),
  distinct-length xs (remove x ys) d.1
      λ y h. remove-has x y ys (has_apart x y xs d.0 h) (w y (or_right (str_eq x y) (has y xs) h)),
)

-- A list without repetition that is as long as a list around it has all of its names.
pub distinct-Within :
    (xs ys : List String) → IsDistinct xs → Within xs ys → length ys ≤ length xs → Within ys xs
distinct-Within xs ys d w l z h = elim (Bool-cases (has z xs)) [
  | inl e ↦ e
  | inr e ↦ absurd (
      omega (
        arith,
        remove-length z ys h,
        distinct-length xs (remove z ys) d
            λ y hy. remove-has z y ys (has_apart z y xs e hy) (w y hy),
      ))
]

module _ {ℓ} {V : Type ℓ} where
  pub has-keys-insert :
      (x k : String) (v : V) (m : Map V)
      → has x (keys (insert k v m)) ≡ (has x (keys m) || str_eq k x)
  unfolding insert if◌then◌else◌
  has-keys-insert x k v [] = ground (arith, eq_iff k x)
  has-keys-insert x k v ((j, w) ∷ m) =
      ground (arith, has-keys-insert x k v m, eq_iff k x, eq_iff j k, eq_iff j x)

  pub IsDistinct-keys-insert :
      (k : String) (v : V) (m : Map V) → IsDistinct (keys m) → IsDistinct (keys (insert k v m))
  unfolding insert if◌then◌else◌
  IsDistinct-keys-insert k v [] d = (refl, tt)
  IsDistinct-keys-insert k v ((j, w) ∷ m) d =
      ground (arith, IsDistinct-keys-insert k v m, has-keys-insert j k v m, eq_iff k j, eq_iff j k)

  -- A new key goes to the end of the map.
  pub insert_fresh :
      (k : String) (v : V) (m : Map V) → has k (keys m) ≡ false → insert k v m ≡ m ++ (k, v) ∷ []
  unfolding insert if◌then◌else◌
  insert_fresh k v [] h = refl
  insert_fresh k v ((j, w) ∷ m) h =
      let apart = or_false (str_eq j k) (has k (keys m)) h in
      rw apart.0 (ap (λ l. (j, w) ∷ l) (insert_fresh k v m apart.1))

  pub keys-append : (m n : Map V) → keys (m ++ n) ≡ keys m ++ keys n
  keys-append [] n = refl
  keys-append ((k, v) ∷ m) n = ap (λ l. k ∷ l) (keys-append m n)

  abbrev pub is_present : Option V → Bool
  is_present none = false
  is_present (some v) = true

  pub lookup-has : (k : String) (m : Map V) → is_present (lookup k m) ≡ has k (keys m)
  unfolding lookup if◌then◌else◌
  lookup-has k [] = refl
  lookup-has k ((j, w) ∷ m) = ground (arith, lookup-has k m)

pub has-insert_sorted :
    (x s : String) (ts : List String) → has x (insert_sorted s ts) ≡ (str_eq s x || has x ts)
unfolding insert_sorted if◌then◌else◌
has-insert_sorted x s [] = refl
has-insert_sorted x s (t ∷ ts) = elim (Bool-cases (is_le (compare s t))) [
  | inl e ↦ rw e refl
  | inr e ↦ rw e (ground (arith, has-insert_sorted x s ts))
]

pub has-sort_strings : (x : String) (xs : List String) → has x (sort_strings xs) ≡ has x xs
unfolding sort_strings
has-sort_strings x [] = refl
has-sort_strings x (y ∷ ys) =
    has-insert_sorted x y (sort_strings ys) ∙ ap (λ b. str_eq y x || b) (has-sort_strings x ys)
