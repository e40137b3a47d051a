-- ===== src/Prelude/Sorting.antt =====
-- sort.Slice by a text field, in the order of the bytes.
use Prim.Native.Nat.{Ordering, suc, ℕ, compare as compare_ℕ}
use Prim.Native.Char.{code}
use Prim.Native.String.{String, compare, then as in_turn}
use Prim.Native.String.compare as Compare
use text.Mathlib.Text.{is_le}
use mathlib.Core.Path.{◌≡◌, refl, sym, ap, ◌∙◌}
use mathlib.Core.Bool.{true, false}
use mathlib.Core.Logic.{inl, inr}
use mathlib.Core.List.{List, [], ◌∷◌, map}
use native.Mathlib.Omega.{arith}
use remote_code.Prelude.Tests.{if◌then◌else◌, Bool-cases}
use text.Mathlib.TextEquality.{eq_iff}
use remote_code.Prelude.Lists.{length}
use remote_code.Prelude.Maps.{str_eq}
use remote_code.Prelude.Names.{has, IsDistinct, has-insert_sorted, has-sort_strings, or_false}
use remote_code.Prelude.Text.{insert_sorted, sort_strings}

module _ {ℓ} {A : Type ℓ} (key : A → String) where
  unfoldable insert_by : A → List A → List A
  insert_by a [] = a ∷ []
  insert_by a (b ∷ bs) = if is_le (compare (key a) (key b)) then a ∷ b ∷ bs else b ∷ insert_by a bs

  unfoldable pub sort_by : List A → List A
  unfolding insert_by
  sort_by [] = []
  sort_by (a ∷ xs) = insert_by a (sort_by xs)

  map-insert_by :
      (a : A) (bs : List A) → map key (insert_by a bs) ≡ insert_sorted (key a) (map key bs)
  unfolding insert_by insert_sorted if◌then◌else◌
  map-insert_by a [] = refl
  map-insert_by a (b ∷ bs) = elim (Bool-cases (is_le (compare (key a) (key b)))) [
    | inl e ↦ rw e refl
    | inr e ↦ rw e (ap (λ l. key b ∷ l) (map-insert_by a bs))
  ]

  pub map-sort_by : (xs : List A) → map key (sort_by xs) ≡ sort_strings (map key xs)
  unfolding sort_by sort_strings
  map-sort_by [] = refl
  map-sort_by (a ∷ xs) = map-insert_by a (sort_by xs) ∙ ap (insert_sorted (key a)) (map-sort_by xs)

  length-insert_by : (a : A) (bs : List A) → length (insert_by a bs) ≡ suc (length bs)
  unfolding insert_by if◌then◌else◌
  length-insert_by a [] = refl
  length-insert_by a (b ∷ bs) = elim (Bool-cases (is_le (compare (key a) (key b)))) [
    | inl e ↦ rw e refl
    | inr e ↦ rw e (ap suc (length-insert_by a bs))
  ]

  pub length-sort_by : (xs : List A) → length (sort_by xs) ≡ length xs
  unfolding sort_by
  length-sort_by [] = refl
  length-sort_by (a ∷ xs) = length-insert_by a (sort_by xs) ∙ ap suc (length-sort_by xs)

insert_sorted-IsDistinct :
    (s : String) (ts : List String)
    → has s ts ≡ false
    → IsDistinct ts
    → IsDistinct (insert_sorted s ts)
unfolding insert_sorted if◌then◌else◌
insert_sorted-IsDistinct s [] h d = (refl, tt)
insert_sorted-IsDistinct s (t ∷ ts) h d = elim (Bool-cases (is_le (compare s t))) [
  | inl e ↦ rw e (h, d)
  | inr e ↦ rw e (
    has-insert_sorted t s ts ∙ ground (arith, h, d.0, eq_iff s t, eq_iff t s),
    insert_sorted-IsDistinct s ts (or_false (str_eq t s) (has s ts) h).1 d.1,
  )
]

pub sort_strings-IsDistinct : (ss : List String) → IsDistinct ss → IsDistinct (sort_strings ss)
unfolding sort_strings
sort_strings-IsDistinct [] d = tt
sort_strings-IsDistinct (s ∷ ss) d =
    insert_sorted-IsDistinct s (sort_strings ss) (has-sort_strings s ss ∙ d.0)
      (sort_strings-IsDistinct ss d.1)

-- Of two texts one is not after the other.
flipped : Ordering → Ordering
flipped Ordering.lt = Ordering.gt
flipped Ordering.eq = Ordering.eq
flipped Ordering.gt = Ordering.lt

compare_ℕ_flip : (m n : ℕ) → compare_ℕ m n ≡ flipped (compare_ℕ n m)
unfolding flipped
compare_ℕ_flip m n = ground arith

flipped-then : (o r : Ordering) → flipped (in_turn o r) ≡ in_turn (flipped o) (flipped r)
unfolding flipped
flipped-then Ordering.lt r = refl
flipped-then Ordering.eq r = refl
flipped-then Ordering.gt r = refl

compare_flip : (s t : String) → compare s t ≡ flipped (compare t s)
unfolding flipped
compare_flip String.[] String.[] = refl
compare_flip String.[] (String.◌∷◌ d t) =
    Compare.nil-cons d t ∙ ap flipped (sym (Compare.cons-nil d t))
compare_flip (String.◌∷◌ c s) String.[] =
    Compare.cons-nil c s ∙ ap flipped (sym (Compare.nil-cons c s))
compare_flip (String.◌∷◌ c s) (String.◌∷◌ d t) =
    Compare.cons-cons c d s t
    ∙ ap (λ o. in_turn o (compare s t)) (compare_ℕ_flip (code c) (code d))
    ∙ ap (in_turn (flipped (compare_ℕ (code d) (code c)))) (compare_flip s t)
    ∙ sym (flipped-then (compare_ℕ (code d) (code c)) (compare t s))
    ∙ ap flipped (sym (Compare.cons-cons d c t s))

abbrev pub IsAscending : List String → Type 0
IsAscending [] = Unit
IsAscending (s ∷ []) = Unit
IsAscending (s ∷ t ∷ ts) = (is_le (compare s t) ≡ true) × IsAscending (t ∷ ts)

is_le-flipped : (o r : Ordering) → o ≡ flipped r → is_le o ≡ false → is_le r ≡ true
unfolding flipped
is_le-flipped o Ordering.lt e b = refl
is_le-flipped o Ordering.eq e b = refl
is_le-flipped o Ordering.gt e b = absurd (cc (rw e at b))

is_le_other : (s t : String) → is_le (compare s t) ≡ false → is_le (compare t s) ≡ true
is_le_other s t h = is_le-flipped (compare s t) (compare t s) (compare_flip s t) h

IsAscending-after :
    (t s u : String) (us : List String)
    → is_le (compare t s) ≡ true
    → is_le (compare t u) ≡ true
    → IsAscending (insert_sorted s (u ∷ us))
    → IsAscending (t ∷ insert_sorted s (u ∷ us))
unfolding insert_sorted if◌then◌else◌
IsAscending-after t s u us ts tu h = elim (Bool-cases (is_le (compare s u))) [
  | inl e ↦ rw e (ts, rw e at h)
  | inr e ↦ rw e (tu, rw e at h)
]

insert_sorted-IsAscending :
    (s : String) (ts : List String) → IsAscending ts → IsAscending (insert_sorted s ts)
unfolding insert_sorted if◌then◌else◌
insert_sorted-IsAscending s [] h = tt
insert_sorted-IsAscending s (t ∷ []) h = elim (Bool-cases (is_le (compare s t))) [
  | inl e ↦ rw e (e, tt)
  | inr e ↦ rw e (is_le_other s t e, tt)
]
insert_sorted-IsAscending s (t ∷ u ∷ us) h = elim (Bool-cases (is_le (compare s t))) [
  | inl e ↦ rw e (e, h)
  | inr e ↦ rw e (
      IsAscending-after t s u us (is_le_other s t e) h.0 (insert_sorted-IsAscending s (u ∷ us) h.1))
]

pub sort_strings-IsAscending : (ss : List String) → IsAscending (sort_strings ss)
unfolding sort_strings
sort_strings-IsAscending [] = tt
sort_strings-IsAscending (s ∷ ss) =
    insert_sorted-IsAscending s (sort_strings ss) (sort_strings-IsAscending ss)
