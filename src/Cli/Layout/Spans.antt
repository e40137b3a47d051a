-- ===== src/Cli/Layout/Spans.antt =====
-- internal/cli/multi_window_layout.go: the sizes of `splitWindowDimension` and their offsets.
use native.Mathlib.Nat.{div-add-mod, mod-lt}
use remote_code.Prelude.{
  ℕ, zero, suc, ◌+◌, ◌*◌, ◌/◌, ◌%◌, min, ◌≤◌, ◌<◌, ◌≡◌, refl, ap, subst, false, Option, none, some,
  List, [], ◌∷◌, ltb, if◌then◌else◌, length, get_elem?, arith, Bool-cases, inl, inr, not_below_zero,
  ltb→lt,
}
use remote_code.Cli.Layout.{
  Span, split_from, split_window_dimension, offsets_from, dimension_offsets, with_size, with_offset,
  span_at,
}

abbrev pub sum : List ℕ → ℕ
sum [] = 0
sum (n ∷ ns) = n + sum ns

suc_times : (n b : ℕ) → suc n * b ≡ b + n * b
suc_times n b = omega arith

sum-split_from : (n i b e : ℕ) → sum (split_from n i b e) + min i e ≡ n * b + min (i + n) e
unfolding split_from if◌then◌else◌
sum-split_from zero i b e = omega arith
sum-split_from (suc n) i b e = elim (Bool-cases (ltb i e)) [
  | inl h ↦ rw h (omega (arith, sum-split_from n (suc i) b e, suc_times n b, ltb→lt i e h))
  | inr h ↦ rw h (omega (arith, sum-split_from n (suc i) b e, suc_times n b, not_ltb i e h))
]
  where
    not_ltb : (a b : ℕ) → ltb a b ≡ false → b ≤ a
    not_ltb a b e = ground arith

length-split_from : (n i b e : ℕ) → length (split_from n i b e) ≡ n
unfolding split_from
length-split_from zero i b e = refl
length-split_from (suc n) i b e = ap suc (length-split_from n (suc i) b e)

pub length-split_window_dimension :
    (total parts : ℕ) → length (split_window_dimension total parts) ≡ parts
unfolding split_window_dimension
length-split_window_dimension total zero = refl
length-split_window_dimension total (suc parts) = length-split_from (suc parts) 0 _ _

-- The parts make up the whole.
pub sum-split_window_dimension :
    (total parts : ℕ) → sum (split_window_dimension total (suc parts)) ≡ total
unfolding split_window_dimension
sum-split_window_dimension total parts = omega (
  arith,
  sum-split_from (suc parts) 0 (total / suc parts) (total % suc parts),
  div-add-mod total (suc parts),
  mod-lt total {m = suc parts} (omega arith),
)

span_from : ℕ → List ℕ → ℕ → Option Span
span_from from sizes index =
    with_offset (get_elem? (offsets_from from sizes) index) (get_elem? sizes index)

record StandsIn (from : ℕ) (sizes : List ℕ) (index : ℕ) : Type 0 where
  span : Span
  found : span_from from sizes index ≡ some span
  within : span.offset + span.size ≤ from + sum sizes

span_from-StandsIn :
    (from : ℕ) (sizes : List ℕ) (index : ℕ) → index < length sizes → StandsIn from sizes index
unfolding span_from offsets_from with_offset with_size
span_from-StandsIn from [] index h = not_below_zero h
span_from-StandsIn from (n ∷ ns) zero h = record {
  span = record { offset = from; size = n };
  found = refl;
  within = omega arith;
}
span_from-StandsIn from (n ∷ ns) (suc index) h =
    let later = span_from-StandsIn (from + n) ns index (omega (arith, h)) in
    record { span = later.span; found = later.found; within = omega (arith, later.within) }

some_span : (s t : Span) → some s ≡ some t → s ≡ t
some_span s t e = cc

span_from-after :
    (from : ℕ) (sizes : List ℕ) (index : ℕ) (s : Span)
    → span_from from sizes index ≡ some s
    → from ≤ s.offset
unfolding span_from offsets_from with_offset with_size
span_from-after from [] index s e = elim (nothing e) [ ]
  where
    nothing : none ≡ some s → ⊥
    nothing e = cc
span_from-after from (n ∷ ns) zero s e =
    subst (λ t. from ≤ t.offset) (some_span _ s e) (omega arith)
span_from-after from (n ∷ ns) (suc index) s e =
    omega (arith, span_from-after (from + n) ns index s e)

span_from-apart :
    (from : ℕ) (sizes : List ℕ) (i j : ℕ) (s t : Span)
    → i < j
    → span_from from sizes i ≡ some s
    → span_from from sizes j ≡ some t
    → s.offset + s.size ≤ t.offset
unfolding span_from offsets_from with_offset with_size
span_from-apart from [] i j s t h e e' = elim (nothing e) [ ]
  where
    nothing : none ≡ some s → ⊥
    nothing e = cc
span_from-apart from (n ∷ ns) i zero s t h e e' = not_below_zero h
span_from-apart from (n ∷ ns) zero (suc j) s t h e e' =
    subst (λ u. u.offset + u.size ≤ t.offset) (some_span _ s e)
      (span_from-after (from + n) ns j t e')
span_from-apart from (n ∷ ns) (suc i) (suc j) s t h e e' =
    span_from-apart (from + n) ns i j s t (omega (arith, h)) e e'

-- Every part has its span inside the whole, and a later part starts where an earlier one has ended.
pub span_at-within :
    (total parts index : ℕ)
    → index < parts
    → (s : Span) × (span_at (split_window_dimension total parts) index ≡ some s)
      × (s.offset + s.size ≤ total)
unfolding span_at span_from dimension_offsets
span_at-within total zero index h = not_below_zero h
span_at-within total (suc parts) index h =
    let sizes = split_window_dimension total (suc parts) in
    let there =
      span_from-StandsIn 0 sizes index
        (omega (arith, length-split_window_dimension total (suc parts), h)) in
    (there.span, there.found, omega (arith, there.within, sum-split_window_dimension total parts))

pub span_at-apart :
    (sizes : List ℕ) (i j : ℕ) (s t : Span)
    → i < j
    → span_at sizes i ≡ some s
    → span_at sizes j ≡ some t
    → s.offset + s.size ≤ t.offset
unfolding span_at span_from dimension_offsets
span_at-apart sizes i j s t h e e' = span_from-apart 0 sizes i j s t h e e'
