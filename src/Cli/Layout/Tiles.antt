-- ===== src/Cli/Layout/Tiles.antt =====
-- internal/cli/multi_window_layout.go: the windows of a layout on the screen.
use native.Mathlib.Nat.{div-lt_iff_lt-mul, lt-div-mul-add, div-add-mod, mod-lt}
use remote_code.Prelude.{
  ℕ, zero, suc, ◌+◌, ◌-◌, ◌*◌, ◌/◌, ◌%◌, ◌≤◌, ◌<◌, ◌≡◌, refl, sym, ap, ◌∙◌, false, Option, none,
  some, List, [], ◌∷◌, ◌⊎◌, inl, inr, if◌then◌else◌, ◌==◌, length, get_elem?, arith,
}
use remote_code.Cli.Layout.{
  Rectangle, Span, Scoring, rectangle_of, rectangle_at, add_rectangle, rectangles_from,
  split_window_dimension, choose_process_window_grid, lay_out, calculate_process_window_layout,
}
use remote_code.Cli.Layout.Grids.{HasPlaces, choose_process_window_grid-HasPlaces}
use remote_code.Cli.Layout.Spans.{span_at-within, span_at-apart}

-- A rectangle takes its columns and its rows from two spans.
record TakenFrom (across down : Option Span) (r : Rectangle) : Type 0 where
  columns_of : Span
  rows_of : Span
  across_is : across ≡ some columns_of
  down_is : down ≡ some rows_of
  made : r ≡ record {
    x = columns_of.offset;
    y = rows_of.offset;
    width = columns_of.size;
    height = rows_of.size;
  }

rectangle_of-TakenFrom :
    (across down : Option Span) (r : Rectangle)
    → rectangle_of across down ≡ some r
    → TakenFrom across down r
unfolding rectangle_of
rectangle_of-TakenFrom (some a) (some d) r e = record {
  columns_of = a;
  rows_of = d;
  across_is = refl;
  down_is = refl;
  made = same _ r e;
}
  where
    same : (u v : Rectangle) → some u ≡ some v → v ≡ u
    same u v e = cc
rectangle_of-TakenFrom none down r e = elim (nothing e) [ ]
  where
    nothing : none ≡ some r → ⊥
    nothing e = cc
rectangle_of-TakenFrom (some a) none r e = elim (nothing e) [ ]
  where
    nothing : none ≡ some r → ⊥
    nothing e = cc

-- The rectangles of the indices from one on, where all of them are there.
record Listed (c : ℕ) (ws hs : List ℕ) (left index : ℕ) : Type 0 where
  rectangles : List Rectangle
  listed : rectangles_from c ws hs left index ≡ some rectangles
  counted : length rectangles ≡ left
  each :
      (i : ℕ) (r : Rectangle)
      → get_elem? rectangles i ≡ some r
      → rectangle_at c ws hs (index + i) ≡ some r

first_or_later :
    (c : ℕ) (ws hs : List ℕ) (index : ℕ) (first : Rectangle) (rest : List Rectangle)
    → rectangle_at c ws hs index ≡ some first
    → ((i : ℕ) (r : Rectangle)
        → get_elem? rest i ≡ some r
        → rectangle_at c ws hs (suc index + i) ≡ some r)
    → (i : ℕ) (r : Rectangle) → get_elem? (first ∷ rest) i ≡ some r
    → rectangle_at c ws hs (index + i) ≡ some r
first_or_later c ws hs index first rest h k zero r e =
    ap (λ n. rectangle_at c ws hs n) (add_zero index) ∙ h ∙ e
  where
    add_zero : (n : ℕ) → n + 0 ≡ n
    add_zero n = omega arith
first_or_later c ws hs index first rest h k (suc i) r e =
    ap (λ n. rectangle_at c ws hs n) (add_suc index i) ∙ k i r e
  where
    add_suc : (n m : ℕ) → n + suc m ≡ suc n + m
    add_suc n m = omega arith

rectangles_from-Listed :
    (c : ℕ) (ws hs : List ℕ) (left index : ℕ)
    → ((k : ℕ) → k < index + left → (r : Rectangle) × (rectangle_at c ws hs k ≡ some r))
    → Listed c ws hs left index
unfolding rectangles_from add_rectangle
rectangles_from-Listed c ws hs zero index h = record {
  rectangles = [];
  listed = refl;
  counted = refl;
  each = λ i r e. elim (nothing r e) [ ];
}
  where
    nothing : (r : Rectangle) → none ≡ some r → ⊥
    nothing r e = cc
rectangles_from-Listed c ws hs (suc left) index h =
    let here = h index (omega arith) in
    let later = rectangles_from-Listed c ws hs left (suc index) (λ k l. h k (omega (arith, l))) in
    record {
      rectangles = here.0 ∷ later.rectangles;
      listed = rw (here.1, later.listed) refl;
      counted = ap suc later.counted;
      each = first_or_later c ws hs index here.0 later.rectangles here.1 later.each;
    }

get_elem?-length :
    (rs : List Rectangle) (i : ℕ) (r : Rectangle) → get_elem? rs i ≡ some r → i < length rs
get_elem?-length [] i r e = elim (nothing e) [ ]
  where
    nothing : none ≡ some r → ⊥
    nothing e = cc
get_elem?-length (q ∷ rs) zero r e = omega arith
get_elem?-length (q ∷ rs) (suc i) r e = omega (arith, get_elem?-length rs i r e)

-- Windows by their indices: all are shown, within the columns and above the last row, and no two overlap.
pub record IsTiled (columns rows count : ℕ) (rs : List Rectangle) : Type 0 where
  pub all_shown : length rs ≡ count
  pub inside :
      (i : ℕ) (r : Rectangle)
      → get_elem? rs i ≡ some r
      → (r.x + r.width ≤ columns) × (r.y + r.height < rows)
  pub apart :
      (i j : ℕ) (r s : Rectangle)
      → i < j
      → get_elem? rs i ≡ some r
      → get_elem? rs j ≡ some s
      → (r.x + r.width ≤ s.x) ⊎ (s.x + s.width ≤ r.x) ⊎ (r.y + r.height ≤ s.y)

div_mono : (a b k : ℕ) → 0 < k → a ≤ b → a / k ≤ b / k
div_mono a b k pos h = below (a / k) (b / k) (
    (div-lt_iff_lt-mul {x = a} {y = suc (b / k)} pos).1
      (omega (arith, h, lt-div-mul-add {a = b} {b = k} pos, suc_times (b / k) k)))
  where
    below : (m n : ℕ) → m < suc n → m ≤ n
    below m n h = omega (arith, h)

    suc_times : (n k : ℕ) → suc n * k ≡ n * k + k
    suc_times n k = omega arith

-- The places of two indices in a grid: the later one is in a later row or column.
later_place : (c i j : ℕ) → 0 < c → i < j → (i / c < j / c) ⊎ ((i / c ≡ j / c) × (i % c < j % c))
later_place c i j pos h = elim (le_cases (i / c) (j / c) (div_mono i j c pos (omega (arith, h)))) [
  | inl l ↦ inl l
  | inr e ↦ inr (e, omega (arith, div-add-mod i c, div-add-mod j c, ap (λ q. c * q) e, h))
]
  where
    le_cases : (m n : ℕ) → m ≤ n → (m < n) ⊎ (m ≡ n)
    le_cases m n h = ground arith

module _ (columns usable count c d : ℕ) (places : HasPlaces count c d) where
  -- The rectangle of an index, with its spans.
  rectangle_at-there :
      (k : ℕ)
      → k < count
      → (r : Rectangle) × (rectangle_at c
            (split_window_dimension columns c)
            (split_window_dimension usable d)
            k
          ≡ some r)
        × (r.x + r.width ≤ columns)
        × (r.y + r.height ≤ usable)
  unfolding rectangle_at rectangle_of
  rectangle_at-there k h =
      let across = span_at-within columns c (k % c) (mod-lt k places.columned) in
      let down =
        span_at-within usable d (k / c) (
          (div-lt_iff_lt-mul {x = k} {y = d} places.columned).1
            (omega (arith, h, places.enough))) in
      (
        record {
          x = across.0.offset;
          y = down.0.offset;
          width = across.0.size;
          height = down.0.size;
        },
        rw (across.1, down.1) refl,
        across.2,
        down.2,
      )

  rectangle_at-apart :
      (ws hs : List ℕ) (i j : ℕ) (r s : Rectangle)
      → i < j
      → rectangle_at c ws hs i ≡ some r
      → rectangle_at c ws hs j ≡ some s
      → (r.x + r.width ≤ s.x) ⊎ (s.x + s.width ≤ r.x) ⊎ (r.y + r.height ≤ s.y)
  unfolding rectangle_at
  rectangle_at-apart ws hs i j r s h e e' =
      let a = rectangle_of-TakenFrom _ _ r e in
      let b = rectangle_of-TakenFrom _ _ s e' in
      elim (later_place c i j places.columned h) [
        | inl l ↦ inr (
            inr (
              omega (
                arith,
                ap (λ t. t.y) a.made,
                ap (λ t. t.height) a.made,
                ap (λ t. t.y) b.made,
                span_at-apart hs (i / c) (j / c) a.rows_of b.rows_of l a.down_is b.down_is,
              )))
        | inr (q, l) ↦ inl (
            omega (
              arith,
              ap (λ t. t.x) a.made,
              ap (λ t. t.width) a.made,
              ap (λ t. t.x) b.made,
              span_at-apart ws (i % c) (j % c) a.columns_of b.columns_of l a.across_is b.across_is,
            ))
      ]

-- For any scores, the layout of some windows on a screen that has a column and a row gives every window
-- a rectangle, with no index out of range: it lies within the columns and above the last row, and no
-- two of them overlap.
pub calculate_process_window_layout-IsTiled :
    (sc : Scoring) (columns rows count : ℕ)
    → 0 < columns
    → 0 < rows
    → 0 < count
    → (rs : List Rectangle) × (calculate_process_window_layout sc columns rows count ≡ some rs)
      × IsTiled columns rows count rs
unfolding calculate_process_window_layout if◌then◌else◌ lay_out
calculate_process_window_layout-IsTiled sc columns rows count hc hr hn =
    let g = choose_process_window_grid sc columns (rows - 1) count in
    let places = choose_process_window_grid-HasPlaces sc columns (rows - 1) count in
    let f =
      rectangle_at g.grid_columns (split_window_dimension columns g.grid_columns)
        (split_window_dimension (rows - 1) g.grid_rows) in
    let there = rectangle_at-there columns (rows - 1) count g.grid_columns g.grid_rows places in
    let all =
      rectangles_from-Listed g.grid_columns (split_window_dimension columns g.grid_columns)
        (split_window_dimension (rows - 1) g.grid_rows) count 0
        (λ k h. let r = there k (omega (arith, h)) in (r.0, r.1)) in
    (
      all.rectangles,
      rw (not_zero columns hc, not_zero rows hr, not_zero count hn) all.listed,
      record {
        all_shown = all.counted;
        inside = λ i r e.
            let placed =
              there i (omega (arith, get_elem?-length all.rectangles i r e, all.counted)) in
            let same = some_rectangle placed.0 r (sym placed.1 ∙ at_zero f i r (all.each i r e)) in
            (
              omega (arith, placed.2, ap (λ t. t.x) same, ap (λ t. t.width) same),
              omega (arith, placed.3, ap (λ t. t.y) same, ap (λ t. t.height) same, hr),
            );
        apart = λ i j r s h e e'.
            rectangle_at-apart columns (rows - 1) count g.grid_columns g.grid_rows places _ _ i j r
              s h (at_zero f i r (all.each i r e)) (at_zero f j s (all.each j s e'));
      },
    )
  where
    not_zero : (n : ℕ) → 0 < n → (n == 0) ≡ false
    not_zero n h = ground arith

    some_rectangle : (u v : Rectangle) → some u ≡ some v → u ≡ v
    some_rectangle u v e = cc

    at_zero : (f : ℕ → Option Rectangle) (i : ℕ) (r : Rectangle) → f (0 + i) ≡ some r → f i ≡ some r
    at_zero f i r e = ap f (add_zero i) ∙ e
      where
        add_zero : (n : ℕ) → n ≡ 0 + n
        add_zero n = omega arith
