-- ===== src/Cli/Layout.antt =====
-- internal/cli/multi_window_layout.go: the rectangles of the process windows. An int is a natural number
-- here, which a terminal's size and a number of windows are; those below 0 get no layout, as 0 does.
-- The scores of the grids are floating-point numbers, which are a parameter with their order.
pub mod Grids
pub mod Spans
pub mod Tiles
use remote_code.Prelude.{
  ℕ, zero, suc, ◌+◌, ◌-◌, ◌*◌, ◌/◌, ◌%◌, max, Bool, true, false, ◌||◌, Option, none, some, List, [],
  ◌∷◌, ltb, ◌==◌, if◌then◌else◌, length, get_elem?,
}

pub record Rectangle : Type 0 where
  pub x : ℕ
  pub y : ℕ
  pub width : ℕ
  pub height : ℕ

-- `chooseProcessWindowGrid` scores a grid by the size of the content, the number of places that it
-- leaves empty, and whether its windows are too small; the score starts at infinity.
pub record Scoring : Type 1 where
  pub Score : Type 0
  pub infinity : Score
  pub score : ℕ → ℕ → ℕ → Bool → Score
  pub is_less : Score → Score → Bool

pub record Grid (S : Type 0) : Type 0 where
  pub grid_columns : ℕ
  pub grid_rows : ℕ
  pub grid_score : S

candidate_rows : ℕ → ℕ → ℕ
candidate_rows count candidate = (count + candidate - 1) / candidate

candidate_grid : (sc : Scoring) → ℕ → ℕ → ℕ → ℕ → Grid sc.Score
candidate_grid sc columns rows count candidate =
    let grid_rows = candidate_rows count candidate in
    let minimum_width = columns / candidate in
    let minimum_height = rows / grid_rows in
    record {
      grid_columns = candidate;
      grid_rows = grid_rows;
      grid_score =
          sc.score (max 1 (minimum_width - 2)) (max 1 (minimum_height - 2))
            (candidate * grid_rows - count) (ltb minimum_width 4 || ltb minimum_height 3);
    }

better_grid : (sc : Scoring) → Grid sc.Score → Grid sc.Score → Grid sc.Score
better_grid sc g best = if sc.is_less g.grid_score best.grid_score then g else best

-- The loop over the candidates, of which `left` are left.
best_grid : (sc : Scoring) → ℕ → ℕ → ℕ → (left : ℕ) → ℕ → Grid sc.Score → Grid sc.Score
best_grid sc columns rows count zero candidate best = best
best_grid sc columns rows count (suc left) candidate best =
    best_grid sc columns rows count left (suc candidate)
      (better_grid sc (candidate_grid sc columns rows count candidate) best)

pub choose_process_window_grid : (sc : Scoring) → ℕ → ℕ → ℕ → Grid sc.Score
choose_process_window_grid sc columns rows count =
    best_grid sc columns rows count count 1
      (record { grid_columns = 1; grid_rows = count; grid_score = sc.infinity })

-- The loop over the parts from an index on.
split_from : ℕ → ℕ → ℕ → ℕ → List ℕ
split_from zero index base extra = []
split_from (suc left) index base extra =
    (if ltb index extra then suc base else base) ∷ split_from left (suc index) base extra

pub split_window_dimension : ℕ → ℕ → List ℕ
split_window_dimension total zero = []
split_window_dimension total (suc parts) =
    split_from (suc parts) 0 (total / suc parts) (total % suc parts)

offsets_from : ℕ → List ℕ → List ℕ
offsets_from offset [] = []
offsets_from offset (size ∷ sizes) = offset ∷ offsets_from (offset + size) sizes

pub dimension_offsets : List ℕ → List ℕ
dimension_offsets sizes = offsets_from 0 sizes

-- An offset and a size at one index, where both lists have one.
pub record Span : Type 0 where
  pub offset : ℕ
  pub size : ℕ

with_size : ℕ → Option ℕ → Option Span
with_size offset none = none
with_size offset (some size) = some (record { offset = offset; size = size })

with_offset : Option ℕ → Option ℕ → Option Span
with_offset none size = none
with_offset (some offset) size = with_size offset size

pub span_at : List ℕ → ℕ → Option Span
span_at sizes index =
    with_offset (get_elem? (dimension_offsets sizes) index) (get_elem? sizes index)

rectangle_of : Option Span → Option Span → Option Rectangle
rectangle_of (some across) (some down) =
    some (record { x = across.offset; y = down.offset; width = across.size; height = down.size })
rectangle_of _ _ = none

pub rectangle_at : ℕ → List ℕ → List ℕ → ℕ → Option Rectangle
rectangle_at grid_columns widths heights index =
    rectangle_of (span_at widths (index % grid_columns)) (span_at heights (index / grid_columns))

add_rectangle : Option Rectangle → Option (List Rectangle) → Option (List Rectangle)
add_rectangle (some r) (some rs) = some (r ∷ rs)
add_rectangle _ _ = none

-- The loop over the windows; none where an index is out of range, which stops the program.
pub rectangles_from : ℕ → List ℕ → List ℕ → ℕ → ℕ → Option (List Rectangle)
rectangles_from grid_columns widths heights zero index = some []
rectangles_from grid_columns widths heights (suc left) index =
    add_rectangle (rectangle_at grid_columns widths heights index)
      (rectangles_from grid_columns widths heights left (suc index))

lay_out : {S : Type 0} → Grid S → ℕ → ℕ → ℕ → Option (List Rectangle)
lay_out g columns usable_rows count =
    rectangles_from g.grid_columns (split_window_dimension columns g.grid_columns)
      (split_window_dimension usable_rows g.grid_rows) count 0

pub calculate_process_window_layout : Scoring → ℕ → ℕ → ℕ → Option (List Rectangle)
calculate_process_window_layout sc columns rows count =
    if columns == 0 || rows == 0 || count == 0
    then some []
    else lay_out (choose_process_window_grid sc columns (rows - 1) count) columns (rows - 1) count

-- Everything that a run of this part computes with.
unfoldable pub layout_code : Unit {0}
unfolding if◌then◌else◌ candidate_rows candidate_grid better_grid best_grid
    choose_process_window_grid split_from split_window_dimension offsets_from dimension_offsets
    with_size with_offset span_at rectangle_of rectangle_at add_rectangle rectangles_from lay_out
    calculate_process_window_layout
layout_code = tt
