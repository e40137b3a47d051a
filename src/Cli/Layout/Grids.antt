-- ===== src/Cli/Layout/Grids.antt =====
-- internal/cli/multi_window_layout.go: the grid that is chosen has a place for every window.
use native.Mathlib.Nat.{lt-div-mul-add}
use remote_code.Prelude.{
  ℕ, zero, suc, ◌+◌, ◌-◌, ◌*◌, ◌≤◌, ◌<◌, Bool, true, false, if◌then◌else◌, arith,
}
use remote_code.Cli.Layout.{
  Scoring, Grid, candidate_rows, candidate_grid, better_grid, best_grid, choose_process_window_grid,
}

pub record HasPlaces (count grid_columns grid_rows : ℕ) : Type 0 where
  pub columned : 0 < grid_columns
  pub enough : count ≤ grid_rows * grid_columns

candidate_rows-HasPlaces : (count c : ℕ) → HasPlaces count (suc c) (candidate_rows count (suc c))
unfolding candidate_rows
candidate_rows-HasPlaces count c = record {
  columned = omega arith;
  enough = omega (arith, lt-div-mul-add {a = count + suc c - 1} {b = suc c} (omega arith));
}

best_grid-HasPlaces :
    (sc : Scoring) (columns rows count left c : ℕ) (best : Grid sc.Score)
    → HasPlaces count best.grid_columns best.grid_rows
    → HasPlaces count
        (best_grid sc columns rows count left (suc c) best).grid_columns
        (best_grid sc columns rows count left (suc c) best).grid_rows
unfolding best_grid better_grid candidate_grid if◌then◌else◌
best_grid-HasPlaces sc columns rows count zero c best h = h
best_grid-HasPlaces sc columns rows count (suc left) c best h =
    best_grid-HasPlaces sc columns rows count left (suc c) _ (
      one_of (sc.is_less (candidate_grid sc columns rows count (suc c)).grid_score best.grid_score)
        (candidate_grid sc columns rows count (suc c)) best (candidate_rows-HasPlaces count c) h)
  where
    one_of :
        {S : Type 0} (b : Bool) (g g' : Grid S)
        → HasPlaces count g.grid_columns g.grid_rows
        → HasPlaces count g'.grid_columns g'.grid_rows
        → HasPlaces count (if b then g else g').grid_columns (if b then g else g').grid_rows
    one_of true g g' h h' = h
    one_of false g g' h h' = h'

pub choose_process_window_grid-HasPlaces :
    (sc : Scoring) (columns rows count : ℕ)
    → HasPlaces count
        (choose_process_window_grid sc columns rows count).grid_columns
        (choose_process_window_grid sc columns rows count).grid_rows
unfolding choose_process_window_grid
choose_process_window_grid-HasPlaces sc columns rows count =
    best_grid-HasPlaces sc columns rows count count 0 _
      (record { columned = omega arith; enough = omega arith })
