-- ===== src/Cli/Tests.antt =====
-- internal/cli/multi_window_layout.go: five windows on a screen of 80 columns and 25 rows.
use remote_code.Prelude.{ℕ, ◌+◌, ◌-◌, ◌≡◌, refl, some, [], ◌∷◌, List, ltb, if◌then◌else◌, arith}
use remote_code.Cli.Layout.{Rectangle, Scoring, calculate_process_window_layout, layout_code}
use remote_code.Cli.Layout.Tiles.{IsTiled, calculate_process_window_layout-IsTiled}

-- A score that prefers few empty places, and then wide windows that are not too small.
abbrev scoring : Scoring
scoring = record {
  Score = ℕ;
  infinity = 100000;
  score = λ content_width content_height surplus small.
      (if small then 10000 else 0) + surplus + (100 - content_width);
  is_less = ltb;
}

calculate_process_window_layout-IsTiled_example :
    (rs : List Rectangle) × (calculate_process_window_layout scoring 80 25 5 ≡ some rs)
    × IsTiled 80 25 5 rs
calculate_process_window_layout-IsTiled_example =
    calculate_process_window_layout-IsTiled scoring 80 25 5 (omega arith) (omega arith)
      (omega arith)

two_windows_stacked :
    calculate_process_window_layout scoring 81 25 2
    ≡ some (
        record { x = 0; y = 0; width = 81; height = 12 }
        ∷ record { x = 0; y = 12; width = 81; height = 12 }
        ∷ [])
unfolding layout_code
two_windows_stacked = refl
