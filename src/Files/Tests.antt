-- ===== src/Files/Tests.antt =====
-- internal/files/patch.go: each theorem at a short text.
use remote_code.Prelude.{ℕ, codes, List, [], ◌∷◌, ◌≡◌, ◌↔◌, refl}
use remote_code.Files.Patch.{
  Line, keeps, removes, adds, split_lines_keep_end, join_lines, patched, rejected, context_mismatch,
  apply_unified_hunks, patch_code,
}
use remote_code.Files.Parse.{
  parsed, refused, counts_differ, orphan_marker, several_files, parse_unified_patch, parse_code,
}
use remote_code.Files.Parse.Header.{header_code}
use remote_code.Files.Parse.Counts.{IsPatch, parse_unified_patch-IsPatch}
use remote_code.Files.Parse.Described.{IsDescribed, parse_unified_patch-IsDescribed}
use remote_code.Files.Patch.Text.{IsSplit, split_lines_keep_end_iff}
use remote_code.Files.Patch.Script.{Script, rest, edit, new_lines, hunks_of}
use remote_code.Files.Patch.Applies.{apply_unified_hunks-Script}

-- The lines a, b, c and d, of which the last has no line feed.
abbrev text_abcd : List ℕ
text_abcd = 97 ∷ 10 ∷ 98 ∷ 10 ∷ 99 ∷ 10 ∷ 100 ∷ []

abbrev line_a : Line
line_a = 97 ∷ 10 ∷ []

abbrev line_b : Line
line_b = 98 ∷ 10 ∷ []

abbrev line_c : Line
line_c = 99 ∷ 10 ∷ []

abbrev line_d : Line
line_d = 100 ∷ []

-- After a, b becomes x and y; before d, z is added.
abbrev changes : Script
changes =
    edit (line_a ∷ [])
      (record { kind = removes; text = line_b }
        ∷ record { kind = adds; text = 120 ∷ 10 ∷ [] }
        ∷ record { kind = adds; text = 121 ∷ 10 ∷ [] }
        ∷ [])
      (edit []
        (record { kind = keeps; text = line_c } ∷ record { kind = adds; text = 122 ∷ 10 ∷ [] } ∷ [])
        (rest (line_d ∷ [])))

apply_unified_hunks-Script_example :
    apply_unified_hunks text_abcd (hunks_of 0 0 changes) ≡ patched (join_lines (new_lines changes))
unfolding patch_code
apply_unified_hunks-Script_example = apply_unified_hunks-Script changes text_abcd refl

-- The same change as a unified diff, with its headers.
abbrev diff : List ℕ
diff = codes "--- a/list\n+++ b/list\n@@ -2 +2,2 @@ list\n-b\n+x\n+y\n@@ -3,1 +4,2 @@\n c\n+z\n"

diff_hunks : parse_unified_patch diff ≡ parsed (hunks_of 0 0 changes)
unfolding parse_code header_code patch_code
diff_hunks = refl

parse_unified_patch-IsPatch_example : IsPatch (hunks_of 0 0 changes)
parse_unified_patch-IsPatch_example =
    parse_unified_patch-IsPatch diff (hunks_of 0 0 changes) diff_hunks

parse_unified_patch-IsDescribed_example :
    IsDescribed text_abcd (hunks_of 0 0 changes) (join_lines (new_lines changes))
unfolding patch_code
parse_unified_patch-IsDescribed_example =
    parse_unified_patch-IsDescribed diff text_abcd (hunks_of 0 0 changes)
      (join_lines (new_lines changes)) diff_hunks refl

-- A hunk whose header counts two lines, of which one is there.
short_hunk_differs : parse_unified_patch (codes "@@ -1,2 +1 @@\n-b\n") ≡ refused (counts_differ 1)
unfolding parse_code header_code patch_code
short_hunk_differs = refl

marker_alone_orphan :
    parse_unified_patch (codes "@@ -1 +1 @@\n\\ No newline at end of file\n")
    ≡ refused (orphan_marker 2)
unfolding parse_code header_code patch_code
marker_alone_orphan = refl

second_file_refused :
    parse_unified_patch (codes "@@ -1 +1 @@\n-b\n+x\n--- a/other\n") ≡ refused several_files
unfolding parse_code header_code patch_code
second_file_refused = refl

-- A hunk that was written for another text is refused.
other_text_mismatches :
    apply_unified_hunks (97 ∷ 10 ∷ 97 ∷ 10 ∷ []) (hunks_of 0 0 changes) ≡ rejected context_mismatch
unfolding patch_code
other_text_mismatches = refl

abbrev lines_abcd : List Line
lines_abcd = (97 ∷ 10 ∷ []) ∷ (98 ∷ 10 ∷ []) ∷ (99 ∷ 10 ∷ []) ∷ (100 ∷ []) ∷ []

split_lines_keep_end_iff_example :
    (split_lines_keep_end text_abcd ≡ lines_abcd) ↔ IsSplit text_abcd lines_abcd
split_lines_keep_end_iff_example = split_lines_keep_end_iff text_abcd lines_abcd

-- The text splits into these lines.
text_abcd_splits : IsSplit text_abcd lines_abcd
unfolding patch_code
text_abcd_splits = split_lines_keep_end_iff_example.0 refl
