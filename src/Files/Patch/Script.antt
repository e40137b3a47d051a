-- ===== src/Files/Patch/Script.antt =====
-- What a unified diff describes: the old lines and the new ones as kept runs of lines and edits between
-- them, with the hunks that a diff writes for it.
use remote_code.Prelude.{ℕ, zero, suc, ◌+◌, List, [], ◌∷◌, ◌++◌, length}
use remote_code.Files.Patch.{Line, OperationKind, removes, adds, PatchOperation, PatchHunk}

pub data Script : Type 0 where
  rest : List Line → Script
  edit : List Line → List PatchOperation → Script → Script

abbrev pub old_kind : OperationKind → Line → List Line → List Line
old_kind adds text ls = ls
old_kind _ text ls = text ∷ ls

abbrev pub new_kind : OperationKind → Line → List Line → List Line
new_kind removes text ls = ls
new_kind _ text ls = text ∷ ls

abbrev pub old_side : List PatchOperation → List Line
old_side [] = []
old_side (o ∷ os) = old_kind o.kind o.text (old_side os)

abbrev pub new_side : List PatchOperation → List Line
new_side [] = []
new_side (o ∷ os) = new_kind o.kind o.text (new_side os)

abbrev pub old_lines : Script → List Line
old_lines (rest ls) = ls
old_lines (edit ls os s) = ls ++ (old_side os ++ old_lines s)

abbrev pub new_lines : Script → List Line
new_lines (rest ls) = ls
new_lines (edit ls os s) = ls ++ (new_side os ++ new_lines s)

-- A hunk's start counts lines from 1, but from 0 where it has no line.
abbrev pub start_of : ℕ → ℕ → ℕ
start_of index zero = index
start_of index (suc count) = suc index

abbrev pub hunk_at : ℕ → ℕ → List PatchOperation → PatchHunk
hunk_at old_at new_at os = record {
  old_start = start_of old_at (length (old_side os));
  old_count = length (old_side os);
  new_start = start_of new_at (length (new_side os));
  new_count = length (new_side os);
  old_used = length (old_side os);
  new_used = length (new_side os);
  operations = os;
}

abbrev pub hunks_of : ℕ → ℕ → Script → List PatchHunk
hunks_of old_at new_at (rest ls) = []
hunks_of old_at new_at (edit ls os s) =
    hunk_at (old_at + length ls) (new_at + length ls) os
    ∷ hunks_of (old_at + length ls + length (old_side os))
        (new_at + length ls + length (new_side os)) s
