-- ===== src/Files/Patch.antt =====
-- internal/files/patch.go: a text as its lines, and the application of the hunks of a unified diff.
-- A text is its bytes; a slice of Go is cut by `take` and `drop`.
pub mod Text
pub mod Script
pub mod Applies
pub mod Inverts
use remote_code.Prelude.{
  ℕ, zero, suc, ◌+◌, ◌-◌, Bool, true, false, not, Option, none, some, List, [], ◌∷◌, ◌++◌, ◌&&◌,
  ltb, ◌==◌, if◌then◌else◌, length, get_elem?, take, drop,
}

abbrev pub Line : Type 0
Line = List ℕ

abbrev line_feed : ℕ
line_feed = 10

add_first : ℕ → List Line → List Line
add_first c [] = (c ∷ []) ∷ []
add_first c (l ∷ ls) = (c ∷ l) ∷ ls

-- `strings.SplitAfter(value, "\n")`
split_after : List ℕ → List Line
split_after [] = [] ∷ []
split_after (c ∷ cs) =
    let rest = split_after cs in if c == line_feed then (c ∷ []) ∷ rest else add_first c rest

drop_last_empty : List Line → List Line
drop_last_empty [] = []
drop_last_empty ([] ∷ []) = []
drop_last_empty (l ∷ []) = l ∷ []
drop_last_empty (l ∷ m ∷ ls) = l ∷ drop_last_empty (m ∷ ls)

pub split_lines_keep_end : List ℕ → List Line
split_lines_keep_end [] = []
split_lines_keep_end (c ∷ cs) = drop_last_empty (split_after (c ∷ cs))

-- `strings.Join(output, "")`
pub join_lines : List Line → List ℕ
join_lines [] = []
join_lines (l ∷ ls) = l ++ join_lines ls

pub data OperationKind : Type 0 where
  keeps removes adds : OperationKind

pub record PatchOperation : Type 0 where
  pub kind : OperationKind
  pub text : Line

pub record PatchHunk : Type 0 where
  pub old_start : ℕ
  pub old_count : ℕ
  pub new_start : ℕ
  pub new_count : ℕ
  pub old_used : ℕ
  pub new_used : ℕ
  pub operations : List PatchOperation

pub data PatchError : Type 0 where
  starts_outside inconsistent_position context_mismatch : PatchError

pub data Patched (A : Type 0) : Type 0 where
  patched : A → Patched A
  rejected : PatchError → Patched A

abbrev pub and_patch : {A B : Type 0} → Patched A → (A → Patched B) → Patched B
and_patch (patched a) f = f a
and_patch (rejected e) f = rejected e

-- How far the original has been read, and the lines written.
pub record Patching : Type 0 where
  pub cursor : ℕ
  pub output : List Line

pub line_eq : Line → Line → Bool
line_eq [] [] = true
line_eq (a ∷ xs) (b ∷ ys) = a == b && line_eq xs ys
line_eq _ _ = false

is_line : Option Line → Line → Bool
is_line none text = false
is_line (some line) text = line_eq line text

apply_by_kind : OperationKind → List Line → Line → Patching → Patched Patching
apply_by_kind keeps lines text p =
    if is_line (get_elem? lines p.cursor) text
    then patched (record { cursor = suc p.cursor; output = p.output ++ text ∷ [] })
    else rejected context_mismatch
apply_by_kind removes lines text p =
    if is_line (get_elem? lines p.cursor) text
    then patched (record p { cursor = suc p.cursor })
    else rejected context_mismatch
apply_by_kind adds lines text p = patched (record p { output = p.output ++ text ∷ [] })

pub apply_operations : List Line → List PatchOperation → Patching → Patched Patching
apply_operations lines [] p = patched p
apply_operations lines (o ∷ os) p =
    and_patch (apply_by_kind o.kind lines o.text p) λ p'. apply_operations lines os p'

-- A start with a count, as an index; there is none below 0.
pub start_index : ℕ → ℕ → Option ℕ
start_index start zero = some start
start_index zero (suc count) = none
start_index (suc start) (suc count) = some start

is_index : Option ℕ → ℕ → Bool
is_index none n = false
is_index (some i) n = i == n

apply_at : Option ℕ → List Line → PatchHunk → Patching → Patched Patching
apply_at none lines h p = rejected starts_outside
apply_at (some old_index) lines h p =
    let copied = p.output ++ take (old_index - p.cursor) (drop p.cursor lines) in
    if ltb old_index p.cursor
    then rejected starts_outside
    else if ltb (length lines) old_index
    then rejected starts_outside
    else if is_index (start_index h.new_start h.new_count) (length copied)
    then apply_operations lines h.operations (record { cursor = old_index; output = copied })
    else rejected inconsistent_position

-- The body of the loop over the hunks.
pub apply_hunk : List Line → PatchHunk → Patching → Patched Patching
apply_hunk lines h p = apply_at (start_index h.old_start h.old_count) lines h p

pub apply_hunks : List Line → List PatchHunk → Patching → Patched Patching
apply_hunks lines [] p = patched p
apply_hunks lines (h ∷ hs) p = and_patch (apply_hunk lines h p) λ p'. apply_hunks lines hs p'

pub finish_patch : List Line → Patching → Patched (List ℕ)
finish_patch lines p = patched (join_lines (p.output ++ drop p.cursor lines))

pub apply_unified_hunks : List ℕ → List PatchHunk → Patched (List ℕ)
apply_unified_hunks original hunks =
    and_patch
      (apply_hunks (split_lines_keep_end original) hunks (record { cursor = 0; output = [] }))
      (finish_patch (split_lines_keep_end original))

-- Everything that a run of this part computes with.
unfoldable pub patch_code : Unit {0}
unfolding if◌then◌else◌ add_first split_after drop_last_empty split_lines_keep_end join_lines
    line_eq is_line apply_by_kind apply_operations start_index is_index apply_at apply_hunk
    apply_hunks finish_patch apply_unified_hunks
patch_code = tt
