-- ===== src/Files/Parse.antt =====
-- internal/files/patch.go: `parseUnifiedPatch`. The hunks that are appended are kept in two parts: those
-- before the current one, and the current one, which is the last.
pub mod Header
pub mod Sides
pub mod Tallies
pub mod Counts
pub mod Described
use remote_code.Prelude.{
  ℕ, zero, suc, ◌+◌, Bool, true, false, not, Option, none, some, List, [], ◌∷◌, ◌++◌, ◌&&◌, ◌||◌,
  ltb, ◌==◌, if◌then◌else◌, length, codes,
}
use remote_code.Files.Patch.{
  Line, OperationKind, keeps, removes, adds, PatchOperation, PatchHunk, line_eq,
  split_lines_keep_end,
}
use Header.{has_prefix, read_hunk_header}

-- The errors, with the number of the line or hunk that they name.
pub data ParseError : Type 0 where
  too_many_lines several_files no_hunk no_change : ParseError
  counts_differ invalid_header unexpected_metadata orphan_marker invalid_operation : ℕ → ParseError

pub data Parsed (A : Type 0) : Type 0 where
  parsed : A → Parsed A
  refused : ParseError → Parsed A

abbrev pub and_parse : {A B : Type 0} → Parsed A → (A → Parsed B) → Parsed B
and_parse (parsed a) f = f a
and_parse (refused e) f = refused e

pub record Parsing : Type 0 where
  pub earlier : List PatchHunk
  pub current : Option PatchHunk
  pub header_pairs : ℕ
  pub changed : Bool

abbrev max_patch_lines : ℕ
max_patch_lines = 100000

abbrev pub with_last : List PatchHunk → Option PatchHunk → List PatchHunk
with_last hs none = hs
with_last hs (some h) = hs ++ h ∷ []

pub hunks : Parsing → List PatchHunk
hunks st = with_last st.earlier st.current

-- `strings.TrimSuffix(text, c)` for one character
trim_suffix : ℕ → List ℕ → List ℕ
trim_suffix c [] = []
trim_suffix c (a ∷ []) = if a == c then [] else a ∷ []
trim_suffix c (a ∷ b ∷ s) = a ∷ trim_suffix c (b ∷ s)

has_counts : PatchHunk → Bool
has_counts h = h.old_used == h.old_count && h.new_used == h.new_count

is_unfinished : Option PatchHunk → Bool
is_unfinished none = false
is_unfinished (some h) = not (has_counts h)

-- The hunk of a header becomes the current one.
pub start_hunk : ℕ → Option PatchHunk → Parsing → Parsed Parsing
start_hunk number none st = refused (invalid_header number)
start_hunk number (some h) st = parsed (record st { earlier = hunks st; current = some h })

parse_header : ℕ → List ℕ → Parsing → Parsed Parsing
parse_header number header st =
    if is_unfinished st.current
    then refused (counts_differ (length (hunks st)))
    else start_hunk number (read_hunk_header header) st

is_metadata : List ℕ → Bool
is_metadata [] = true
is_metadata (c ∷ s) =
    has_prefix (codes "+++ ") (c ∷ s)
    || has_prefix (codes "diff ") (c ∷ s)
    || has_prefix (codes "index ") (c ∷ s)

parse_metadata : ℕ → List ℕ → Parsing → Parsed Parsing
parse_metadata number header st =
    if has_prefix (codes "--- ") header
    then if ltb 1 (suc st.header_pairs)
      then refused several_files
      else parsed (record st { header_pairs = suc st.header_pairs })
    else if is_metadata header
    then parsed st
    else refused (unexpected_metadata number)

pub trim_last : List PatchOperation → List PatchOperation
trim_last [] = []
trim_last (o ∷ []) = record o { text = trim_suffix 10 o.text } ∷ []
trim_last (o ∷ p ∷ os) = o ∷ trim_last (p ∷ os)

has_operation : List PatchOperation → Bool
has_operation [] = false
has_operation (o ∷ os) = true

parse_marker : ℕ → PatchHunk → Parsing → Parsed Parsing
parse_marker number h st =
    if has_operation h.operations
    then parsed (record st { current = some (record h { operations = trim_last h.operations }) })
    else refused (orphan_marker number)

starts_file : List ℕ → Bool
starts_file header =
    has_prefix (codes "--- ") header
    || has_prefix (codes "+++ ") header
    || has_prefix (codes "diff ") header

kind_of : ℕ → Option OperationKind
kind_of c =
    if c == b' '
    then some keeps
    else if c == b'+'
    then some adds
    else if c == b'-'
    then some removes
    else none

pub old_use : OperationKind → ℕ → ℕ
old_use adds n = n
old_use _ n = suc n

pub new_use : OperationKind → ℕ → ℕ
new_use removes n = n
new_use _ n = suc n

pub is_change : OperationKind → Bool
is_change keeps = false
is_change _ = true

pub count_operation : OperationKind → Line → PatchHunk → PatchHunk
count_operation kind text h = record h {
  operations = h.operations ++ record { kind = kind; text = text } ∷ [];
  old_used = old_use kind h.old_used;
  new_used = new_use kind h.new_used;
}

overruns : PatchHunk → Bool
overruns h = ltb h.old_count h.old_used || ltb h.new_count h.new_used

add_operation : ℕ → Option OperationKind → Line → PatchHunk → Parsing → Parsed Parsing
add_operation number none text h st = refused (invalid_operation number)
add_operation number (some kind) text h st =
    let next = count_operation kind text h in
    if overruns next
    then refused (counts_differ (length (hunks st)))
    else parsed (record st { current = some next; changed = st.changed || is_change kind })

parse_operation : ℕ → Line → PatchHunk → Parsing → Parsed Parsing
parse_operation number [] h st = refused (invalid_operation number)
parse_operation number (c ∷ text) h st = add_operation number (kind_of c) text h st

parse_in : Option PatchHunk → ℕ → Line → List ℕ → Parsing → Parsed Parsing
parse_in none number line header st = parse_metadata number header st
parse_in (some h) number line header st =
    if line_eq header (codes "\\ No newline at end of file")
    then parse_marker number h st
    else if has_counts h && starts_file header
    then refused several_files
    else parse_operation number line h st

-- The body of the loop over the lines.
parse_line : ℕ → Line → Parsing → Parsed Parsing
parse_line number line st =
    let header = trim_suffix 13 (trim_suffix 10 line) in
    if has_prefix (codes "@@ ") header
    then parse_header number header st
    else parse_in st.current number line header st

parse_lines : ℕ → List Line → Parsing → Parsed Parsing
parse_lines number [] st = parsed st
parse_lines number (line ∷ lines) st =
    and_parse (parse_line number line st) λ st'. parse_lines (suc number) lines st'

check_counts : ℕ → List PatchHunk → Parsed (Unit {0})
check_counts number [] = parsed tt
check_counts number (h ∷ hs) =
    let rest = check_counts (suc number) hs in
    if has_counts h then rest else refused (counts_differ number)

is_no_hunk : List PatchHunk → Bool
is_no_hunk [] = true
is_no_hunk (h ∷ hs) = false

finish_parse : Parsing → Parsed (List PatchHunk)
finish_parse st =
    if is_no_hunk (hunks st)
    then refused no_hunk
    else if not st.changed
    then refused no_change
    else and_parse (check_counts 1 (hunks st)) λ checked. parsed (hunks st)

abbrev pub no_lines_read : Parsing
no_lines_read = record { earlier = []; current = none; header_pairs = 0; changed = false }

pub parse_unified_patch : List ℕ → Parsed (List PatchHunk)
parse_unified_patch source =
    let lines = split_lines_keep_end source in
    if ltb max_patch_lines (length lines)
    then refused too_many_lines
    else and_parse (parse_lines 1 lines no_lines_read) finish_parse

unfoldable pub parse_code : Unit {0}
unfolding if◌then◌else◌ hunks trim_suffix has_counts is_unfinished start_hunk parse_header
    is_metadata parse_metadata trim_last has_operation parse_marker starts_file kind_of old_use
    new_use is_change count_operation overruns add_operation parse_operation parse_in parse_line
    parse_lines check_counts is_no_hunk finish_parse parse_unified_patch
parse_code = tt
