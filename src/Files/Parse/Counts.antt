-- ===== src/Files/Parse/Counts.antt =====
-- internal/files/patch.go: what the hunks hold that `parseUnifiedPatch` accepts.
use remote_code.Prelude.{
  ℕ, suc, ◌≡◌, refl, sym, ap, ◌∙◌, Bool, true, false, Option, none, some, List, [], ◌∷◌, ◌||◌, ◌⊎◌,
  inl, inr, Bool-cases, if◌then◌else◌, length, arith,
}
use remote_code.Files.Patch.{OperationKind, PatchHunk, Line, split_lines_keep_end}
use remote_code.Files.Patch.Script.{old_side, new_side}
use remote_code.Files.Parse.Sides.{
  old_side-last, new_side-last, Edits-last, Edits-append, old_side-trim_last, new_side-trim_last,
  Edits-trim_last,
}
use remote_code.Files.Parse.Header.{read_hunk_header, read_hunk_header-IsFresh}
use remote_code.Files.Parse.{
  Parsed, parsed, refused, Parsing, hunks, start_hunk, has_counts, parse_header, parse_metadata,
  parse_marker, old_use, new_use, is_change, count_operation, add_operation, parse_operation,
  parse_in, parse_line, parse_lines, check_counts, finish_parse, is_no_hunk, no_hunk, no_change,
  no_lines_read, parse_unified_patch,
}
use remote_code.Files.Parse.Tallies.{
  IsCounted, AllCounted, Changes, IsTallied, AllTallied, IsSound, AllTallied-append, Changes-append,
  Holds, Holds-if, IsSound-replace, Holds-at, Holds-and_parse,
}

read_hunk_header-IsTallied :
    (header : List ℕ) (h : PatchHunk) → read_hunk_header header ≡ some h → IsTallied h
read_hunk_header-IsTallied header h e =
    let fresh = read_hunk_header-IsFresh header h e in
    record {
      old_tallied = fresh.old_unused ∙ ap (λ os. length (old_side os)) (sym fresh.no_operation);
      new_tallied = fresh.new_unused ∙ ap (λ os. length (new_side os)) (sym fresh.no_operation);
      old_from = fresh.old_from;
      new_from = fresh.new_from;
    }

start_hunk-IsSound :
    (number : ℕ) (o : Option PatchHunk) (st : Parsing)
    → ((h : PatchHunk) → o ≡ some h → IsTallied h)
    → IsSound st
    → Holds IsSound (start_hunk number o st)
unfolding start_hunk hunks
start_hunk-IsSound number none st t sound = tt
start_hunk-IsSound number (some h) st t sound = record {
  tallied = AllTallied-append (hunks st) h sound.tallied (t h refl);
  edited = λ e. Changes-append (hunks st) h (sound.edited e);
}

parse_metadata-IsSound :
    (number : ℕ) (header : List ℕ) (st : Parsing)
    → IsSound st
    → Holds IsSound (parse_metadata number header st)
unfolding parse_metadata hunks
parse_metadata-IsSound number header st sound =
    Holds-if IsSound _ _ _
      (Holds-if IsSound _ _ _ tt (record { tallied = sound.tallied; edited = sound.edited }))
      (Holds-if IsSound _ _ _ sound tt)

parse_marker-IsSound :
    (number : ℕ) (h : PatchHunk) (st : Parsing)
    → st.current ≡ some h
    → IsSound st
    → Holds IsSound (parse_marker number h st)
unfolding parse_marker
parse_marker-IsSound number h st now sound =
    Holds-if IsSound _ _ _
      (IsSound-replace st h _ st.changed now sound
        (λ t. record {
          old_tallied = t.old_tallied ∙ sym (old_side-trim_last h.operations);
          new_tallied = t.new_tallied ∙ sym (new_side-trim_last h.operations);
          old_from = t.old_from;
          new_from = t.new_from;
        })
        (Edits-trim_last h.operations) (λ e. inl e))
      tt

or-true : (a b : Bool) → (a || b) ≡ true → (a ≡ true) ⊎ (b ≡ true)
or-true true b e = inl refl
or-true false b e = inr e

add_operation-IsSound :
    (number : ℕ) (kind : Option OperationKind) (text : Line) (h : PatchHunk) (st : Parsing)
    → st.current ≡ some h
    → IsSound st
    → Holds IsSound (add_operation number kind text h st)
unfolding add_operation count_operation
add_operation-IsSound number none text h st now sound = tt
add_operation-IsSound number (some kind) text h st now sound = Holds-if IsSound _ _ _ tt (
    IsSound-replace st h (count_operation kind text h) (st.changed || is_change kind) now sound
      (λ t. record {
        old_tallied = ap (old_use kind) t.old_tallied ∙ sym (old_side-last h.operations kind text);
        new_tallied = ap (new_use kind) t.new_tallied ∙ sym (new_side-last h.operations kind text);
        old_from = t.old_from;
        new_from = t.new_from;
      })
      (Edits-append h.operations _)
      λ e. elim (or-true st.changed (is_change kind) e) [
        | inl c ↦ inl c
        | inr c ↦ inr (Edits-last h.operations kind text c)
      ])

parse_operation-IsSound :
    (number : ℕ) (line : Line) (h : PatchHunk) (st : Parsing)
    → st.current ≡ some h
    → IsSound st
    → Holds IsSound (parse_operation number line h st)
unfolding parse_operation
parse_operation-IsSound number [] h st now sound = tt
parse_operation-IsSound number (c ∷ text) h st now sound =
    add_operation-IsSound number _ text h st now sound

parse_in-IsSound :
    (now : Option PatchHunk) (number : ℕ) (line header : Line) (st : Parsing)
    → st.current ≡ now
    → IsSound st
    → Holds IsSound (parse_in now number line header st)
unfolding parse_in
parse_in-IsSound none number line header st e sound = parse_metadata-IsSound number header st sound
parse_in-IsSound (some h) number line header st e sound =
    Holds-if IsSound _ _ _ (parse_marker-IsSound number h st e sound)
      (Holds-if IsSound _ _ _ tt (parse_operation-IsSound number line h st e sound))

parse_line-IsSound :
    (number : ℕ) (line : Line) (st : Parsing)
    → IsSound st
    → Holds IsSound (parse_line number line st)
unfolding parse_line parse_header
parse_line-IsSound number line st sound =
    Holds-if IsSound _ _ _
      (Holds-if IsSound _ _ _ tt
        (start_hunk-IsSound number _ st (read_hunk_header-IsTallied _) sound))
      (parse_in-IsSound st.current number line _ st refl sound)

parse_lines-IsSound :
    (number : ℕ) (lines : List Line) (st : Parsing)
    → IsSound st
    → Holds IsSound (parse_lines number lines st)
unfolding parse_lines
parse_lines-IsSound number [] st sound = sound
parse_lines-IsSound number (line ∷ lines) st sound =
    Holds-and_parse IsSound IsSound (parse_line number line st) _
      (parse_line-IsSound number line st sound)
      λ st' sound'. parse_lines-IsSound (suc number) lines st' sound'

has_counts-equal :
    (h : PatchHunk) → has_counts h ≡ true → (h.old_used ≡ h.old_count) × (h.new_used ≡ h.new_count)
unfolding has_counts
has_counts-equal h e = (ground arith, ground arith)

-- Once the counts are checked, the hunks have them.
check_counts-AllCounted :
    (number : ℕ) (hs : List PatchHunk)
    → AllTallied hs
    → Holds (λ done. AllCounted hs) (check_counts number hs)
unfolding check_counts if◌then◌else◌
check_counts-AllCounted number [] all = tt
check_counts-AllCounted number (h ∷ hs) all = elim (Bool-cases (has_counts h)) [
  | inl ok ↦ rw ok (
      with_first (check_counts (suc number) hs) (check_counts-AllCounted (suc number) hs all.1)
        (record {
          old_counted = sym (has_counts-equal h ok).0 ∙ all.0.old_tallied;
          new_counted = sym (has_counts-equal h ok).1 ∙ all.0.new_tallied;
          old_done = (has_counts-equal h ok).0;
          new_done = (has_counts-equal h ok).1;
          old_started = all.0.old_from;
          new_started = all.0.new_from;
        }))
  | inr bad ↦ rw bad tt
]
  where
    with_first :
        (r : Parsed (Unit {0}))
        → Holds (λ done. AllCounted hs) r
        → IsCounted h
        → Holds (λ done. IsCounted h × AllCounted hs) r
    with_first (parsed done) all c = (c, all)
    with_first (refused x) all c = tt

-- What an accepted patch holds.
pub record IsPatch (hs : List PatchHunk) : Type 0 where
  pub counted : AllCounted hs
  pub changes : Changes hs

finish_parse-IsPatch : (st : Parsing) → IsSound st → Holds IsPatch (finish_parse st)
unfolding finish_parse if◌then◌else◌ hunks check_counts
finish_parse-IsPatch st sound = elim (Bool-cases st.changed) [
  | inr n ↦
      rw n (Holds-if IsPatch (is_no_hunk (hunks st)) (refused no_hunk) (refused no_change) tt tt)
  | inl y ↦ rw y (
      Holds-if IsPatch (is_no_hunk (hunks st)) (refused no_hunk) _ tt (
        Holds-and_parse (λ done. AllCounted (hunks st)) IsPatch (check_counts 1 (hunks st)) _
          (check_counts-AllCounted 1 (hunks st) sound.tallied)
          λ done all. record { counted = all; changes = sound.edited y }))
]

-- In every hunk of a patch that is accepted, the counts are the numbers of the lines on its two sides, which are used up,
-- a start of 0 has the count 0, and some operation of the patch adds or removes a line.
pub parse_unified_patch-IsPatch :
    (source : List ℕ) (hs : List PatchHunk) → parse_unified_patch source ≡ parsed hs → IsPatch hs
unfolding parse_unified_patch hunks
parse_unified_patch-IsPatch source hs e =
    Holds-at IsPatch (parse_unified_patch source) hs
      (Holds-if IsPatch _ _ _ tt (
        Holds-and_parse IsSound IsPatch (parse_lines 1 (split_lines_keep_end source) no_lines_read)
          _ (parse_lines-IsSound 1 _ no_lines_read (record { tallied = tt; edited = λ e. cc }))
          finish_parse-IsPatch))
      e
