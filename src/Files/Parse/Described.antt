-- ===== src/Files/Parse/Described.antt =====
-- internal/files/patch.go: `parseUnifiedPatch` and `applyUnifiedHunks` one after the other, as in
-- `ApplyTextPatch`.
use mathlib.Core.List.{append_assoc}
use remote_code.Prelude.{
  ℕ, ◌+◌, ◌≡◌, ◌≤◌, refl, sym, ap, ◌∙◌, List, [], ◌∷◌, ◌++◌, length, length-append, drop, arith,
}
use remote_code.Files.Patch.{
  Line, PatchHunk, patched, Patching, split_lines_keep_end, join_lines, apply_hunk, apply_hunks,
  apply_unified_hunks, finish_patch, patch_code,
}
use remote_code.Files.Patch.Script.{
  Script, rest, edit, old_side, new_side, old_lines, new_lines, start_of, hunk_at, hunks_of,
}
use remote_code.Files.Patch.Inverts.{
  and_patch-patched, patched-injective, Copies, apply_hunk-Copies,
}
use remote_code.Files.Parse.{parsed, parse_unified_patch}
use remote_code.Files.Parse.Tallies.{IsCounted, AllCounted}
use remote_code.Files.Parse.Counts.{parse_unified_patch-IsPatch}

-- A hunk is the one that a diff writes for its operations at its place.
counted_hunk :
    (lines : List Line) (h : PatchHunk) (p q : Patching)
    → IsCounted h
    → (c : Copies lines h p q)
    → h ≡ hunk_at (p.cursor + length c.copied) (length p.output + length c.copied) h.operations
counted_hunk lines h p q counted c =
    same_hunk h (counted.old_counted) (counted.new_counted) (counted.old_done ∙ counted.old_counted)
      (counted.new_done ∙ counted.new_counted) (c.old_at ∙ ap (start_of _) counted.old_counted)
      (c.new_at ∙ ap (start_of _) counted.new_counted)
  where
    same_hunk :
        (h : PatchHunk) {a b c d e f : ℕ}
        → h.old_count ≡ a
        → h.new_count ≡ b
        → h.old_used ≡ c
        → h.new_used ≡ d
        → h.old_start ≡ e
        → h.new_start ≡ f
        → h ≡ record {
          old_start = e;
          old_count = a;
          new_start = f;
          new_count = b;
          old_used = c;
          new_used = d;
          operations = h.operations;
        }
    same_hunk h a b c d e f = cc

-- From some cursor on, the hunks describe a script.
record Rest (lines : List Line) (hs : List PatchHunk) (p r : Patching) : Type 0 where
  script : Script
  lines_are : drop p.cursor lines ≡ old_lines script
  hunks_are : hs ≡ hunks_of p.cursor (length p.output) script
  gives : r.output ++ drop r.cursor lines ≡ p.output ++ new_lines script

module _ {lines : List Line} {h : PatchHunk} {p q : Patching} (c : Copies lines h p q) where
  cursor_sum : q.cursor ≡ p.cursor + length c.copied + length (old_side h.operations)
  cursor_sum = omega (arith, c.moved.cursor_is, length-append c.copied (old_side h.operations))

  output_sum : length q.output ≡ length p.output + length c.copied + length (new_side h.operations)
  output_sum =
      ap length c.moved.output_is
      ∙ omega (
        arith,
        length-append p.output (c.copied ++ new_side h.operations),
        length-append c.copied (new_side h.operations),
      )

apply_hunks-Rest :
    (lines : List Line) (hs : List PatchHunk) (p r : Patching)
    → p.cursor ≤ length lines
    → AllCounted hs
    → apply_hunks lines hs p ≡ patched r
    → Rest lines hs p r
unfolding patch_code
apply_hunks-Rest lines [] p r inside counted e = record {
  script = rest (drop p.cursor lines);
  lines_are = refl;
  hunks_are = refl;
  gives = ap (λ s. s.output ++ drop s.cursor lines) (sym (patched-injective p r e));
}
apply_hunks-Rest lines (h ∷ hs) p r inside counted e =
    let first = and_patch-patched (apply_hunk lines h p) _ r e in
    let q = first.0 in
    let here = apply_hunk-Copies lines h p q first.1 in
    let later = apply_hunks-Rest lines hs q r here.moved.inside counted.1 first.2 in
    record {
      script = edit here.copied h.operations later.script;
      lines_are =
          here.moved.read_is
          ∙ ap (λ l. (here.copied ++ old_side h.operations) ++ l) later.lines_are
          ∙ append_assoc here.copied (old_side h.operations) (old_lines later.script);
      hunks_are =
          ap (λ g. g ∷ hs) (counted_hunk lines h p q counted.0 here)
          ∙ ap
              (λ t.
                hunk_at (p.cursor + length here.copied) (length p.output + length here.copied)
                  h.operations
                ∷ t)
              (later.hunks_are
                ∙ ap (λ n. hunks_of n (length q.output) later.script) (cursor_sum here)
                ∙ ap
                    (λ n.
                      hunks_of (p.cursor + length here.copied + length (old_side h.operations)) n
                        later.script)
                    (output_sum here));
      gives =
          later.gives
          ∙ ap (λ l. l ++ new_lines later.script) here.moved.output_is
          ∙ append_assoc p.output (here.copied ++ new_side h.operations) (new_lines later.script)
          ∙ ap (λ l. p.output ++ l)
              (append_assoc here.copied (new_side h.operations) (new_lines later.script));
    }

-- An original, hunks and a text are the two sides of a script and the hunks that a diff writes for it.
pub record IsDescribed (original : List ℕ) (hs : List PatchHunk) (updated : List ℕ) : Type 0 where
  pub script : Script
  pub original_is : split_lines_keep_end original ≡ old_lines script
  pub hunks_are : hs ≡ hunks_of 0 0 script
  pub updated_is : updated ≡ join_lines (new_lines script)

apply_unified_hunks-IsDescribed :
    (original : List ℕ) (hs : List PatchHunk) (updated : List ℕ)
    → AllCounted hs
    → apply_unified_hunks original hs ≡ patched updated
    → IsDescribed original hs updated
unfolding patch_code
apply_unified_hunks-IsDescribed original hs updated counted e =
    let lines = split_lines_keep_end original in
    let all =
      and_patch-patched (apply_hunks lines hs (record { cursor = 0; output = [] }))
        (finish_patch lines) updated e in
    let whole =
      apply_hunks-Rest lines hs (record { cursor = 0; output = [] }) all.0 (omega arith) counted
        all.1 in
    record {
      script = whole.script;
      original_is = whole.lines_are;
      hunks_are = whole.hunks_are;
      updated_is = sym (patched-injective _ updated all.2) ∙ ap join_lines whole.gives;
    }

-- When a patch is accepted and its hunks are applied without an error, there is an edit script with the
-- lines of the original as its old lines, for which a diff writes exactly these hunks, and the updated
-- text is that of the script's new lines.
pub parse_unified_patch-IsDescribed :
    (source original : List ℕ) (hs : List PatchHunk) (updated : List ℕ)
    → parse_unified_patch source ≡ parsed hs
    → apply_unified_hunks original hs ≡ patched updated
    → IsDescribed original hs updated
parse_unified_patch-IsDescribed source original hs updated e e' =
    apply_unified_hunks-IsDescribed original hs updated
      (parse_unified_patch-IsPatch source hs e).counted e'
