-- ===== src/Files/Patch/Applies.antt =====
-- internal/files/patch.go: `applyUnifiedHunks` on the hunks of a diff.
use mathlib.Core.List.{append-nil, append_assoc}
use remote_code.Prelude.{
  ℕ, zero, suc, ◌+◌, ◌-◌, ◌≡◌, ◌≤◌, refl, sym, ap, ◌∙◌, true, false, some, List, [], ◌∷◌, ◌++◌,
  ◌==◌, ltb, if◌then◌else◌, length, length-append, get_elem?, take, drop, arith,
}
use remote_code.Files.Patch.{
  Line, OperationKind, keeps, removes, adds, PatchOperation, Patched, patched, and_patch, Patching,
  line_eq, is_line, apply_by_kind, apply_operations, start_index, is_index, apply_at, apply_hunk,
  apply_hunks, finish_patch, apply_unified_hunks, split_lines_keep_end, join_lines,
}
use remote_code.Files.Patch.Script.{
  Script, rest, edit, old_kind, new_kind, old_side, new_side, old_lines, new_lines, start_of,
  hunk_at, hunks_of,
}

line_eq_refl : (l : Line) → line_eq l l ≡ true
unfolding line_eq
line_eq_refl [] = refl
line_eq_refl (c ∷ l) = ground (arith, line_eq_refl l)

-- What stands after the cursor.
drop-cons :
    (n : ℕ) (xs : List Line) (x : Line) (ys : List Line)
    → drop n xs ≡ x ∷ ys
    → (get_elem? xs n ≡ some x) × (drop (suc n) xs ≡ ys)
drop-cons zero [] x ys h = cc
drop-cons zero (z ∷ xs) x ys h = (cc, cc)
drop-cons (suc n) [] x ys h = cc
drop-cons (suc n) (z ∷ xs) x ys h = drop-cons n xs x ys h

take-append : (xs ys : List Line) → take (length xs) (xs ++ ys) ≡ xs
take-append [] ys = refl
take-append (x ∷ xs) ys = ap (λ l. x ∷ l) (take-append xs ys)

drop-append : (n : ℕ) (zs xs ys : List Line) → drop n zs ≡ xs ++ ys → drop (n + length xs) zs ≡ ys
drop-append n zs [] ys h = ap (λ k. drop k zs) (omega arith) ∙ h
drop-append n zs (x ∷ xs) ys h =
    ap (λ k. drop k zs) (omega arith)
    ∙ drop-append (suc n) zs xs ys (drop-cons n zs x (xs ++ ys) h).1

-- An operation on a side of the original that starts with its line.
apply_by_kind-side :
    (lines : List Line) (kind : OperationKind) (text : Line) (at : ℕ) (out after : List Line)
    → drop at lines ≡ old_kind kind text after
    → (p : Patching) × (apply_by_kind kind lines text (record { cursor = at; output = out })
        ≡ patched p)
      × (p.cursor ≡ at + length (old_kind kind text []))
      × (p.output ≡ out ++ new_kind kind text [])
      × (drop p.cursor lines ≡ after)
unfolding apply_by_kind is_line if◌then◌else◌
apply_by_kind-side lines adds text at out after h = (_, refl, omega arith, refl, h)
apply_by_kind-side lines keeps text at out after h = (
  record { cursor = suc at; output = out ++ text ∷ [] },
  rw ((drop-cons at lines text after h).0, line_eq_refl text) refl,
  omega arith,
  refl,
  (drop-cons at lines text after h).1,
)
apply_by_kind-side lines removes text at out after h = (
  record { cursor = suc at; output = out },
  rw ((drop-cons at lines text after h).0, line_eq_refl text) refl,
  omega arith,
  sym (append-nil out),
  (drop-cons at lines text after h).1,
)

-- The operations of a hunk turn its old side into its new one.
record Turns (lines : List Line) (r : Patched Patching) (at : ℕ) (out after : List Line)
    : Type 0 where
  reached : Patching
  applied : r ≡ patched reached
  cursor_at : reached.cursor ≡ at
  output_is : reached.output ≡ out
  left : drop reached.cursor lines ≡ after

old_kind-append :
    (kind : OperationKind) (text : Line) (xs ys : List Line)
    → old_kind kind text xs ++ ys ≡ old_kind kind text (xs ++ ys)
old_kind-append keeps text xs ys = refl
old_kind-append removes text xs ys = refl
old_kind-append adds text xs ys = refl

old_kind-length :
    (kind : OperationKind) (text : Line) (xs : List Line)
    → length (old_kind kind text xs) ≡ length (old_kind kind text []) + length xs
old_kind-length keeps text xs = omega arith
old_kind-length removes text xs = omega arith
old_kind-length adds text xs = omega arith

new_kind-append :
    (kind : OperationKind) (text : Line) (out xs : List Line)
    → (out ++ new_kind kind text []) ++ xs ≡ out ++ new_kind kind text xs
new_kind-append keeps text out xs = append_assoc out (text ∷ []) xs
new_kind-append adds text out xs = append_assoc out (text ∷ []) xs
new_kind-append removes text out xs = ap (λ l. l ++ xs) (append-nil out)

apply_operations-Turns :
    (lines : List Line) (os : List PatchOperation) (p : Patching) (after : List Line)
    → drop p.cursor lines ≡ old_side os ++ after
    → Turns lines
        (apply_operations lines os p)
        (p.cursor + length (old_side os))
        (p.output ++ new_side os)
        after
unfolding apply_operations
apply_operations-Turns lines [] p after h = record {
  reached = p;
  applied = refl;
  cursor_at = omega arith;
  output_is = sym (append-nil p.output);
  left = h;
}
apply_operations-Turns lines (o ∷ os) p after h =
    let step =
      apply_by_kind-side lines o.kind o.text p.cursor p.output (old_side os ++ after)
        (h ∙ old_kind-append o.kind o.text (old_side os) after) in
    let rest = apply_operations-Turns lines os step.0 after step.4 in
    record {
      reached = rest.reached;
      applied = ap (λ r. and_patch r λ p'. apply_operations lines os p') step.1 ∙ rest.applied;
      cursor_at =
          omega (arith, rest.cursor_at, step.2, old_kind-length o.kind o.text (old_side os));
      output_is =
          rest.output_is
          ∙ ap (λ l. l ++ new_side os) step.3
          ∙ new_kind-append o.kind o.text p.output (new_side os);
      left = rest.left;
    }

length-drop : (n : ℕ) (zs : List Line) → n ≤ length zs → length zs ≡ n + length (drop n zs)
length-drop zero zs h = omega arith
length-drop (suc n) [] h = omega (arith, h)
length-drop (suc n) (z ∷ zs) h = omega (arith, length-drop n zs (omega (arith, h)))

start_index-start_of : (index count : ℕ) → start_index (start_of index count) count ≡ some index
unfolding start_index
start_index-start_of index zero = refl
start_index-start_of index (suc count) = refl

not_ltb : (a b : ℕ) → b ≤ a → ltb a b ≡ false
not_ltb a b h = ground (arith, h)

same_index : (a b : ℕ) → a ≡ b → (a == b) ≡ true
same_index a b h = ground (arith, h)

module _ (lines : List Line) (p : Patching) (ls : List Line) (os : List PatchOperation)
    (after : List Line) (inside : p.cursor ≤ length lines)
    (left : drop p.cursor lines ≡ ls ++ (old_side os ++ after)) where
  copied_lines : take (p.cursor + length ls - p.cursor) (drop p.cursor lines) ≡ ls
  copied_lines =
      ap (λ k. take k (drop p.cursor lines)) (omega arith)
      ∙ ap (take (length ls)) left
      ∙ take-append ls (old_side os ++ after)

  end_inside : p.cursor + length ls + length (old_side os) ≤ length lines
  end_inside = omega (
    arith,
    length-drop p.cursor lines inside,
    ap length left,
    length-append ls (old_side os ++ after),
    length-append (old_side os) after,
  )

  hunk_at-Turns :
      Turns lines
        (apply_hunk lines (hunk_at (p.cursor + length ls) (length p.output + length ls) os) p)
        (p.cursor + length ls + length (old_side os))
        ((p.output ++ ls) ++ new_side os)
        after
  unfolding apply_hunk apply_at is_index if◌then◌else◌
  hunk_at-Turns =
      rw
        (
          start_index-start_of (p.cursor + length ls) (length (old_side os)),
          not_ltb (p.cursor + length ls) p.cursor (omega arith),
          not_ltb (length lines) (p.cursor + length ls) (omega (arith, end_inside)),
          start_index-start_of (length p.output + length ls) (length (new_side os)),
          copied_lines,
          same_index (length p.output + length ls) (length (p.output ++ ls))
              (omega (arith, length-append p.output ls)),
        )
        (apply_operations-Turns lines os
          (record { cursor = p.cursor + length ls; output = p.output ++ ls }) after
          (drop-append p.cursor lines ls (old_side os ++ after) left))

-- What is read and written in the end.
record Ends (lines : List Line) (r : Patched Patching) (out : List Line) : Type 0 where
  stopped_at : Patching
  ended : r ≡ patched stopped_at
  all_lines : stopped_at.output ++ drop stopped_at.cursor lines ≡ out

apply_hunks-Ends :
    (lines : List Line) (s : Script) (p : Patching)
    → p.cursor ≤ length lines
    → drop p.cursor lines ≡ old_lines s
    → Ends lines
        (apply_hunks lines (hunks_of p.cursor (length p.output) s) p)
        (p.output ++ new_lines s)
unfolding apply_hunks
apply_hunks-Ends lines (rest ls) p inside left = record {
  stopped_at = p;
  ended = refl;
  all_lines = ap (λ l. p.output ++ l) left;
}
apply_hunks-Ends lines (edit ls os s) p inside left =
    let turn = hunk_at-Turns lines p ls os (old_lines s) inside left in
    let q = turn.reached in
    let tail =
      apply_hunks-Ends lines s q
        (omega (arith, turn.cursor_at, end_inside lines p ls os (old_lines s) inside left))
        turn.left in
    record {
      stopped_at = tail.stopped_at;
      ended =
          ap
            (λ r. and_patch r λ p'.
              apply_hunks lines
                (hunks_of (p.cursor + length ls + length (old_side os))
                  (length p.output + length ls + length (new_side os)) s)
                p')
            turn.applied
          ∙ from_there q _ _ (sym turn.cursor_at) (sym (output_length turn.output_is))
          ∙ tail.ended;
      all_lines =
          tail.all_lines
          ∙ ap (λ l. l ++ new_lines s) turn.output_is
          ∙ append_assoc (p.output ++ ls) (new_side os) (new_lines s)
          ∙ append_assoc p.output ls (new_side os ++ new_lines s);
    }
  where
    from_there :
        (q : Patching) (a b : ℕ)
        → a ≡ q.cursor
        → b ≡ length q.output
        → apply_hunks lines (hunks_of a b s) q
          ≡ apply_hunks lines (hunks_of q.cursor (length q.output) s) q
    from_there q a b e e' =
        ap (λ k. apply_hunks lines (hunks_of k b s) q) e
        ∙ ap (λ k. apply_hunks lines (hunks_of q.cursor k s) q) e'

    output_length :
        {out : List Line}
        → out ≡ (p.output ++ ls) ++ new_side os
        → length out ≡ length p.output + length ls + length (new_side os)
    output_length e =
        ap length e
        ∙ omega (arith, length-append (p.output ++ ls) (new_side os), length-append p.output ls)

-- The hunks that a diff writes for a script, applied to the text of its old lines, give the text of
-- its new lines, where the old lines are those into which their text is split.
pub apply_unified_hunks-Script :
    (s : Script) (original : List ℕ)
    → split_lines_keep_end original ≡ old_lines s
    → apply_unified_hunks original (hunks_of 0 0 s) ≡ patched (join_lines (new_lines s))
unfolding apply_unified_hunks finish_patch
apply_unified_hunks-Script s original split =
    let all =
      apply_hunks-Ends (split_lines_keep_end original) s (record { cursor = 0; output = [] })
        (omega arith) split in
    ap (λ r. and_patch r (finish_patch (split_lines_keep_end original))) all.ended
    ∙ ap (λ l. patched (join_lines l)) all.all_lines
