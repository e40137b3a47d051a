-- ===== src/Files/Patch/Inverts.antt =====
-- internal/files/patch.go: what a run of `applyUnifiedHunks` that succeeds shows of the text and the hunks.
use mathlib.Core.List.{append-nil, append_assoc}
use remote_code.Prelude.{
  ℕ, zero, suc, ◌+◌, ◌-◌, ◌≡◌, ◌≤◌, refl, sym, ap, subst, ◌∙◌, Bool, true, false, Option, some,
  none, List, [], ◌∷◌, ◌++◌, ◌==◌, ltb, if◌then◌else◌, length, length-append, get_elem?, take, drop,
  arith, ==_iff, and_true, not_below_zero, Option-cases, inl, inr,
}
use remote_code.Files.Patch.{
  Line, OperationKind, keeps, removes, adds, PatchOperation, PatchHunk, PatchError, Patched,
  patched, rejected, and_patch, Patching, line_eq, apply_operations, start_index, apply_hunk,
  patch_code, is_line, is_index, apply_by_kind, apply_at,
}
use remote_code.Files.Patch.Script.{old_kind, new_kind, old_side, new_side, start_of}

pub and_patch-patched :
    {A B : Type 0} (r : Patched A) (f : A → Patched B) (b : B)
    → and_patch r f ≡ patched b
    → (a : A) × (r ≡ patched a) × (f a ≡ patched b)
and_patch-patched (patched a) f b e = (a, refl, e)
and_patch-patched (rejected x) f b e = cc

pub if_patched :
    {A : Type 0} (b : Bool) (r : Patched A) (x : PatchError) (y : A)
    → (if b then r else rejected x) ≡ patched y
    → (b ≡ true) × (r ≡ patched y)
unfolding if◌then◌else◌
if_patched true r x y e = (refl, e)
if_patched false r x y e = cc

unless_patched :
    {A : Type 0} (b : Bool) (r : Patched A) (x : PatchError) (y : A)
    → (if b then rejected x else r) ≡ patched y
    → (b ≡ false) × (r ≡ patched y)
unfolding if◌then◌else◌
unless_patched true r x y e = cc
unless_patched false r x y e = (refl, e)

pub patched-injective : {A : Type 0} (x y : A) → patched x ≡ patched y → x ≡ y
patched-injective x y e = cc

line_eq→eq : (l m : Line) → line_eq l m ≡ true → l ≡ m
unfolding patch_code
line_eq→eq [] [] e = refl
line_eq→eq [] (b ∷ m) e = cc
line_eq→eq (a ∷ l) [] e = cc
line_eq→eq (a ∷ l) (b ∷ m) e =
    ap (λ c. c ∷ l) ((==_iff a b).0 (and_true (a == b) (line_eq l m) e).0)
    ∙ ap (λ t. b ∷ t) (line_eq→eq l m (and_true (a == b) (line_eq l m) e).1)

-- The line at the cursor stands first in what is left.
is_line-drop :
    (n : ℕ) (lines : List Line) (text : Line)
    → is_line (get_elem? lines n) text ≡ true
    → (drop n lines ≡ text ∷ drop (suc n) lines) × (suc n ≤ length lines)
unfolding patch_code
is_line-drop zero [] text e = cc
is_line-drop zero (l ∷ lines) text e = (ap (λ t. t ∷ lines) (line_eq→eq l text e), omega arith)
is_line-drop (suc n) [] text e = cc
is_line-drop (suc n) (l ∷ lines) text e =
    let r = is_line-drop n lines text e in (r.0, omega (arith, r.1))

-- From one cursor and output to others, over lines read and lines written.
pub record Moves (lines : List Line) (p q : Patching) (read written : List Line) : Type 0 where
  pub read_is : drop p.cursor lines ≡ read ++ drop q.cursor lines
  pub cursor_is : q.cursor ≡ p.cursor + length read
  pub output_is : q.output ≡ p.output ++ written
  pub inside : q.cursor ≤ length lines

apply_by_kind-Moves :
    (lines : List Line) (kind : OperationKind) (text : Line) (p q : Patching)
    → p.cursor ≤ length lines
    → apply_by_kind kind lines text p ≡ patched q
    → Moves lines p q (old_kind kind text []) (new_kind kind text [])
unfolding patch_code
apply_by_kind-Moves lines adds text p q inside e =
    subst (λ s. Moves lines p s [] (text ∷ [])) (patched-injective _ q e)
      (record { read_is = refl; cursor_is = omega arith; output_is = refl; inside = inside })
apply_by_kind-Moves lines keeps text p q inside e =
    let r = if_patched (is_line (get_elem? lines p.cursor) text) _ _ q e in
    let d = is_line-drop p.cursor lines text r.0 in
    subst (λ s. Moves lines p s (text ∷ []) (text ∷ [])) (patched-injective _ q r.1)
      (record { read_is = d.0; cursor_is = omega arith; output_is = refl; inside = d.1 })
apply_by_kind-Moves lines removes text p q inside e =
    let r = if_patched (is_line (get_elem? lines p.cursor) text) _ _ q e in
    let d = is_line-drop p.cursor lines text r.0 in
    subst (λ s. Moves lines p s (text ∷ []) []) (patched-injective _ q r.1)
      (record {
        read_is = d.0;
        cursor_is = omega arith;
        output_is = sym (append-nil p.output);
        inside = d.1;
      })

-- One move after another.
old_kind-then :
    (kind : OperationKind) (text : Line) (xs ys : List Line)
    → old_kind kind text [] ++ (xs ++ ys) ≡ old_kind kind text xs ++ ys
old_kind-then keeps text xs ys = refl
old_kind-then removes text xs ys = refl
old_kind-then adds text xs ys = refl

old_kind-sum :
    (kind : OperationKind) (text : Line) (xs : List Line)
    → length (old_kind kind text []) + length xs ≡ length (old_kind kind text xs)
old_kind-sum keeps text xs = omega arith
old_kind-sum removes text xs = omega arith
old_kind-sum adds text xs = omega arith

new_kind-then :
    (kind : OperationKind) (text : Line) (out xs : List Line)
    → (out ++ new_kind kind text []) ++ xs ≡ out ++ new_kind kind text xs
new_kind-then keeps text out xs = append_assoc out (text ∷ []) xs
new_kind-then adds text out xs = append_assoc out (text ∷ []) xs
new_kind-then removes text out xs = ap (λ l. l ++ xs) (append-nil out)

apply_operations-Moves :
    (lines : List Line) (os : List PatchOperation) (p q : Patching)
    → p.cursor ≤ length lines
    → apply_operations lines os p ≡ patched q
    → Moves lines p q (old_side os) (new_side os)
unfolding apply_operations
apply_operations-Moves lines [] p q inside e =
    subst (λ s. Moves lines p s [] []) (patched-injective p q e)
      (record {
        read_is = refl;
        cursor_is = omega arith;
        output_is = sym (append-nil p.output);
        inside = inside;
      })
apply_operations-Moves lines (o ∷ os) p q inside e =
    let first = and_patch-patched (apply_by_kind o.kind lines o.text p) _ q e in
    let s = first.0 in
    let here = apply_by_kind-Moves lines o.kind o.text p s inside first.1 in
    let later = apply_operations-Moves lines os s q here.inside first.2 in
    record {
      read_is =
          here.read_is
          ∙ ap (λ l. old_kind o.kind o.text [] ++ l) later.read_is
          ∙ old_kind-then o.kind o.text (old_side os) (drop q.cursor lines);
      cursor_is =
          omega (arith, here.cursor_is, later.cursor_is, old_kind-sum o.kind o.text (old_side os));
      output_is =
          later.output_is
          ∙ ap (λ l. l ++ new_side os) here.output_is
          ∙ new_kind-then o.kind o.text p.output (new_side os);
      inside = later.inside;
    }

take-drop :
    (k : ℕ) (lines : List Line)
    → k ≤ length lines
    → (lines ≡ take k lines ++ drop k lines) × (length (take k lines) ≡ k)
take-drop zero lines h = (refl, refl)
take-drop (suc k) [] h = not_below_zero h
take-drop (suc k) (l ∷ lines) h =
    let r = take-drop k lines (omega (arith, h)) in (ap (λ t. l ∷ t) r.0, ap suc r.1)

suc_add : (c k : ℕ) → suc (c + k) ≡ suc c + k
suc_add c k = omega arith

take-drop_at :
    (k c : ℕ) (lines : List Line)
    → c + k ≤ length lines
    → (drop c lines ≡ take k (drop c lines) ++ drop (c + k) lines)
      × (length (take k (drop c lines)) ≡ k)
take-drop_at k zero lines h =
    let r = take-drop k lines (omega (arith, h)) in
    (r.0 ∙ ap (λ n. take k lines ++ drop n lines) (omega arith), r.1)
take-drop_at zero (suc c) [] h = not_below_zero {n = c} (omega (arith, h))
take-drop_at (suc k) (suc c) [] h = not_below_zero {n = c} (omega (arith, h))
take-drop_at k (suc c) (l ∷ lines) h =
    let r = take-drop_at k c lines (omega (arith, h)) in
    (r.0 ∙ ap (λ n. take k (drop c lines) ++ drop n (l ∷ lines)) (suc_add c k), r.1)

start_index-start_of :
    (start count i : ℕ) → start_index start count ≡ some i → start ≡ start_of i count
unfolding start_index
start_index-start_of start zero i e = some-injective start i e
  where
    some-injective : (u v : ℕ) → some u ≡ some v → u ≡ v
    some-injective u v e = cc
start_index-start_of zero (suc count) i e = cc
start_index-start_of (suc start) (suc count) i e = ap suc (some-injective start i e)
  where
    some-injective : (u v : ℕ) → some u ≡ some v → u ≡ v
    some-injective u v e = cc

-- A hunk that is applied starts where its header says, after lines that are copied.
pub record Copies (lines : List Line) (h : PatchHunk) (p q : Patching) : Type 0 where
  pub copied : List Line
  pub moved : Moves lines p q (copied ++ old_side h.operations) (copied ++ new_side h.operations)
  pub old_at : h.old_start ≡ start_of (p.cursor + length copied) h.old_count
  pub new_at : h.new_start ≡ start_of (length p.output + length copied) h.new_count

is_index-some : (o : Option ℕ) (n : ℕ) → is_index o n ≡ true → o ≡ some n
unfolding patch_code
is_index-some none n e = cc
is_index-some (some i) n e = ap (λ k. some k) ((==_iff i n).0 e)

apply_at-Copies :
    (i : ℕ) (lines : List Line) (h : PatchHunk) (p q : Patching)
    → start_index h.old_start h.old_count ≡ some i
    → apply_at (some i) lines h p ≡ patched q
    → Copies lines h p q
unfolding apply_at
apply_at-Copies i lines h p q at e =
    let from = unless_patched (ltb i p.cursor) _ _ q e in
    let upto = unless_patched (ltb (length lines) i) _ _ q from.1 in
    let new =
      if_patched
        (is_index (start_index h.new_start h.new_count)
          (length (p.output ++ take (i - p.cursor) (drop p.cursor lines))))
        _ _ q upto.1 in
    let k = i - p.cursor in
    let part = take k (drop p.cursor lines) in
    let le = not_ltb (length lines) i upto.0 in
    let ge = not_ltb i p.cursor from.0 in
    let split = take-drop_at k p.cursor lines (omega (arith, le, ge)) in
    let move =
      apply_operations-Moves lines h.operations (record { cursor = i; output = p.output ++ part }) q
        le new.1 in
    record {
      copied = part;
      moved = record {
        read_is =
            split.0
            ∙ ap (λ n. part ++ drop n lines) (omega (arith, ge))
            ∙ ap (λ l. part ++ l) move.read_is
            ∙ sym (append_assoc part (old_side h.operations) (drop q.cursor lines));
        cursor_is =
            omega (arith, move.cursor_is, split.1, ge, length-append part (old_side h.operations));
        output_is = move.output_is ∙ append_assoc p.output part (new_side h.operations);
        inside = move.inside;
      };
      old_at =
          start_index-start_of h.old_start h.old_count i at
          ∙ ap (λ n. start_of n h.old_count) (omega (arith, split.1, ge));
      new_at =
          start_index-start_of h.new_start h.new_count _ (is_index-some _ _ new.0)
          ∙ ap (λ n. start_of n h.new_count) (length-append p.output part);
    }
  where
    not_ltb : (a b : ℕ) → ltb a b ≡ false → b ≤ a
    not_ltb a b e = ground arith

pub apply_hunk-Copies :
    (lines : List Line) (h : PatchHunk) (p q : Patching)
    → apply_hunk lines h p ≡ patched q
    → Copies lines h p q
unfolding apply_hunk apply_at
apply_hunk-Copies lines h p q e = elim (Option-cases (start_index h.old_start h.old_count)) [
  | inl n ↦ elim (outside (ap (λ o. apply_at o lines h p) (sym n) ∙ e)) [ ]
  | inr (i, at) ↦ apply_at-Copies i lines h p q at (ap (λ o. apply_at o lines h p) (sym at) ∙ e)
]
  where
    outside : apply_at none lines h p ≡ patched q → ⊥
    outside e = cc
