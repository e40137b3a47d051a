-- ===== src/Files/Parse/Sides.antt =====
-- internal/files/patch.go: the lines of a hunk's two sides when an operation is added or trimmed.
use remote_code.Prelude.{◌≡◌, refl, ap, true, suc, List, [], ◌∷◌, ◌++◌, ◌⊎◌, inl, inr, length}
use remote_code.Files.Patch.{OperationKind, keeps, removes, adds, PatchOperation, Line}
use remote_code.Files.Patch.Script.{old_kind, new_kind, old_side, new_side}
use remote_code.Files.Parse.{trim_last, old_use, new_use, is_change}

-- Some operation adds or removes a line.
abbrev pub Edits : List PatchOperation → Type 0
Edits [] = ⊥
Edits (o ∷ os) = ((o.kind ≡ removes) ⊎ (o.kind ≡ adds)) ⊎ Edits os

pub old_side-last :
    (os : List PatchOperation) (kind : OperationKind) (text : Line)
    → length (old_side (os ++ record { kind = kind; text = text } ∷ []))
      ≡ old_use kind (length (old_side os))
unfolding old_use
old_side-last [] keeps text = refl
old_side-last [] removes text = refl
old_side-last [] adds text = refl
old_side-last (o ∷ os) kind text = old_kind-last o.kind o.text kind _ _ (old_side-last os kind text)
  where
    old_kind-last :
        (k : OperationKind) (l : Line) (kind : OperationKind) (xs ys : List Line)
        → length xs ≡ old_use kind (length ys)
        → length (old_kind k l xs) ≡ old_use kind (length (old_kind k l ys))
    old_kind-last adds l kind xs ys e = e
    old_kind-last keeps l keeps xs ys e = ap suc e
    old_kind-last keeps l removes xs ys e = ap suc e
    old_kind-last keeps l adds xs ys e = ap suc e
    old_kind-last removes l keeps xs ys e = ap suc e
    old_kind-last removes l removes xs ys e = ap suc e
    old_kind-last removes l adds xs ys e = ap suc e

pub new_side-last :
    (os : List PatchOperation) (kind : OperationKind) (text : Line)
    → length (new_side (os ++ record { kind = kind; text = text } ∷ []))
      ≡ new_use kind (length (new_side os))
unfolding new_use
new_side-last [] keeps text = refl
new_side-last [] removes text = refl
new_side-last [] adds text = refl
new_side-last (o ∷ os) kind text = new_kind-last o.kind o.text kind _ _ (new_side-last os kind text)
  where
    new_kind-last :
        (k : OperationKind) (l : Line) (kind : OperationKind) (xs ys : List Line)
        → length xs ≡ new_use kind (length ys)
        → length (new_kind k l xs) ≡ new_use kind (length (new_kind k l ys))
    new_kind-last removes l kind xs ys e = e
    new_kind-last keeps l keeps xs ys e = ap suc e
    new_kind-last keeps l removes xs ys e = ap suc e
    new_kind-last keeps l adds xs ys e = ap suc e
    new_kind-last adds l keeps xs ys e = ap suc e
    new_kind-last adds l removes xs ys e = ap suc e
    new_kind-last adds l adds xs ys e = ap suc e

pub Edits-last :
    (os : List PatchOperation) (kind : OperationKind) (text : Line)
    → is_change kind ≡ true
    → Edits (os ++ record { kind = kind; text = text } ∷ [])
unfolding is_change
Edits-last [] keeps text e = cc
Edits-last [] removes text e = inl (inl refl)
Edits-last [] adds text e = inl (inr refl)
Edits-last (o ∷ os) kind text e = inr (Edits-last os kind text e)

pub Edits-append : (os ps : List PatchOperation) → Edits os → Edits (os ++ ps)
Edits-append [] ps e = elim e [ ]
Edits-append (o ∷ os) ps (inl e) = inl e
Edits-append (o ∷ os) ps (inr e) = inr (Edits-append os ps e)

abbrev LengthOfKind : (side : OperationKind → Line → List Line → List Line) → Type 0
LengthOfKind side =
    (k : OperationKind) (l m : Line) (xs ys : List Line)
    → length xs ≡ length ys
    → length (side k l xs) ≡ length (side k m ys)

old_kind-length_of : LengthOfKind old_kind
old_kind-length_of keeps l m xs ys e = ap suc e
old_kind-length_of removes l m xs ys e = ap suc e
old_kind-length_of adds l m xs ys e = e

new_kind-length_of : LengthOfKind new_kind
new_kind-length_of keeps l m xs ys e = ap suc e
new_kind-length_of removes l m xs ys e = e
new_kind-length_of adds l m xs ys e = ap suc e

-- Taking the line feed off the last operation leaves the kinds.
pub old_side-trim_last :
    (os : List PatchOperation) → length (old_side (trim_last os)) ≡ length (old_side os)
unfolding trim_last
old_side-trim_last [] = refl
old_side-trim_last (o ∷ []) = old_kind-length_of o.kind _ o.text [] [] refl
old_side-trim_last (o ∷ p ∷ os) =
    old_kind-length_of o.kind o.text o.text _ _ (old_side-trim_last (p ∷ os))

pub new_side-trim_last :
    (os : List PatchOperation) → length (new_side (trim_last os)) ≡ length (new_side os)
unfolding trim_last
new_side-trim_last [] = refl
new_side-trim_last (o ∷ []) = new_kind-length_of o.kind _ o.text [] [] refl
new_side-trim_last (o ∷ p ∷ os) =
    new_kind-length_of o.kind o.text o.text _ _ (new_side-trim_last (p ∷ os))

pub Edits-trim_last : (os : List PatchOperation) → Edits os → Edits (trim_last os)
unfolding trim_last
Edits-trim_last [] e = elim e [ ]
Edits-trim_last (o ∷ []) (inl e) = inl e
Edits-trim_last (o ∷ []) (inr e) = elim e [ ]
Edits-trim_last (o ∷ p ∷ os) (inl e) = inl e
Edits-trim_last (o ∷ p ∷ os) (inr e) = inr (Edits-trim_last (p ∷ os) e)
