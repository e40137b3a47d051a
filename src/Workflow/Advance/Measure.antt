-- ===== src/Workflow/Advance/Measure.antt =====
-- internal/workflow/service.go: how the bound on the rounds of `advance` changes with a node.
use remote_code.Prelude.{
  All, All-imp, ℕ, ◌≡◌, ◌≤◌, ◌<◌, refl, ap, String, Bool, none, some, List, [], ◌∷◌, Map, arith,
  lookup, insert, lookup-insert, str_eq, str_eq→eq, str_eq_refl, if◌then◌else◌, Bool-cases, inl,
  inr, ◌⊎◌,
}
use remote_code.Workflow.Model.{NodeRun}
use remote_code.Workflow.Definition.{CompiledDefinition}
use remote_code.Workflow.Advance.{unresolved, unresolved_one, weight, measure_of, incoming_of}

abbrev pub IsIn : String → List String → Type 0
IsIn k [] = ⊥
IsIn k (x ∷ xs) = (x ≡ k) ⊎ IsIn k xs

IsIn-later :
    (x : String) (xs ys : List String) → All (λ k. IsIn k xs) ys → All (λ k. IsIn k (x ∷ xs)) ys
IsIn-later x xs ys h = All-imp _ _ (λ k i. inr i) ys h

pub IsIn-All : (xs : List String) → All (λ k. IsIn k xs) xs
IsIn-All [] = tt
IsIn-All (x ∷ xs) = (inl refl, IsIn-later x xs xs (IsIn-All xs))

unresolved_one-insert :
    (k source : String) (v : Bool) (m : Map Bool)
    → unresolved_one (lookup source (insert k v m)) ≤ unresolved_one (lookup source m)
unfolding if◌then◌else◌
unresolved_one-insert k source v m =
    rw (lookup-insert k source v m) (elim (Bool-cases (str_eq k source)) [
      | inl h ↦ rw h (omega arith)
      | inr h ↦ rw h (omega arith)
    ])

-- A source that is resolved leaves no more sources unresolved, and fewer where it was one of them.
pub unresolved-insert_le :
    (sources : List String) (k : String) (v : Bool) (m : Map Bool)
    → unresolved sources (insert k v m) ≤ unresolved sources m
unfolding unresolved
unresolved-insert_le [] k v m = omega arith
unresolved-insert_le (source ∷ sources) k v m =
    (omega (arith, unresolved_one-insert k source v m, unresolved-insert_le sources k v m))

pub unresolved-insert_lt :
    (sources : List String) (k : String) (v : Bool) (m : Map Bool)
    → IsIn k sources
    → lookup k m ≡ none
    → unresolved sources (insert k v m) < unresolved sources m
unfolding if◌then◌else◌ unresolved
unresolved-insert_lt [] k v m i h = elim i [ ]
unresolved-insert_lt (source ∷ sources) k v m (inl e) h =
    (rw (e, h, lookup-insert k k v m, str_eq_refl k)
      (omega (arith, unresolved-insert_le sources k v m)))
unresolved-insert_lt (source ∷ sources) k v m (inr i) h =
    (omega (arith, unresolved_one-insert k source v m, unresolved-insert_lt sources k v m i h))

module _ (definition : CompiledDefinition) (before after : Map NodeRun) where
  abbrev weight_in : Map NodeRun → String → ℕ
  weight_in nodes k = weight (incoming_of definition k) (lookup k nodes)

  measure_of-le :
      (ks : List String)
      → ((k : String) → weight_in after k ≤ weight_in before k)
      → measure_of definition ks after ≤ measure_of definition ks before
  unfolding measure_of
  measure_of-le [] h = omega arith
  measure_of-le (k ∷ ks) h = omega (arith, h k, measure_of-le ks h)

  measure_of-lt :
      (ks : List String) (key : String)
      → IsIn key ks
      → ((k : String) → weight_in after k ≤ weight_in before k)
      → weight_in after key < weight_in before key
      → measure_of definition ks after < measure_of definition ks before
  unfolding measure_of
  measure_of-lt [] key i h lt = elim i [ ]
  measure_of-lt (k ∷ ks) key (inl e) h lt =
      omega (arith, ap (weight_in after) e, ap (weight_in before) e, lt, measure_of-le ks h)
  measure_of-lt (k ∷ ks) key (inr i) h lt = omega (arith, h k, measure_of-lt ks key i h lt)

-- A node that is put under its key.
module _ (definition : CompiledDefinition) (key : String) (node node' : NodeRun)
    (nodes : Map NodeRun) (found : lookup key nodes ≡ some node) where
  weight-insert :
      weight (incoming_of definition key) (some node')
        ≤ weight (incoming_of definition key) (some node)
      → (k : String)
      → weight (incoming_of definition k) (lookup k (insert key node' nodes))
        ≤ weight (incoming_of definition k) (lookup k nodes)
  unfolding if◌then◌else◌
  weight-insert le k = rw (lookup-insert key k node' nodes) (elim (Bool-cases (str_eq key k)) [
    | inl h ↦ rw (h, ← str_eq→eq key k h, found) le
    | inr h ↦ rw h (omega arith)
  ])

  pub measure_of-insert_le :
      (ks : List String)
      → weight (incoming_of definition key) (some node')
        ≤ weight (incoming_of definition key) (some node)
      → measure_of definition ks (insert key node' nodes) ≤ measure_of definition ks nodes
  measure_of-insert_le ks le = measure_of-le definition nodes _ ks (weight-insert le)

  pub measure_of-insert_lt :
      (ks : List String)
      → IsIn key ks
      → weight (incoming_of definition key) (some node')
        < weight (incoming_of definition key) (some node)
      → measure_of definition ks (insert key node' nodes) < measure_of definition ks nodes
  unfolding if◌then◌else◌
  measure_of-insert_lt ks i lt =
      measure_of-lt definition nodes _ ks key i (weight-insert (omega (arith, lt)))
        (rw (lookup-insert key key node' nodes, str_eq_refl key, found) lt)
