-- ===== src/Workflow/Writes/Pairs.antt =====
-- internal/workflow/definition.go: the pairs of writers that `validateContextWriteOrdering` has checked.
use remote_code.Prelude.{
  ◌≡◌, refl, ap, subst, ◌∙◌, Bool, true, false, not, String, List, [], ◌∷◌, ◌++◌, ◌&&◌, ◌||◌,
  if◌then◌else◌, Map, insert, keys, str_eq, str_eq→eq, eq_iff, has, has-append, or_cases,
  Bool-cases, inl, inr, arith, Accepts, Accepts-accept, Accepts-reject_if, Accepts-and_then,
  Accepts-imp,
}
use remote_code.Workflow.Definition.{CompiledNode}
use remote_code.Workflow.Graph.{names_at}
use remote_code.Workflow.Graph.Waits.{names_at-absent}
use remote_code.Workflow.Graph.Scans.{names_at-insert}
use remote_code.Workflow.Writes.{
  writes_of, add_writer, add_writers, check_right, check_pairs, check_keys,
}

-- One of the two is known to precede the other one.
abbrev pub InOrder : Map (List String) → String → String → Type 0
InOrder m a b = (has a (names_at m b) || has b (names_at m a)) ≡ true

check_right-InOrder :
    (m : Map (List String)) (key left : String) (rights : List String)
    → Accepts
        (λ checked. (b : String) → has b rights ≡ true → InOrder m left b)
        (check_right m key left rights)
unfolding check_right
check_right-InOrder m key left [] = Accepts-accept _ _ tt λ b h. cc
check_right-InOrder m key left (right ∷ rights) =
    Accepts-reject_if (λ checked. (b : String) → has b (right ∷ rights) ≡ true → InOrder m left b) _
      _ _
      λ fine.
        Accepts-imp _ _ (check_right m key left rights) (check_right-InOrder m key left rights)
          λ checked later b h. elim (or_cases (str_eq right b) (has b rights) h) [
            | inl same ↦
                subst (InOrder m left) (str_eq→eq right b same)
                  (one_holds (has left (names_at m right)) (has right (names_at m left)) fine)
            | inr rest ↦ later b rest
          ]
  where
    one_holds : (a b : Bool) → (not a && not b) ≡ false → (a || b) ≡ true
    one_holds true b h = refl
    one_holds false true h = refl
    one_holds false false h = cc

InOrder-sym : (m : Map (List String)) (a b : String) → InOrder m a b → InOrder m b a
InOrder-sym m a b h = ground (arith, h)

check_pairs-InOrder :
    (m : Map (List String)) (key : String) (ids : List String)
    → Accepts
        (λ checked.
          (a b : String) → str_eq a b ≡ false → has a ids ≡ true → has b ids ≡ true → InOrder m a b)
        (check_pairs m key ids)
unfolding check_pairs
check_pairs-InOrder m key [] = Accepts-accept _ _ tt λ a b d h h'. cc
check_pairs-InOrder m key (id ∷ ids) =
    Accepts-and_then _ _ (check_right m key id ids) _ (check_right-InOrder m key id ids)
      λ done right.
        Accepts-imp _ _ (check_pairs m key ids) (check_pairs-InOrder m key ids)
          λ checked later a b d h h'. elim (or_cases (str_eq id a) (has a ids) h) [
            | inl first ↦
                subst (λ n. InOrder m n b) (str_eq→eq id a first)
                  (right b (ground (arith, d, h', first, eq_iff id a, eq_iff id b, eq_iff a b)))
            | inr in_rest ↦ elim (or_cases (str_eq id b) (has b ids) h') [
              | inl second ↦
                  InOrder-sym m b a
                    (subst (λ n. InOrder m n a) (str_eq→eq id b second) (right a in_rest))
              | inr also ↦ later a b d in_rest also
            ]
          ]

pub check_keys-InOrder :
    (m writers : Map (List String)) (ks : List String)
    → Accepts
        (λ checked.
          (key a b : String)
          → has key ks ≡ true
          → str_eq a b ≡ false
          → has a (names_at writers key) ≡ true
          → has b (names_at writers key) ≡ true
          → InOrder m a b)
        (check_keys m writers ks)
unfolding check_keys
check_keys-InOrder m writers [] = Accepts-accept _ _ tt λ key a b k d h h'. cc
check_keys-InOrder m writers (k ∷ ks) =
    Accepts-and_then _ _ (check_pairs m k (names_at writers k)) _
      (check_pairs-InOrder m k (names_at writers k))
      λ done pairs.
        Accepts-imp _ _ (check_keys m writers ks) (check_keys-InOrder m writers ks)
          λ checked later key a b here d h h'. elim (or_cases (str_eq k key) (has key ks) here) [
            | inl same ↦
                let e = str_eq→eq k key same in
                pairs a b d (ap (λ n. has a (names_at writers n)) e ∙ h)
                  (ap (λ n. has b (names_at writers n)) e ∙ h')
            | inr rest ↦ later key a b rest d h h'
          ]

-- A writer is entered under each of its keys, and stays.
add_writer-has :
    (id a key : String) (ks : List String) (writers : Map (List String))
    → has a (names_at (add_writer id ks writers) key)
      ≡ (has a (names_at writers key) || (str_eq id a && has key ks))
unfolding add_writer if◌then◌else◌
add_writer-has id a key [] writers = ground arith
add_writer-has id a key (k ∷ ks) writers = ground (
  arith,
  add_writer-has id a key ks (insert k (names_at writers k ++ id ∷ []) writers),
  names_at-insert k key (names_at writers k ++ id ∷ []) writers,
  has-append a (names_at writers k) (id ∷ []),
  eq_iff k key,
)

pub add_writers-has :
    (nodes : Map CompiledNode) (order : List String) (a key : String) (writers : Map (List String))
    → ((has a order && has key (writes_of nodes a)) || has a (names_at writers key)) ≡ true
    → has a (names_at (add_writers nodes order writers) key) ≡ true
unfolding add_writers
add_writers-has nodes [] a key writers h = h
add_writers-has nodes (id ∷ order) a key writers h =
    add_writers-has nodes order a key (add_writer id (writes_of nodes id) writers)
      (ground (arith, h, add_writer-has id a key (writes_of nodes id) writers, eq_iff id a))

-- A key under which a name stands is a key of the map.
pub names_at-keys :
    (a k : String) (m : Map (List String)) → has a (names_at m k) ≡ true → has k (keys m) ≡ true
names_at-keys a k m h = elim (Bool-cases (has k (keys m))) [
  | inl there ↦ there
  | inr absent ↦ ground (arith, ap (λ l. has a l) (names_at-absent k m absent), h)
]
