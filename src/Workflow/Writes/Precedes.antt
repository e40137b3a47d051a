-- ===== src/Workflow/Writes/Precedes.antt =====
-- internal/workflow/definition.go: what `validateContextWriteOrdering` promises of the runs.
use remote_code.Prelude.{
  ◌≡◌, ◌⊎◌, refl, sym, subst, ◌∙◌, Bool, true, false, String, List, [], ◌∷◌, ◌&&◌, ◌||◌,
  if◌then◌else◌, Map, lookup, insert, keys, str_eq, str_eq→eq, eq_iff, has, has-append, has_first,
  has-sort_strings, or_cases, or_right, Bool-cases, inl, inr, arith, Accepts-at, accept,
  sort_strings,
}
use remote_code.Workflow.Model.{JoinPolicy, join_all, join_any}
use remote_code.Workflow.Definition.{CompiledNode}
use remote_code.Workflow.Graph.{names_at}
use remote_code.Workflow.Graph.Scans.{names_at-insert}
use remote_code.Workflow.Writes.{
  predecessor_closure, keep_common, common_closure, all_closures, before_node, join_of, writes_of,
  must_precede_from, must_precede, add_writers, check_keys, check_writers,
  validate_context_write_ordering,
}
use remote_code.Workflow.Writes.Pairs.{check_keys-InOrder, add_writers-has, names_at-keys}

-- A node may start when all its sources have ended, or one of them, by its join policy.
abbrev pub MayStart : JoinPolicy → List String → List String → Type 0
MayStart join_all sources ended = (u : String) → has u sources ≡ true → has u ended ≡ true
MayStart join_any [] ended = Unit
MayStart join_any (source ∷ sources) ended =
    (u : String) × (has u (source ∷ sources) ≡ true) × (has u ended ≡ true)

module _ (nodes : Map CompiledNode) (incoming : Map (List String)) where
  -- The nodes of a run in the order in which they have ended, the latest first.
  abbrev pub IsHistory : List String → Type 0
  IsHistory [] = Unit
  IsHistory (v ∷ ended) = MayStart (join_of nodes v) (names_at incoming v) ended × IsHistory ended

  -- In every history one node has ended when the other one starts.
  abbrev pub AlwaysBefore : String → String → Type 0
  AlwaysBefore a b = (ended : List String) → IsHistory (b ∷ ended) → has a ended ≡ true

  abbrev IsTrue : Map (List String) → Type 0
  IsTrue m = (a b : String) → has a (names_at m b) ≡ true → AlwaysBefore a b

  -- What precedes a node that has ended, has ended.
  closure-ended :
      (m : Map (List String)) (a u : String) (ended : List String)
      → IsTrue m
      → has a (predecessor_closure u m) ≡ true
      → IsHistory ended
      → has u ended ≡ true
      → has a ended ≡ true
  unfolding predecessor_closure
  closure-ended m a u [] t h history there = there
  closure-ended m a u (v ∷ ended) t h history there = elim (Bool-cases (str_eq v u)) [
    | inl same ↦ elim (or_cases (str_eq u a) (has a (names_at m u)) h) [
      | inl equal ↦ ground (arith, same, equal, eq_iff v u, eq_iff u a, eq_iff v a)
      | inr before ↦
          or_right (str_eq v a) (has a ended)
            (t a u before ended (subst (λ n. IsHistory (n ∷ ended)) (str_eq→eq v u same) history))
    ]
    | inr other ↦
        or_right (str_eq v a) (has a ended)
          (closure-ended m a u ended t h history.1 (ground (arith, there, other)))
  ]

keep_common-has :
    (x : String) (xs candidate : List String)
    → has x (keep_common xs candidate) ≡ (has x xs && has x candidate)
unfolding keep_common if◌then◌else◌
keep_common-has x [] candidate = refl
keep_common-has x (y ∷ xs) candidate = ground (arith, keep_common-has x xs candidate, eq_iff y x)

common_closure-has :
    (x u : String) (before sources : List String) (m : Map (List String))
    → has x (common_closure before sources m) ≡ true
    → (has x before ≡ true) × (has u sources ≡ true → has x (predecessor_closure u m) ≡ true)
unfolding common_closure
common_closure-has x u before [] m h = (h, λ e. cc)
common_closure-has x u before (s ∷ sources) m h = ground (
  arith,
  common_closure-has x u (keep_common before (predecessor_closure s m)) sources m,
  keep_common-has x before (predecessor_closure s m),
  eq_iff s u,
)

-- Some source's closure has the name.
all_closures-has :
    (x : String) (sources : List String) (m : Map (List String))
    → has x (all_closures sources m) ≡ true
    → (u : String) × (has u sources ≡ true) × (has x (predecessor_closure u m) ≡ true)
unfolding all_closures
all_closures-has x [] m h = cc
all_closures-has x (s ∷ sources) m h =
    elim (or_cases (has x (predecessor_closure s m)) (has x (all_closures sources m))
      (sym (has-append x (predecessor_closure s m) (all_closures sources m)) ∙ h)) [
        | inl here ↦ (s, has_first s sources, here)
        | inr later ↦
            let r = all_closures-has x sources m later in
            (r.0, or_right (str_eq s r.0) (has r.0 sources) r.1, r.2)
      ]

module _ (nodes : Map CompiledNode) (incoming : Map (List String)) where
  before_node-ended :
      (join : JoinPolicy) (sources : List String) (m : Map (List String)) (a : String)
      (ended : List String)
      → IsTrue nodes incoming m
      → has a (before_node join sources m) ≡ true
      → MayStart join sources ended
      → IsHistory nodes incoming ended
      → has a ended ≡ true
  unfolding before_node
  before_node-ended join_any [] m a ended t h start history = cc
  before_node-ended join_any (s ∷ sources) m a ended t h start history =
      let r = common_closure-has a start.0 (predecessor_closure s m) sources m h in
      closure-ended nodes incoming m a start.0 ended t
        (of_source (str_eq s start.0) (has start.0 sources) start.1
          (λ e. subst (λ n. has a (predecessor_closure n m) ≡ true) (str_eq→eq s start.0 e) r.0)
          r.1)
        history start.2
    where
      of_source : {P : Type 0} (b c : Bool) → (b || c) ≡ true → (b ≡ true → P) → (c ≡ true → P) → P
      of_source true c h f k = f refl
      of_source false c h f k = k h
  before_node-ended join_all sources m a ended t h start history =
      let r = all_closures-has a sources m h in
      closure-ended nodes incoming m a r.0 ended t r.2 history (start r.0 r.1)

  must_precede_from-IsTrue :
      (order : List String) (m : Map (List String))
      → IsTrue nodes incoming m
      → IsTrue nodes incoming (must_precede_from nodes incoming order m)
  unfolding must_precede_from if◌then◌else◌
  must_precede_from-IsTrue [] m t = t
  must_precede_from-IsTrue (id ∷ order) m t =
      let before = before_node (join_of nodes id) (names_at incoming id) m in
      must_precede_from-IsTrue order (insert id before m) λ a b h ended history.
        elim (Bool-cases (str_eq id b)) [
          | inl same ↦
              let now =
                subst (λ n. IsHistory nodes incoming (n ∷ ended)) (sym (str_eq→eq id b same))
                  history in
              before_node-ended (join_of nodes id) (names_at incoming id) m a ended t
                (ground (arith, h, names_at-insert id b before m, same)) now.0 now.1
          | inr other ↦
              t a b (ground (arith, h, names_at-insert id b before m, other)) ended history
        ]

-- Of two nodes that write one key of the context, the same one has ended in every run when the other
-- one starts, whichever routes are taken.
pub validate_context_write_ordering-AlwaysBefore :
    (nodes : Map CompiledNode) (incoming : Map (List String)) (order : List String)
    (key a b : String)
    → validate_context_write_ordering nodes incoming order ≡ accept tt
    → str_eq a b ≡ false
    → has a order ≡ true
    → has b order ≡ true
    → has key (writes_of nodes a) ≡ true
    → has key (writes_of nodes b) ≡ true
    → AlwaysBefore nodes incoming a b ⊎ AlwaysBefore nodes incoming b a
unfolding validate_context_write_ordering check_writers must_precede lookup
validate_context_write_ordering-AlwaysBefore nodes incoming order key a b e d ha hb wa wb =
    let writers = add_writers nodes order [] in
    let m = must_precede nodes incoming order in
    let true_m = must_precede_from-IsTrue nodes incoming order [] (λ x y h ended history. cc) in
    let in_a = add_writers-has nodes order a key [] (ground (arith, ha, wa)) in
    let in_b = add_writers-has nodes order b key [] (ground (arith, hb, wb)) in
    let there = has-sort_strings key (keys writers) ∙ names_at-keys a key writers in_a in
    let ordered =
      Accepts-at _ (check_keys m writers (sort_strings (keys writers))) tt
        (check_keys-InOrder m writers (sort_strings (keys writers))) e key a b there d in_a in_b in
    elim (or_cases (has a (names_at m b)) (has b (names_at m a)) ordered) [
      | inl first ↦ inl (true_m a b first)
      | inr second ↦ inr (true_m b a second)
    ]
