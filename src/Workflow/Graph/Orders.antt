-- ===== src/Workflow/Graph/Orders.antt =====
-- internal/workflow/definition.go: the order and the sources that `compileGraph` gives.
use mathlib.Core.List.{reverse, reverse-append, append_assoc}
use remote_code.Prelude.{
  ℕ, suc, ◌==◌, ==_iff, ◌≡◌, refl, sym, ap, subst, ◌∙◌, Bool, true, false, String, List, [], ◌∷◌,
  ◌++◌, ◌||◌, if◌then◌else◌, length, Map, lookup, keys, str_eq, eq_iff, has, has-append,
  has-sort_strings, IsDistinct, distinct-Within, or_cases, or_false, not-false, str_eq→eq,
  Bool-cases, inl, inr, arith, sort_strings, accept, ◌and_then◌, Accepts, Accepts-accept,
  Accepts-reject_if, Accepts-and_then, Accepts-at, Accepts-imp,
}
use remote_code.Workflow.Definition.{CompiledNode}
use remote_code.Workflow.Graph.{
  names_at, count_at, Edges, Sorting, CompiledGraph, sort_values, finish_graph, sort_graph,
  scan_nodes, no_edges, check_degrees, compile_graph,
}
use remote_code.Workflow.Graph.Waits.{waits, waits_none, names_at-head}
use remote_code.Workflow.Graph.Scans.{Collects, has_edge, scanned-Collects}
use remote_code.Workflow.Graph.Sorts.{Sorted, IsSorting, sort_nodes-IsSorting}

has-reverse : (x : String) (xs : List String) → has x (reverse xs) ≡ has x xs
has-reverse x [] = refl
has-reverse x (y ∷ xs) =
    ap (λ l. has x l) (reverse-append (y ∷ []) xs)
    ∙ has-append x (reverse xs) (y ∷ [])
    ∙ ground (arith, has-reverse x xs)

IsDistinct-last :
    (x : String) (xs : List String) → IsDistinct xs → has x xs ≡ false → IsDistinct (xs ++ x ∷ [])
IsDistinct-last x [] d h = (refl, tt)
IsDistinct-last x (y ∷ xs) d h = (
  ground (arith, has-append y xs (x ∷ []), eq_iff x y, eq_iff y x),
  IsDistinct-last x xs d.1 (or_false (str_eq y x) (has x xs) h).1,
)

-- Somewhere before an occurrence of the later name stands the earlier one.
pub record Precedes (earlier later : String) (names : List String) : Type 0 where
  pub before : List String
  pub after : List String
  pub split_is : names ≡ before ++ (later ∷ after)
  pub stands : has earlier before ≡ true

module _ (m : Map (List String)) where
  pub Sorted-IsDistinct : (vs : List String) → Sorted m vs → IsDistinct vs
  Sorted-IsDistinct [] h = tt
  Sorted-IsDistinct (v ∷ vs) h = (h.0, Sorted-IsDistinct vs h.2)

  Sorted-Precedes :
      (vs : List String) (u v : String)
      → Sorted m vs
      → has v vs ≡ true
      → has v (names_at m u) ≡ true
      → Precedes u v (reverse vs)
  Sorted-Precedes [] u v h there edge = cc
  Sorted-Precedes (w ∷ vs) u v h there edge = elim (Bool-cases (str_eq w v)) [
    | inl same ↦
        let e = str_eq→eq w v same in
        record {
          before = reverse vs;
          after = [];
          split_is = reverse-append (w ∷ []) vs ∙ ap (λ n. reverse vs ++ n ∷ []) e;
          stands =
              has-reverse u vs ∙ waits_none m vs u v (ap (λ n. waits m vs n) (sym e) ∙ h.1) edge;
        }
    | inr other ↦
        let there' = elim (or_cases (str_eq w v) (has v vs) there) as (λ x. has v vs ≡ true) [
          | inl same ↦ cc
          | inr old ↦ old
        ] in
        let r = Sorted-Precedes vs u v h.2 there' edge in
        record {
          before = r.before;
          after = r.after ++ w ∷ [];
          split_is =
              reverse-append (w ∷ []) vs
              ∙ ap (λ l. l ++ w ∷ []) r.split_is
              ∙ append_assoc r.before (v ∷ r.after) (w ∷ []);
          stands = r.stands;
        }
  ]

reverse-IsDistinct : (vs : List String) → IsDistinct vs → IsDistinct (reverse vs)
reverse-IsDistinct [] d = tt
reverse-IsDistinct (v ∷ vs) d =
    subst IsDistinct (sym (reverse-append (v ∷ []) vs))
      (IsDistinct-last v (reverse vs) (reverse-IsDistinct vs d.1) (has-reverse v vs ∙ d.0))

names_at-sort_values :
    (u v : String) (m : Map (List String))
    → has u (names_at (sort_values m) v) ≡ has u (names_at m v)
unfolding sort_values lookup if◌then◌else◌
names_at-sort_values u v [] = refl
names_at-sort_values u v ((k, ns) ∷ m) = ground (
  arith,
  names_at-head k v (sort_strings ns) (sort_values m),
  names_at-head k v ns m,
  has-sort_strings u ns,
  names_at-sort_values u v m,
)

pub length-keys : {A : Type 0} (m : Map A) → length (keys m) ≡ length m
length-keys [] = refl
length-keys ((k, a) ∷ m) = ap suc (length-keys m)

-- Each node once, after its sources; and the sources of each node.
pub record IsOrdered (nodes : Map CompiledNode) (c : CompiledGraph) : Type 0 where
  pub each_once : IsDistinct c.graph_order
  pub of_nodes : (v : String) → has v c.graph_order ≡ has v (keys nodes)
  pub after_sources : (u v : String) → has_edge nodes u v ≡ true → Precedes u v c.graph_order
  pub sources_of : (u v : String) → has u (names_at c.graph_incoming v) ≡ has_edge nodes u v

-- Only the entry has no edge into it.
abbrev pub OnlyEntry : String → Map ℕ → Type 0
OnlyEntry entry m = (v : String) → has v (keys m) ≡ true → count_at m v ≡ 0 → str_eq v entry ≡ true

pub check_degrees-OnlyEntry :
    (entry : String) (m : Map ℕ) → Accepts (λ checked. OnlyEntry entry m) (check_degrees entry m)
unfolding check_degrees lookup if◌then◌else◌
check_degrees-OnlyEntry entry [] = Accepts-accept _ _ tt (λ v h z. cc)
check_degrees-OnlyEntry entry ((id, degree) ∷ m) =
    Accepts-reject_if (λ checked. OnlyEntry entry ((id, degree) ∷ m)) _ _ _
      λ fine.
        Accepts-imp _ _ (check_degrees entry m) (check_degrees-OnlyEntry entry m)
          λ checked later v h z. elim (Bool-cases (str_eq id v)) [
            | inl same ↦ ground (arith, fine, z, same, eq_iff id v, eq_iff id entry, eq_iff v entry)
            | inr other ↦ ground (arith, later v, h, z, other)
          ]

module _ (entry : String) (nodes : Map CompiledNode) (there : has entry (keys nodes) ≡ true)
    (g : Edges) (c : Collects nodes (has_edge nodes) g) where
  finish_graph-IsOrdered :
      (s : Sorting)
      → IsSorting g.adjacency (keys nodes) c.distinct c.to_nodes s
      → Accepts (IsOrdered nodes) (finish_graph nodes g s)
  unfolding finish_graph
  finish_graph-IsOrdered s h = Accepts-reject_if (IsOrdered nodes) _ _ _ λ counted.
      Accepts-accept _ (IsOrdered nodes) _ (
        let distinct = Sorted-IsDistinct g.adjacency s.visited h.sorted in
        let all = distinct-Within s.visited (keys nodes) distinct h.reached (
          omega (
            arith,
            length-keys nodes,
            (==_iff (length s.visited) (length nodes)).0
                (not-false (length s.visited == length nodes) counted),
          )) in
        let in_order = λ (v : String). ap (λ l. has v l) h.listed ∙ has-reverse v s.visited in
        record {
          each_once = subst IsDistinct (sym h.listed) (reverse-IsDistinct s.visited distinct);
          of_nodes = λ v.
              in_order v ∙ both_ways (has v s.visited) (has v (keys nodes)) (h.reached v) (all v);
          after_sources = λ u v edge.
              let near = c.adjacent u v ∙ edge in
              subst (Precedes u v) (sym h.listed) (
                Sorted-Precedes g.adjacency s.visited u v h.sorted (all v (c.to_nodes u v near))
                  near);
          sources_of = λ u v. names_at-sort_values u v g.sources ∙ c.mirrored u v;
        })
    where
      both_ways : (a b : Bool) → (a ≡ true → b ≡ true) → (b ≡ true → a ≡ true) → a ≡ b
      both_ways true b f k = sym (f refl)
      both_ways false true f k = k refl
      both_ways false false f k = refl

  unfoldable pub start : Sorting
  start = record { queue = entry ∷ []; visited = []; ordered = []; degrees = g.indegree }

  pub start-IsSorting :
      count_at g.indegree entry ≡ 0
      → OnlyEntry entry g.indegree
      → IsSorting g.adjacency (keys nodes) c.distinct c.to_nodes start
  unfolding start
  start-IsSorting zero_entry only =
      let same = λ (v : String) (q : has v (entry ∷ []) ≡ true).
        str_eq→eq entry v (only_name (str_eq entry v) q) in
      record {
        counted = c.counted;
        idle = λ v q.
            sym (c.counted v) ∙ ap (λ n. count_at g.indegree n) (sym (same v q)) ∙ zero_entry;
        sorted = tt;
        listed = refl;
        queued = λ v q. ap (λ n. has n (keys nodes)) (sym (same v q)) ∙ there;
        reached = λ v q. cc;
        ready = λ v q z.
            ground (arith, only v (c.covers v q) (c.counted v ∙ z), eq_iff v entry, eq_iff entry v);
      }
    where
      only_name : (b : Bool) → (b || false) ≡ true → b ≡ true
      only_name true q = refl
      only_name false q = q

  sort_graph-IsOrdered : Accepts (IsOrdered nodes) (sort_graph entry nodes g)
  unfolding sort_graph start finish_graph ◌and_then◌
  sort_graph-IsOrdered = Accepts-reject_if (IsOrdered nodes) _ _ _ λ zero_entry.
      Accepts-and_then _ (IsOrdered nodes) (check_degrees entry g.indegree) _
        (check_degrees-OnlyEntry entry g.indegree)
        λ checked only.
          let z =
            (==_iff (count_at g.indegree entry) 0).0
              (not-false (count_at g.indegree entry == 0) zero_entry) in
          let sorted =
            sort_nodes-IsSorting g.adjacency (keys nodes) c.distinct c.to_nodes
              (suc (suc g.edge_count)) start (start-IsSorting z only) (omega (arith, c.total)) in
          rw sorted.1 (finish_graph-IsOrdered sorted.0 sorted.2)

-- The order of a graph that is accepted has each node once, and behind all nodes with a route to it;
-- the sources that are collected for a node are the nodes with a route to it.
pub compile_graph-IsOrdered :
    (entry : String) (nodes : Map CompiledNode) (c : CompiledGraph)
    → has entry (keys nodes) ≡ true
    → compile_graph entry nodes ≡ accept c
    → IsOrdered nodes c
unfolding compile_graph
compile_graph-IsOrdered entry nodes c there e =
    Accepts-at (IsOrdered nodes) (compile_graph entry nodes) c
      (Accepts-and_then _ (IsOrdered nodes) (scan_nodes nodes nodes (no_edges nodes)) _
        (scanned-Collects nodes) λ g h. sort_graph-IsOrdered entry nodes there g h)
      e
