-- ===== src/Workflow/Graph/Complete.antt =====
-- internal/workflow/definition.go: `compileGraph` reports a cycle only where there is one, and its loop
-- ends.
use remote_code.Prelude.{
  ℕ, zero, suc, ◌<◌, ◌==◌, ==_iff, ◌≡◌, ◌≢◌, refl, sym, ap, ◌∙◌, true, not, String, List, [], ◌∷◌,
  if◌then◌else◌, length, Map, keys, has, IsDistinct, distinct-length, not-false, arith, reject,
  ◌and_then◌, Accepts-at, Rejects, Rejects-accept, Rejects-reject_if, Rejects-and_then, Rejects-at,
  Rejects-imp, not_below_zero, eq_iff, str_eq_refl, occurrences_absent, lookup,
}
use remote_code.Workflow.Definition.{CompiledNode}
use remote_code.Workflow.Graph.{
  GraphError, cyclic_or_unreachable, out_of_fuel, names_at, count_at, Edges, Sorting, finish_graph,
  sort_graph, scan_targets, scan_routes, scan_nodes, no_edges, check_degrees, compile_graph,
}
use remote_code.Workflow.Graph.Waits.{waits, names_at-head, names_at-absent}
use remote_code.Workflow.Graph.Scans.{Collects, has_edge, scanned-Collects}
use remote_code.Workflow.Graph.Sorts.{IsSorting, sort_nodes-IsSorting}
use remote_code.Workflow.Graph.Orders.{
  start, start-IsSorting, OnlyEntry, check_degrees-OnlyEntry, Sorted-IsDistinct, length-keys,
}

-- The errors of the loops over the edges are others than those of the loop over the queue.
abbrev OfEdges : GraphError → Type 0
OfEdges e = (e ≢ cyclic_or_unreachable) × (e ≢ out_of_fuel)

scan_targets-OfEdges :
    (nodes : Map CompiledNode) (source route : String) (targets within earlier : List String)
    (g : Edges)
    → Rejects OfEdges (scan_targets nodes source route targets within earlier g)
unfolding scan_targets
scan_targets-OfEdges nodes source route [] within earlier g = Rejects-accept _ _ (earlier, g)
scan_targets-OfEdges nodes source route (t ∷ ts) within earlier g =
    Rejects-reject_if OfEdges _ _ _ (λ h. (λ e. cc, λ e. cc))
      λ h.
        Rejects-reject_if OfEdges _ _ _ (λ h. (λ e. cc, λ e. cc))
          λ h.
            Rejects-reject_if OfEdges _ _ _ (λ h. (λ e. cc, λ e. cc))
              λ h.
                Rejects-reject_if OfEdges _ _ _ (λ h. (λ e. cc, λ e. cc))
                  λ h. scan_targets-OfEdges nodes source route ts (t ∷ within) (t ∷ earlier) _

scan_routes-OfEdges :
    (nodes : Map CompiledNode) (source : String) (routes : Map (List String))
    (earlier : List String) (g : Edges)
    → Rejects OfEdges (scan_routes nodes source routes earlier g)
unfolding scan_routes
scan_routes-OfEdges nodes source [] earlier g = Rejects-accept _ _ g
scan_routes-OfEdges nodes source ((route, targets) ∷ routes) earlier g =
    Rejects-reject_if OfEdges _ _ _ (λ h. (λ e. cc, λ e. cc))
      λ h.
        Rejects-reject_if OfEdges _ _ _ (λ h. (λ e. cc, λ e. cc))
          λ h.
            Rejects-and_then OfEdges _ _
              (scan_targets-OfEdges nodes source route targets [] earlier g)
              λ r e. scan_routes-OfEdges nodes source routes r.0 r.1

scan_nodes-OfEdges :
    (nodes rest : Map CompiledNode) (g : Edges) → Rejects OfEdges (scan_nodes nodes rest g)
unfolding scan_nodes
scan_nodes-OfEdges nodes [] g = Rejects-accept _ _ g
scan_nodes-OfEdges nodes ((source, node) ∷ rest) g =
    Rejects-and_then OfEdges _ _ (scan_routes-OfEdges nodes source node.node_definition.routes [] g)
      λ g' e. scan_nodes-OfEdges nodes rest g'

check_degrees-OfEdges : (entry : String) (m : Map ℕ) → Rejects OfEdges (check_degrees entry m)
unfolding check_degrees
check_degrees-OfEdges entry [] = Rejects-accept _ _ tt
check_degrees-OfEdges entry ((id, degree) ∷ m) =
    Rejects-reject_if OfEdges _ _ _ (λ h. (λ e. cc, λ e. cc)) λ h. check_degrees-OfEdges entry m

-- A node waits for nothing where every source of it is visited.
waits_visited :
    (m : Map (List String)) (visited : List String) (v : String)
    → IsDistinct (keys m)
    → ((u : String) → has v (names_at m u) ≡ true → has u visited ≡ true)
    → waits m visited v ≡ 0
unfolding waits lookup if◌then◌else◌
waits_visited [] visited v d h = refl
waits_visited ((u, ts) ∷ m) visited v d h =
    let later = waits_visited m visited v d.1 λ w e.
      h w (ground (arith, e, d.0, names_at-head u w ts m, names_at-absent w m, eq_iff u w)) in
    ground (arith, later, h u, names_at-head u u ts m, str_eq_refl u, occurrences_absent v ts)

has_edge_source :
    (nodes : Map CompiledNode) (u v : String)
    → has_edge nodes u v ≡ true
    → has u (keys nodes) ≡ true
has_edge_source [] u v h = h
has_edge_source ((source, node) ∷ nodes) u v h = ground (arith, has_edge_source nodes u v)

-- A number for each node that grows along every route.
abbrev pub Ranks : Map CompiledNode → (String → ℕ) → Type 0
Ranks nodes rank = (u v : String) → has_edge nodes u v ≡ true → rank u < rank v

module _ (nodes : Map CompiledNode) (rank : String → ℕ) (ranked : Ranks nodes rank) (g : Edges)
    (c : Collects nodes (has_edge nodes) g) (s : Sorting)
    (h : IsSorting g.adjacency (keys nodes) c.distinct c.to_nodes s) (empty : s.queue ≡ []) where
  all_visited :
      (k : ℕ) (v : String) → rank v < k → has v (keys nodes) ≡ true → has v s.visited ≡ true
  all_visited zero v l there = not_below_zero l
  all_visited (suc k) v l there =
      let none_left = waits_visited g.adjacency s.visited v c.distinct λ u e.
        let edge = sym (c.adjacent u v) ∙ e in
        all_visited k u (omega (arith, ranked u v edge, l)) (has_edge_source nodes u v edge) in
      ground (arith, h.ready v there none_left, ap (λ q. has v q) empty)

  finish_graph_accepts : IsDistinct (keys nodes) → Rejects (λ e. ⊥) (finish_graph nodes g s)
  unfolding finish_graph
  finish_graph_accepts d =
      Rejects-reject_if (λ e. ⊥) _ _ _
        (λ bad. not_equal (length s.visited) (length nodes) bad (
          omega (
            arith,
            length-keys nodes,
            distinct-length s.visited (keys nodes)
                (Sorted-IsDistinct g.adjacency s.visited h.sorted) h.reached,
            distinct-length (keys nodes) s.visited d
                (λ v there. all_visited (suc (rank v)) v (omega arith) there),
          )))
        λ good. Rejects-accept _ _ _
    where
      not_equal : (a b : ℕ) → not (a == b) ≡ true → a ≡ b → ⊥
      not_equal a b bad e = ground arith

module _ (entry : String) (nodes : Map CompiledNode) (there : has entry (keys nodes) ≡ true)
    (g : Edges) (c : Collects nodes (has_edge nodes) g) where
  -- What the loop over the queue leads to.
  sort_graph-Rejects :
      (Q : GraphError → Type 0)
      → ((e : GraphError) → OfEdges e → Q e)
      → ((s : Sorting)
          → IsSorting g.adjacency (keys nodes) c.distinct c.to_nodes s
          → s.queue ≡ []
          → Rejects Q (finish_graph nodes g s))
      → Rejects Q (sort_graph entry nodes g)
  unfolding sort_graph start ◌and_then◌
  sort_graph-Rejects Q q k =
      Rejects-reject_if Q _ _ _ (λ bad. q _ (λ e. cc, λ e. cc))
        λ zero_entry.
          Rejects-and_then Q (check_degrees entry g.indegree) _
            (Rejects-imp OfEdges Q _ (check_degrees-OfEdges entry g.indegree) q)
            λ checked e.
              let only =
                Accepts-at (λ done. OnlyEntry entry g.indegree) (check_degrees entry g.indegree)
                  checked (check_degrees-OnlyEntry entry g.indegree) e in
              let z =
                (==_iff (count_at g.indegree entry) 0).0
                  (not-false (count_at g.indegree entry == 0) zero_entry) in
              let sorted =
                sort_nodes-IsSorting g.adjacency (keys nodes) c.distinct c.to_nodes
                  (suc (suc g.edge_count)) (start entry nodes there g c)
                  (start-IsSorting entry nodes there g c z only) (omega (arith, c.total)) in
              rw sorted.1 (k sorted.0 sorted.2 sorted.3)

-- Where the routes have no cycle, neither a cycle nor an unreachable node is reported.
pub compile_graph_acyclic :
    (entry : String) (nodes : Map CompiledNode) (rank : String → ℕ)
    → has entry (keys nodes) ≡ true
    → IsDistinct (keys nodes)
    → Ranks nodes rank
    → compile_graph entry nodes ≢ reject cyclic_or_unreachable
unfolding compile_graph
compile_graph_acyclic entry nodes rank there distinct ranked e =
    Rejects-at (λ x. x ≢ cyclic_or_unreachable) (compile_graph entry nodes) cyclic_or_unreachable
      (Rejects-and_then (λ x. x ≢ cyclic_or_unreachable) (scan_nodes nodes nodes (no_edges nodes)) _
        (Rejects-imp OfEdges (λ x. x ≢ cyclic_or_unreachable) _
          (scan_nodes-OfEdges nodes nodes (no_edges nodes)) λ x h. h.0)
        λ g e'.
          let c =
            Accepts-at (Collects nodes (has_edge nodes)) (scan_nodes nodes nodes (no_edges nodes)) g
              (scanned-Collects nodes) e' in
          sort_graph-Rejects entry nodes there g c (λ x. x ≢ cyclic_or_unreachable) (λ x h. h.0)
            λ s h empty.
              Rejects-imp (λ x. ⊥) (λ x. x ≢ cyclic_or_unreachable) _
                (finish_graph_accepts nodes rank ranked g c s h empty distinct) λ x bad. absurd bad)
      e refl

-- The loop over the queue ends.
pub compile_graph-terminates :
    (entry : String) (nodes : Map CompiledNode)
    → has entry (keys nodes) ≡ true
    → compile_graph entry nodes ≢ reject out_of_fuel
unfolding compile_graph finish_graph
compile_graph-terminates entry nodes there e =
    Rejects-at (λ x. x ≢ out_of_fuel) (compile_graph entry nodes) out_of_fuel
      (Rejects-and_then (λ x. x ≢ out_of_fuel) (scan_nodes nodes nodes (no_edges nodes)) _
        (Rejects-imp OfEdges (λ x. x ≢ out_of_fuel) _
          (scan_nodes-OfEdges nodes nodes (no_edges nodes)) λ x h. h.1)
        λ g e'.
          let c =
            Accepts-at (Collects nodes (has_edge nodes)) (scan_nodes nodes nodes (no_edges nodes)) g
              (scanned-Collects nodes) e' in
          sort_graph-Rejects entry nodes there g c (λ x. x ≢ out_of_fuel) (λ x h. h.1)
            λ s h empty.
              Rejects-reject_if (λ x. x ≢ out_of_fuel) _ _ _ (λ bad p. cc)
                λ good. Rejects-accept _ _ _)
      e refl
