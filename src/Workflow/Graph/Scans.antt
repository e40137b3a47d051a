-- ===== src/Workflow/Graph/Scans.antt =====
-- internal/workflow/definition.go: what the loops over the edges of `compileGraph` collect.
use remote_code.Prelude.{
  suc, ◌≡◌, refl, ap, ◌∙◌, Bool, true, false, String, List, [], ◌∷◌, ◌++◌, ◌&&◌, ◌||◌,
  if◌then◌else◌, Map, lookup, insert, lookup-insert, keys, str_eq, eq_iff, has, has-append,
  IsDistinct, IsDistinct-keys-insert, has-keys-insert, lookup-has, arith, not-false, Accepts,
  Accepts-accept, Accepts-reject_if, Accepts-and_then, Accepts-imp,
}
use remote_code.Workflow.Definition.{CompiledNode}
use remote_code.Workflow.Graph.{
  names_at, count_at, is_node, Edges, zero_degrees, add_edge, scan_targets, scan_routes, scan_nodes,
  no_edges,
}
use remote_code.Workflow.Graph.Waits.{waits, pending_edges, waits-add, pending_edges-add}
use remote_code.Workflow.Graph.Sorts.{count_at-insert}

pub names_at-insert :
    (k j : String) (ns : List String) (m : Map (List String))
    → names_at (insert k ns m) j ≡ (if str_eq k j then ns else names_at m j)
unfolding if◌then◌else◌
names_at-insert k j ns m = ground (arith, lookup-insert k j ns m, eq_iff k j)

-- A target of some route.
abbrev pub route_has : Map (List String) → String → Bool
route_has [] v = false
route_has ((route, targets) ∷ routes) v = has v targets || route_has routes v

-- A node of this name has a route to the target.
abbrev pub has_edge : Map CompiledNode → String → String → Bool
has_edge [] u v = false
has_edge ((source, node) ∷ nodes) u v =
    str_eq source u && route_has node.node_definition.routes v || has_edge nodes u v

zero_degrees_at : (m : Map CompiledNode) (v : String) → count_at (zero_degrees m) v ≡ 0
unfolding zero_degrees lookup if◌then◌else◌
zero_degrees_at [] v = refl
zero_degrees_at ((id, node) ∷ m) v =
    ground (arith, count_at-insert id v 0 (zero_degrees m), zero_degrees_at m v)

zero_degrees-has :
    (m : Map CompiledNode) (v : String)
    → has v (keys m) ≡ true
    → has v (keys (zero_degrees m)) ≡ true
unfolding zero_degrees
zero_degrees-has [] v h = h
zero_degrees-has ((id, node) ∷ m) v h =
    ground (arith, has-keys-insert v id 0 (zero_degrees m), zero_degrees-has m v)

module _ (nodes : Map CompiledNode) where
  -- `edge` are the edges that were read so far.
  pub record Collects (edge : String → String → Bool) (g : Edges) : Type 0 where
    pub counted : (v : String) → count_at g.indegree v ≡ waits g.adjacency [] v
    pub distinct : IsDistinct (keys g.adjacency)
    pub total : pending_edges g.adjacency [] ≡ g.edge_count
    pub to_nodes :
        (u v : String) → has v (names_at g.adjacency u) ≡ true → has v (keys nodes) ≡ true
    pub adjacent : (u v : String) → has v (names_at g.adjacency u) ≡ edge u v
    pub covers : (v : String) → has v (keys nodes) ≡ true → has v (keys g.indegree) ≡ true
    pub mirrored : (u v : String) → has u (names_at g.sources v) ≡ edge u v

  add_edge-Collects :
      (edge : String → String → Bool) (source target : String) (g : Edges)
      → is_node nodes target ≡ true
      → Collects edge g
      → Collects
          (λ u v. edge u v || (str_eq source u && str_eq target v))
          (add_edge source target g)
  unfolding add_edge if◌then◌else◌
  add_edge-Collects edge source target g there c = record {
    counted = λ v. ground (
      arith,
      c.counted v,
      c.counted target,
      count_at-insert target v (suc (count_at g.indegree target)) g.indegree,
      waits-add g.adjacency source target v,
      eq_iff target v,
    );
    distinct =
        IsDistinct-keys-insert source (names_at g.adjacency source ++ target ∷ []) g.adjacency
          c.distinct;
    total = pending_edges-add g.adjacency source target ∙ ap suc c.total;
    to_nodes = λ u v h. ground (
      arith,
      c.to_nodes u v,
      names_at-insert source u (names_at g.adjacency source ++ target ∷ []) g.adjacency,
      has-append v (names_at g.adjacency source) (target ∷ []),
      there,
      lookup-has target nodes,
      eq_iff source u,
      eq_iff target v,
    );
    adjacent = λ u v. ground (
      arith,
      c.adjacent u v,
      names_at-insert source u (names_at g.adjacency source ++ target ∷ []) g.adjacency,
      has-append v (names_at g.adjacency source) (target ∷ []),
      eq_iff source u,
      eq_iff target v,
    );
    covers = λ v h. ground (
      arith,
      c.covers v h,
      has-keys-insert v target (suc (count_at g.indegree target)) g.indegree,
    );
    mirrored = λ u v. ground (
      arith,
      c.mirrored u v,
      names_at-insert target v (names_at g.sources target ++ source ∷ []) g.sources,
      has-append u (names_at g.sources target) (source ∷ []),
      eq_iff source u,
      eq_iff target v,
    );
  }

  Collects-same :
      (edge edge' : String → String → Bool) (g : Edges)
      → ((u v : String) → edge u v ≡ edge' u v)
      → Collects edge g
      → Collects edge' g
  Collects-same edge edge' g e c = record {
    counted = c.counted;
    distinct = c.distinct;
    total = c.total;
    to_nodes = c.to_nodes;
    adjacent = λ u v. c.adjacent u v ∙ e u v;
    covers = c.covers;
    mirrored = λ u v. c.mirrored u v ∙ e u v;
  }

  scan_targets-Collects :
      (edge : String → String → Bool) (source route : String) (targets within earlier : List String)
      (g : Edges)
      → Collects edge g
      → Accepts
          (λ (r : List String × Edges).
            Collects (λ u v. edge u v || (str_eq source u && has v targets)) r.1)
          (scan_targets nodes source route targets within earlier g)
  unfolding scan_targets
  scan_targets-Collects edge source route [] within earlier g c =
      Accepts-accept _ _ (earlier, g) (Collects-same edge _ g (λ u v. ground arith) c)
  scan_targets-Collects edge source route (t ∷ ts) within earlier g c =
      let P = λ (r : List String × Edges).
        Collects (λ u v. edge u v || (str_eq source u && (str_eq t v || has v ts))) r.1 in
      let edge' = λ (u v : String). edge u v || (str_eq source u && str_eq t v) in
      Accepts-reject_if P _ _ _ λ there. Accepts-reject_if P _ _ _ λ once.
        Accepts-reject_if P _ _ _ λ apart. Accepts-reject_if P _ _ _ λ few.
          Accepts-imp _ P
            (scan_targets nodes source route ts (t ∷ within) (t ∷ earlier) (add_edge source t g))
            (scan_targets-Collects edge' source route ts (t ∷ within) (t ∷ earlier)
              (add_edge source t g)
              (add_edge-Collects edge source t g (not-false (is_node nodes t) there) c))
            λ r h. Collects-same _ _ r.1 (λ u v. ground arith) h

  scan_routes-Collects :
      (edge : String → String → Bool) (source : String) (routes : Map (List String))
      (earlier : List String) (g : Edges)
      → Collects edge g
      → Accepts
          (Collects (λ u v. edge u v || (str_eq source u && route_has routes v)))
          (scan_routes nodes source routes earlier g)
  unfolding scan_routes
  scan_routes-Collects edge source [] earlier g c =
      Accepts-accept _ _ g (Collects-same edge _ g (λ u v. ground arith) c)
  scan_routes-Collects edge source ((route, targets) ∷ routes) earlier g c =
      let P =
        Collects (λ u v. edge u v || (str_eq source u && (has v targets || route_has routes v))) in
      let edge' = λ (u v : String). edge u v || (str_eq source u && has v targets) in
      Accepts-reject_if P _ _ _ λ named. Accepts-reject_if P _ _ _ λ counted.
        Accepts-and_then _ P (scan_targets nodes source route targets [] earlier g) _
          (scan_targets-Collects edge source route targets [] earlier g c)
          λ r h.
            Accepts-imp _ P (scan_routes nodes source routes r.0 r.1)
              (scan_routes-Collects edge' source routes r.0 r.1 h)
              λ g' h'. Collects-same _ _ g' (λ u v. ground arith) h'

  scan_nodes-Collects :
      (edge : String → String → Bool) (rest : Map CompiledNode) (g : Edges)
      → Collects edge g
      → Accepts (Collects (λ u v. edge u v || has_edge rest u v)) (scan_nodes nodes rest g)
  unfolding scan_nodes
  scan_nodes-Collects edge [] g c =
      Accepts-accept _ _ g (Collects-same edge _ g (λ u v. ground arith) c)
  scan_nodes-Collects edge ((source, node) ∷ rest) g c =
      let P = Collects (λ u v. edge u v || has_edge ((source, node) ∷ rest) u v) in
      Accepts-and_then _ P (scan_routes nodes source node.node_definition.routes [] g) _
        (scan_routes-Collects edge source node.node_definition.routes [] g c)
        λ g' h.
          Accepts-imp _ P (scan_nodes nodes rest g')
            (scan_nodes-Collects
              (λ u v. edge u v || (str_eq source u && route_has node.node_definition.routes v)) rest
              g' h)
            λ g'' h'. Collects-same _ _ g'' (λ u v. ground arith) h'

  no_edges-Collects : Collects (λ u v. false) (no_edges nodes)
  unfolding no_edges waits pending_edges lookup
  no_edges-Collects = record {
    counted = zero_degrees_at nodes;
    distinct = tt;
    total = refl;
    to_nodes = λ u v h. cc;
    adjacent = λ u v. refl;
    covers = zero_degrees-has nodes;
    mirrored = λ u v. refl;
  }

  -- The edges that are collected are those of the routes.
  pub scanned-Collects :
      Accepts (Collects (has_edge nodes)) (scan_nodes nodes nodes (no_edges nodes))
  scanned-Collects = scan_nodes-Collects (λ u v. false) nodes (no_edges nodes) no_edges-Collects
