-- ===== src/Workflow/Graph.antt =====
-- internal/workflow/definition.go: `compileGraph`, which orders the nodes of a definition and collects
-- their sources.
pub mod Waits
pub mod Scans
pub mod Sorts
pub mod Orders
pub mod Complete
use remote_code.Prelude.{
  ℕ, zero, suc, ◌+◌, ◌-◌, Bool, true, false, not, Option, none, some, String, List, [], ◌∷◌, ◌++◌,
  ◌&&◌, ◌||◌, ltb, ◌==◌, if◌then◌else◌, length, Map, lookup, insert, str_eq, has, is_present,
  Checked, accept, reject, ◌and_then◌, reject_if, sort_strings,
}
use remote_code.Workflow.Definition.{CompiledNode, identifier_pattern}

pub data GraphError : Type 0 where
  bad_route bad_target_count : String → String → GraphError
  missing_target repeated_target shared_target : String → String → String → GraphError
  too_many_edges cyclic_or_unreachable out_of_fuel : GraphError
  entry_has_sources no_incoming_edge : String → GraphError

abbrev max_targets_per_route : ℕ
max_targets_per_route = 64

abbrev max_edges_per_workflow : ℕ
max_edges_per_workflow = 4096

-- A missing key of a Go map reads as the zero value.
abbrev pub names_or_none : Option (List String) → List String
names_or_none none = []
names_or_none (some names) = names

abbrev pub names_at : Map (List String) → String → List String
names_at m k = names_or_none (lookup k m)

abbrev pub count_or_zero : Option ℕ → ℕ
count_or_zero none = 0
count_or_zero (some n) = n

abbrev pub count_at : Map ℕ → String → ℕ
count_at m k = count_or_zero (lookup k m)

abbrev pub is_node : Map CompiledNode → String → Bool
is_node nodes id = is_present (lookup id nodes)

-- What the loops over the edges build.
pub record Edges : Type 0 where
  pub indegree : Map ℕ
  pub adjacency : Map (List String)
  pub edge_count : ℕ
  pub sources : Map (List String)

zero_degrees : Map CompiledNode → Map ℕ
zero_degrees [] = []
zero_degrees ((id, node) ∷ nodes) = insert id 0 (zero_degrees nodes)

pub add_edge : String → String → Edges → Edges
add_edge source target g = record {
  indegree = insert target (suc (count_at g.indegree target)) g.indegree;
  adjacency = insert source (names_at g.adjacency source ++ target ∷ []) g.adjacency;
  edge_count = suc g.edge_count;
  sources = insert target (names_at g.sources target ++ source ∷ []) g.sources;
}

-- The loop over the targets of a route: `within` are the targets of this route so far, `earlier` those
-- of the routes before it.
pub scan_targets :
    Map CompiledNode
    → String
    → String
    → List String
    → List String
    → List String
    → Edges
    → Checked GraphError (List String × Edges)
scan_targets nodes source route [] within earlier g = accept (earlier, g)
scan_targets nodes source route (target ∷ targets) within earlier g =
    reject_if (not (is_node nodes target)) (missing_target source route target) (
      reject_if (has target within) (repeated_target source route target) (
        reject_if (has target earlier) (shared_target source route target) (
          reject_if (ltb max_edges_per_workflow (suc g.edge_count)) too_many_edges (
            scan_targets nodes source route targets (target ∷ within) (target ∷ earlier)
              (add_edge source target g)))))

pub scan_routes :
    Map CompiledNode → String → Map (List String) → List String → Edges → Checked GraphError Edges
scan_routes nodes source [] earlier g = accept g
scan_routes nodes source ((route, targets) ∷ routes) earlier g =
    reject_if (not (identifier_pattern route)) (bad_route source route) (
      reject_if (length targets == 0 || ltb max_targets_per_route (length targets))
        (bad_target_count source route)
        (scan_targets nodes source route targets [] earlier g and_then λ r.
          scan_routes nodes source routes r.0 r.1))

pub scan_nodes : Map CompiledNode → Map CompiledNode → Edges → Checked GraphError Edges
scan_nodes nodes [] g = accept g
scan_nodes nodes ((source, node) ∷ rest) g =
    scan_routes nodes source node.node_definition.routes [] g and_then λ g'.
    scan_nodes nodes rest g'

pub check_degrees : String → Map ℕ → Checked GraphError (Unit {0})
check_degrees entry [] = accept tt
check_degrees entry ((id, degree) ∷ m) =
    reject_if (not (str_eq id entry) && degree == 0) (no_incoming_edge id) (check_degrees entry m)

-- The loop over the targets of a node that is visited: a count is lowered once for each of its edges,
-- so that it is not lowered below 0.
pub lower_targets : List String → List String → Map ℕ → List String × Map ℕ
lower_targets [] queue indegree = (queue, indegree)
lower_targets (target ∷ targets) queue indegree =
    let left = count_at indegree target - 1 in
    lower_targets targets (if left == 0 then queue ++ target ∷ [] else queue)
      (insert target left indegree)

-- The state of the loop over the queue. `visited` has the latest node first.
pub record Sorting : Type 0 where
  pub queue : List String
  pub visited : List String
  pub ordered : List String
  pub degrees : Map ℕ

pub visit : Map (List String) → String → List String → Sorting → Sorting
visit adjacency node queue s =
    let lowered = lower_targets (names_at adjacency node) queue s.degrees in
    record {
      queue = lowered.0;
      visited = node ∷ s.visited;
      ordered = s.ordered ++ node ∷ [];
      degrees = lowered.1;
    }

pub next_node : Map (List String) → String → List String → Sorting → Sorting
next_node adjacency node queue s =
    if has node s.visited then record s { queue = queue } else visit adjacency node queue s

-- The loop over the queue, on fuel.
pub sort_nodes : ℕ → Map (List String) → Sorting → Checked GraphError Sorting
sort_nodes zero adjacency s = reject out_of_fuel
sort_nodes (suc fuel) adjacency s = elim s.queue [
  | [] ↦ accept s
  | node ∷ queue ↦ sort_nodes fuel adjacency (next_node adjacency node queue s)
]

sort_values : Map (List String) → Map (List String)
sort_values [] = []
sort_values ((id, names) ∷ m) = (id, sort_strings names) ∷ sort_values m

pub record CompiledGraph : Type 0 where
  pub graph_order : List String
  pub graph_incoming : Map (List String)

pub finish_graph : Map CompiledNode → Edges → Sorting → Checked GraphError CompiledGraph
finish_graph nodes g s =
    reject_if (not (length s.visited == length nodes)) cyclic_or_unreachable
      (accept (record { graph_order = s.ordered; graph_incoming = sort_values g.sources }))

pub no_edges : Map CompiledNode → Edges
no_edges nodes = record {
  indegree = zero_degrees nodes;
  adjacency = [];
  edge_count = 0;
  sources = [];
}

-- Each edge enters its target into the queue once at most, and the entry is there at the start.
pub sort_graph : String → Map CompiledNode → Edges → Checked GraphError CompiledGraph
sort_graph entry nodes g =
    reject_if (not (count_at g.indegree entry == 0)) (entry_has_sources entry) (
      check_degrees entry g.indegree and_then λ checked.
      sort_nodes (suc (suc g.edge_count)) g.adjacency
        (record { queue = entry ∷ []; visited = []; ordered = []; degrees = g.indegree })
      and_then finish_graph nodes g)

pub compile_graph : String → Map CompiledNode → Checked GraphError CompiledGraph
compile_graph entry nodes = scan_nodes nodes nodes (no_edges nodes) and_then sort_graph entry nodes

-- Everything that a run of this part computes with.
unfoldable pub graph_code : Unit {0}
unfolding if◌then◌else◌ ◌and_then◌ reject_if lookup insert sort_strings zero_degrees add_edge
    scan_targets scan_routes scan_nodes check_degrees lower_targets visit next_node sort_nodes
    sort_values finish_graph no_edges sort_graph compile_graph
graph_code = tt
