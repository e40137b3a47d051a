-- ===== src/Workflow/Writes.antt =====
-- internal/workflow/definition.go: `validateContextWriteOrdering`. A Go set of names is a list, in which
-- the number of times that a name stands means nothing.
pub mod Pairs
pub mod Precedes
use remote_code.Prelude.{
  ℕ, Bool, true, false, not, Option, none, some, String, List, [], ◌∷◌, ◌++◌, ◌&&◌, if◌then◌else◌,
  Map, lookup, insert, keys, has, sort_strings, Checked, accept, reject, ◌and_then◌, reject_if,
}
use remote_code.Workflow.Model.{JoinPolicy, join_all, join_any}
use remote_code.Workflow.Definition.{CompiledNode}
use remote_code.Workflow.Graph.{names_at}

-- Two nodes without an order between them that write one key of the context.
pub record WriteConflict : Type 0 where
  pub first_node : String
  pub second_node : String
  pub shared_key : String

pub predecessor_closure : String → Map (List String) → List String
predecessor_closure id must_precede = id ∷ names_at must_precede id

pub keep_common : List String → List String → List String
keep_common [] candidate = []
keep_common (k ∷ ks) candidate =
    if has k candidate then k ∷ keep_common ks candidate else keep_common ks candidate

pub common_closure : List String → List String → Map (List String) → List String
common_closure before [] must_precede = before
common_closure before (source ∷ sources) must_precede =
    common_closure (keep_common before (predecessor_closure source must_precede)) sources
      must_precede

pub all_closures : List String → Map (List String) → List String
all_closures [] must_precede = []
all_closures (source ∷ sources) must_precede =
    predecessor_closure source must_precede ++ all_closures sources must_precede

pub before_node : JoinPolicy → List String → Map (List String) → List String
before_node join_any (source ∷ sources) must_precede =
    common_closure (predecessor_closure source must_precede) sources must_precede
before_node join_any [] must_precede = []
before_node join_all sources must_precede = all_closures sources must_precede

-- The order holds names of nodes only, so that the default is not read.
abbrev pub join_or_all : Option CompiledNode → JoinPolicy
join_or_all none = join_all
join_or_all (some node) = node.node_definition.join

abbrev pub join_of : Map CompiledNode → String → JoinPolicy
join_of nodes id = join_or_all (lookup id nodes)

abbrev pub written_keys : Option CompiledNode → List String
written_keys none = []
written_keys (some node) = node.context_keys

abbrev pub writes_of : Map CompiledNode → String → List String
writes_of nodes id = written_keys (lookup id nodes)

-- The first loop over the order.
pub must_precede_from :
    Map CompiledNode → Map (List String) → List String → Map (List String) → Map (List String)
must_precede_from nodes incoming [] m = m
must_precede_from nodes incoming (id ∷ order) m =
    must_precede_from nodes incoming order
      (insert id (before_node (join_of nodes id) (names_at incoming id) m) m)

pub must_precede : Map CompiledNode → Map (List String) → List String → Map (List String)
must_precede nodes incoming order = must_precede_from nodes incoming order []

-- The second loop over the order: the writers of each key.
pub add_writer : String → List String → Map (List String) → Map (List String)
add_writer id [] writers = writers
add_writer id (key ∷ ks) writers =
    add_writer id ks (insert key (names_at writers key ++ id ∷ []) writers)

pub add_writers : Map CompiledNode → List String → Map (List String) → Map (List String)
add_writers nodes [] writers = writers
add_writers nodes (id ∷ order) writers =
    add_writers nodes order (add_writer id (writes_of nodes id) writers)

-- The loops over the pairs of writers of a key.
pub check_right :
    Map (List String) → String → String → List String → Checked WriteConflict (Unit {0})
check_right m key left [] = accept tt
check_right m key left (right ∷ rights) =
    reject_if (not (has left (names_at m right)) && not (has right (names_at m left)))
      (record { first_node = left; second_node = right; shared_key = key })
      (check_right m key left rights)

pub check_pairs : Map (List String) → String → List String → Checked WriteConflict (Unit {0})
check_pairs m key [] = accept tt
check_pairs m key (left ∷ rights) =
    check_right m key left rights and_then λ checked. check_pairs m key rights

pub check_keys :
    Map (List String) → Map (List String) → List String → Checked WriteConflict (Unit {0})
check_keys m writers [] = accept tt
check_keys m writers (key ∷ ks) =
    check_pairs m key (names_at writers key) and_then λ checked. check_keys m writers ks

check_writers : Map (List String) → Map (List String) → Checked WriteConflict (Unit {0})
check_writers m writers = check_keys m writers (sort_strings (keys writers))

pub validate_context_write_ordering :
    Map CompiledNode → Map (List String) → List String → Checked WriteConflict (Unit {0})
validate_context_write_ordering nodes incoming order =
    check_writers (must_precede nodes incoming order) (add_writers nodes order [])

-- Everything that a run of this part computes with.
unfoldable pub writes_code : Unit {0}
unfolding if◌then◌else◌ ◌and_then◌ reject_if lookup insert sort_strings predecessor_closure
    keep_common common_closure all_closures before_node must_precede_from must_precede add_writer
    add_writers check_right check_pairs check_keys check_writers validate_context_write_ordering
writes_code = tt
