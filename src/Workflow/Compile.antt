-- ===== src/Workflow/Compile.antt =====
-- internal/workflow/definition.go: `compileDefinition` with `normalizeResources`, and the registry that
-- `Prepare` builds of the definitions of a set of documents. The schema compiler, the script compiler
-- and the digest of a definition, which rest on third-party libraries and encodings, are parameters.
pub mod Resources
pub mod Nodes
pub mod Definitions
pub mod Ends
use remote_code.Prelude.{
  ℕ, zero, suc, ◌*◌, ◌==◌, Bool, true, false, not, Option, none, some, String, List, [], ◌∷◌, ◌&&◌,
  ◌||◌, ltb, leb, if◌then◌else◌, length, Map, lookup, insert, str_eq, has, is_present, Checked,
  accept, reject, ◌and_then◌, reject_if, or_reject, reject_as, sort_by, ℤ, pos, in_range, int_or,
  to_nat, valid_utf8, is_blank, all_codes,
}
use remote_code.Workflow.Model.{
  Json, Message, JoinPolicy, join_all, join_any, TerminalOutcome, terminal_none, terminal_succeeded,
  terminal_failed, ResourceMode, resource_shared, resource_exclusive,
}
use remote_code.Workflow.Definition.{
  identifier_pattern, ScriptEnvironment, Evaluation, fails, ResourceClaim, NodeDefinition,
  CompiledNode, CompiledDefinition,
}
use remote_code.Workflow.Sources.{
  CompiledScript, Compilers, DefinitionError, DefinitionSource, NodeSource, ResourceError,
  ResourceSource, bad_attempts, bad_description, bad_graph, bad_id, bad_join, bad_name,
  bad_node_count, bad_parallelism, bad_resource_key, bad_resource_mode, bad_resources, bad_revision,
  bad_schema, bad_script, bad_terminal, bad_timeout, bad_writes, duplicate_id, duplicate_resource,
  hour, max_definition_desc_bytes, max_nodes_per_workflow, max_resources_per_node,
  max_routes_per_node, missing_entry, no_terminal, not_executable, second, terminal_not_empty,
  too_many_resources, too_many_routes,
}
use remote_code.Workflow.Graph.{GraphError, is_node, CompiledGraph, compile_graph, graph_code}
use remote_code.Workflow.Writes.{WriteConflict, validate_context_write_ordering, writes_code}

abbrev read_mode : String → Option ResourceMode
read_mode s =
    if str_eq s "shared"
    then some resource_shared
    else if str_eq s "exclusive"
    then some resource_exclusive
    else none

-- The loop of `normalizeResources`; `seen` are the keys so far.
pub read_resources : List String → List ResourceSource → Checked ResourceError (List ResourceClaim)
read_resources seen [] = accept []
read_resources seen (resource ∷ resources) =
    reject_if (not (identifier_pattern resource.source_key)) (bad_resource_key resource.source_key)
      (or_reject (read_mode resource.source_mode) (bad_resource_mode resource.source_key)
        and_then λ mode.
            reject_if (has resource.source_key seen) (duplicate_resource resource.source_key) (
              read_resources (resource.source_key ∷ seen) resources and_then λ claims.
              accept ((record { resource_key = resource.source_key; mode = mode }) ∷ claims)))

abbrev pub key_of : ResourceClaim → String
key_of claim = claim.resource_key

pub normalize_resources : List ResourceSource → Checked ResourceError (List ResourceClaim)
normalize_resources resources =
    reject_if (ltb max_resources_per_node (length resources)) too_many_resources
      (read_resources [] resources and_then λ claims. accept (sort_by key_of claims))

abbrev pub read_join : String → Option JoinPolicy
read_join s =
    if str_eq s "" || str_eq s "all"
    then some join_all
    else if str_eq s "any"
    then some join_any
    else none

abbrev pub read_terminal : String → Option TerminalOutcome
read_terminal s =
    if str_eq s "succeeded"
    then some terminal_succeeded
    else if str_eq s "failed"
    then some terminal_failed
    else none

-- A terminal node has no program, and is never evaluated.
abbrev pub no_program : ScriptEnvironment → Evaluation
no_program environment = fails []

pub compile_terminal : NodeSource → NodeDefinition → Checked DefinitionError CompiledNode
compile_terminal source node =
    or_reject (read_terminal source.source_terminal) (bad_terminal source.source_id)
    and_then λ outcome.
        reject_if (not (is_blank source.script) || not (length source.source_routes == 0))
          (terminal_not_empty source.source_id)
          (accept (record {
            node_definition = record node { terminal = outcome };
            program = no_program;
            operations = [];
            context_keys = [];
          }))

pub compile_executable :
    Compilers → NodeSource → NodeDefinition → Checked DefinitionError CompiledNode
compile_executable c source node =
    reject_if (is_blank source.script || length source.source_routes == 0)
      (not_executable source.source_id)
      (reject_if (ltb max_routes_per_node (length source.source_routes))
        (too_many_routes source.source_id)
        (or_reject (c.compile_script source.script source.source_routes)
            (bad_script source.source_id)
          and_then λ compiled. accept (record {
            node_definition = node;
            program = compiled.script_program;
            operations = compiled.script_operations;
            context_keys = compiled.script_keys;
          })))

abbrev pub is_terminal : NodeSource → Bool
is_terminal source = not (str_eq source.source_terminal "")

pub compile_body : Compilers → NodeSource → NodeDefinition → Checked DefinitionError CompiledNode
compile_body c source node =
    if is_terminal source then compile_terminal source node else compile_executable c source node

pub compile_limits :
    Compilers → NodeSource → JoinPolicy → ℤ → ℤ → Checked DefinitionError CompiledNode
compile_limits c source join timeout attempts =
    reject_if (not (in_range second (720 * hour) timeout)) (bad_timeout source.source_id) (
      reject_if (not (in_range 1 100 attempts)) (bad_attempts source.source_id) (
        reject_as (bad_resources source.source_id) (normalize_resources source.source_resources)
        and_then λ resources. compile_body c source (record {
          definition_id = source.source_id;
          routes = source.source_routes;
          join = join;
          terminal = terminal_none;
          timeout = to_nat timeout;
          max_attempts = to_nat attempts;
          resources = resources;
        })))

-- One round of the loop over the nodes, at the nodes that are compiled so far.
pub compile_node :
    Compilers → ℕ → Map CompiledNode → NodeSource → Checked DefinitionError CompiledNode
compile_node c index nodes source =
    reject_if (not (identifier_pattern source.source_id)) (bad_id index) (
      reject_if (is_node nodes source.source_id) (duplicate_id source.source_id) (
        or_reject (read_join source.source_join) (bad_join source.source_id) and_then λ join.
        compile_limits c source join (int_or (24 * hour) source.source_timeout)
          (int_or 3 source.source_attempts)))

-- The nodes, and how many of them are terminal.
pub compile_nodes :
    Compilers
    → ℕ
    → List NodeSource
    → Map CompiledNode
    → ℕ
    → Checked DefinitionError (Map CompiledNode × ℕ)
compile_nodes c index [] nodes terminals = accept (nodes, terminals)
compile_nodes c index (source ∷ sources) nodes terminals =
    compile_node c index nodes source and_then λ node.
    compile_nodes c (suc index) sources (insert source.source_id node nodes)
      (if is_terminal source then suc terminals else terminals)

pub finish_definition :
    Compilers
    → DefinitionSource
    → ℕ
    → Json × (Json → Bool)
    → Map CompiledNode × ℕ
    → Checked DefinitionError CompiledDefinition
finish_definition c d parallelism schema compiled =
    let nodes = compiled.0 in
    reject_if (compiled.1 == 0) no_terminal (
      reject_if (not (is_node nodes d.source_entry)) (missing_entry d.source_entry) (
        reject_as bad_graph (compile_graph d.source_entry nodes) and_then λ graph.
        reject_as bad_writes
          (validate_context_write_ordering nodes graph.graph_incoming graph.graph_order)
        and_then λ checked. accept (record {
          name = d.source_name;
          definition_revision = to_nat d.revision;
          digest_text = c.definition_digest d schema.0 parallelism nodes;
          entry = d.source_entry;
          max_parallelism = parallelism;
          parameters_valid = schema.1;
          compiled_nodes = nodes;
          order = graph.graph_order;
          incoming = graph.graph_incoming;
        })))

abbrev pub is_description : Message → Bool
is_description text =
    leb (length text) max_definition_desc_bytes
    && valid_utf8 text
    && all_codes (λ b. not (b == 0)) text

abbrev pub has_revision : ℤ → Bool
has_revision (pos n) = ltb 0 n
has_revision other = false

pub compile_definition : Compilers → DefinitionSource → Checked DefinitionError CompiledDefinition
compile_definition c d = reject_if (not (identifier_pattern d.source_name)) bad_name (
    reject_if (not (has_revision d.revision)) bad_revision (
      reject_if (not (is_description d.description)) bad_description (
        reject_if (not (in_range 1 64 (int_or 1 d.source_parallelism))) bad_parallelism (
          reject_if
            (length d.source_nodes == 0 || ltb max_nodes_per_workflow (length d.source_nodes))
            bad_node_count
            (or_reject (c.compile_parameter_schema d.source_name d.parameters_schema) bad_schema
              and_then λ schema.
                  compile_nodes c 0 d.source_nodes [] 0
                  and_then finish_definition c d (to_nat (int_or 1 d.source_parallelism))
                      schema)))))

-- Everything that a run of this part computes with.
unfoldable pub compile_code : Unit {0}
unfolding graph_code writes_code or_reject reject_as sort_by valid_utf8 is_blank read_resources
    normalize_resources compile_terminal compile_executable compile_body compile_limits compile_node
    compile_nodes finish_definition compile_definition
compile_code = tt
