-- ===== src/Workflow/Registry/Tests.antt =====
-- internal/workflow/definition.go: the theorems at one definition, whose graph has two branches that
-- meet again.
use remote_code.Prelude.{
  ℕ, ◌<◌, ◌≡◌, ◌≢◌, ◌⊎◌, refl, subst, arith, and_true, str_eq→eq, Bool-cases, inl, inr, true, some,
  String, List, [], ◌∷◌, Map, str_eq, if◌then◌else◌, ◌==◌, ◌&&◌, reject, pos, negsuc,
}
use remote_code.Workflow.Model.{
  Message, join_all, terminal_none, terminal_succeeded, TerminalOutcome, resource_exclusive,
  resource_shared,
}
use remote_code.Workflow.Definition.{
  ScriptEnvironment, Evaluation, CompiledNode, CompiledDefinition, returns,
}
use remote_code.Workflow.Graph.{CompiledGraph, compile_graph, cyclic_or_unreachable, out_of_fuel}
use remote_code.Workflow.Graph.Scans.{has_edge}
use remote_code.Workflow.Graph.Orders.{IsOrdered, compile_graph-IsOrdered}
use remote_code.Workflow.Graph.Complete.{Ranks, compile_graph_acyclic}
use remote_code.Workflow.Writes.Precedes.{
  AlwaysBefore, validate_context_write_ordering-AlwaysBefore,
}
use remote_code.Workflow.Sources.{
  Compilers, DefinitionSource, NodeSource, bad_graph, bad_writes, bad_parallelism,
}
use remote_code.Workflow.Compile.{compile_definition, no_program}
use remote_code.Workflow.Compile.Definitions.{IsCompiled, compile_definition-IsCompiled}
use remote_code.Workflow.Compile.Ends.{compile_definition-terminates}
use remote_code.Workflow.Registry.{Document, prepare, registry_code, duplicate_name}
use remote_code.Workflow.Registry.Names.{IsPrepared, prepare-IsPrepared}

-- A script compiler under which a script that starts with the letter `w` writes the key "result".
abbrev program : ScriptEnvironment → Evaluation
program environment = returns (some "done")

abbrev keys_of : Message → List String
keys_of [] = []
keys_of (b ∷ text) = if b == 119 then "result" ∷ [] else []

abbrev compilers : Compilers
compilers = record {
  compile_parameter_schema = λ name schema. some (schema, λ parameters. true);
  compile_script = λ text routes.
      some
        (record { script_program = program; script_operations = []; script_keys = keys_of text });
  definition_digest = λ d schema parallelism nodes. "digest";
}

abbrev node_source : String → Message → Map (List String) → NodeSource
node_source id text routes = record {
  source_id = id;
  script = text;
  source_routes = routes;
  source_join = "";
  source_terminal = "";
  source_timeout = pos 0;
  source_attempts = pos 2;
  source_resources =
      (record { source_key = "tty"; source_mode = "shared" })
      ∷ (record { source_key = "disk"; source_mode = "exclusive" })
      ∷ [];
}

-- `build` comes before `left` and `right`, and these before `end`.
abbrev source_with : Message → DefinitionSource
source_with right_text = record {
  source_name = "release";
  description = b'a' ∷ 0xc3 ∷ 0xa9 ∷ [];
  revision = pos 3;
  source_entry = "build";
  source_parallelism = pos 2;
  parameters_schema = "{}";
  source_nodes =
      node_source "build" (119 ∷ []) (("done", "left" ∷ "right" ∷ []) ∷ [])
      ∷ node_source "left" (119 ∷ []) (("done", "end" ∷ []) ∷ [])
      ∷ node_source "right" right_text (("done", "end" ∷ []) ∷ [])
      ∷ record (node_source "end" [] []) { source_terminal = "succeeded" }
      ∷ [];
}

abbrev source : DefinitionSource
source = source_with (b'x' ∷ [])

abbrev compiled_node :
    String
    → Map (List String)
    → TerminalOutcome
    → (ScriptEnvironment → Evaluation)
    → List String
    → CompiledNode
compiled_node id routes terminal program written = record {
  node_definition = record {
    definition_id = id;
    routes = routes;
    join = join_all;
    terminal = terminal;
    timeout = 86400000000000;
    max_attempts = 2;
    resources =
        (record { resource_key = "disk"; mode = resource_exclusive })
        ∷ (record { resource_key = "tty"; mode = resource_shared })
        ∷ [];
  };
  program = program;
  operations = [];
  context_keys = written;
}

abbrev nodes : Map CompiledNode
nodes =
    (
      "build",
      compiled_node "build" (("done", "left" ∷ "right" ∷ []) ∷ []) terminal_none program
          ("result" ∷ []),
    )
    ∷ (
      "left",
      compiled_node "left" (("done", "end" ∷ []) ∷ []) terminal_none program ("result" ∷ []),
    )
    ∷ ("right", compiled_node "right" (("done", "end" ∷ []) ∷ []) terminal_none program [])
    ∷ ("end", compiled_node "end" [] terminal_succeeded no_program [])
    ∷ []

abbrev graph : CompiledGraph
graph = record {
  graph_order = "build" ∷ "left" ∷ "right" ∷ "end" ∷ [];
  graph_incoming =
      ("left", "build" ∷ []) ∷ ("right", "build" ∷ []) ∷ ("end", "left" ∷ "right" ∷ []) ∷ [];
}

abbrev compiled : CompiledDefinition
compiled = record {
  name = "release";
  definition_revision = 3;
  digest_text = "digest";
  entry = "build";
  max_parallelism = 2;
  parameters_valid = λ parameters. true;
  compiled_nodes = nodes;
  order = graph.graph_order;
  incoming = graph.graph_incoming;
}

compile_definition-IsCompiled_example : IsCompiled source compiled
unfolding registry_code
compile_definition-IsCompiled_example = compile_definition-IsCompiled compilers source compiled refl

compile_definition-terminates_example :
    compile_definition compilers source ≢ reject (bad_graph out_of_fuel)
compile_definition-terminates_example = compile_definition-terminates compilers source

compile_graph-IsOrdered_example : IsOrdered nodes graph
unfolding registry_code
compile_graph-IsOrdered_example = compile_graph-IsOrdered "build" nodes graph refl refl

rank : String → ℕ
rank v = if str_eq v "build" then 0 else if str_eq v "end" then 2 else 1

rank_at : (a b u v : String) → rank a < rank b → (str_eq a u && str_eq b v) ≡ true → rank u < rank v
rank_at a b u v l e =
    let same = and_true (str_eq a u) (str_eq b v) e in
    subst (λ x. rank x < rank v) (str_eq→eq a u same.0)
      (subst (λ x. rank a < rank x) (str_eq→eq b v same.1) l)

edges_ranked :
    (u v : String) {P : Type 0}
    → ((str_eq "build" u && str_eq "left" v) ≡ true → P)
    → ((str_eq "build" u && str_eq "right" v) ≡ true → P)
    → ((str_eq "left" u && str_eq "end" v) ≡ true → P)
    → ((str_eq "right" u && str_eq "end" v) ≡ true → P)
    → has_edge nodes u v ≡ true
    → P
edges_ranked u v first second third fourth edge =
    elim (Bool-cases (str_eq "build" u && str_eq "left" v)) [
      | inl e ↦ first e
      | inr e ↦ elim (Bool-cases (str_eq "build" u && str_eq "right" v)) [
        | inl e ↦ second e
        | inr e' ↦ elim (Bool-cases (str_eq "left" u && str_eq "end" v)) [
          | inl e ↦ third e
          | inr e'' ↦ fourth (ground (arith, e, e', e'', edge))
        ]
      ]
    ]

ranks : Ranks nodes rank
unfolding rank if◌then◌else◌
ranks u v edge =
    let first = rank_at "build" "left" u v (omega arith) in
    let second = rank_at "build" "right" u v (omega arith) in
    let third = rank_at "left" "end" u v (omega arith) in
    let fourth = rank_at "right" "end" u v (omega arith) in
    edges_ranked u v first second third fourth edge

compile_graph_acyclic_example : compile_graph "build" nodes ≢ reject cyclic_or_unreachable
compile_graph_acyclic_example =
    compile_graph_acyclic "build" nodes rank refl (refl, (refl, (refl, (refl, tt)))) ranks

validate_context_write_ordering-AlwaysBefore_example :
    AlwaysBefore nodes graph.graph_incoming "build" "left"
    ⊎ AlwaysBefore nodes graph.graph_incoming "left" "build"
unfolding registry_code
validate_context_write_ordering-AlwaysBefore_example =
    validate_context_write_ordering-AlwaysBefore nodes graph.graph_incoming graph.graph_order
      "result" "build" "left" refl refl refl refl refl refl

abbrev document : Document
document = record {
  path = "release.yaml";
  version = pos 1;
  language = "expr";
  workflows = some source ∷ [];
}

prepare-IsPrepared_example :
    IsPrepared (record { by_name = ("release", compiled) ∷ []; ordered = compiled ∷ [] })
unfolding registry_code
prepare-IsPrepared_example =
    prepare-IsPrepared compilers (document ∷ [])
      (record { by_name = ("release", compiled) ∷ []; ordered = compiled ∷ [] }) refl

-- `left` and `right` may be active at once, and would write the same key.
writes_conflict :
    compile_definition compilers (source_with (119 ∷ []))
    ≡ reject
        (bad_writes (record { first_node = "left"; second_node = "right"; shared_key = "result" }))
unfolding registry_code
writes_conflict = refl

negative_parallelism :
    compile_definition compilers (record source { source_parallelism = negsuc 0 })
    ≡ reject bad_parallelism
unfolding registry_code
negative_parallelism = refl

duplicate_names : prepare compilers (document ∷ document ∷ []) ≡ reject (duplicate_name "release")
unfolding registry_code
duplicate_names = refl
