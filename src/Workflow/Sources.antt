-- ===== src/Workflow/Sources.antt =====
-- internal/workflow/definition.go: a definition as its document has it, the compilers that it is given
-- to, its limits, and the errors for which it is refused.
use remote_code.Prelude.{ℕ, Bool, Option, String, List, Map, ℤ}
use remote_code.Workflow.Model.{Json, Message}
use remote_code.Workflow.Definition.{ScriptEnvironment, Evaluation, CompiledNode}
use remote_code.Workflow.Graph.{GraphError}
use remote_code.Workflow.Writes.{WriteConflict}

-- The fields of a definition as its document has them: modes, joins and outcomes are texts there.
pub record ResourceSource : Type 0 where
  pub source_key : String
  pub source_mode : String

pub record NodeSource : Type 0 where
  pub source_id : String
  pub script : Message
  pub source_routes : Map (List String)
  pub source_join : String
  pub source_terminal : String
  pub source_timeout : ℤ
  pub source_attempts : ℤ
  pub source_resources : List ResourceSource

pub record DefinitionSource : Type 0 where
  pub source_name : String
  pub description : Message
  pub revision : ℤ
  pub source_entry : String
  pub source_parallelism : ℤ
  pub parameters_schema : Json
  pub source_nodes : List NodeSource

pub record CompiledScript : Type 0 where
  pub script_program : ScriptEnvironment → Evaluation
  pub script_operations : Map String
  pub script_keys : List String

pub record Compilers : Type 0 where
  -- the canonical schema and its validator
  pub compile_parameter_schema : String → Json → Option (Json × (Json → Bool))
  pub compile_script : Message → Map (List String) → Option CompiledScript
  pub definition_digest : DefinitionSource → Json → ℕ → Map CompiledNode → String

pub data ResourceError : Type 0 where
  too_many_resources : ResourceError
  bad_resource_key bad_resource_mode duplicate_resource : String → ResourceError

pub data DefinitionError : Type 0 where
  bad_name bad_revision bad_description bad_parallelism bad_node_count bad_schema : DefinitionError
  bad_id : ℕ → DefinitionError
  duplicate_id bad_join bad_timeout bad_attempts bad_terminal terminal_not_empty :
      String → DefinitionError
  not_executable too_many_routes bad_script missing_entry : String → DefinitionError
  bad_resources : String → ResourceError → DefinitionError
  no_terminal : DefinitionError
  bad_graph : GraphError → DefinitionError
  bad_writes : WriteConflict → DefinitionError

abbrev pub max_nodes_per_workflow : ℕ
max_nodes_per_workflow = 256

abbrev pub max_routes_per_node : ℕ
max_routes_per_node = 64

abbrev pub max_resources_per_node : ℕ
max_resources_per_node = 32

abbrev pub max_definition_desc_bytes : ℕ
max_definition_desc_bytes = 16384

-- Durations are in nanoseconds.
abbrev pub second : ℕ
second = 1000000000

abbrev pub hour : ℕ
hour = 3600000000000
