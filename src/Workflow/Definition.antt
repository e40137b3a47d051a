-- ===== src/Workflow/Definition.antt =====
-- internal/workflow/definition.go: the compiled definitions that the service runs, and the patterns
-- of its identifiers. A compiled program of the expression library is a parameter of the model: a
-- function from its environment to the host calls that it makes and the value that it returns.
use remote_code.Prelude.{
  ℕ, String, Bool, false, Option, List, [], ◌∷◌, Map, str_eq, ◌||◌, codes, is_lower, is_letter,
  is_digit, is_punctuation, matches_pattern,
}
use remote_code.Workflow.Model.{
  Json, Message, ActivityResult, ActivityState, NodeState, JoinPolicy, TerminalOutcome,
  ResourceMode,
}

abbrev pub identifier_pattern : String → Bool
identifier_pattern s =
    matches_pattern is_lower (λ c. is_lower c || is_digit c || is_punctuation c) 62 (codes s)

abbrev pub context_key_pattern : String → Bool
context_key_pattern s =
    matches_pattern is_letter (λ c. is_letter c || is_digit c || is_punctuation c) 127 (codes s)

-- What a script sees.
pub record ScriptEnvironment : Type 0 where
  pub env_parameters : Json
  pub env_context : Map String
  pub env_nodes : Map (NodeState × String)
  pub env_activities : Map (String × ActivityState)

-- A run of a program: each host call carries on with the host's answer, and a host error ends it.
pub data Evaluation : Type 0 where
  returns : Option String → Evaluation
  fails : Message → Evaluation
  activity_call : String → String → Json → (ActivityResult → Evaluation) → Evaluation
  context_set_call : String → String → Evaluation → Evaluation
  context_delete_call : String → Evaluation → Evaluation

pub record ResourceClaim : Type 0 where
  pub resource_key : String
  pub mode : ResourceMode

pub record NodeDefinition : Type 0 where
  pub definition_id : String
  pub routes : Map (List String)
  pub join : JoinPolicy
  pub terminal : TerminalOutcome
  pub timeout : ℕ
  pub max_attempts : ℕ
  pub resources : List ResourceClaim

pub record CompiledNode : Type 0 where
  pub node_definition : NodeDefinition
  pub program : ScriptEnvironment → Evaluation
  pub operations : Map String
  pub context_keys : List String

pub record CompiledDefinition : Type 0 where
  pub name : String
  pub definition_revision : ℕ
  pub digest_text : String
  pub entry : String
  pub max_parallelism : ℕ
  pub parameters_valid : Json → Bool
  pub compiled_nodes : Map CompiledNode
  pub order : List String
  pub incoming : Map (List String)

-- Config after ApplyDefaults and ValidateConfig, with its durations in nanoseconds.
pub record Config : Type 0 where
  pub max_active_runs : ℕ
  pub max_active_attempts : ℕ
  pub lease_duration : ℕ
  pub retry_initial_backoff : ℕ
  pub retry_max_backoff : ℕ

unfoldable pub route_targets : List String → String → Bool
route_targets [] expected = false
route_targets (target ∷ targets) expected = str_eq target expected || route_targets targets expected
