-- ===== src/Workflow/Script.antt =====
-- internal/workflow/script.go: the host functions that a running script calls, and `runScript`.
use Prim.Native.String.{len}
use remote_code.Prelude.{
  ℕ, String, Bool, true, false, not, Option, none, some, [], ◌∷◌, Map, lookup, insert, delete,
  str_eq, ◌&&◌, ◌||◌, leb, if◌then◌else◌, codes, all_codes, length, ◌==◌,
}
use remote_code.Workflow.Model.{
  Json, Message, ActivityResult, ActivityState, activity_succeeded, activity_failed,
  activity_cancelled, Activity, NodeState, NodeRun, InterventionResolution,
}
use remote_code.Workflow.Definition.{
  Evaluation, returns, fails, activity_call, context_set_call, context_delete_call, CompiledNode,
  context_key_pattern,
}

abbrev pub max_input_output_bytes : ℕ
max_input_output_bytes = 1048576

abbrev pub max_context_entries : ℕ
max_context_entries = 256

abbrev pub max_context_value_bytes : ℕ
max_context_value_bytes = 16384

abbrev pub max_context_bytes : ℕ
max_context_bytes = 262144

pub record Suspension : Type 0 where
  pub suspended_operation : String
  pub suspended_kind : String
  pub suspended_input : Json
  pub suspended_hash : String
  pub existing : Bool

pub data ScriptError : Type 0 where
  suspend_activity : Suspension → ScriptError
  replay_error : String → ScriptError
  ended_in : String → ActivityState → ScriptError
  invalid_input invalid_context_entry invalid_context not_a_string : ScriptError
  undeclared_route : String → ScriptError
  evaluation_failed : Message → ScriptError

-- The payloads of the commands that `registerCommand` hashes.
pub data Payload : Type 0 where
  no_payload : Payload
  attempt_payload : ℕ → Payload
  text_payload : Message → Payload
  result_payload : ActivityResult → Payload
  resolution_payload : InterventionResolution → Payload

-- What the service takes from crypto/sha256, encoding/json and the texts of errors.
pub record Platform : Type 0 where
  pub digest : String → String
  pub marshal_payload : Payload → String
  pub marshal_context : Map String → Json
  pub render : ScriptError → Message

pub record ScriptResult : Type 0 where
  pub route : String
  pub context_writes : Map String
  pub context_deletes : Map Bool

pub data ScriptOutcome : Type 0 where
  finished : ScriptResult → ScriptOutcome
  stopped : ScriptError → ScriptOutcome

pub clone_json_value : Json → Option Json
clone_json_value value = if leb (len value) max_input_output_bytes then some value else none

is_ended : ActivityState → Bool
is_ended activity_failed = true
is_ended activity_cancelled = true
is_ended _ = false

is_succeeded : ActivityState → Bool
is_succeeded activity_succeeded = true
is_succeeded _ = false

pub data HostAnswer : Type 0 where
  answers : ActivityResult → HostAnswer
  raises : ScriptError → HostAnswer

unfinished : String → String → String → Activity → HostAnswer
unfinished operation kind hash activity =
    if is_ended activity.state
    then raises (ended_in operation activity.state)
    else raises (
        suspend_activity (record {
          suspended_operation = operation;
          suspended_kind = kind;
          suspended_input = "";
          suspended_hash = hash;
          existing = true;
        }))

replay_result : String → String → String → Activity → Option ActivityResult → HostAnswer
replay_result operation kind hash activity none = unfinished operation kind hash activity
replay_result operation kind hash activity (some result) =
    if is_succeeded activity.state then answers result else unfinished operation kind hash activity

replay_activity : String → String → Json → String → Option Activity → HostAnswer
replay_activity operation kind input hash none = raises (
    suspend_activity (record {
      suspended_operation = operation;
      suspended_kind = kind;
      suspended_input = input;
      suspended_hash = hash;
      existing = false;
    }))
replay_activity operation kind input hash (some activity) =
    if not (str_eq activity.executor_kind kind) || not (str_eq activity.input_hash hash)
    then raises (replay_error operation)
    else replay_result operation kind hash activity activity.result

-- The activities are those of the invocation's node.
pub run_activity_host : Platform → Map Activity → String → String → Json → HostAnswer
run_activity_host p activities operation kind value = elim (clone_json_value value) [
  | none ↦ raises invalid_input
  | some input ↦ replay_activity operation kind input (p.digest input) (lookup operation activities)
]

pub validate_context_entry : String → String → Bool
validate_context_entry key value =
    context_key_pattern key
    && leb (len value) max_context_value_bytes
    && all_codes (λ c. not (c == 0)) (codes value)

abbrev all_entries : (String → String → Bool) → Map String → Bool
all_entries p [] = true
all_entries p ((k, v) ∷ m) = p k v && all_entries p m

pub validate_workflow_context : Platform → Map String → Bool
validate_workflow_context p values =
    leb (length values) max_context_entries
    && all_entries validate_context_entry values
    && leb (len (p.marshal_context values)) max_context_bytes

pub delete_keys : Map Bool → Map String → Map String
delete_keys [] m = m
delete_keys ((k, _) ∷ ks) m = delete_keys ks (delete k m)

pub write_entries : Map String → Map String → Map String
write_entries [] m = m
write_entries ((k, v) ∷ kvs) m = write_entries kvs (insert k v m)

pub validate_context_changes : Platform → Map String → Map String → Map Bool → Bool
validate_context_changes p current writes deletes =
    validate_workflow_context p (write_entries writes (delete_keys deletes current))

pub record Invocation : Type 0 where
  pub writes : Map String
  pub deletes : Map Bool

pub data Interpreted : Type 0 where
  value : Option String → Invocation → Interpreted
  stop : ScriptError → Interpreted

-- The run of a program against the host functions.
pub interpret : Platform → Map Activity → Invocation → Evaluation → Interpreted
interpret p activities inv (returns v) = value v inv
interpret p activities inv (fails message) = stop (evaluation_failed message)
interpret p activities inv (activity_call operation kind input k) =
    elim (run_activity_host p activities operation kind input) [
      | answers result ↦ interpret p activities inv (k result)
      | raises e ↦ stop e
    ]
interpret p activities inv (context_set_call key v k) = elim (validate_context_entry key v) [
  | true ↦
      interpret p activities
        (record { writes = insert key v inv.writes; deletes = delete key inv.deletes }) k
  | false ↦ stop invalid_context_entry
]
interpret p activities inv (context_delete_call key k) = elim (context_key_pattern key) [
  | true ↦
      interpret p activities
        (record { writes = delete key inv.writes; deletes = insert key true inv.deletes }) k
  | false ↦ stop invalid_context_entry
]

abbrev activity_views : Map Activity → Map (String × ActivityState)
activity_views [] = []
activity_views ((k, a) ∷ m) = (k, (a.id, a.state)) ∷ activity_views m

check_result : Platform → CompiledNode → Map String → Interpreted → ScriptOutcome
check_result p definition current (stop e) = stopped e
check_result p definition current (value none inv) = stopped not_a_string
check_result p definition current (value (some chosen) inv) =
    elim (lookup chosen definition.node_definition.routes) [
      | none ↦ stopped (undeclared_route chosen)
      | some targets ↦
          if validate_context_changes p current inv.writes inv.deletes
          then finished (record {
            route = chosen;
            context_writes = inv.writes;
            context_deletes = inv.deletes;
          })
          else stopped invalid_context
    ]

pub run_script :
    Platform → NodeRun → CompiledNode → Json → Map String → Map (NodeState × String) → ScriptOutcome
run_script p node definition parameters context nodes = check_result p definition context (
    interpret p node.activities (record { writes = []; deletes = [] })
      (definition.program (record {
        env_parameters = parameters;
        env_context = context;
        env_nodes = nodes;
        env_activities = activity_views node.activities;
      })))

-- Everything that a run of this part computes with.
unfoldable pub script_code : Unit {0}
unfolding clone_json_value is_ended is_succeeded unfinished replay_result replay_activity
    run_activity_host validate_context_entry validate_workflow_context delete_keys write_entries
    validate_context_changes interpret check_result run_script
script_code = tt
