-- ===== src/Workflow/Model.antt =====
-- internal/workflow/model.go and record.go: the persistent data of the workflow service.
use remote_code.Prelude.{ℕ, String, Bool, true, false, Option, none, some, List, Map, if◌then◌else◌}

-- Times are nanoseconds and 0 is the zero time; a message is its bytes; a JSON value is the
-- encoding that json.Marshal gives it.
abbrev pub Time : Type 0
Time = ℕ

abbrev pub Message : Type 0
Message = List ℕ

abbrev pub Json : Type 0
Json = String

pub data Error : Type 0 where
  not_found conflict lease_expired capacity shutting_down : Error
  invalid_argument random_failed encoding_failed : Error
  store_failed inconsistent_index : Error
  -- an index or a map access that stops the Go program
  panicked : Error
  -- the model's own: a loop's fuel ran out
  fuel_exhausted : Error

pub data Result {ℓ} (A : Type ℓ) : Type ℓ where
  ok : A → Result A
  err : Error → Result A

infixl 5 ◌>>=◌ ◌>>◌
unfoldable pub ◌>>=◌ {ℓ κ} : {A : Type ℓ} {B : Type κ} → Result A → (A → Result B) → Result B
ok a >>= f = f a
err e >>= f = err e

unfoldable pub ◌>>◌ {ℓ} : {B : Type ℓ} → Result (Unit {0}) → Result B → Result B
unfolding ◌>>=◌
m >> k = m >>= λ _. k

unfoldable pub guard : Bool → Error → Result (Unit {0})
guard true e = ok tt
guard false e = err e

unfoldable pub or_fail {ℓ} : {A : Type ℓ} → Option A → Error → Result A
or_fail none e = err e
or_fail (some a) e = ok a

pub data RunState : Type 0 where
  run_pending run_running run_paused run_succeeded run_failed run_cancelled : RunState

pub data NodeState : Type 0 where
  node_pending node_ready node_evaluating node_waiting_activity node_waiting_retry : NodeState
  node_needs_intervention node_succeeded node_failed node_cancelled node_skipped : NodeState

pub data ActivityState : Type 0 where
  activity_scheduled activity_claimed activity_running activity_waiting_retry : ActivityState
  activity_needs_intervention activity_succeeded activity_failed : ActivityState
  activity_cancelled : ActivityState

pub data AttemptState : Type 0 where
  attempt_claimed attempt_running attempt_succeeded attempt_failed : AttemptState
  attempt_lost attempt_cancelled : AttemptState

pub data JoinPolicy : Type 0 where
  join_all join_any : JoinPolicy

pub data TerminalOutcome : Type 0 where
  terminal_none terminal_succeeded terminal_failed : TerminalOutcome

pub data ResourceMode : Type 0 where
  resource_shared resource_exclusive : ResourceMode

pub record ActivityResult : Type 0 where
  pub status : Message
  pub result_code : Message
  pub result_message : Message
  pub output : Json
  pub external_ref : Message

pub record Attempt : Type 0 where
  pub number : ℕ
  pub attempt_state : AttemptState
  pub executor_id : String
  pub lease_deadline : Time
  pub started_at : Time
  pub finished_at : Time
  pub attempt_error : Message

pub record Activity : Type 0 where
  pub id : String
  pub operation_id : String
  pub executor_kind : String
  pub input : Json
  pub input_hash : String
  pub state : ActivityState
  pub result : Option ActivityResult
  pub attempts : List Attempt
  pub available_at : Time
  pub intervention_reason : Message
  pub created_at : Time
  pub updated_at : Time

pub record NodeRun : Type 0 where
  pub node_id : String
  pub node_state : NodeState
  pub selected_route : String
  pub activities : Map Activity
  pub resolved_inputs : Map Bool
  pub acquired : Bool
  pub node_error : Message
  pub node_started_at : Time
  pub node_finished_at : Time

pub record Run : Type 0 where
  pub run_id : String
  pub workflow_name : String
  pub revision : ℕ
  pub definition_digest : String
  pub idempotency_key : String
  pub parameters : Json
  pub context : Map String
  pub context_version : ℕ
  pub run_state : RunState
  pub nodes : Map NodeRun
  pub run_error : Message
  pub event_sequence : ℕ
  pub run_created_at : Time
  pub run_updated_at : Time
  pub run_finished_at : Time

pub data InterventionAction : Type 0 where
  intervention_continue intervention_retry intervention_resolve : InterventionAction
  intervention_fail intervention_cancel : InterventionAction
  intervention_unknown : String → InterventionAction

-- The event types that the service appends, with the Data of those that carry any.
pub data EventType : Type 0 where
  run_started run_resumed_event : EventType
  run_paused_event : Message → EventType
  -- "run_" and the state in lower case
  run_ended : RunState → EventType
  node_ready_event node_skipped_event node_started node_failed_event : EventType
  terminal_reached : TerminalOutcome → EventType
  node_succeeded_event : String → EventType
  activity_scheduled_event activity_claimed_event activity_started : EventType
  activity_heartbeat activity_completed activity_needs_intervention_event : EventType
  activity_retry_ready activity_retry_scheduled activity_failed_event : EventType
  context_updated : ℕ → List String → List String → EventType
  intervention_resolved : InterventionAction → String → EventType

pub record Event : Type 0 where
  pub event_run_id : String
  pub sequence : ℕ
  pub time : Time
  pub event_type : EventType
  pub event_node_id : String
  pub event_activity_id : String

pub record ActivityClaim : Type 0 where
  pub claim_run_id : String
  pub claim_node_id : String
  pub claim_activity_id : String
  pub claim_operation_id : String
  pub claim_executor_kind : String
  pub claim_input : Json
  pub claim_attempt : ℕ
  pub lease_token : String
  pub claim_lease_deadline : Time

pub record InterventionResolution : Type 0 where
  pub action : InterventionAction
  pub principal : String
  pub resolution_result : Option ActivityResult
  pub resolution_message : Message

pub record LeaseRecord : Type 0 where
  pub lease_attempt : ℕ
  pub token_hash : String
  pub deadline : Time

pub record CommandRecord : Type 0 where
  pub command_activity_id : String
  pub command_action : String
  pub payload_hash : String

-- The fields of RunRecord that the service changes.
pub record RunRecord : Type 0 where
  pub run : Run
  pub leases : Map LeaseRecord
  pub commands : Map CommandRecord

unfoldable pub terminal_run_state : RunState → Bool
terminal_run_state run_succeeded = true
terminal_run_state run_failed = true
terminal_run_state run_cancelled = true
terminal_run_state _ = false

unfoldable pub terminal_node_state : NodeState → Bool
terminal_node_state node_succeeded = true
terminal_node_state node_failed = true
terminal_node_state node_cancelled = true
terminal_node_state node_skipped = true
terminal_node_state _ = false

-- Everything that a chain of results computes with.
unfoldable pub result_code : Unit {0}
unfolding ◌>>=◌ ◌>>◌ guard or_fail if◌then◌else◌ terminal_run_state terminal_node_state
result_code = tt
