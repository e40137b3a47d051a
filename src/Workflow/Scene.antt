-- ===== src/Workflow/Scene.antt =====
-- internal/workflow: a workflow of one activity, and the calls that run it from its start to its end.
use remote_code.Prelude.{
  ℕ, String, true, false, Option, none, some, List, [], ◌∷◌, Map, codes, lookup,
}
use remote_code.Workflow.Model.{
  ActivityResult, join_all, terminal_none, terminal_succeeded, run_pending, node_waiting_activity,
  activity_claimed, attempt_claimed, Attempt, Activity, NodeRun, RunRecord, ActivityClaim,
}
use remote_code.Workflow.Definition.{
  CompiledNode, CompiledDefinition, Evaluation, returns, activity_call,
}
use remote_code.Workflow.Script.{Platform}
use remote_code.Workflow.Journal.{Work}
use remote_code.Workflow.Service.{Service, Moment, begin}
use remote_code.Workflow.Activities.{Holder}
use remote_code.Workflow.Calls.{
  Call, starts_run, claims, starts_activity, completes, pauses_run, cancels_run, reconciles,
  run_calls,
}

abbrev pub platform : Platform
platform = record {
  digest = λ text. text;
  marshal_payload = λ payload. "payload";
  marshal_context = λ context. "{}";
  render = λ e. codes "failed";
}

abbrev pub node_at : String → Map (List String) → Evaluation → CompiledNode
node_at id routes evaluation = record {
  node_definition = record {
    definition_id = id;
    routes = routes;
    join = join_all;
    terminal = terminal_none;
    timeout = 1000;
    max_attempts = 2;
    resources = [];
  };
  program = λ environment. evaluation;
  operations = [];
  context_keys = [];
}

abbrev pub build : CompiledNode
build =
    node_at "build" (("done", "end" ∷ []) ∷ [])
      (activity_call "compile" "shell" "{}" λ result. returns (some "done"))

abbrev pub end_node : CompiledNode
end_node = record (node_at "end" [] (returns (some "done"))) {
  node_definition = record (node_at "end" [] (returns (some "done"))).node_definition {
    terminal = terminal_succeeded;
  };
}

abbrev pub definition : CompiledDefinition
definition = record {
  name = "release";
  definition_revision = 1;
  digest_text = "digest";
  entry = "build";
  max_parallelism = 2;
  parameters_valid = λ parameters. true;
  compiled_nodes = ("build", build) ∷ ("end", end_node) ∷ [];
  order = "build" ∷ "end" ∷ [];
  incoming = ("end", "build" ∷ []) ∷ [];
}

abbrev pub empty : Service
empty = record {
  config = record {
    max_active_runs = 4;
    max_active_attempts = 4;
    lease_duration = 100;
    retry_initial_backoff = 10;
    retry_max_backoff = 60;
  };
  platform = platform;
  registry = ("release", definition) ∷ [];
  runs = [];
  definitions = [];
  idempotency = [];
  stored = [];
  closing = false;
}

abbrev pub moment : ℕ → Moment
moment now = record {
  now = now;
  committed_at = now;
  random = "01" ∷ "02" ∷ "03" ∷ [];
  store_works = true;
}

abbrev pub start_call : Moment × Call
start_call = (moment 1, starts_run "release" "first" none)

abbrev pub claim_call : Moment × Call
claim_call = (moment 2, claims "executor" ("shell" ∷ []))

abbrev pub holder : Holder
holder = record { held_activity = "act-02"; held_attempt = 1; held_token = "01" }

abbrev pub begin_call : Moment × Call
begin_call = (moment 3, starts_activity "run-01" holder "begin")

abbrev pub result : ActivityResult
result = record {
  status = codes "ok";
  result_code = codes "0";
  result_message = [];
  output = "{}";
  external_ref = [];
}

abbrev pub finish_call : Moment × Call
finish_call = (moment 4, completes "run-01" holder "finish" result)

abbrev pub started : Service
started = run_calls empty (start_call ∷ [])

abbrev pub claimed : Service
claimed = run_calls empty (start_call ∷ claim_call ∷ [])

abbrev pub begun : Service
begun = run_calls empty (start_call ∷ claim_call ∷ begin_call ∷ [])

abbrev pub ended : Service
ended = run_calls empty (start_call ∷ claim_call ∷ begin_call ∷ finish_call ∷ [])

-- The record of the run, in a service that holds it.
abbrev pub blank : RunRecord
blank = record {
  run = record {
    run_id = "";
    workflow_name = "";
    revision = 0;
    definition_digest = "";
    idempotency_key = "";
    parameters = "{}";
    context = [];
    context_version = 0;
    run_state = run_pending;
    nodes = [];
    run_error = [];
    event_sequence = 0;
    run_created_at = 0;
    run_updated_at = 0;
    run_finished_at = 0;
  };
  leases = [];
  commands = [];
}

abbrev pub or_blank : Option RunRecord → RunRecord
or_blank none = blank
or_blank (some rec) = rec

abbrev pub record_in : Service → RunRecord
record_in s = or_blank (lookup "run-01" s.runs)

abbrev pub later_calls : List (Moment × Call)
later_calls =
    (moment 5, cancels_run "run-01" "cancel" [])
    ∷ (moment 6, reconciles)
    ∷ (moment 7, starts_run "release" "second" none)
    ∷ []

abbrev pub claim : ActivityClaim
claim = record {
  claim_run_id = "run-01";
  claim_node_id = "build";
  claim_activity_id = "act-02";
  claim_operation_id = "compile";
  claim_executor_kind = "shell";
  claim_input = "{}";
  claim_attempt = 1;
  lease_token = "01";
  claim_lease_deadline = 102;
}

abbrev pub claimed_attempt : Attempt
claimed_attempt = record {
  number = 1;
  attempt_state = attempt_claimed;
  executor_id = "executor";
  lease_deadline = 102;
  started_at = 0;
  finished_at = 0;
  attempt_error = [];
}

abbrev pub claimed_activity : Activity
claimed_activity = record {
  id = "act-02";
  operation_id = "compile";
  executor_kind = "shell";
  input = "{}";
  input_hash = "{}";
  state = activity_claimed;
  result = none;
  attempts = claimed_attempt ∷ [];
  available_at = 0;
  intervention_reason = [];
  created_at = 1;
  updated_at = 2;
}

abbrev pub paused : Service
paused = run_calls started ((moment 5, pauses_run "run-01" "hold" []) ∷ [])

abbrev pub cancelled : Service
cancelled = run_calls started ((moment 5, cancels_run "run-01" "stop" []) ∷ [])

abbrev pub claimed_work : Work
claimed_work = begin (record_in claimed) (moment 5)

abbrev pub build_node : NodeRun
build_node = record {
  node_id = "build";
  node_state = node_waiting_activity;
  selected_route = "";
  activities = ("compile", claimed_activity) ∷ [];
  resolved_inputs = [];
  acquired = true;
  node_error = [];
  node_started_at = 1;
  node_finished_at = 0;
}
