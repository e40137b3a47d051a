-- ===== src/Workflow/Service.antt =====
-- internal/workflow/service.go: the state of the service, its commits and the commands on runs.
-- A call that returns an error leaves the service as it was; the mutex makes each call one step.
pub mod Keeps
pub mod Effects
pub mod Registered
pub mod Replay
pub mod Starts
pub mod Active
use remote_code.Workflow.Advance.{advance_code}
use remote_code.Prelude.{
  ℕ, suc, String, Bool, true, false, Option, none, some, List, [], ◌∷◌, ◌++◌, Map, lookup, insert,
  delete, str_eq, ◌&&◌, ◌||◌, ◌==◌, ltb, if◌then◌else◌,
}
use remote_code.Workflow.Model.{
  Time, Message, Json, not_found, conflict, capacity, shutting_down, invalid_argument,
  encoding_failed, store_failed, panicked, inconsistent_index, Result, ok, err, ◌>>=◌, ◌>>◌, guard,
  or_fail, RunState, run_running, run_paused, run_cancelled, node_pending, node_ready, NodeRun,
  Event, run_started, run_paused_event, run_resumed_event, CommandRecord, RunRecord,
  terminal_run_state,
}
use remote_code.Workflow.Definition.{Config, CompiledDefinition, CompiledNode, identifier_pattern}
use remote_code.Workflow.Script.{Platform, Payload, no_payload, text_payload, clone_json_value}
use remote_code.Workflow.Journal.{
  Work, with_run, put_node, bounded_message, append_event, finish_run,
}
use remote_code.Workflow.Advance.{Peers, advance, random_identifier}

pub record IdempotencyEntry : Type 0 where
  pub entry_workflow : String
  pub entry_key : String
  pub entry_run : String

-- `stored` is what the events bucket of the database holds: a row for each run and sequence number, in
-- the order in which the rows came up.
pub record Service : Type 0 where
  pub config : Config
  pub platform : Platform
  pub registry : Map CompiledDefinition
  pub runs : Map RunRecord
  pub definitions : Map CompiledDefinition
  pub idempotency : List IdempotencyEntry
  pub stored : List Event
  pub closing : Bool

-- What a call meets outside the service: the clock, the random source, and whether the transaction
-- of the database succeeds.
pub record Moment : Type 0 where
  pub now : Time
  pub committed_at : Time
  pub random : List String
  pub store_works : Bool

abbrev pub peers_of : Service → Peers
peers_of s = record { platform = s.platform; peer_runs = s.runs; peer_definitions = s.definitions }

abbrev pub begin : RunRecord → Moment → Work
begin rec m = record { rec = rec; events = []; entropy = m.random }

pub mutable_record : Service → String → Result RunRecord
mutable_record s run_id =
    if s.closing then err shutting_down else or_fail (lookup run_id s.runs) not_found

-- Whether the two events have one key, `eventKey`.
unfoldable pub same_row : Event → Event → Bool
same_row e f = str_eq e.event_run_id f.event_run_id && e.sequence == f.sequence

-- Put an event under its key, in place of a row that stands there.
unfoldable pub put_event : Event → List Event → List Event
unfolding same_row
put_event e [] = e ∷ []
put_event e (f ∷ fs) = let rest = put_event e fs in if same_row e f then e ∷ fs else f ∷ rest

unfoldable pub put_events : List Event → List Event → List Event
put_events [] rows = rows
put_events (e ∷ es) rows = put_events es (put_event e rows)

-- `store.update` looks the run up in its bucket, which holds the records that the service has.
pub commit : Service → Work → Moment → Result Service
commit s w m = do
  let rec = record w.rec { run = record w.rec.run { run_updated_at = m.committed_at } }
  found ← or_fail (lookup rec.run.run_id s.runs) not_found
  guard m.store_works store_failed
  ok (record s { runs = insert rec.run.run_id rec s.runs; stored = put_events w.events s.stored })

abbrev pub same_command : CommandRecord → CommandRecord → Bool
same_command a b =
    str_eq a.command_activity_id b.command_activity_id
    && str_eq a.command_action b.command_action
    && str_eq a.payload_hash b.payload_hash

pub register_entry :
    RunRecord → String → CommandRecord → Option CommandRecord → Result (Bool × RunRecord)
register_entry rec command entry none =
    ok (false, record rec { commands = insert command entry rec.commands })
register_entry rec command entry (some old) =
    if same_command old entry then ok (true, rec) else err conflict

abbrev pub command_entry : Platform → String → String → Payload → CommandRecord
command_entry p activity action payload = record {
  command_activity_id = activity;
  command_action = action;
  payload_hash = p.digest (p.marshal_payload payload);
}

-- Whether the command is a duplicate, and the record that remembers it.
pub register_command :
    Platform → RunRecord → String → String → String → Payload → Result (Bool × RunRecord)
register_command p rec command activity action payload =
    if identifier_pattern command
    then register_entry rec command (command_entry p activity action payload)
        (lookup command rec.commands)
    else err invalid_argument

pub definition_of : Service → String → Result CompiledDefinition
definition_of s run_id = or_fail (lookup run_id s.definitions) panicked

-- A command on a run that is answered by the run: a duplicate changes nothing.
pub run_command :
    Service → Moment → String → String → String → Payload → (Work → Result Work) → Result Service
run_command s m run_id command action payload body = do
  rec ← mutable_record s run_id
  (duplicate, rec') ← register_command s.platform rec command "" action payload
  if duplicate then ok s else (do w ← body (begin rec' m); commit s w m)

pub cancel_body : Moment → Message → Work → Result Work
cancel_body m message w = ok (finish_run w run_cancelled (bounded_message message) m.now)

pub cancel_run : Service → Moment → String → String → Message → Result Service
cancel_run s m run_id command message =
    run_command s m run_id command "cancel-run" (text_payload message) (cancel_body m message)

pub is_run_running : RunState → Bool
is_run_running run_running = true
is_run_running _ = false

pub is_run_paused : RunState → Bool
is_run_paused run_paused = true
is_run_paused _ = false

pub pause_body : Moment → Message → Work → Result Work
pause_body m message w =
    if is_run_running w.rec.run.run_state
    then ok (
        append_event (with_run w (record w.rec.run { run_state = run_paused })) m.now
          (run_paused_event (bounded_message message)) "" "")
    else err conflict

pub pause_run : Service → Moment → String → String → Message → Result Service
pause_run s m run_id command message =
    run_command s m run_id command "pause-run" (text_payload message) (pause_body m message)

pub resume_body : Service → Moment → String → Work → Result Work
resume_body s m run_id w =
    if is_run_paused w.rec.run.run_state
    then (do
      definition ← definition_of s run_id
      advance (peers_of s) definition m.now (
          append_event (with_run w (record w.rec.run { run_state = run_running })) m.now
            run_resumed_event "" ""))
    else err conflict

pub resume_run : Service → Moment → String → String → Result Service
resume_run s m run_id command =
    run_command s m run_id command "resume-run" no_payload (resume_body s m run_id)

abbrev pub not_of_run : String → List Event → List Event
not_of_run run_id [] = []
not_of_run run_id (e ∷ es) =
    if str_eq e.event_run_id run_id then not_of_run run_id es else e ∷ not_of_run run_id es

abbrev pub without_key : String → String → List IdempotencyEntry → List IdempotencyEntry
without_key workflow key [] = []
without_key workflow key (e ∷ es) =
    if str_eq e.entry_workflow workflow && str_eq e.entry_key key
    then without_key workflow key es
    else e ∷ without_key workflow key es

-- `store.delete`, and the maps of the service.
unfoldable pub erase_run : Service → String → RunRecord → Service
erase_run s run_id rec = record s {
  runs = delete run_id s.runs;
  definitions = delete run_id s.definitions;
  idempotency =
      if str_eq rec.run.idempotency_key ""
      then s.idempotency
      else without_key rec.run.workflow_name rec.run.idempotency_key s.idempotency;
  stored = not_of_run run_id s.stored;
}

pub delete_run : Service → Moment → String → Result Service
delete_run s m run_id = if s.closing then err shutting_down else (do
  rec ← or_fail (lookup run_id s.runs) not_found
  guard (terminal_run_state rec.run.run_state) conflict
  guard m.store_works store_failed
  ok (erase_run s run_id rec))

-- Starting a run.

pub count_active : Map RunRecord → ℕ
count_active [] = 0
count_active ((_, rec) ∷ m) =
    let rest = count_active m in if terminal_run_state rec.run.run_state then rest else suc rest

unfoldable pub active_run_count : Service → ℕ
active_run_count s = count_active s.runs

pub idempotent_run : List IdempotencyEntry → String → String → Option String
idempotent_run [] workflow key = none
idempotent_run (e ∷ es) workflow key =
    if str_eq e.entry_workflow workflow && str_eq e.entry_key key
    then some e.entry_run
    else idempotent_run es workflow key

-- `cloneJSONValue` of the parameters: a nil map is the JSON null, which becomes an empty object.
clone_parameters : Option Json → Result Json
clone_parameters none = ok "{}"
clone_parameters (some parameters) = or_fail (clone_json_value parameters) encoding_failed

initial_node : String → NodeRun
initial_node id = record {
  node_id = id;
  node_state = node_pending;
  selected_route = "";
  activities = [];
  resolved_inputs = [];
  acquired = false;
  node_error = [];
  node_started_at = 0;
  node_finished_at = 0;
}

initial_nodes : Map CompiledNode → Map NodeRun
initial_nodes [] = []
initial_nodes ((id, _) ∷ m) = (id, initial_node id) ∷ initial_nodes m

initial_record : CompiledDefinition → String → String → String → Json → Time → RunRecord
initial_record definition run_id workflow key parameters now = record {
  run = record {
    run_id = run_id;
    workflow_name = workflow;
    revision = definition.definition_revision;
    definition_digest = definition.digest_text;
    idempotency_key = key;
    parameters = parameters;
    context = [];
    context_version = 0;
    run_state = run_running;
    nodes = initial_nodes definition.compiled_nodes;
    run_error = [];
    event_sequence = 0;
    run_created_at = now;
    run_updated_at = now;
    run_finished_at = 0;
  };
  leases = [];
  commands = [];
}

abbrev pub with_key : String → String → String → List IdempotencyEntry → List IdempotencyEntry
with_key workflow key run_id entries =
    if str_eq key ""
    then entries
    else record { entry_workflow = workflow; entry_key = key; entry_run = run_id } ∷ entries

is_unused : Option String → Bool
is_unused none = true
is_unused (some _) = false

create_at : Option RunRecord → Service → Work → String → String → Moment → Result Service
create_at (some _) s w workflow key m = err conflict
create_at none s w workflow key m = do
  guard (str_eq key "" || is_unused (idempotent_run s.idempotency workflow key)) conflict
  guard m.store_works store_failed
  ok (record s {
    runs = insert w.rec.run.run_id w.rec s.runs;
    idempotency = with_key workflow key w.rec.run.run_id s.idempotency;
    stored = put_events w.events s.stored;
  })

-- `store.create`, with the maps of the service
pub create : Service → Work → String → String → Moment → Result Service
create s w workflow key m = create_at (lookup w.rec.run.run_id s.runs) s w workflow key m

launch : Service → Moment → CompiledDefinition → String → String → Json → Result (Service × String)
launch s m definition workflow key parameters = do
  (run_id, w) ←
      random_identifier "run" (begin (initial_record definition "" workflow key parameters 0) m)
  let rec = initial_record definition run_id workflow key parameters m.now
  entry_node ← or_fail (lookup definition.entry rec.run.nodes) panicked
  let w' =
      put_node (record w { rec = rec }) definition.entry
        (record entry_node { node_state = node_ready })
  advanced ← advance (peers_of s) definition m.now (append_event w' m.now run_started "" "")
  s' ← create s advanced workflow key m
  ok (record s' { definitions = insert run_id definition s.definitions }, run_id)

start_fresh :
    Service
    → Moment
    → CompiledDefinition
    → String
    → String
    → Option Json
    → Result (Service × String)
start_fresh s m definition workflow key parameters = do
  guard (ltb (active_run_count s) s.config.max_active_runs) capacity
  cloned ← clone_parameters parameters
  guard (definition.parameters_valid cloned) invalid_argument
  launch s m definition workflow key cloned

start_or_replay :
    Option String
    → Service
    → Moment
    → CompiledDefinition
    → String
    → String
    → Option Json
    → Result (Service × String)
start_or_replay none s m definition workflow key parameters =
    start_fresh s m definition workflow key parameters
start_or_replay (some existing) s m definition workflow key parameters = do
  rec ← or_fail (lookup existing s.runs) inconsistent_index
  ok (s, rec.run.run_id)

-- `StartRun`; the second part of its answer is the id of the run.
pub start_run : Service → Moment → String → String → Option Json → Result (Service × String)
start_run s m workflow key parameters = if s.closing then err shutting_down else (do
  definition ← or_fail (lookup workflow s.registry) not_found
  if str_eq key "" then start_fresh s m definition workflow key parameters else (do
    guard (identifier_pattern key) invalid_argument
    start_or_replay (idempotent_run s.idempotency workflow key) s m definition workflow key
        parameters))

-- Everything that a run of this part computes with.
unfoldable pub service_code : Unit {0}
unfolding advance_code mutable_record same_row put_event put_events commit register_entry
    register_command definition_of run_command cancel_body cancel_run is_run_running is_run_paused
    pause_body pause_run resume_body resume_run erase_run delete_run count_active active_run_count
    idempotent_run clone_parameters initial_node initial_nodes initial_record is_unused create_at
    create launch start_fresh start_or_replay start_run
service_code = tt
