-- ===== src/Workflow/Advance.antt =====
-- internal/workflow/service.go: `advance`, the scheduler of a run. Each round settles the pending
-- nodes whose inputs are known, then evaluates the ready ones, until a round changes nothing.
use remote_code.Workflow.Journal.{journal_code}
use remote_code.Workflow.Script.{script_code}
pub mod Keeps
pub mod Measure
pub mod Settles
pub mod Terminates
pub mod Evaluates
use remote_code.Prelude.{
  join_text, ℕ, zero, suc, ◌+◌, String, Bool, true, false, not, Option, none, some, List, [], ◌∷◌,
  Map, lookup, insert, delete, str_eq, ◌&&◌, ◌||◌, ltb, leb, ◌==◌, if◌then◌else◌, length, codes,
}
use remote_code.Workflow.Model.{
  Time, Message, Result, ok, err, ◌>>=◌, or_fail, panicked, random_failed, fuel_exhausted, RunState,
  run_running, run_succeeded, run_failed, NodeState, node_pending, node_ready, node_evaluating,
  node_waiting_activity, node_waiting_retry, node_needs_intervention, node_succeeded, node_skipped,
  JoinPolicy, join_all, join_any, TerminalOutcome, terminal_none, terminal_succeeded, ResourceMode,
  resource_exclusive, ActivityState, activity_scheduled, activity_waiting_retry,
  activity_needs_intervention, Activity, NodeRun, RunRecord, node_ready_event, node_skipped_event,
  node_started, terminal_reached, node_succeeded_event, activity_scheduled_event, context_updated,
  terminal_node_state, result_code,
}
use remote_code.Workflow.Definition.{CompiledDefinition, CompiledNode, ResourceClaim, route_targets}
use remote_code.Workflow.Script.{
  Platform, ScriptOutcome, finished, stopped, ScriptResult, suspend_activity, Suspension,
  run_script,
}
use remote_code.Workflow.Journal.{
  Work, with_run, put_node, put_activity, bounded_message, append_event, finish_run, fail_node,
}

-- What `advance` reads of the service: its platform and the other runs, with their definitions.
pub record Peers : Type 0 where
  pub platform : Platform
  pub peer_runs : Map RunRecord
  pub peer_definitions : Map CompiledDefinition

-- Settling of pending nodes.

pub record Inputs : Type 0 where
  pub resolved : Map Bool
  pub selected : ℕ
  pub newly : Bool

abbrev count_true : Bool → ℕ → ℕ
count_true true n = suc n
count_true false n = n

is_node_succeeded : NodeState → Bool
is_node_succeeded node_succeeded = true
is_node_succeeded _ = false

abbrev or_empty : Option (List String) → List String
or_empty none = []
or_empty (some targets) = targets

-- `source.State == NodeSucceeded && routeTargets(…)`
input_value : CompiledDefinition → String → String → NodeRun → Result Bool
input_value definition source target node =
    if is_node_succeeded node.node_state
    then (do
      compiled ← or_fail (lookup source definition.compiled_nodes) panicked
      ok (
          route_targets (or_empty (lookup node.selected_route compiled.node_definition.routes))
            target))
    else ok false

resolve_at :
    Option Bool → CompiledDefinition → Map NodeRun → String → String → Inputs → Result Inputs
resolve_at (some v) definition nodes target source inputs =
    ok (record inputs { selected = count_true v inputs.selected })
resolve_at none definition nodes target source inputs = do
  node ← or_fail (lookup source nodes) panicked
  if terminal_node_state node.node_state
      then (do
        v ← input_value definition source target node
        ok (record {
          resolved = insert source v inputs.resolved;
          selected = count_true v inputs.selected;
          newly = true;
        }))
      else ok inputs

-- The body of the loop over the incoming edges.
resolve_input : CompiledDefinition → Map NodeRun → String → String → Inputs → Result Inputs
resolve_input definition nodes target source inputs =
    resolve_at (lookup source inputs.resolved) definition nodes target source inputs

resolve_inputs : CompiledDefinition → Map NodeRun → String → List String → Inputs → Result Inputs
resolve_inputs definition nodes target [] inputs = ok inputs
resolve_inputs definition nodes target (source ∷ sources) inputs =
    resolve_input definition nodes target source inputs >>= λ inputs'.
    resolve_inputs definition nodes target sources inputs'

-- The switch on the join policy: the new state of the node, if it leaves the pending state.
pub join_decision : JoinPolicy → ℕ → ℕ → ℕ → Option NodeState
join_decision join_any selected resolved incoming =
    if ltb 0 selected
    then some node_ready
    else if resolved == incoming && selected == 0
    then some node_skipped
    else none
join_decision join_all selected resolved incoming =
    if resolved == incoming && selected == incoming
    then some node_ready
    else if resolved == incoming && not (selected == incoming)
    then some node_skipped
    else none

is_pending : NodeState → Bool
is_pending node_pending = true
is_pending _ = false

-- A round's record and whether it has changed anything.
pub record Round : Type 0 where
  pub work : Work
  pub changed : Bool

apply_join : Work → Time → String → NodeRun → Bool → Option NodeState → Round
apply_join w now key node newly none = record { work = put_node w key node; changed = newly }
apply_join w now key node newly (some node_skipped) = record {
  work =
      append_event
        (put_node w key (record node { node_state = node_skipped; node_finished_at = now })) now
        node_skipped_event key "";
  changed = true;
}
apply_join w now key node newly (some state) = record {
  work =
      append_event (put_node w key (record node { node_state = state })) now node_ready_event key
        "";
  changed = true;
}

abbrev incoming_of : CompiledDefinition → String → List String
incoming_of definition key = or_empty (lookup key definition.incoming)

settle_pending : CompiledDefinition → Time → Work → String → NodeRun → Result Round
settle_pending definition now w key node = do
  inputs ←
      resolve_inputs definition w.rec.run.nodes key (incoming_of definition key)
        (record { resolved = node.resolved_inputs; selected = 0; newly = false })
  compiled ← or_fail (lookup key definition.compiled_nodes) panicked
  ok (
      apply_join w now key (record node { resolved_inputs = inputs.resolved }) inputs.newly
        (join_decision compiled.node_definition.join inputs.selected (length inputs.resolved)
          (length (incoming_of definition key))))

settle_node : CompiledDefinition → Time → Round → String → Result Round
settle_node definition now r key = do
  node ← or_fail (lookup key r.work.rec.run.nodes) panicked
  if is_pending node.node_state
      then (do
        r' ← settle_pending definition now r.work key node
        ok (record r' { changed = r.changed || r'.changed }))
      else ok r

pub settle_nodes : CompiledDefinition → Time → List String → Round → Result Round
settle_nodes definition now [] r = ok r
settle_nodes definition now (key ∷ ks) r =
    settle_node definition now r key >>= λ r'. settle_nodes definition now ks r'

-- Resources and parallelism.

acquired_count : Map NodeRun → ℕ
acquired_count [] = 0
acquired_count ((_, node) ∷ m) = count_true node.acquired (acquired_count m)

is_exclusive : ResourceMode → Bool
is_exclusive resource_exclusive = true
is_exclusive _ = false

claims_clash : ResourceClaim → List ResourceClaim → Bool
claims_clash held [] = false
claims_clash held (requested ∷ rest) =
    str_eq held.resource_key requested.resource_key
      && (is_exclusive held.mode || is_exclusive requested.mode)
    || claims_clash held rest

any_clash : List ResourceClaim → List ResourceClaim → Bool
any_clash [] claims = false
any_clash (held ∷ rest) claims = claims_clash held claims || any_clash rest claims

pub resource_conflict : Map NodeRun → CompiledDefinition → List ResourceClaim → Result Bool
resource_conflict [] definition claims = ok false
resource_conflict ((key, node) ∷ m) definition claims =
    let rest = resource_conflict m definition claims in
    if node.acquired
    then (do
      compiled ← or_fail (lookup key definition.compiled_nodes) panicked
      if any_clash compiled.node_definition.resources claims then ok true else rest)
    else rest

is_running : RunState → Bool
is_running run_running = true
is_running _ = false

-- The loop of `resourcesAvailable` over the runs of the service, with the candidate in the place of
-- its old record; the flag says that the candidate has been seen.
peers_conflict :
    Map RunRecord
    → Map CompiledDefinition
    → RunRecord
    → CompiledDefinition
    → List ResourceClaim
    → Bool
    → Result Bool
peers_conflict [] definitions candidate own claims seen =
    if seen then ok false else resource_conflict candidate.run.nodes own claims
peers_conflict ((key, other) ∷ m) definitions candidate own claims seen =
    let rest = peers_conflict m definitions candidate own claims in
    if str_eq key candidate.run.run_id
    then (if is_running candidate.run.run_state
        then (do
          b ← resource_conflict candidate.run.nodes own claims
          if b then ok true else rest true)
        else rest true)
    else if is_running other.run.run_state
    then (do
      definition ← or_fail (lookup key definitions) panicked
      b ← resource_conflict other.run.nodes definition claims
      if b then ok true else rest seen)
    else rest seen

resources_available : Peers → RunRecord → CompiledDefinition → List ResourceClaim → Result Bool
resources_available peers candidate own [] = ok true
resources_available peers candidate own (claim ∷ claims) = do
  b ← peers_conflict peers.peer_runs peers.peer_definitions candidate own (claim ∷ claims) false
  ok (not b)

-- Evaluation of a node.

-- How an evaluation ends: the loop over the nodes goes on, or `advance` returns.
pub data Progress : Type 0 where
  going : Round → Progress
  returned : Work → Progress

deleted_keys : Map Bool → Map String → List String
deleted_keys [] context = []
deleted_keys ((k, _) ∷ ks) context = elim (lookup k context) [
  | none ↦ deleted_keys ks context
  | some _ ↦ k ∷ deleted_keys ks (delete k context)
]

apply_deletes : Map Bool → Map String → Map String
apply_deletes [] context = context
apply_deletes ((k, _) ∷ ks) context = apply_deletes ks (delete k context)

is_new_value : String → Option String → Bool
is_new_value v none = true
is_new_value v (some current) = not (str_eq current v)

set_keys : Map String → Map String → List String
set_keys [] context = []
set_keys ((k, v) ∷ ws) context =
    let rest = set_keys ws (insert k v context) in
    if is_new_value v (lookup k context) then k ∷ rest else rest

apply_writes : Map String → Map String → Map String
apply_writes [] context = context
apply_writes ((k, v) ∷ ws) context = apply_writes ws (insert k v context)

is_empty : List String → Bool
is_empty [] = true
is_empty (_ ∷ _) = false

pub apply_context_changes : Work → String → Map String → Map Bool → Time → Work
apply_context_changes w key writes deletes now =
    let context' = apply_deletes deletes w.rec.run.context in
    let set = set_keys writes context' in
    let deleted = deleted_keys deletes w.rec.run.context in
    if is_empty set && is_empty deleted
    then w
    else append_event
        (with_run w (record w.rec.run {
          context = apply_writes writes context';
          context_version = w.rec.run.context_version + 1;
        }))
        now (context_updated (w.rec.run.context_version + 1) set deleted) key ""

waiting_state : ActivityState → NodeState
waiting_state activity_waiting_retry = node_waiting_retry
waiting_state activity_needs_intervention = node_needs_intervention
waiting_state _ = node_waiting_activity

new_activity : Suspension → String → Time → Activity
new_activity s id now = record {
  id = id;
  operation_id = s.suspended_operation;
  executor_kind = s.suspended_kind;
  input = s.suspended_input;
  input_hash = s.suspended_hash;
  state = activity_scheduled;
  result = none;
  attempts = [];
  available_at = 0;
  intervention_reason = [];
  created_at = now;
  updated_at = now;
}

-- `randomIdentifier`, with the hexadecimal digits of the bytes that were read.
pub random_identifier : String → Work → Result (String × Work)
random_identifier kind w = elim w.entropy [
  | [] ↦ err random_failed
  | digits ∷ rest ↦ ok (join_text kind (join_text "-" digits), record w { entropy = rest })
]

suspend_node : Suspension → Work → String → NodeRun → Time → Result Round
suspend_node s w key node now =
    if s.existing
    then (do
      activity ← or_fail (lookup s.suspended_operation node.activities) panicked
      ok (record {
        work = put_node w key (record node { node_state = waiting_state activity.state });
        changed = true;
      }))
    else (do
      (id, w') ← random_identifier "act" w
      let scheduled = record node { node_state = node_waiting_activity }
      ok (record {
        work =
            append_event
              (put_activity w' key scheduled s.suspended_operation (new_activity s id now)) now
              activity_scheduled_event key id;
        changed = true;
      }))

complete_node : ScriptResult → Work → String → NodeRun → Time → Round
complete_node result w key node now = record {
  work =
      append_event
        (put_node (apply_context_changes w key result.context_writes result.context_deletes now) key
          (record node {
            node_state = node_succeeded;
            selected_route = result.route;
            acquired = false;
            node_finished_at = now;
          }))
        now (node_succeeded_event result.route) key "";
  changed = true;
}

conclude : Platform → Work → String → NodeRun → Time → ScriptOutcome → Result Progress
conclude p w key node now (finished result) = ok (going (complete_node result w key node now))
conclude p w key node now (stopped (suspend_activity s)) = do
  r ← suspend_node s w key node now
  ok (going r)
conclude p w key node now (stopped e) =
    ok (returned (fail_node w key node (bounded_message (p.render e)) now))

node_summaries : Map NodeRun → Map (NodeState × String)
node_summaries [] = []
node_summaries ((k, node) ∷ m) =
    let rest = node_summaries m in
    if terminal_node_state node.node_state
    then (k, (node.node_state, node.selected_route)) ∷ rest
    else rest

run_node : Peers → CompiledNode → Time → Work → String → NodeRun → Result Progress
run_node peers compiled now w key node = conclude peers.platform w key node now (
    run_script peers.platform node compiled w.rec.run.parameters w.rec.run.context
      (node_summaries w.rec.run.nodes))

failed_terminal_message : Message
failed_terminal_message = codes "workflow reached failed terminal"

no_terminal_message : Message
no_terminal_message = codes "workflow completed without reaching a terminal node"

reach_terminal : TerminalOutcome → Time → Work → String → NodeRun → Work
reach_terminal outcome now w key node =
    let reached =
      append_event
        (put_node w key (record node {
          node_state = node_succeeded;
          node_started_at = now;
          node_finished_at = now;
        }))
        now (terminal_reached outcome) key "" in
    elim outcome [
      | terminal_succeeded ↦ finish_run reached run_succeeded [] now
      | _ ↦ finish_run reached run_failed failed_terminal_message now
    ]

started_at_or : Time → Time → Time
started_at_or at now = if at == 0 then now else at

-- A node in READY takes a slot and its resources if it can, and is evaluated.
start_node :
    Peers → CompiledDefinition → CompiledNode → Time → Round → String → NodeRun → Result Progress
start_node peers definition compiled now r key node =
    if leb definition.max_parallelism (acquired_count r.work.rec.run.nodes)
    then ok (going r)
    else (do
      free ← resources_available peers r.work.rec definition compiled.node_definition.resources
      if free
          then (let node' = record node {
            node_state = node_evaluating;
            acquired = true;
            node_started_at = started_at_or node.node_started_at now;
          } in
              run_node peers compiled now
                (append_event (put_node r.work key node') now node_started key "") key node')
          else ok (going r))

evaluate_by_state :
    NodeState
    → Peers
    → CompiledDefinition
    → CompiledNode
    → Time
    → Round
    → String
    → NodeRun
    → Result Progress
evaluate_by_state node_ready peers definition compiled now r key node =
    start_node peers definition compiled now r key node
evaluate_by_state _ peers definition compiled now r key node =
    run_node peers compiled now r.work key node

evaluate_compiled :
    TerminalOutcome
    → Peers
    → CompiledDefinition
    → CompiledNode
    → Time
    → Round
    → String
    → NodeRun
    → Result Progress
evaluate_compiled terminal_none peers definition compiled now r key node =
    evaluate_by_state node.node_state peers definition compiled now r key node
evaluate_compiled outcome peers definition compiled now r key node =
    ok (returned (reach_terminal outcome now r.work key node))

is_evaluable : NodeState → Bool
is_evaluable node_ready = true
is_evaluable node_evaluating = true
is_evaluable _ = false

abbrev merge_changed : Bool → Progress → Progress
merge_changed before (going r) = going (record r { changed = before || r.changed })
merge_changed before (returned w) = returned w

evaluate_node : Peers → CompiledDefinition → Time → Round → String → Result Progress
evaluate_node peers definition now r key = do
  node ← or_fail (lookup key r.work.rec.run.nodes) panicked
  if is_evaluable node.node_state
      then (do
        compiled ← or_fail (lookup key definition.compiled_nodes) panicked
        p ←
            evaluate_compiled compiled.node_definition.terminal peers definition compiled now r key
              node
        ok (merge_changed r.changed p))
      else ok (going r)

and_then : Progress → (Round → Result Progress) → Result Progress
and_then (going r) k = k r
and_then (returned w) k = ok (returned w)

pub evaluate_nodes : Peers → CompiledDefinition → Time → List String → Round → Result Progress
evaluate_nodes peers definition now [] r = ok (going r)
evaluate_nodes peers definition now (key ∷ ks) r = evaluate_node peers definition now r key >>= λ p.
    and_then p (λ r'. evaluate_nodes peers definition now ks r')

all_terminal : Map NodeRun → Bool
all_terminal [] = true
all_terminal ((_, node) ∷ m) = terminal_node_state node.node_state && all_terminal m

-- The end of a round that changed nothing.
finish_if_stuck : Work → Time → Work
finish_if_stuck w now =
    if all_terminal w.rec.run.nodes then finish_run w run_failed no_terminal_message now else w

-- The end of a round: another one, or the return.
next_round : Bool → Time → Work → (Work → Result Work) → Result Work
next_round true now w again = again w
next_round false now w again = ok (finish_if_stuck w now)

after_round : Time → Progress → (Work → Result Work) → Result Work
after_round now (returned w) again = ok w
after_round now (going r) again = next_round r.changed now r.work again

-- How much a node can still do before it waits or ends.
abbrev pub unresolved_one : Option Bool → ℕ
unresolved_one none = 1
unresolved_one (some v) = 0

pub unresolved : List String → Map Bool → ℕ
unresolved [] resolved = 0
unresolved (source ∷ sources) resolved =
    unresolved_one (lookup source resolved) + unresolved sources resolved

weight_of_state : NodeState → ℕ → ℕ
weight_of_state node_pending n = n + 2
weight_of_state node_ready n = 1
weight_of_state node_evaluating n = 1
weight_of_state _ n = 0

pub weight : List String → Option NodeRun → ℕ
weight sources none = 0
weight sources (some node) =
    weight_of_state node.node_state (unresolved sources node.resolved_inputs)

pub measure_of : CompiledDefinition → List String → Map NodeRun → ℕ
measure_of definition [] nodes = 0
measure_of definition (key ∷ ks) nodes =
    weight (incoming_of definition key) (lookup key nodes) + measure_of definition ks nodes

-- A bound on the rounds of `advance`.
pub advance_measure : CompiledDefinition → RunRecord → ℕ
advance_measure definition rec = measure_of definition definition.order rec.run.nodes

pub advance_rounds : ℕ → Peers → CompiledDefinition → Time → Work → Result Work
advance_rounds zero peers definition now w = err fuel_exhausted
advance_rounds (suc fuel) peers definition now w =
    if is_running w.rec.run.run_state
    then (do
      r ← settle_nodes definition now definition.order (record { work = w; changed = false })
      p ← evaluate_nodes peers definition now definition.order r
      after_round now p (λ w'. advance_rounds fuel peers definition now w'))
    else ok w

-- `advance` with rounds enough.
pub advance : Peers → CompiledDefinition → Time → Work → Result Work
advance peers definition now w =
    advance_rounds (suc (advance_measure definition w.rec)) peers definition now w

-- Everything that a run of this part computes with.
unfoldable pub advance_code : Unit {0}
unfolding journal_code script_code route_targets result_code lookup insert delete is_node_succeeded
    input_value resolve_at resolve_input resolve_inputs join_decision is_pending apply_join
    settle_pending settle_node settle_nodes acquired_count is_exclusive claims_clash any_clash
    resource_conflict is_running peers_conflict resources_available deleted_keys apply_deletes
    is_new_value set_keys apply_writes is_empty apply_context_changes waiting_state new_activity
    random_identifier suspend_node complete_node conclude node_summaries run_node
    failed_terminal_message no_terminal_message reach_terminal started_at_or start_node
    evaluate_by_state evaluate_compiled is_evaluable evaluate_node and_then evaluate_nodes
    all_terminal finish_if_stuck next_round after_round unresolved weight_of_state weight measure_of
    advance_measure advance_rounds advance
advance_code = tt
