-- ===== src/Workflow/Journal.antt =====
-- internal/workflow/service.go: the changes that every operation makes to its copy of a run record,
-- with the events that they append, from `appendEvent` to `failCurrentAttempt`.
pub mod Keeps
pub mod Backoff
pub mod Ends
use remote_code.Prelude.{
  trim_space, ℕ, zero, suc, ◌+◌, ◌-◌, ◌*◌, ◌/◌, String, Bool, true, false, Option, none, some, List,
  [], ◌∷◌, ◌++◌, Map, lookup, insert, delete, ltb, leb, if◌then◌else◌, length, take, trim_space,
}
use remote_code.Workflow.Model.{
  Time, Message, Result, ok, ◌>>=◌, or_fail, panicked, RunState, run_failed, node_failed,
  node_cancelled, node_waiting_retry, ActivityState, activity_succeeded, activity_failed,
  activity_cancelled, activity_waiting_retry, AttemptState, attempt_claimed, attempt_running,
  attempt_cancelled, Attempt, Activity, NodeRun, Run, EventType, run_ended, node_failed_event,
  activity_retry_scheduled, activity_failed_event, Event, LeaseRecord, RunRecord,
  terminal_run_state, terminal_node_state,
}
use remote_code.Workflow.Definition.{Config, CompiledDefinition}

-- An operation's copy of a record, the events that it has appended, and the random identifiers that
-- it may still draw: a failed read of the random source is an empty list.
pub record Work : Type 0 where
  pub rec : RunRecord
  pub events : List Event
  pub entropy : List String

abbrev pub with_run : Work → Run → Work
with_run w r = record w { rec = record w.rec { run = r } }

abbrev pub with_nodes : Work → Map NodeRun → Work
with_nodes w ns = with_run w (record w.rec.run { nodes = ns })

abbrev pub with_leases : Work → Map LeaseRecord → Work
with_leases w ls = record w { rec = record w.rec { leases = ls } }

abbrev pub put_node : Work → String → NodeRun → Work
put_node w key node = with_nodes w (insert key node w.rec.run.nodes)

-- Writes an activity of a node through the pointers that the source holds.
abbrev pub put_activity : Work → String → NodeRun → String → Activity → Work
put_activity w key node operation activity =
    put_node w key (record node { activities = insert operation activity node.activities })

abbrev pub max_message : ℕ
max_message = 4096

pub bounded_message : Message → Message
bounded_message message =
    let trimmed = trim_space message in
    if leb (length trimmed) max_message then trimmed else take max_message trimmed

unfoldable pub append_event : Work → Time → EventType → String → String → Work
append_event w now kind node activity =
    let event : Event = record {
      event_run_id = w.rec.run.run_id;
      sequence = w.rec.run.event_sequence + 1;
      time = now;
      event_type = kind;
      event_node_id = node;
      event_activity_id = activity;
    } in
    record (with_run w (record w.rec.run { event_sequence = w.rec.run.event_sequence + 1 })) {
      events = w.events ++ event ∷ [];
    }

-- The rounds left of the loop of `retryBackoff`.
backoff_loop : ℕ → ℕ → ℕ → ℕ
backoff_loop zero delay limit = if ltb limit delay then limit else delay
backoff_loop (suc rounds) delay limit =
    let rest = backoff_loop rounds (delay * 2) limit in
    if ltb delay limit
    then (if ltb (limit / 2) delay then limit else rest)
    else if ltb limit delay
    then limit
    else delay

pub retry_backoff : Config → ℕ → ℕ
retry_backoff config attempts =
    backoff_loop (attempts - 1) config.retry_initial_backoff config.retry_max_backoff

-- `&attempts[len(attempts)-1]`, written through.
pub update_last : (Attempt → Attempt) → List Attempt → Option (List Attempt)
update_last f [] = none
update_last f (a ∷ []) = some (f a ∷ [])
update_last f (a ∷ b ∷ r) = elim (update_last f (b ∷ r)) [ none ↦ none | some r' ↦ some (a ∷ r') ]

unfoldable pub get_last : List Attempt → Option Attempt
get_last [] = none
get_last (a ∷ []) = some a
get_last (a ∷ b ∷ r) = get_last (b ∷ r)

pub is_settled : ActivityState → Bool
is_settled activity_succeeded = true
is_settled activity_failed = true
is_settled activity_cancelled = true
is_settled _ = false

is_live_attempt : AttemptState → Bool
is_live_attempt attempt_claimed = true
is_live_attempt attempt_running = true
is_live_attempt _ = false

cancel_attempt : Time → Attempt → Attempt
cancel_attempt now a =
    if is_live_attempt a.attempt_state
    then record a { attempt_state = attempt_cancelled; finished_at = now }
    else a

cancel_last : Time → List Attempt → List Attempt
cancel_last now [] = []
cancel_last now (a ∷ []) = cancel_attempt now a ∷ []
cancel_last now (a ∷ b ∷ r) = a ∷ cancel_last now (b ∷ r)

-- The body of the loop of `finishRun` over the activities of a node.
cancel_activity : Time → Activity → Activity
cancel_activity now a = if is_settled a.state then a else record a {
  state = activity_cancelled;
  updated_at = now;
  attempts = cancel_last now a.attempts;
}

cancel_lease : Activity → Map LeaseRecord → Map LeaseRecord
cancel_lease a leases = if is_settled a.state then leases else delete a.id leases

cancel_activities : Time → Map Activity → Map LeaseRecord → Map Activity × Map LeaseRecord
cancel_activities now [] leases = ([], leases)
cancel_activities now ((k, a) ∷ m) leases =
    let (m', leases') = cancel_activities now m (cancel_lease a leases) in
    ((k, cancel_activity now a) ∷ m', leases')

cancel_node : Time → NodeRun → Map LeaseRecord → NodeRun × Map LeaseRecord
cancel_node now node leases =
    if terminal_node_state node.node_state
    then (node, leases)
    else let (activities', leases') = cancel_activities now node.activities leases in
      (
        record node {
          node_state = node_cancelled;
          acquired = false;
          node_finished_at = now;
          activities = activities';
        },
        leases',
      )

cancel_nodes : Time → Map NodeRun → Map LeaseRecord → Map NodeRun × Map LeaseRecord
cancel_nodes now [] leases = ([], leases)
cancel_nodes now ((k, node) ∷ m) leases =
    let (node', leases') = cancel_node now node leases in
    let (m', leases'') = cancel_nodes now m leases' in ((k, node') ∷ m', leases'')

-- The part of `finishRun` after its guard.
end_run : Work → RunState → Message → Time → Work
end_run w state message now =
    let (nodes', leases') = cancel_nodes now w.rec.run.nodes w.rec.leases in
    let ended = with_run (with_leases w leases') (record w.rec.run {
      nodes = nodes';
      run_state = state;
      run_error = message;
      run_finished_at = now;
    }) in
    append_event ended now (run_ended state) "" ""

pub finish_run : Work → RunState → Message → Time → Work
finish_run w state message now =
    if terminal_run_state w.rec.run.run_state then w else end_run w state message now

pub fail_node : Work → String → NodeRun → Message → Time → Work
fail_node w key node message now =
    let failed = put_node w key (record node {
      node_state = node_failed;
      acquired = false;
      node_error = message;
      node_finished_at = now;
    }) in
    finish_run (append_event failed now node_failed_event node.node_id "") run_failed message now

abbrev pub end_attempt : AttemptState → Message → Time → Attempt → Attempt
end_attempt state message now a = record a {
  attempt_state = state;
  attempt_error = message;
  finished_at = now;
}

-- The end of `failCurrentAttempt`, over the activity with its attempt ended.
retry_or_fail : Config → ℕ → Work → String → NodeRun → String → Activity → Message → Time → Work
retry_or_fail config limit w key node operation activity message now =
    if ltb (length activity.attempts) limit
    then append_event
        (put_activity w key (record node { node_state = node_waiting_retry }) operation
          (record activity {
            state = activity_waiting_retry;
            available_at = now + retry_backoff config (length activity.attempts);
          }))
        now activity_retry_scheduled node.node_id activity.id
    else let activity' = record activity { state = activity_failed } in
      let node' = record node { activities = insert operation activity' node.activities } in
      fail_node
        (append_event (put_node w key node') now activity_failed_event node.node_id activity.id) key
        node' message now

pub fail_current_attempt :
    Config
    → CompiledDefinition
    → Work
    → String
    → NodeRun
    → String
    → Activity
    → AttemptState
    → Message
    → Time
    → Result Work
fail_current_attempt config definition w key node operation activity state message now = do
  attempts' ← or_fail (update_last (end_attempt state message now) activity.attempts) panicked
  compiled ← or_fail (lookup node.node_id definition.compiled_nodes) panicked
  ok (
      retry_or_fail config compiled.node_definition.max_attempts
        (with_leases w (delete activity.id w.rec.leases)) key node operation
        (record activity { attempts = attempts'; updated_at = now }) message now)

-- Everything that a run of this part computes with.
unfoldable pub journal_code : Unit {0}
unfolding terminal_run_state terminal_node_state trim_space bounded_message append_event
    backoff_loop retry_backoff update_last get_last is_settled is_live_attempt cancel_attempt
    cancel_last cancel_activity cancel_lease cancel_activities cancel_node cancel_nodes end_run
    finish_run fail_node retry_or_fail fail_current_attempt
journal_code = tt
