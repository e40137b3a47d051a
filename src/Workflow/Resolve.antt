-- ===== src/Workflow/Resolve.antt =====
-- internal/workflow/service.go: `ResolveIntervention`, the decision on a parked activity.
pub mod Keeps
use remote_code.Workflow.Activities.{activities_code}
use remote_code.Prelude.{
  ℕ, ◌+◌, String, Bool, true, false, Option, none, some, List, [], ◌∷◌, Map, lookup, insert, delete,
  ◌==◌, if◌then◌else◌,
}
use remote_code.Workflow.Model.{
  Time, Message, Error, conflict, invalid_argument, random_failed, panicked, Result, ok, err, ◌>>=◌,
  ◌>>◌, guard, or_fail, RunState, run_cancelled, node_evaluating, node_waiting_activity,
  ActivityState, activity_scheduled, activity_running, activity_needs_intervention,
  activity_succeeded, activity_failed, attempt_running, attempt_succeeded, attempt_failed, Attempt,
  ActivityResult, intervention_resolved, InterventionAction, intervention_continue,
  intervention_retry, intervention_resolve, intervention_fail, intervention_cancel,
  intervention_unknown, InterventionResolution, ActivityClaim, LeaseRecord,
}
use remote_code.Workflow.Definition.{Config, identifier_pattern}
use remote_code.Workflow.Script.{Platform, resolution_payload}
use remote_code.Workflow.Journal.{
  Work, with_leases, bounded_message, append_event, update_last, get_last, end_attempt, finish_run,
  fail_node,
}
use remote_code.Workflow.Advance.{advance}
use remote_code.Workflow.Service.{
  Service, Moment, peers_of, begin, mutable_record, commit, register_command, definition_of,
  is_run_running,
}
use remote_code.Workflow.Activities.{Found, find_activity, put_found, normalize_activity_result}

-- `randomToken`: the hexadecimal digits of the bytes read, and their hash.
unfoldable pub random_token : Platform → Work → Result (String × String × Work)
random_token p w = elim w.entropy [
  | [] ↦ err random_failed
  | token ∷ rest ↦ ok (token, p.digest token, record w { entropy = rest })
]

-- The work of a resolution, and the claim that `continue` hands out.
pub record Resolved : Type 0 where
  pub work : Work
  pub claim : Option ActivityClaim

pub started_or : Time → Attempt → Attempt
started_or now a = if a.started_at == 0 then record a { started_at = now } else a

resolve_continue : Service → Moment → String → Work → Found → Result Resolved
resolve_continue s m run_id w f = do
  (token, hash, w') ← random_token s.platform w
  let until = m.now + s.config.lease_duration
  attempts' ←
      or_fail
        (update_last
          (λ a.
            started_or m.now (record a { attempt_state = attempt_running; lease_deadline = until }))
          f.activity.attempts)
        panicked
  current ← or_fail (get_last attempts') panicked
  let lease : LeaseRecord = record {
    lease_attempt = current.number;
    token_hash = hash;
    deadline = until;
  }
  ok (record {
    work =
        put_found (with_leases w' (insert f.activity.id lease w'.rec.leases)) f f.node
          (record f.activity {
            state = activity_running;
            intervention_reason = [];
            updated_at = m.now;
            attempts = attempts';
          });
    claim = some (record {
      claim_run_id = run_id;
      claim_node_id = f.node.node_id;
      claim_activity_id = f.activity.id;
      claim_operation_id = f.activity.operation_id;
      claim_executor_kind = f.activity.executor_kind;
      claim_input = f.activity.input;
      claim_attempt = current.number;
      lease_token = token;
      claim_lease_deadline = until;
    });
  })

resolve_retry : Moment → Message → Work → Found → Result Resolved
resolve_retry m message w f = do
  attempts' ←
      or_fail
        (update_last (end_attempt attempt_failed (bounded_message message) m.now)
          f.activity.attempts)
        panicked
  ok (record {
    work =
        put_found (with_leases w (delete f.activity.id w.rec.leases)) f
          (record f.node { node_state = node_waiting_activity })
          (record f.activity {
            state = activity_scheduled;
            available_at = m.now;
            intervention_reason = [];
            updated_at = m.now;
            attempts = attempts';
          });
    claim = none;
  })

resolve_result : Moment → Option ActivityResult → Work → Found → Result Resolved
resolve_result m given w f = do
  raw ← or_fail given invalid_argument
  r ← normalize_activity_result raw
  attempts' ←
      or_fail
        (update_last (λ a. record a { attempt_state = attempt_succeeded; finished_at = m.now })
          f.activity.attempts)
        panicked
  ok (record {
    work =
        put_found (with_leases w (delete f.activity.id w.rec.leases)) f
          (record f.node { node_state = node_evaluating })
          (record f.activity {
            state = activity_succeeded;
            result = some r;
            intervention_reason = [];
            updated_at = m.now;
            attempts = attempts';
          });
    claim = none;
  })

resolve_fail : Moment → Message → Work → Found → Result Resolved
resolve_fail m message w f = do
  attempts' ←
      or_fail
        (update_last (end_attempt attempt_failed (bounded_message message) m.now)
          f.activity.attempts)
        panicked
  let activity' = record f.activity {
    state = activity_failed;
    intervention_reason = [];
    updated_at = m.now;
    attempts = attempts';
  }
  let node' = record f.node { activities = insert f.operation_key activity' f.node.activities }
  ok (record {
    work =
        fail_node (with_leases w (delete f.activity.id w.rec.leases)) f.node_key node'
          (bounded_message message) m.now;
    claim = none;
  })

-- `activity.UpdatedAt = now` after `finishRun`, through the same pointer.
touch : Moment → Found → Work → Result Work
touch m f w = do
  node ← or_fail (lookup f.node_key w.rec.run.nodes) panicked
  activity ← or_fail (lookup f.operation_key node.activities) panicked
  ok (put_found w f node (record activity { updated_at = m.now }))

resolve_cancel : Moment → Message → Work → Found → Result Resolved
resolve_cancel m message w f = do
  w' ← touch m f (finish_run w run_cancelled (bounded_message message) m.now)
  ok (record { work = w'; claim = none })

resolve_by :
    InterventionAction
    → Service
    → Moment
    → String
    → InterventionResolution
    → Work
    → Found
    → Result Resolved
resolve_by intervention_continue s m run_id r w f = resolve_continue s m run_id w f
resolve_by intervention_retry s m run_id r w f = resolve_retry m r.resolution_message w f
resolve_by intervention_resolve s m run_id r w f = resolve_result m r.resolution_result w f
resolve_by intervention_fail s m run_id r w f = resolve_fail m r.resolution_message w f
resolve_by intervention_cancel s m run_id r w f = resolve_cancel m r.resolution_message w f
resolve_by (intervention_unknown _) s m run_id r w f = err invalid_argument

is_parked : ActivityState → Bool
is_parked activity_needs_intervention = true
is_parked _ = false

resolve_body : Service → Moment → String → InterventionResolution → Work → Found → Result Resolved
resolve_body s m run_id r w f = do
  guard (is_parked f.activity.state) conflict
  v ← resolve_by r.action s m run_id r w f
  let w' =
      append_event v.work m.now (intervention_resolved r.action r.principal) f.node.node_id
        f.activity.id
  if is_run_running w'.rec.run.run_state
      then (do
        definition ← definition_of s run_id
        w'' ← advance (peers_of s) definition m.now w'
        ok (record { work = w''; claim = v.claim }))
      else ok (record { work = w'; claim = v.claim })

pub resolve_intervention :
    Service
    → Moment
    → String
    → String
    → String
    → InterventionResolution
    → Result (Service × Option ActivityClaim)
resolve_intervention s m run_id activity_id command r = do
  guard (identifier_pattern r.principal) invalid_argument
  rec ← mutable_record s run_id
  (duplicate, rec') ←
      register_command s.platform rec command activity_id "resolve-intervention"
        (resolution_payload r)
  if duplicate then ok (s, none) else (do
    f ← find_activity rec' activity_id
    v ← resolve_body s m run_id r (begin rec' m) f
    s' ← commit s v.work m
    ok (s', v.claim))

-- Everything that a run of this part computes with.
unfoldable pub resolve_code : Unit {0}
unfolding activities_code random_token started_or resolve_continue resolve_retry resolve_result
    resolve_fail touch resolve_cancel resolve_by is_parked resolve_body resolve_intervention
resolve_code = tt
