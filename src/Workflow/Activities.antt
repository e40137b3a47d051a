-- ===== src/Workflow/Activities.antt =====
-- internal/workflow/service.go: the calls of the executors, `ClaimActivity` to
-- `RequestIntervention`, and `ResolveIntervention`.
pub mod Keeps
pub mod Lease
pub mod Replay
use remote_code.Workflow.Service.{service_code}
use remote_code.Prelude.{
  ℕ, zero, suc, ◌+◌, String, Bool, true, false, not, Option, none, some, List, [], ◌∷◌, ◌++◌, Map,
  keys, lookup, insert, delete, str_eq, ◌&&◌, ◌||◌, ltb, leb, ◌==◌, if◌then◌else◌, length,
  sort_strings, trim_space, all_codes,
}
use remote_code.Workflow.Model.{
  Time, Message, Error, not_found, conflict, lease_expired, capacity, shutting_down,
  invalid_argument, random_failed, encoding_failed, panicked, Result, ok, err, ◌>>=◌, ◌>>◌, guard,
  or_fail, RunState, run_running, run_cancelled, NodeState, node_evaluating, node_waiting_activity,
  node_needs_intervention, ActivityState, activity_scheduled, activity_claimed, activity_running,
  activity_waiting_retry, activity_needs_intervention, activity_succeeded, activity_failed,
  AttemptState, attempt_claimed, attempt_running, attempt_succeeded, attempt_failed, Attempt,
  ActivityResult, Activity, NodeRun, Run, activity_claimed_event, activity_started,
  activity_heartbeat, activity_completed, activity_needs_intervention_event, intervention_resolved,
  ActivityClaim, InterventionAction, intervention_continue, intervention_retry,
  intervention_resolve, intervention_fail, intervention_cancel, intervention_unknown,
  InterventionResolution, LeaseRecord, RunRecord,
}
use remote_code.Workflow.Definition.{Config, CompiledDefinition, identifier_pattern}
use remote_code.Workflow.Script.{
  Platform, Payload, attempt_payload, text_payload, result_payload, resolution_payload,
  clone_json_value,
}
use remote_code.Workflow.Journal.{
  Work, with_leases, put_node, put_activity, bounded_message, append_event, update_last, get_last,
  end_attempt, finish_run, fail_node, fail_current_attempt,
}
use remote_code.Workflow.Advance.{advance}
use remote_code.Workflow.Service.{
  Service, Moment, peers_of, begin, mutable_record, commit, register_command, definition_of,
  is_run_running,
}

-- The pointers that `findActivity` returns: the keys of an activity and what stands there.
pub record Found : Type 0 where
  pub node_key : String
  pub operation_key : String
  pub node : NodeRun
  pub activity : Activity

find_operation : String → String → NodeRun → List String → Option Found
find_operation id key node [] = none
find_operation id key node (operation ∷ rest) =
    let other = find_operation id key node rest in
    elim (lookup operation node.activities) [
      | none ↦ other
      | some activity ↦
          if str_eq activity.id id
          then some (record {
            node_key = key;
            operation_key = operation;
            node = node;
            activity = activity;
          })
          else other
    ]

abbrev or_else : Option Found → Option Found → Option Found
or_else none f = f
or_else (some f) _ = some f

find_node : String → Map NodeRun → List String → Option Found
find_node id nodes [] = none
find_node id nodes (key ∷ rest) =
    let other = find_node id nodes rest in
    elim (lookup key nodes) [
      | none ↦ other
      | some node ↦ or_else (find_operation id key node (keys node.activities)) other
    ]

pub find_activity : RunRecord → String → Result Found
find_activity rec id = or_fail (find_node id rec.run.nodes (keys rec.run.nodes)) not_found

abbrev last_has_number : Option Attempt → ℕ → Bool
last_has_number none n = false
last_has_number (some a) n = a.number == n

pub verify_lease : Platform → RunRecord → Activity → ℕ → String → Time → Result (Unit {0})
verify_lease p rec activity attempt token now = do
  lease ← or_fail (lookup activity.id rec.leases) lease_expired
  guard (lease.lease_attempt == attempt && last_has_number (get_last activity.attempts) attempt)
      lease_expired
  guard (not (lease.deadline == 0) && ltb now lease.deadline) lease_expired
  guard (str_eq (p.digest token) lease.token_hash) lease_expired

-- Who holds a lease, as an executor's call names it.
pub record Holder : Type 0 where
  pub held_activity : String
  pub held_attempt : ℕ
  pub held_token : String

-- The frame that the executors' calls share: the record, the command, the activity, the lease.
pub lease_command :
    Service
    → Moment
    → String
    → Holder
    → String
    → String
    → Payload
    → (Work → Found → Result Work)
    → Result Service
lease_command s m run_id h command action payload body = do
  rec ← mutable_record s run_id
  (duplicate, rec') ← register_command s.platform rec command h.held_activity action payload
  if duplicate then ok s else (do
    f ← find_activity rec' h.held_activity
    verify_lease s.platform rec' f.activity h.held_attempt h.held_token m.now
    w ← body (begin rec' m) f
    commit s w m)

pub is_claimed : ActivityState → Bool
is_claimed activity_claimed = true
is_claimed _ = false

pub is_held : ActivityState → Bool
is_held activity_claimed = true
is_held activity_running = true
is_held _ = false

abbrev pub put_found : Work → Found → NodeRun → Activity → Work
put_found w f node activity = put_activity w f.node_key node f.operation_key activity

-- A Go map's value for a missing key.
abbrev pub lease_or_zero : Option LeaseRecord → LeaseRecord
lease_or_zero none = record { lease_attempt = 0; token_hash = ""; deadline = 0 }
lease_or_zero (some lease) = lease

pub start_body : Moment → Work → Found → Result Work
start_body m w f =
    if is_claimed f.activity.state
    then (do
      attempts' ←
          or_fail
            (update_last (λ a. record a { attempt_state = attempt_running; started_at = m.now })
              f.activity.attempts)
            panicked
      ok (
          append_event
            (put_found w f f.node (record f.activity {
              state = activity_running;
              updated_at = m.now;
              attempts = attempts';
            }))
            m.now activity_started f.node.node_id f.activity.id))
    else err conflict

pub start_activity : Service → Moment → String → Holder → String → Result Service
start_activity s m run_id h command =
    lease_command s m run_id h command "start-activity" (attempt_payload h.held_attempt)
      (start_body m)

heartbeat_body : Config → Moment → Work → Found → Result Work
heartbeat_body config m w f =
    if is_held f.activity.state
    then (do
      let lease = lease_or_zero (lookup f.activity.id w.rec.leases)
      attempts' ←
          or_fail
            (update_last (λ a. record a { lease_deadline = m.now + config.lease_duration })
              f.activity.attempts)
            panicked
      let renewed = record lease { deadline = m.now + config.lease_duration }
      ok (
          append_event
            (put_found (with_leases w (insert f.activity.id renewed w.rec.leases)) f f.node
              (record f.activity { attempts = attempts'; updated_at = m.now }))
            m.now activity_heartbeat f.node.node_id f.activity.id))
    else err conflict

pub heartbeat_activity : Service → Moment → String → Holder → String → Result Service
heartbeat_activity s m run_id h command =
    lease_command s m run_id h command "heartbeat-activity" (attempt_payload h.held_attempt)
      (heartbeat_body s.config m)

-- The fields that `normalizeActivityResult` bounds, without a NUL.
abbrev bounded_field : Message → ℕ → Bool
bounded_field value limit = leb (length value) limit && all_codes (λ c. not (c == 0)) value

pub normalize_activity_result : ActivityResult → Result ActivityResult
normalize_activity_result r = do
  guard (not (length (trim_space r.status) == 0)) invalid_argument
  guard
      (bounded_field r.status 128
        && bounded_field r.result_code 256
        && bounded_field r.result_message 4096
        && bounded_field r.external_ref 2048)
      invalid_argument
  output' ← or_fail (clone_json_value r.output) encoding_failed
  ok (record r { output = output' })

pub complete_body :
    Service → Moment → CompiledDefinition → ActivityResult → Work → Found → Result Work
complete_body s m definition r w f =
    if is_held f.activity.state
    then (do
      attempts' ←
          or_fail
            (update_last (λ a. record a { attempt_state = attempt_succeeded; finished_at = m.now })
              f.activity.attempts)
            panicked
      advance (peers_of s) definition m.now (
          append_event
            (put_found (with_leases w (delete f.activity.id w.rec.leases)) f
              (record f.node { node_state = node_evaluating })
              (record f.activity {
                state = activity_succeeded;
                result = some r;
                updated_at = m.now;
                attempts = attempts';
              }))
            m.now activity_completed f.node.node_id f.activity.id))
    else err conflict

pub complete_activity :
    Service → Moment → String → Holder → String → ActivityResult → Result Service
complete_activity s m run_id h command given = do
  r ← normalize_activity_result given
  lease_command s m run_id h command "complete-activity" (result_payload r)
      λ w f. do definition ← definition_of s run_id; complete_body s m definition r w f

pub fail_attempt : Service → Moment → String → Holder → String → Message → Result Service
fail_attempt s m run_id h command message =
    lease_command s m run_id h command "fail-attempt" (text_payload message) λ w f. do
      definition ← definition_of s run_id
      w' ←
          fail_current_attempt s.config definition w f.node_key f.node f.operation_key f.activity
            attempt_failed (bounded_message message) m.now
      advance (peers_of s) definition m.now w'

request_body : Moment → Message → Work → Found → Result Work
request_body m reason w f =
    if is_held f.activity.state
    then (do
      let lease = lease_or_zero (lookup f.activity.id w.rec.leases)
      ok (
          append_event
            (put_found
              (with_leases w (insert f.activity.id (record lease { deadline = 0 }) w.rec.leases)) f
              (record f.node { node_state = node_needs_intervention })
              (record f.activity {
                state = activity_needs_intervention;
                intervention_reason = bounded_message reason;
                updated_at = m.now;
              }))
            m.now activity_needs_intervention_event f.node.node_id f.activity.id))
    else err conflict

pub request_intervention : Service → Moment → String → Holder → String → Message → Result Service
request_intervention s m run_id h command reason =
    lease_command s m run_id h command "request-intervention" (text_payload reason)
      (request_body m reason)

-- Everything that a run of this part computes with.
unfoldable pub activities_code : Unit {0}
unfolding service_code find_operation find_node find_activity verify_lease lease_command is_claimed
    is_held start_body start_activity heartbeat_body heartbeat_activity normalize_activity_result
    complete_body complete_activity fail_attempt request_body request_intervention
activities_code = tt
