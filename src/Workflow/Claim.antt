-- ===== src/Workflow/Claim.antt =====
-- internal/workflow/service.go: `ClaimActivity`, which gives an executor the first activity that it
-- may take, and the lease on it.
pub mod Keeps
pub mod Grants
use remote_code.Workflow.Resolve.{resolve_code}
use remote_code.Prelude.{
  ℕ, suc, ◌+◌, String, Bool, true, false, not, Option, none, some, List, [], ◌∷◌, ◌++◌, Map, keys,
  lookup, insert, str_eq, ◌&&◌, ◌||◌, ltb, leb, ◌==◌, if◌then◌else◌, length, sort_strings,
}
use remote_code.Workflow.Model.{
  Time, not_found, capacity, shutting_down, invalid_argument, panicked, Result, ok, ◌>>=◌, ◌>>◌,
  guard, or_fail, node_waiting_activity, ActivityState, activity_scheduled, activity_claimed,
  activity_waiting_retry, attempt_claimed, Attempt, Activity, NodeRun, activity_claimed_event,
  ActivityClaim, LeaseRecord, RunRecord,
}
use remote_code.Workflow.Definition.{identifier_pattern}
use remote_code.Workflow.Journal.{Work, with_leases, append_event}
use remote_code.Workflow.Service.{Service, Moment, begin, commit, definition_of, is_run_running}
use remote_code.Workflow.Activities.{Found, put_found, is_held}
use remote_code.Workflow.Resolve.{random_token}

count_held : Map Activity → ℕ
count_held [] = 0
count_held ((_, a) ∷ m) = let rest = count_held m in if is_held a.state then suc rest else rest

count_held_nodes : Map NodeRun → ℕ
count_held_nodes [] = 0
count_held_nodes ((_, node) ∷ m) = count_held node.activities + count_held_nodes m

count_held_runs : Map RunRecord → ℕ
count_held_runs [] = 0
count_held_runs ((_, rec) ∷ m) = count_held_nodes rec.run.nodes + count_held_runs m

pub active_attempt_count : Service → ℕ
active_attempt_count s = count_held_runs s.runs

is_claimable_state : ActivityState → Bool
is_claimable_state activity_scheduled = true
is_claimable_state activity_waiting_retry = true
is_claimable_state _ = false

member : String → List String → Bool
member k [] = false
member k (j ∷ js) = str_eq j k || member k js

-- The guards of the innermost loop.
pub is_claimable : List String → Time → Activity → Bool
is_claimable kinds now a =
    member a.executor_kind kinds
    && is_claimable_state a.state
    && (a.available_at == 0 || leb a.available_at now)

find_claimable : List String → Time → String → NodeRun → List String → Option Found
find_claimable kinds now key node [] = none
find_claimable kinds now key node (operation ∷ rest) =
    let other = find_claimable kinds now key node rest in
    elim (lookup operation node.activities) [
      | none ↦ other
      | some activity ↦
          if is_claimable kinds now activity
          then some (record {
            node_key = key;
            operation_key = operation;
            node = node;
            activity = activity;
          })
          else other
    ]

abbrev or_search : Option Found → Result (Option Found) → Result (Option Found)
or_search none r = r
or_search (some f) r = ok (some f)

find_in_order : List String → Time → Map NodeRun → List String → Result (Option Found)
find_in_order kinds now nodes [] = ok none
find_in_order kinds now nodes (key ∷ order) =
    let rest = find_in_order kinds now nodes order in
    or_fail (lookup key nodes) panicked >>= λ node.
    or_search (find_claimable kinds now key node (sort_strings (keys node.activities))) rest

-- The run of a claimable activity, with the activity.
pub record Candidate : Type 0 where
  pub candidate_run : String
  pub candidate_record : RunRecord
  pub candidate_found : Found

abbrev or_next :
    String → RunRecord → Option Found → Result (Option Candidate) → Result (Option Candidate)
or_next run_id rec none rest = rest
or_next run_id rec (some f) rest =
    ok (some (record { candidate_run = run_id; candidate_record = rec; candidate_found = f }))

pub find_in_runs : Service → List String → Time → List String → Result (Option Candidate)
find_in_runs s kinds now [] = ok none
find_in_runs s kinds now (run_id ∷ ids) =
    let rest = find_in_runs s kinds now ids in
    or_fail (lookup run_id s.runs) panicked >>= λ rec.
    if is_run_running rec.run.run_state
    then (definition_of s run_id >>= λ definition.
        find_in_order kinds now rec.run.nodes definition.order >>= λ found.
        or_next run_id rec found rest)
    else rest

all_identifiers : List String → Bool
all_identifiers [] = true
all_identifiers (k ∷ ks) = identifier_pattern k && all_identifiers ks

-- The claim of a found activity, on its copy of the record.
pub claim_found : Service → Moment → String → Candidate → Result (Work × ActivityClaim)
claim_found s m executor c =
    let f = c.candidate_found in
    random_token s.platform (begin c.candidate_record m) >>= λ (token, hash, w).
    let number = length f.activity.attempts + 1 in
    let until = m.now + s.config.lease_duration in
    let attempt : Attempt = record {
      number = number;
      attempt_state = attempt_claimed;
      executor_id = executor;
      lease_deadline = until;
      started_at = 0;
      finished_at = 0;
      attempt_error = [];
    } in
    let lease : LeaseRecord = record {
      lease_attempt = number;
      token_hash = hash;
      deadline = until;
    } in
    let w' =
      put_found (with_leases w (insert f.activity.id lease w.rec.leases)) f
        (record f.node { node_state = node_waiting_activity })
        (record f.activity {
          state = activity_claimed;
          updated_at = m.now;
          attempts = f.activity.attempts ++ attempt ∷ [];
        }) in
    ok (
      append_event w' m.now activity_claimed_event f.node_key f.activity.id,
      record {
        claim_run_id = c.candidate_run;
        claim_node_id = f.node_key;
        claim_activity_id = f.activity.id;
        claim_operation_id = f.activity.operation_id;
        claim_executor_kind = f.activity.executor_kind;
        claim_input = f.activity.input;
        claim_attempt = number;
        lease_token = token;
        claim_lease_deadline = until;
      },
    )

pub claim_activity : Service → Moment → String → List String → Result (Service × ActivityClaim)
claim_activity s m executor kinds = do
  guard (identifier_pattern executor) invalid_argument
  guard (all_identifiers kinds && not (length kinds == 0)) invalid_argument
  guard (not s.closing) shutting_down
  guard (ltb (active_attempt_count s) s.config.max_active_attempts) capacity
  candidate ← find_in_runs s kinds m.now (sort_strings (keys s.runs))
  c ← or_fail candidate not_found
  (w, claim) ← claim_found s m executor c
  s' ← commit s w m
  ok (s', claim)

-- Everything that a run of this part computes with.
unfoldable pub claim_code : Unit {0}
unfolding resolve_code sort_strings count_held count_held_nodes count_held_runs active_attempt_count
    is_claimable_state member is_claimable find_claimable find_in_order find_in_runs all_identifiers
    claim_found claim_activity
claim_code = tt
