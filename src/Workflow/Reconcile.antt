-- ===== src/Workflow/Reconcile.antt =====
-- internal/workflow/service.go: `Reconcile`, which times nodes out, releases due retries and ends
-- attempts whose lease has run out. The order of the source's map iterations is that of the entries.
pub mod Keeps
use remote_code.Workflow.Claim.{claim_code}
use remote_code.Prelude.{
  ℕ, ◌+◌, String, Bool, true, false, not, Option, none, some, List, [], ◌∷◌, Map, keys, lookup,
  insert, ◌&&◌, ◌||◌, ltb, leb, ◌==◌, if◌then◌else◌, sort_strings, codes,
}
use remote_code.Workflow.Model.{
  Time, Message, Error, shutting_down, panicked, Result, ok, err, ◌>>=◌, or_fail,
  node_waiting_activity, ActivityState, activity_scheduled, activity_claimed, activity_running,
  activity_waiting_retry, attempt_lost, Activity, NodeRun, activity_retry_ready, LeaseRecord,
  RunRecord, terminal_run_state,
}
use remote_code.Workflow.Definition.{Config, CompiledDefinition}
use remote_code.Workflow.Journal.{Work, put_activity, append_event, fail_node, fail_current_attempt}
use remote_code.Workflow.Advance.{advance}
use remote_code.Workflow.Service.{
  Service, Moment, peers_of, begin, commit, definition_of, is_run_running,
}

timeout_message : Message
timeout_message = codes "workflow node timeout exceeded"

expired_message : Message
expired_message = codes "activity lease expired"

-- A pass over a record, and whether it has changed anything.
pub record Pass : Type 0 where
  pub work : Work
  pub changed : Bool

abbrev lease_is_over : Option LeaseRecord → Time → Bool
lease_is_over none now = true
lease_is_over (some lease) now = lease.deadline == 0 || leb lease.deadline now

release_retry : Time → Pass → String → NodeRun → String → Activity → Pass
release_retry now p key node operation activity =
    let released =
      append_event
        (put_activity p.work key (record node { node_state = node_waiting_activity }) operation
          (record activity { state = activity_scheduled; available_at = 0; updated_at = now }))
        now activity_retry_ready node.node_id activity.id in
    if leb activity.available_at now then record { work = released; changed = true } else p

expire_lease :
    Config → CompiledDefinition → Time → Pass → String → NodeRun → String → Activity → Result Pass
expire_lease config definition now p key node operation activity =
    if lease_is_over (lookup activity.id p.work.rec.leases) now
    then (do
      w ←
          fail_current_attempt config definition p.work key node operation activity attempt_lost
            expired_message now
      ok (record { work = w; changed = true }))
    else ok p

reconcile_by_state :
    ActivityState
    → Config
    → CompiledDefinition
    → Time
    → Pass
    → String
    → NodeRun
    → String
    → Activity
    → Result Pass
reconcile_by_state activity_waiting_retry config definition now p key node operation activity =
    ok (release_retry now p key node operation activity)
reconcile_by_state activity_claimed config definition now p key node operation activity =
    expire_lease config definition now p key node operation activity
reconcile_by_state activity_running config definition now p key node operation activity =
    expire_lease config definition now p key node operation activity
reconcile_by_state _ config definition now p key node operation activity = ok p

-- The loop over the activities of a node, each read through its pointer when its turn comes.
reconcile_activities :
    Config → CompiledDefinition → Time → String → List String → Pass → Result Pass
reconcile_activities config definition now key [] p = ok p
reconcile_activities config definition now key (operation ∷ rest) p =
    or_fail (lookup key p.work.rec.run.nodes) panicked >>= λ node.
    or_fail (lookup operation node.activities) panicked >>= λ activity.
    reconcile_by_state activity.state config definition now p key node operation activity >>= λ p'.
    reconcile_activities config definition now key rest p'

pub is_timed_out : ℕ → Time → NodeRun → Bool
is_timed_out timeout now node =
    node.acquired && not (node.node_started_at == 0) && leb (node.node_started_at + timeout) now

-- The loop over the nodes; a node that timed out ends it.
pub reconcile_nodes : Config → CompiledDefinition → Time → List String → Pass → Result Pass
reconcile_nodes config definition now [] p = ok p
reconcile_nodes config definition now (key ∷ ks) p =
    or_fail (lookup key p.work.rec.run.nodes) panicked >>= λ node.
    or_fail (lookup node.node_id definition.compiled_nodes) panicked >>= λ compiled.
    if is_timed_out compiled.node_definition.timeout now node
    then ok (record { work = fail_node p.work key node timeout_message now; changed = true })
    else (reconcile_activities config definition now key (keys node.activities) p >>= λ p'.
        reconcile_nodes config definition now ks p')

-- The record of one run after a pass, if the pass has changed it.
pub reconcile_record : Service → Moment → CompiledDefinition → RunRecord → Result (Option Work)
reconcile_record s m definition rec = do
  p ←
      reconcile_nodes s.config definition m.now (keys rec.run.nodes)
        (record { work = begin rec m; changed = false })
  w ←
      if is_run_running p.work.rec.run.run_state
      then advance (peers_of s) definition m.now p.work
      else ok p.work
  let moved = not (w.rec.run.event_sequence == p.work.rec.run.event_sequence)
  ok (if p.changed || moved then some w else none)

abbrev commit_if : Service → Moment → Option Work → Result Service
commit_if s m none = ok s
commit_if s m (some w) = commit s w m

reconcile_run : Service → Moment → String → Result Service
reconcile_run s m run_id = do
  rec ← or_fail (lookup run_id s.runs) panicked
  if terminal_run_state rec.run.run_state then ok s else (do
    definition ← definition_of s run_id
    changed ← reconcile_record s m definition rec
    commit_if s m changed)

-- The runs that were committed before an error stay committed.
reconcile_runs : Moment → List String → Service → Service × Option Error
reconcile_runs m [] s = (s, none)
reconcile_runs m (run_id ∷ ids) s = elim (reconcile_run s m run_id) [
  | err e ↦ (s, some e)
  | ok s' ↦ reconcile_runs m ids s'
]

pub reconcile : Service → Moment → Service × Option Error
reconcile s m =
    if s.closing then (s, some shutting_down) else reconcile_runs m (sort_strings (keys s.runs)) s

-- Everything that a run of this part computes with.
unfoldable pub reconcile_code : Unit {0}
unfolding claim_code timeout_message expired_message release_retry expire_lease reconcile_by_state
    reconcile_activities is_timed_out reconcile_nodes reconcile_record reconcile_run reconcile_runs
    reconcile
reconcile_code = tt
