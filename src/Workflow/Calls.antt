-- ===== src/Workflow/Calls.antt =====
-- internal/workflow/service.go: the calls of the service as one step function, and a sequence of
-- calls. The mutex makes the calls one after another; a call that fails changes nothing, except
-- that `Reconcile` keeps the runs that it has committed.
pub mod Keeps
pub mod Gapless
pub mod Capacity
pub mod Appends
pub mod Ended
use remote_code.Prelude.{String, Option, true, List, [], ◌∷◌}
use remote_code.Workflow.Model.{
  Message, Json, ActivityResult, InterventionResolution, Result, ok, err,
}
use remote_code.Workflow.Service.{
  Service, Moment, start_run, cancel_run, pause_run, resume_run, delete_run,
}
use remote_code.Workflow.Activities.{
  Holder, start_activity, heartbeat_activity, complete_activity, fail_attempt, request_intervention,
}
use remote_code.Workflow.Resolve.{resolve_intervention}
use remote_code.Workflow.Claim.{claim_activity}
use remote_code.Workflow.Reconcile.{reconcile, reconcile_code}

pub data Call : Type 0 where
  starts_run : String → String → Option Json → Call
  cancels_run pauses_run : String → String → Message → Call
  resumes_run : String → String → Call
  deletes_run : String → Call
  claims : String → List String → Call
  starts_activity heartbeats : String → Holder → String → Call
  completes : String → Holder → String → ActivityResult → Call
  fails_attempt requests : String → Holder → String → Message → Call
  resolves : String → String → String → InterventionResolution → Call
  reconciles begins_shutdown : Call

abbrev pub after : Service → Result Service → Service
after s (ok s') = s'
after s (err e) = s

abbrev pub after_with {ℓ} : {A : Type ℓ} → Service → Result (Service × A) → Service
after_with s (ok p) = p.0
after_with s (err e) = s

pub step : Service → Moment → Call → Service
step s m (starts_run workflow key parameters) = after_with s (start_run s m workflow key parameters)
step s m (cancels_run run_id command message) = after s (cancel_run s m run_id command message)
step s m (pauses_run run_id command message) = after s (pause_run s m run_id command message)
step s m (resumes_run run_id command) = after s (resume_run s m run_id command)
step s m (deletes_run run_id) = after s (delete_run s m run_id)
step s m (claims executor kinds) = after_with s (claim_activity s m executor kinds)
step s m (starts_activity run_id h command) = after s (start_activity s m run_id h command)
step s m (heartbeats run_id h command) = after s (heartbeat_activity s m run_id h command)
step s m (completes run_id h command result) =
    after s (complete_activity s m run_id h command result)
step s m (fails_attempt run_id h command message) =
    after s (fail_attempt s m run_id h command message)
step s m (requests run_id h command reason) =
    after s (request_intervention s m run_id h command reason)
step s m (resolves run_id activity command resolution) =
    after_with s (resolve_intervention s m run_id activity command resolution)
step s m reconciles = (reconcile s m).0
step s m begins_shutdown = record s { closing = true }

pub run_calls : Service → List (Moment × Call) → Service
run_calls s [] = s
run_calls s ((m, c) ∷ calls) = run_calls (step s m c) calls

-- Everything that a run of this part computes with.
unfoldable pub calls_code : Unit {0}
unfolding reconcile_code step run_calls
calls_code = tt
