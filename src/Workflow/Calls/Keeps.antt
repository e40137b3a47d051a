-- ===== src/Workflow/Calls/Keeps.antt =====
-- internal/workflow/service.go: every call, and every sequence of calls, keeps every predicate of
-- services that follows the rules.
use remote_code.Prelude.{String, refl, List, [], ◌∷◌}
use remote_code.Workflow.Model.{Result, ok, err}
use remote_code.Workflow.Ensures.{Ensures}
use remote_code.Workflow.Rules.{Rules}
use remote_code.Workflow.Service.{Service, Moment}
use remote_code.Workflow.Service.Keeps.{
  start_run-keeps, cancel_run-keeps, pause_run-keeps, resume_run-keeps, delete_run-keeps,
}
use remote_code.Workflow.Activities.Keeps.{
  start_activity-keeps, heartbeat_activity-keeps, complete_activity-keeps, fail_attempt-keeps,
  request_intervention-keeps,
}
use remote_code.Workflow.Resolve.Keeps.{resolve_intervention-keeps}
use remote_code.Workflow.Claim.Keeps.{claim_activity-keeps}
use remote_code.Workflow.Reconcile.Keeps.{reconcile-keeps}
use remote_code.Workflow.Calls.{
  Call, starts_run, cancels_run, pauses_run, resumes_run, deletes_run, claims, starts_activity,
  heartbeats, completes, fails_attempt, requests, resolves, reconciles, begins_shutdown, after,
  after_with, step, run_calls,
}

after-keeps :
    (P : Service → Type 0) (s : Service) (r : Result Service) → P s → Ensures P r → P (after s r)
after-keeps P s (ok s') p h = h.at s' refl
after-keeps P s (err e) p h = p

after_with-keeps :
    {A : Type 0} (P : Service → Type 0) (s : Service) (r : Result (Service × A))
    → P s
    → Ensures (λ q. P q.0) r
    → P (after_with s r)
after_with-keeps P s (ok q) p h = h.at q refl
after_with-keeps P s (err e) p h = p

-- The calls that delete no run but those that may be deleted.
abbrev pub Allows : (String → Type 0) → Call → Type 0
Allows E (deletes_run run_id) = E run_id
Allows E _ = Unit

abbrev pub AllowsAll : (String → Type 0) → List (Moment × Call) → Type 0
AllowsAll E [] = Unit
AllowsAll E ((m, c) ∷ calls) = Allows E c × AllowsAll E calls

module _ (P : Service → Type 0) (E : String → Type 0) (rules : Rules P E) where
  pub step-keeps : (s : Service) (m : Moment) (c : Call) → Allows E c → P s → P (step s m c)
  unfolding step
  step-keeps s m (starts_run workflow key parameters) a p =
      after_with-keeps P s _ p (start_run-keeps P E rules s m workflow key parameters p)
  step-keeps s m (cancels_run run_id command message) a p =
      after-keeps P s _ p (cancel_run-keeps P E rules s m run_id command message p)
  step-keeps s m (pauses_run run_id command message) a p =
      after-keeps P s _ p (pause_run-keeps P E rules s m run_id command message p)
  step-keeps s m (resumes_run run_id command) a p =
      after-keeps P s _ p (resume_run-keeps P E rules s m run_id command p)
  step-keeps s m (deletes_run run_id) a p =
      after-keeps P s _ p (delete_run-keeps P E rules s m run_id p a)
  step-keeps s m (claims executor kinds) a p =
      after_with-keeps P s _ p (claim_activity-keeps P E rules s m executor kinds p)
  step-keeps s m (starts_activity run_id h command) a p =
      after-keeps P s _ p (start_activity-keeps P E rules s m run_id h command p)
  step-keeps s m (heartbeats run_id h command) a p =
      after-keeps P s _ p (heartbeat_activity-keeps P E rules s m run_id h command p)
  step-keeps s m (completes run_id h command result) a p =
      after-keeps P s _ p (complete_activity-keeps P E rules s m run_id h command result p)
  step-keeps s m (fails_attempt run_id h command message) a p =
      after-keeps P s _ p (fail_attempt-keeps P E rules s m run_id h command message p)
  step-keeps s m (requests run_id h command reason) a p =
      after-keeps P s _ p (request_intervention-keeps P E rules s m run_id h command reason p)
  step-keeps s m (resolves run_id activity command resolution) a p =
      after_with-keeps P s _ p
        (resolve_intervention-keeps P E rules s m run_id activity command resolution p)
  step-keeps s m reconciles a p = reconcile-keeps P E rules s m p
  step-keeps s m begins_shutdown a p = rules.closes s p

  pub run_calls-keeps :
      (s : Service) (calls : List (Moment × Call)) → AllowsAll E calls → P s → P (run_calls s calls)
  unfolding run_calls
  run_calls-keeps s [] a p = p
  run_calls-keeps s ((m, c) ∷ calls) a p =
      run_calls-keeps (step s m c) calls a.1 (step-keeps s m c a.0 p)

Allows-one : (c : Call) → Allows (λ _. Unit) c
Allows-one (deletes_run run_id) = tt
Allows-one _ = tt

-- All calls are allowed where every run may be deleted.
pub allows_all : (calls : List (Moment × Call)) → AllowsAll (λ _. Unit) calls
allows_all [] = tt
allows_all ((m, c) ∷ calls) = (Allows-one c, allows_all calls)
