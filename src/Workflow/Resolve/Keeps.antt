-- ===== src/Workflow/Resolve/Keeps.antt =====
-- internal/workflow/service.go: `ResolveIntervention` keeps every predicate of services that follows
-- the rules.
use remote_code.Prelude.{◌≡◌, refl, String, List, [], ◌∷◌, Option}
use remote_code.Workflow.Model.{
  Message, Result, ok, err, ActivityResult, InterventionAction, intervention_continue,
  intervention_retry, intervention_resolve, intervention_fail, intervention_cancel,
  intervention_unknown, InterventionResolution, random_failed,
}
use remote_code.Workflow.Script.{Platform}
use remote_code.Workflow.Ensures.{
  Ensures, Ensures-ok, Ensures-err, Ensures-bind, Ensures-then, Ensures-if, Ensures-guard,
}
use remote_code.Workflow.Extends.{
  Extends, Extends-trans, Extends-quiet, Extends-with_nodes, Extends-with_leases,
  Extends-append_event,
}
use remote_code.Workflow.Rules.{Rules}
use remote_code.Workflow.Journal.{Work}
use remote_code.Workflow.Journal.Keeps.{finish_run-Extends, fail_node-Extends}
use remote_code.Workflow.Advance.Keeps.{advance-Extends}
use remote_code.Workflow.Service.{Service, Moment, begin}
use remote_code.Workflow.Service.Keeps.{register_command-run, mutable_record-lookup}
use remote_code.Workflow.Activities.{Found}
use remote_code.Workflow.Resolve.{
  Resolved, random_token, resolve_continue, resolve_retry, resolve_result, resolve_fail, touch,
  resolve_cancel, resolve_by, resolve_body, resolve_intervention,
}

-- A drawn token changes nothing but the random source.
pub random_token-Extends :
    (p : Platform) (w : Work)
    → Ensures (λ t. Extends w t.2 × (t.2.events ≡ w.events) × (t.2.rec ≡ w.rec)) (random_token p w)
unfolding random_token
random_token-Extends p w = from_entropy w.entropy
  where
    from_entropy :
        (ids : List String)
        → Ensures
            (λ t. Extends w t.2 × (t.2.events ≡ w.events) × (t.2.rec ≡ w.rec))
            (elim ids as (λ _. Result (String × String × Work)) [
              | [] ↦ err random_failed
              | token ∷ rest ↦ ok (token, p.digest token, record w { entropy = rest })
            ])
    from_entropy [] = Ensures-err random_failed
    from_entropy (token ∷ rest) =
        Ensures-ok (token, p.digest token, record w { entropy = rest })
          (
            Extends-quiet w (record w { entropy = rest }) refl refl refl refl (λ _. refl),
            refl,
            refl,
          )

abbrev ExtendsResolved : Work → Resolved → Type 0
ExtendsResolved w v = Extends w v.work

resolve_continue-Extends :
    (s : Service) (m : Moment) (run_id : String) (w : Work) (f : Found)
    → Ensures (ExtendsResolved w) (resolve_continue s m run_id w f)
unfolding resolve_continue
resolve_continue-Extends s m run_id w f =
    Ensures-then _ _ (random_token-Extends s.platform w) λ t e. Ensures-bind _ _ λ attempts' _.
      Ensures-bind _ _ λ current _. Ensures-ok _ (
        Extends-trans w t.2 _ e.0
          (Extends-trans t.2 _ _ (Extends-with_leases t.2 _) (Extends-with_nodes _ _)))

resolve_retry-Extends :
    (m : Moment) (message : Message) (w : Work) (f : Found)
    → Ensures (ExtendsResolved w) (resolve_retry m message w f)
unfolding resolve_retry
resolve_retry-Extends m message w f = Ensures-bind _ _ λ attempts' _.
    Ensures-ok _ (Extends-trans w _ _ (Extends-with_leases w _) (Extends-with_nodes _ _))

resolve_result-Extends :
    (m : Moment) (given : Option ActivityResult) (w : Work) (f : Found)
    → Ensures (ExtendsResolved w) (resolve_result m given w f)
unfolding resolve_result
resolve_result-Extends m given w f = Ensures-bind _ _ λ raw _. Ensures-bind _ _ λ r _.
    Ensures-bind _ _ λ attempts' _.
      Ensures-ok _ (Extends-trans w _ _ (Extends-with_leases w _) (Extends-with_nodes _ _))

resolve_fail-Extends :
    (m : Moment) (message : Message) (w : Work) (f : Found)
    → Ensures (ExtendsResolved w) (resolve_fail m message w f)
unfolding resolve_fail
resolve_fail-Extends m message w f = Ensures-bind _ _ λ attempts' _.
    Ensures-ok _
      (Extends-trans w _ _ (Extends-with_leases w _) (fail_node-Extends _ f.node_key _ _ m.now))

resolve_cancel-Extends :
    (m : Moment) (message : Message) (w : Work) (f : Found)
    → Ensures (ExtendsResolved w) (resolve_cancel m message w f)
unfolding resolve_cancel touch
resolve_cancel-Extends m message w f =
    Ensures-then {P = Extends w} _ _
      (Ensures-bind _ _ λ node _. Ensures-bind _ _ λ activity _.
        Ensures-ok _
          (Extends-trans w _ _ (finish_run-Extends w _ _ m.now) (Extends-with_nodes _ _)))
      λ w' e. Ensures-ok _ e

resolve_by-Extends :
    (action : InterventionAction) (s : Service) (m : Moment) (run_id : String)
    (r : InterventionResolution) (w : Work) (f : Found)
    → Ensures (ExtendsResolved w) (resolve_by action s m run_id r w f)
unfolding resolve_by
resolve_by-Extends intervention_continue s m run_id r w f = resolve_continue-Extends s m run_id w f
resolve_by-Extends intervention_retry s m run_id r w f = resolve_retry-Extends m _ w f
resolve_by-Extends intervention_resolve s m run_id r w f = resolve_result-Extends m _ w f
resolve_by-Extends intervention_fail s m run_id r w f = resolve_fail-Extends m _ w f
resolve_by-Extends intervention_cancel s m run_id r w f = resolve_cancel-Extends m _ w f
resolve_by-Extends (intervention_unknown _) s m run_id r w f = Ensures-err _

resolve_body-Extends :
    (s : Service) (m : Moment) (run_id : String) (r : InterventionResolution) (w : Work) (f : Found)
    → Ensures (ExtendsResolved w) (resolve_body s m run_id r w f)
unfolding resolve_body
resolve_body-Extends s m run_id r w f = Ensures-guard _ _ _ λ _.
    Ensures-then _ _ (resolve_by-Extends r.action s m run_id r w f) λ v e.
      Ensures-if _ _ _
        (λ _. Ensures-bind _ _ λ definition _.
          Ensures-then _ _ (advance-Extends _ definition m.now _) λ w'' e'. Ensures-ok _ (
            Extends-trans w _ w''
              (Extends-trans w v.work _ e (Extends-append_event v.work m.now _ _ _)) e'))
        (λ _. Ensures-ok _ (Extends-trans w v.work _ e (Extends-append_event v.work m.now _ _ _)))

module _ (P : Service → Type 0) (E : String → Type 0) (rules : Rules P E) where
  pub resolve_intervention-keeps :
      (s : Service) (m : Moment) (run_id activity command : String) (r : InterventionResolution)
      → P s
      → Ensures (λ q. P q.0) (resolve_intervention s m run_id activity command r)
  unfolding resolve_intervention
  resolve_intervention-keeps s m run_id activity command r p = Ensures-guard _ _ _ λ _.
      Ensures-then _ _ (mutable_record-lookup s run_id) λ rec found.
        Ensures-then _ _ (register_command-run s.platform rec command activity _ _) λ q same.
          Ensures-if _ _ _ (λ _. Ensures-ok _ p)
            (λ _. Ensures-bind _ _ λ f _.
              Ensures-then _ _ (resolve_body-Extends s m run_id r (begin q.1 m) f) λ v e.
                Ensures-then _ _
                  (rules.commits s m run_id rec (begin q.1 m) v.work p found same refl e)
                  λ s' p'. Ensures-ok _ p')
