-- ===== src/Workflow/Activities/Keeps.antt =====
-- internal/workflow/service.go: the executors' calls keep every predicate of services that follows
-- the rules.
use remote_code.Prelude.{refl, String}
use remote_code.Workflow.Model.{Message, Result, ActivityResult, conflict}
use remote_code.Workflow.Definition.{Config, CompiledDefinition}
use remote_code.Workflow.Script.{Payload}
use remote_code.Workflow.Ensures.{
  Ensures, Ensures-ok, Ensures-err, Ensures-bind, Ensures-then, Ensures-if, Ensures-imp,
  Ensures-seq,
}
use remote_code.Workflow.Extends.{
  Extends, Extends-trans, Extends-with_nodes, Extends-with_leases, Extends-append_event,
}
use remote_code.Workflow.Rules.{Rules}
use remote_code.Workflow.Journal.{Work}
use remote_code.Workflow.Journal.Keeps.{fail_current_attempt-Extends}
use remote_code.Workflow.Advance.Keeps.{advance-Extends}
use remote_code.Workflow.Service.{Service, Moment, begin}
use remote_code.Workflow.Service.Keeps.{register_command-run, mutable_record-lookup}
use remote_code.Workflow.Activities.{
  Found, Holder, lease_command, start_body, start_activity, heartbeat_body, heartbeat_activity,
  complete_body, complete_activity, fail_attempt, request_body, request_intervention,
}

pub start_body-Extends :
    (m : Moment) (w : Work) (f : Found) → Ensures (Extends w) (start_body m w f)
unfolding start_body
start_body-Extends m w f =
    Ensures-if _ _ _
      (λ _. Ensures-bind _ _ λ attempts' _.
        Ensures-ok _
          (Extends-trans w _ _ (Extends-with_nodes w _) (Extends-append_event _ m.now _ _ _)))
      (λ _. Ensures-err conflict)

heartbeat_body-Extends :
    (config : Config) (m : Moment) (w : Work) (f : Found)
    → Ensures (Extends w) (heartbeat_body config m w f)
unfolding heartbeat_body
heartbeat_body-Extends config m w f =
    Ensures-if _ _ _
      (λ _. Ensures-bind _ _ λ attempts' _. Ensures-ok _ (
        Extends-trans w _ _ (Extends-trans w _ _ (Extends-with_leases w _) (Extends-with_nodes _ _))
          (Extends-append_event _ m.now _ _ _)))
      (λ _. Ensures-err conflict)

pub complete_body-Extends :
    (s : Service) (m : Moment) (definition : CompiledDefinition) (r : ActivityResult) (w : Work)
    (f : Found)
    → Ensures (Extends w) (complete_body s m definition r w f)
unfolding complete_body
complete_body-Extends s m definition r w f =
    Ensures-if _ _ _
      (λ _. Ensures-bind _ _ λ attempts' _.
        Ensures-imp _ (advance-Extends _ definition m.now _) λ w' e.
          Extends-trans w _ w'
            (Extends-trans w _ _
              (Extends-trans w _ _ (Extends-with_leases w _) (Extends-with_nodes _ _))
              (Extends-append_event _ m.now _ _ _))
            e)
      (λ _. Ensures-err conflict)

request_body-Extends :
    (m : Moment) (reason : Message) (w : Work) (f : Found)
    → Ensures (Extends w) (request_body m reason w f)
unfolding request_body
request_body-Extends m reason w f =
    Ensures-if _ _ _
      (λ _. Ensures-ok _ (
        Extends-trans w _ _ (Extends-trans w _ _ (Extends-with_leases w _) (Extends-with_nodes _ _))
          (Extends-append_event _ m.now _ _ _)))
      (λ _. Ensures-err conflict)

module _ (P : Service → Type 0) (E : String → Type 0) (rules : Rules P E) where
  lease_command-keeps :
      (s : Service) (m : Moment) (run_id : String) (h : Holder) (command action : String)
      (payload : Payload) (body : Work → Found → Result Work)
      → ((w : Work) (f : Found) → Ensures (Extends w) (body w f))
      → P s
      → Ensures P (lease_command s m run_id h command action payload body)
  unfolding lease_command
  lease_command-keeps s m run_id h command action payload body extends p =
      Ensures-then _ _ (mutable_record-lookup s run_id) λ rec found.
        Ensures-then _ _
          (register_command-run s.platform rec command h.held_activity action payload)
          λ q same.
            Ensures-if _ _ _ (λ _. Ensures-ok s p)
              (λ _. Ensures-bind _ _ λ f _. Ensures-seq _ _ λ _.
                Ensures-then _ _ (extends (begin q.1 m) f)
                  λ w e. rules.commits s m run_id rec (begin q.1 m) w p found same refl e)

  pub start_activity-keeps :
      (s : Service) (m : Moment) (run_id : String) (h : Holder) (command : String)
      → P s
      → Ensures P (start_activity s m run_id h command)
  unfolding start_activity
  start_activity-keeps s m run_id h command =
      lease_command-keeps s m run_id h command _ _ _ (start_body-Extends m)

  pub heartbeat_activity-keeps :
      (s : Service) (m : Moment) (run_id : String) (h : Holder) (command : String)
      → P s
      → Ensures P (heartbeat_activity s m run_id h command)
  unfolding heartbeat_activity
  heartbeat_activity-keeps s m run_id h command =
      lease_command-keeps s m run_id h command _ _ _ (heartbeat_body-Extends s.config m)

  pub complete_activity-keeps :
      (s : Service) (m : Moment) (run_id : String) (h : Holder) (command : String)
      (given : ActivityResult)
      → P s
      → Ensures P (complete_activity s m run_id h command given)
  unfolding complete_activity
  complete_activity-keeps s m run_id h command given p = Ensures-bind _ _ λ r _.
      lease_command-keeps s m run_id h command _ _ _
        (λ w f. Ensures-bind _ _ λ definition _. complete_body-Extends s m definition r w f) p

  pub fail_attempt-keeps :
      (s : Service) (m : Moment) (run_id : String) (h : Holder) (command : String)
      (message : Message)
      → P s
      → Ensures P (fail_attempt s m run_id h command message)
  unfolding fail_attempt
  fail_attempt-keeps s m run_id h command message =
      lease_command-keeps s m run_id h command _ _ _ (λ w f. Ensures-bind _ _ λ definition _.
        Ensures-then _ _
          (fail_current_attempt-Extends s.config definition w f.node_key f.node f.operation_key
            f.activity _ _ m.now)
          λ w' e.
            Ensures-imp _ (advance-Extends _ definition m.now w')
              λ w'' e'. Extends-trans w w' w'' e e')

  pub request_intervention-keeps :
      (s : Service) (m : Moment) (run_id : String) (h : Holder) (command : String)
      (reason : Message)
      → P s
      → Ensures P (request_intervention s m run_id h command reason)
  unfolding request_intervention
  request_intervention-keeps s m run_id h command reason =
      lease_command-keeps s m run_id h command _ _ _ (request_body-Extends m reason)
