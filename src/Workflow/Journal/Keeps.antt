-- ===== src/Workflow/Journal/Keeps.antt =====
-- internal/workflow/service.go: `finishRun`, `failNode` and `failCurrentAttempt` extend a record.
use remote_code.Prelude.{◌≡◌, refl, String, false, inl, inr, Bool-cases, if◌then◌else◌, ℕ}
use remote_code.Workflow.Model.{
  Time, Message, RunState, AttemptState, Activity, NodeRun, terminal_run_state, run_failed,
}
use remote_code.Workflow.Definition.{Config, CompiledDefinition}
use remote_code.Workflow.Extends.{
  Extends, Extends-refl, Extends-trans, Extends-quiet, Extends-with_nodes, Extends-with_leases,
  Extends-append_event, Extends-if,
}
use remote_code.Workflow.Ensures.{Ensures, Ensures-bind, Ensures-ok}
use remote_code.Workflow.Journal.{
  Work, end_run, finish_run, fail_node, retry_or_fail, fail_current_attempt,
}

end_run-Extends :
    (w : Work) (state : RunState) (message : Message) (now : Time)
    → terminal_run_state w.rec.run.run_state ≡ false
    → Extends w (end_run w state message now)
unfolding end_run
end_run-Extends w state message now live =
    Extends-trans w _ _ (Extends-quiet w _ refl refl refl refl (λ t. cc))
      (Extends-append_event _ now _ "" "")

-- `finishRun` extends the record.
pub finish_run-Extends :
    (w : Work) (state : RunState) (message : Message) (now : Time)
    → Extends w (finish_run w state message now)
finish_run-Extends w state message now =
    elim (Bool-cases (terminal_run_state w.rec.run.run_state)) [
      | inl done ↦ unfold finish_run if◌then◌else◌ in rw done (Extends-refl w)
      | inr live ↦
          unfold finish_run if◌then◌else◌ in rw live (end_run-Extends w state message now live)
    ]

pub fail_node-Extends :
    (w : Work) (key : String) (node : NodeRun) (message : Message) (now : Time)
    → Extends w (fail_node w key node message now)
unfolding fail_node
fail_node-Extends w key node message now =
    Extends-trans w _ _
      (Extends-trans w _ _ (Extends-with_nodes w _) (Extends-append_event _ now _ _ _))
      (finish_run-Extends _ run_failed message now)

retry_or_fail-Extends :
    (config : Config) (limit : ℕ) (w : Work) (key : String) (node : NodeRun) (operation : String)
    (activity : Activity) (message : Message) (now : Time)
    → Extends w (retry_or_fail config limit w key node operation activity message now)
unfolding retry_or_fail
retry_or_fail-Extends config limit w key node operation activity message now =
    Extends-if w _ _ _
      (Extends-trans w _ _ (Extends-with_nodes w _) (Extends-append_event _ now _ _ _))
      (Extends-trans w _ _
        (Extends-trans w _ _ (Extends-with_nodes w _) (Extends-append_event _ now _ _ _))
        (fail_node-Extends _ key _ message now))

-- `failCurrentAttempt` extends the record that it is given.
pub fail_current_attempt-Extends :
    (config : Config) (definition : CompiledDefinition) (w : Work) (key : String) (node : NodeRun)
    (operation : String) (activity : Activity) (state : AttemptState) (message : Message)
    (now : Time)
    → Ensures
        (Extends w)
        (fail_current_attempt config definition w key node operation activity state message now)
unfolding fail_current_attempt
fail_current_attempt-Extends config definition w key node operation activity state message now =
    Ensures-bind _ _ λ attempts' _. Ensures-bind _ _ λ compiled _. Ensures-ok _ (
      Extends-trans w _ _ (Extends-with_leases w _)
        (retry_or_fail-Extends config _ _ key node operation _ message now))
