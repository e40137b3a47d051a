-- ===== src/Workflow/Advance/Keeps.antt =====
-- internal/workflow/service.go: every step of `advance` extends the record that it is given.
use remote_code.Prelude.{
  join_text, ◌≡◌, refl, ℕ, zero, suc, String, Bool, true, false, Option, none, some, Map, List, [],
  ◌∷◌,
}
use remote_code.Workflow.Model.{
  Time, Result, ok, err, NodeState, node_ready, node_skipped, NodeRun, random_failed,
  TerminalOutcome, terminal_none, terminal_succeeded,
}
use remote_code.Workflow.Definition.{CompiledDefinition, CompiledNode}
use remote_code.Workflow.Script.{
  Platform, ScriptOutcome, finished, stopped, ScriptResult, suspend_activity, Suspension,
}
use remote_code.Workflow.Extends.{
  Extends, Extends-refl, Extends-trans, Extends-quiet, Extends-with_nodes, Extends-append_event,
  Extends-if,
}
use remote_code.Workflow.Ensures.{
  Ensures, Ensures-ok, Ensures-err, Ensures-bind, Ensures-then, Ensures-if, Ensures-imp,
}
use remote_code.Workflow.Journal.{Work, with_run}
use remote_code.Workflow.Journal.Keeps.{finish_run-Extends, fail_node-Extends}
use remote_code.Workflow.Advance.{
  Peers, Round, Progress, going, returned, apply_join, settle_pending, settle_node, settle_nodes,
  apply_context_changes, suspend_node, random_identifier, complete_node, conclude, run_node,
  reach_terminal, start_node, evaluate_by_state, evaluate_compiled, evaluate_node, evaluate_nodes,
  finish_if_stuck, advance_rounds, advance, merge_changed, next_round, after_round, and_then,
}

abbrev pub work_of : Progress → Work
work_of (going r) = r.work
work_of (returned w) = w

abbrev pub ExtendsRound : Work → Round → Type 0
ExtendsRound w r = Extends w r.work

abbrev pub ExtendsProgress : Work → Progress → Type 0
ExtendsProgress w p = Extends w (work_of p)

apply_join-Extends :
    (w : Work) (now : Time) (key : String) (node : NodeRun) (newly : Bool) (d : Option NodeState)
    → ExtendsRound w (apply_join w now key node newly d)
unfolding apply_join
apply_join-Extends w now key node newly none = Extends-with_nodes w _
apply_join-Extends w now key node newly (some node_skipped) =
    Extends-trans w _ _ (Extends-with_nodes w _) (Extends-append_event _ now _ _ _)
apply_join-Extends w now key node newly (some _) =
    Extends-trans w _ _ (Extends-with_nodes w _) (Extends-append_event _ now _ _ _)

settle_node-Extends :
    (definition : CompiledDefinition) (now : Time) (r : Round) (key : String)
    → Ensures (ExtendsRound r.work) (settle_node definition now r key)
unfolding settle_node settle_pending
settle_node-Extends definition now r key = Ensures-bind _ _ λ node _.
    Ensures-if _ _ _
      (λ _.
        Ensures-then {P = ExtendsRound r.work} _ _
          (Ensures-bind _ _ λ inputs _.
            Ensures-bind _ _ λ compiled _. Ensures-ok _ (apply_join-Extends r.work now key _ _ _))
          λ r' h. Ensures-ok _ h)
      (λ _. Ensures-ok r (Extends-refl r.work))

settle_nodes-Extends :
    (definition : CompiledDefinition) (now : Time) (ks : List String) (r : Round)
    → Ensures (ExtendsRound r.work) (settle_nodes definition now ks r)
unfolding settle_nodes
settle_nodes-Extends definition now [] r = Ensures-ok r (Extends-refl r.work)
settle_nodes-Extends definition now (key ∷ ks) r =
    Ensures-then _ _ (settle_node-Extends definition now r key) λ r' h.
      Ensures-imp _ (settle_nodes-Extends definition now ks r')
        λ r'' h'. Extends-trans r.work r'.work r''.work h h'

apply_context_changes-Extends :
    (w : Work) (key : String) (writes : Map String) (deletes : Map Bool) (now : Time)
    → Extends w (apply_context_changes w key writes deletes now)
unfolding apply_context_changes
apply_context_changes-Extends w key writes deletes now = Extends-if w _ w _ (Extends-refl w) (
    Extends-trans w _ _ (Extends-quiet w (with_run w _) refl refl refl refl (λ _. refl))
      (Extends-append_event _ now _ key ""))

random_identifier-Extends :
    (kind : String) (w : Work) → Ensures (λ p. Extends w p.1) (random_identifier kind w)
unfolding random_identifier
random_identifier-Extends kind w = from_entropy w.entropy
  where
    from_entropy :
        (ids : List String)
        → Ensures
            (λ p. Extends w p.1)
            (elim ids as (λ _. Result (String × Work)) [
              | [] ↦ err random_failed
              | digits ∷ rest ↦
                  ok (join_text kind (join_text "-" digits), record w { entropy = rest })
            ])
    from_entropy [] = Ensures-err random_failed
    from_entropy (digits ∷ rest) =
        Ensures-ok _ (Extends-quiet w (record w { entropy = rest }) refl refl refl refl (λ _. refl))

-- Drawing an identifier appends no event.
pub random_identifier-events :
    (kind : String) (w : Work) → Ensures (λ p. p.1.events ≡ w.events) (random_identifier kind w)
unfolding random_identifier
random_identifier-events kind w = from_entropy w.entropy
  where
    from_entropy :
        (ids : List String)
        → Ensures
            (λ p. p.1.events ≡ w.events)
            (elim ids as (λ _. Result (String × Work)) [
              | [] ↦ err random_failed
              | digits ∷ rest ↦
                  ok (join_text kind (join_text "-" digits), record w { entropy = rest })
            ])
    from_entropy [] = Ensures-err random_failed
    from_entropy (digits ∷ rest) = Ensures-ok _ refl

suspend_node-Extends :
    (s : Suspension) (w : Work) (key : String) (node : NodeRun) (now : Time)
    → Ensures (ExtendsRound w) (suspend_node s w key node now)
unfolding suspend_node
suspend_node-Extends s w key node now =
    Ensures-if _ _ _ (λ _. Ensures-bind _ _ λ activity _. Ensures-ok _ (Extends-with_nodes w _))
      (λ _. Ensures-then _ _ (random_identifier-Extends "act" w) λ p h. Ensures-ok _ (
        Extends-trans w p.1 _ h
          (Extends-trans p.1 _ _ (Extends-with_nodes p.1 _) (Extends-append_event _ now _ _ _))))

complete_node-Extends :
    (result : ScriptResult) (w : Work) (key : String) (node : NodeRun) (now : Time)
    → ExtendsRound w (complete_node result w key node now)
unfolding complete_node
complete_node-Extends result w key node now =
    Extends-trans w _ _ (apply_context_changes-Extends w key _ _ now)
      (Extends-trans _ _ _ (Extends-with_nodes _ _) (Extends-append_event _ now _ _ _))

conclude-Extends :
    (p : Platform) (w : Work) (key : String) (node : NodeRun) (now : Time) (o : ScriptOutcome)
    → Ensures (ExtendsProgress w) (conclude p w key node now o)
unfolding conclude
conclude-Extends p w key node now (finished result) =
    Ensures-ok _ (complete_node-Extends result w key node now)
conclude-Extends p w key node now (stopped (suspend_activity s)) =
    Ensures-then _ _ (suspend_node-Extends s w key node now) λ r h. Ensures-ok _ h
conclude-Extends p w key node now (stopped _) = Ensures-ok _ (fail_node-Extends w key node _ now)

run_node-Extends :
    (peers : Peers) (compiled : CompiledNode) (now : Time) (w : Work) (key : String)
    (node : NodeRun)
    → Ensures (ExtendsProgress w) (run_node peers compiled now w key node)
unfolding run_node
run_node-Extends peers compiled now w key node = conclude-Extends _ w key node now _

reach_terminal-Extends :
    (outcome : TerminalOutcome) (now : Time) (w : Work) (key : String) (node : NodeRun)
    → Extends w (reach_terminal outcome now w key node)
unfolding reach_terminal
reach_terminal-Extends terminal_succeeded now w key node =
    Extends-trans w _ _
      (Extends-trans w _ _ (Extends-with_nodes w _) (Extends-append_event _ now _ key ""))
      (finish_run-Extends _ _ _ now)
reach_terminal-Extends _ now w key node =
    Extends-trans w _ _
      (Extends-trans w _ _ (Extends-with_nodes w _) (Extends-append_event _ now _ key ""))
      (finish_run-Extends _ _ _ now)

start_node-Extends :
    (peers : Peers) (definition : CompiledDefinition) (compiled : CompiledNode) (now : Time)
    (r : Round) (key : String) (node : NodeRun)
    → Ensures (ExtendsProgress r.work) (start_node peers definition compiled now r key node)
unfolding start_node
start_node-Extends peers definition compiled now r key node =
    Ensures-if _ _ _ (λ _. Ensures-ok (going r) (Extends-refl r.work))
      (λ _. Ensures-bind _ _ λ free _.
        Ensures-if _ _ _
          (λ _. Ensures-imp _ (run_node-Extends peers compiled now _ key _) λ p h.
            Extends-trans r.work _ (work_of p)
              (Extends-trans r.work _ _ (Extends-with_nodes r.work _)
                (Extends-append_event _ now _ key ""))
              h)
          (λ _. Ensures-ok (going r) (Extends-refl r.work)))

evaluate_by_state-Extends :
    (state : NodeState) (peers : Peers) (definition : CompiledDefinition) (compiled : CompiledNode)
    (now : Time) (r : Round) (key : String) (node : NodeRun)
    → Ensures
        (ExtendsProgress r.work)
        (evaluate_by_state state peers definition compiled now r key node)
unfolding evaluate_by_state
evaluate_by_state-Extends node_ready peers definition compiled now r key node =
    start_node-Extends peers definition compiled now r key node
evaluate_by_state-Extends _ peers definition compiled now r key node =
    run_node-Extends peers compiled now r.work key node

evaluate_compiled-Extends :
    (outcome : TerminalOutcome) (peers : Peers) (definition : CompiledDefinition)
    (compiled : CompiledNode) (now : Time) (r : Round) (key : String) (node : NodeRun)
    → Ensures
        (ExtendsProgress r.work)
        (evaluate_compiled outcome peers definition compiled now r key node)
unfolding evaluate_compiled
evaluate_compiled-Extends terminal_none peers definition compiled now r key node =
    evaluate_by_state-Extends node.node_state peers definition compiled now r key node
evaluate_compiled-Extends outcome peers definition compiled now r key node =
    Ensures-ok _ (reach_terminal-Extends outcome now r.work key node)

merge-Extends :
    (b : Bool) (w : Work) (p : Progress)
    → ExtendsProgress w p
    → ExtendsProgress w (merge_changed b p)
merge-Extends b w (going r) h = h
merge-Extends b w (returned v) h = h

evaluate_node-Extends :
    (peers : Peers) (definition : CompiledDefinition) (now : Time) (r : Round) (key : String)
    → Ensures (ExtendsProgress r.work) (evaluate_node peers definition now r key)
unfolding evaluate_node
evaluate_node-Extends peers definition now r key = Ensures-bind _ _ λ node _.
    Ensures-if _ _ _
      (λ _. Ensures-bind _ _ λ compiled _.
        Ensures-then _ _
          (evaluate_compiled-Extends compiled.node_definition.terminal peers definition compiled now
            r key node)
          λ p h. Ensures-ok _ (merge-Extends r.changed r.work p h))
      (λ _. Ensures-ok (going r) (Extends-refl r.work))

and_then-Extends :
    (w : Work) (p : Progress) (k : Round → Result Progress)
    → ExtendsProgress w p
    → ((r : Round) → Ensures (ExtendsProgress r.work) (k r))
    → Ensures (ExtendsProgress w) (and_then p k)
unfolding and_then
and_then-Extends w (going r) k h next =
    Ensures-imp _ (next r) λ p h'. Extends-trans w r.work (work_of p) h h'
and_then-Extends w (returned v) k h next = Ensures-ok _ h

evaluate_nodes-Extends :
    (peers : Peers) (definition : CompiledDefinition) (now : Time) (ks : List String) (r : Round)
    → Ensures (ExtendsProgress r.work) (evaluate_nodes peers definition now ks r)
unfolding evaluate_nodes
evaluate_nodes-Extends peers definition now [] r = Ensures-ok (going r) (Extends-refl r.work)
evaluate_nodes-Extends peers definition now (key ∷ ks) r =
    Ensures-then _ _ (evaluate_node-Extends peers definition now r key)
      λ p h. and_then-Extends r.work p _ h (λ r'. evaluate_nodes-Extends peers definition now ks r')

next_round-Extends :
    (b : Bool) (now : Time) (w : Work) (again : Work → Result Work)
    → ((v : Work) → Ensures (Extends v) (again v))
    → Ensures (Extends w) (next_round b now w again)
unfolding next_round finish_if_stuck
next_round-Extends true now w again h = h w
next_round-Extends false now w again h =
    Ensures-ok _ (Extends-if w _ _ w (finish_run-Extends w _ _ now) (Extends-refl w))

after_round-Extends :
    (now : Time) (u : Work) (p : Progress) (again : Work → Result Work)
    → ExtendsProgress u p
    → ((v : Work) → Ensures (Extends v) (again v))
    → Ensures (Extends u) (after_round now p again)
unfolding after_round
after_round-Extends now u (returned w) again h k = Ensures-ok w h
after_round-Extends now u (going r) again h k =
    Ensures-imp _ (next_round-Extends r.changed now r.work again k)
      λ v h'. Extends-trans u r.work v h h'

advance_rounds-Extends :
    (fuel : ℕ) (peers : Peers) (definition : CompiledDefinition) (now : Time) (w : Work)
    → Ensures (Extends w) (advance_rounds fuel peers definition now w)
unfolding advance_rounds
advance_rounds-Extends zero peers definition now w = Ensures-err _
advance_rounds-Extends (suc fuel) peers definition now w =
    Ensures-if _ _ _
      (λ _.
        Ensures-then _ _
          (settle_nodes-Extends definition now definition.order
            (record { work = w; changed = false }))
          λ r h.
            Ensures-then _ _ (evaluate_nodes-Extends peers definition now definition.order r)
              λ p h'.
                after_round-Extends now w p _ (Extends-trans w r.work (work_of p) h h')
                  (λ v. advance_rounds-Extends fuel peers definition now v))
      (λ _. Ensures-ok w (Extends-refl w))

-- `advance` extends the record that it is given.
pub advance-Extends :
    (peers : Peers) (definition : CompiledDefinition) (now : Time) (w : Work)
    → Ensures (Extends w) (advance peers definition now w)
unfolding advance
advance-Extends peers definition now w = advance_rounds-Extends _ peers definition now w
