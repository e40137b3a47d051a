-- ===== src/Workflow/Advance/Evaluates.antt =====
-- internal/workflow/service.go: the second loop of a round of `advance` against the bound on the
-- rounds.
use remote_code.Prelude.{
  join_text, ℕ, ◌≡◌, ◌≤◌, refl, ap, String, Bool, true, false, some, List, [], ◌∷◌, Map, arith,
  lookup, if◌then◌else◌, inl, inr, All, lookup-insert_self,
}
use remote_code.Workflow.Model.{
  Time, Result, ok, err, random_failed, NodeRun, NodeState, ActivityState, RunRecord, node_ready,
  node_evaluating, TerminalOutcome, terminal_none, activity_waiting_retry,
  activity_needs_intervention,
}
use remote_code.Workflow.Definition.{CompiledDefinition, CompiledNode, ResourceClaim}
use remote_code.Workflow.Script.{
  Platform, ScriptOutcome, finished, stopped, ScriptResult, suspend_activity, Suspension,
}
use remote_code.Workflow.Journal.{Work, append_event}
use remote_code.Workflow.Yields.{
  Yields, Yields-ok, Yields-err, Yields-if, Yields-then, Yields-present, Yields-imp,
}
use remote_code.Workflow.Advance.{
  Peers, Round, Progress, going, returned, apply_context_changes, waiting_state, suspend_node,
  random_identifier, complete_node, conclude, run_node, start_node, evaluate_by_state,
  evaluate_compiled, is_evaluable, evaluate_node, evaluate_nodes, merge_changed, and_then,
  advance_measure, weight, weight_of_state, incoming_of, unresolved, resources_available,
  resource_conflict, peers_conflict,
}
use remote_code.Workflow.Advance.Measure.{IsIn, measure_of-insert_lt, measure_of-insert_le}
use remote_code.Workflow.Advance.Settles.{or-cases, Falls, Falls-refl, Falls-trans, Falls-strict}

-- A loop that goes on has done so with a record below the bound.
abbrev pub FallsOn : CompiledDefinition → Round → Progress → Type 0
FallsOn definition a (going b) = Falls definition a b
FallsOn definition a (returned w) = Unit

apply_context_changes-nodes :
    (w : Work) (key : String) (writes : Map String) (deletes : Map Bool) (now : Time)
    → (apply_context_changes w key writes deletes now).rec.run.nodes ≡ w.rec.run.nodes
unfolding apply_context_changes append_event if◌then◌else◌
apply_context_changes-nodes w key writes deletes now = ground arith

waiting_state-weight : (state : ActivityState) (n : ℕ) → weight_of_state (waiting_state state) n ≡ 0
unfolding waiting_state weight_of_state
waiting_state-weight activity_waiting_retry n = refl
waiting_state-weight activity_needs_intervention n = refl
waiting_state-weight _ n = refl

random_identifier-rec :
    (kind : String) (w : Work) → Yields (λ q. q.1.rec ≡ w.rec) (random_identifier kind w)
unfolding random_identifier
random_identifier-rec kind w = by_entropy w.entropy
  where
    by_entropy :
        (entropy : List String)
        → Yields
            (λ (q : String × Work). q.1.rec ≡ w.rec)
            (elim entropy [
              | [] ↦ err random_failed
              | digits ∷ rest ↦
                  ok (join_text kind (join_text "-" digits), record w { entropy = rest })
            ])
    by_entropy [] = Yields-err random_failed λ p. cc
    by_entropy (id ∷ rest) = Yields-ok _ refl

module _ (definition : CompiledDefinition) (now : Time) (w : Work) (key : String) (node : NodeRun)
    (i : IsIn key definition.order) (found : lookup key w.rec.run.nodes ≡ some node)
    (evaluating : node.node_state ≡ node_evaluating) where
  abbrev unchanged : Round
  unchanged = record { work = w; changed = false }

  complete_node-Falls :
      (result : ScriptResult) → Falls definition unchanged (complete_node result w key node now)
  unfolding complete_node append_event advance_measure weight weight_of_state
  complete_node-Falls result = Falls-strict definition _ _ (
      rw (apply_context_changes-nodes w key result.context_writes result.context_deletes now) (
        measure_of-insert_lt definition key node _ _ found definition.order i
          (rw evaluating (omega arith))))

  suspend_node-Falls :
      (s : Suspension) → Yields (Falls definition unchanged) (suspend_node s w key node now)
  unfolding suspend_node append_event advance_measure weight weight_of_state
  suspend_node-Falls s =
      Yields-if _ _ _
        (λ _. Yields-present _ _ λ activity _. Yields-ok _ (
          Falls-strict definition _ _ (
            measure_of-insert_lt definition key node _ _ found definition.order i (
              rw
                (
                  evaluating,
                  waiting_state-weight activity.state
                      (unresolved (incoming_of definition key) node.resolved_inputs),
                )
                (omega arith)))))
        (λ _. Yields-then _ _ (random_identifier-rec "act" w) λ q same. Yields-ok _ (
          Falls-strict definition _ _ (
            rw (ap (λ r. r.run.nodes) same) (
              measure_of-insert_lt definition key node _ _ found definition.order i
                (rw evaluating (omega arith))))))

  conclude-Falls :
      (p : Platform) (outcome : ScriptOutcome)
      → Yields (FallsOn definition unchanged) (conclude p w key node now outcome)
  unfolding conclude
  conclude-Falls p (finished result) = Yields-ok _ (complete_node-Falls result)
  conclude-Falls p (stopped (suspend_activity s)) =
      Yields-then _ _ (suspend_node-Falls s) λ r f. Yields-ok _ f
  conclude-Falls p (stopped _) = Yields-ok _ tt

  run_node-Falls :
      (peers : Peers) (compiled : CompiledNode)
      → Yields (FallsOn definition unchanged) (run_node peers compiled now w key node)
  unfolding run_node
  run_node-Falls peers compiled = conclude-Falls peers.platform _

-- The resources are looked up without fuel.
resource_conflict-Yields :
    (nodes : Map NodeRun) (definition : CompiledDefinition) (claims : List ResourceClaim)
    → Yields (λ _. Unit {0}) (resource_conflict nodes definition claims)
unfolding resource_conflict
resource_conflict-Yields [] definition claims = Yields-ok _ tt
resource_conflict-Yields ((key, node) ∷ m) definition claims =
    Yields-if _ _ _
      (λ _. Yields-present _ _ λ compiled _.
        Yields-if _ _ _ (λ _. Yields-ok _ tt) (λ _. resource_conflict-Yields m definition claims))
      (λ _. resource_conflict-Yields m definition claims)

peers_conflict-Yields :
    (m : Map RunRecord) (definitions : Map CompiledDefinition) (candidate : RunRecord)
    (own : CompiledDefinition) (claims : List ResourceClaim) (seen : Bool)
    → Yields (λ _. Unit {0}) (peers_conflict m definitions candidate own claims seen)
unfolding peers_conflict
peers_conflict-Yields [] definitions candidate own claims seen =
    Yields-if _ _ _ (λ _. Yields-ok _ tt) (λ _. resource_conflict-Yields _ own claims)
peers_conflict-Yields ((key, other) ∷ m) definitions candidate own claims seen =
    Yields-if _ _ _
      (λ _.
        Yields-if _ _ _
          (λ _. Yields-then _ _ (resource_conflict-Yields _ own claims) λ b _.
            Yields-if _ _ _ (λ _. Yields-ok _ tt)
              (λ _. peers_conflict-Yields m definitions candidate own claims true))
          (λ _. peers_conflict-Yields m definitions candidate own claims true))
      (λ _.
        Yields-if _ _ _
          (λ _. Yields-present _ _ λ definition _.
            Yields-then _ _ (resource_conflict-Yields _ definition claims) λ b _.
              Yields-if _ _ _ (λ _. Yields-ok _ tt)
                (λ _. peers_conflict-Yields m definitions candidate own claims seen))
          (λ _. peers_conflict-Yields m definitions candidate own claims seen))

resources_available-Yields :
    (peers : Peers) (candidate : RunRecord) (own : CompiledDefinition) (claims : List ResourceClaim)
    → Yields (λ _. Unit {0}) (resources_available peers candidate own claims)
unfolding resources_available
resources_available-Yields peers candidate own [] = Yields-ok _ tt
resources_available-Yields peers candidate own (claim ∷ claims) =
    Yields-then _ _ (peers_conflict-Yields _ _ candidate own _ false) λ b _. Yields-ok _ tt

-- From a record whose change has not been counted.
FallsOn-from :
    (definition : CompiledDefinition) (a b : Round) (p : Progress)
    → advance_measure definition b.work.rec ≤ advance_measure definition a.work.rec
    → b.changed ≡ false
    → FallsOn definition b p
    → FallsOn definition a p
FallsOn-from definition a b (returned w) le fresh f = tt
FallsOn-from definition a b (going c) le fresh f = record {
  not_above = omega (arith, le, f.not_above);
  below = λ h. elim (f.below h) [ inl e ↦ cc | inr lt ↦ inr (omega (arith, lt, le)) ];
}

FallsOn-merge :
    (definition : CompiledDefinition) (a : Round) (p : Progress)
    → FallsOn definition a p
    → FallsOn definition a (merge_changed a.changed p)
FallsOn-merge definition a (returned w) f = tt
FallsOn-merge definition a (going b) f = record {
  not_above = f.not_above;
  below = λ h. elim (or-cases a.changed b.changed h) [ inl h' ↦ inl h' | inr h' ↦ f.below h' ];
}

module _ (peers : Peers) (definition : CompiledDefinition) (now : Time) (key : String)
    (i : IsIn key definition.order) where
  start_node-Falls :
      (compiled : CompiledNode) (r : Round) (node : NodeRun)
      → lookup key r.work.rec.run.nodes ≡ some node
      → node.node_state ≡ node_ready
      → Yields (FallsOn definition r) (start_node peers definition compiled now r key node)
  unfolding start_node append_event advance_measure weight weight_of_state
  start_node-Falls compiled r node found ready =
      Yields-if _ _ _ (λ _. Yields-ok _ (Falls-refl definition r))
        (λ _. Yields-then _ _ (resources_available-Yields peers r.work.rec definition _) λ free _.
          Yields-if _ _ _
            (λ _.
              Yields-imp _
                (run_node-Falls definition now _ key _ i
                  (lookup-insert_self key _ r.work.rec.run.nodes) refl peers compiled)
                λ p f.
                  FallsOn-from definition r _ p
                    (measure_of-insert_le definition key node _ _ found definition.order
                      (rw ready (omega arith)))
                    refl f)
            (λ _. Yields-ok _ (Falls-refl definition r)))

  evaluate_by_state-Falls :
      (state : NodeState) (compiled : CompiledNode) (r : Round) (node : NodeRun)
      → lookup key r.work.rec.run.nodes ≡ some node
      → node.node_state ≡ state
      → is_evaluable state ≡ true
      → Yields
          (FallsOn definition r)
          (evaluate_by_state state peers definition compiled now r key node)
  unfolding evaluate_by_state is_evaluable
  evaluate_by_state-Falls node_ready compiled r node found e h =
      start_node-Falls compiled r node found e
  evaluate_by_state-Falls node_evaluating compiled r node found e h =
      Yields-imp _ (run_node-Falls definition now r.work key node i found e peers compiled)
        λ p f. FallsOn-from definition r _ p (omega arith) refl f
  evaluate_by_state-Falls _ compiled r node found e h = cc

  evaluate_compiled-Falls :
      (outcome : TerminalOutcome) (compiled : CompiledNode) (r : Round) (node : NodeRun)
      → lookup key r.work.rec.run.nodes ≡ some node
      → is_evaluable node.node_state ≡ true
      → Yields
          (FallsOn definition r)
          (evaluate_compiled outcome peers definition compiled now r key node)
  unfolding evaluate_compiled
  evaluate_compiled-Falls terminal_none compiled r node found s =
      evaluate_by_state-Falls node.node_state compiled r node found refl s
  evaluate_compiled-Falls _ compiled r node found s = Yields-ok _ tt

  evaluate_node-Falls :
      (r : Round) → Yields (FallsOn definition r) (evaluate_node peers definition now r key)
  unfolding evaluate_node
  evaluate_node-Falls r = Yields-present _ _ λ node found.
      Yields-if _ _ _
        (λ e. Yields-present _ _ λ compiled _.
          Yields-then _ _ (evaluate_compiled-Falls _ compiled r node found e)
            λ p f. Yields-ok _ (FallsOn-merge definition r p f))
        (λ _. Yields-ok _ (Falls-refl definition r))

pub FallsOn-trans :
    (definition : CompiledDefinition) (a b : Round) (p : Progress)
    → Falls definition a b
    → FallsOn definition b p
    → FallsOn definition a p
FallsOn-trans definition a b (returned w) f g = tt
FallsOn-trans definition a b (going c) f g = Falls-trans definition a b c f g

FallsOn-and_then :
    (definition : CompiledDefinition) (r : Round) (p : Progress) (k : Round → Result Progress)
    → FallsOn definition r p
    → ((r' : Round) → Yields (FallsOn definition r') (k r'))
    → Yields (FallsOn definition r) (and_then p k)
unfolding and_then
FallsOn-and_then definition r (returned w) k f h = Yields-ok _ tt
FallsOn-and_then definition r (going r') k f h =
    Yields-imp _ (h r') λ p g. FallsOn-trans definition r r' p f g

pub evaluate_nodes-Falls :
    (peers : Peers) (definition : CompiledDefinition) (now : Time) (ks : List String) (r : Round)
    → All (λ k. IsIn k definition.order) ks
    → Yields (FallsOn definition r) (evaluate_nodes peers definition now ks r)
unfolding evaluate_nodes
evaluate_nodes-Falls peers definition now [] r i = Yields-ok _ (Falls-refl definition r)
evaluate_nodes-Falls peers definition now (key ∷ ks) r i =
    Yields-then _ _ (evaluate_node-Falls peers definition now key i.0 r) λ p f.
      FallsOn-and_then definition r p _ f λ r'. evaluate_nodes-Falls peers definition now ks r' i.1
