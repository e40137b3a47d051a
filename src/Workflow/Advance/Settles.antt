-- ===== src/Workflow/Advance/Settles.antt =====
-- internal/workflow/service.go: the first loop of a round of `advance` against the bound on the
-- rounds.
use remote_code.Prelude.{
  ℕ, ◌≡◌, ◌≤◌, ◌<◌, refl, String, Bool, true, false, Option, none, some, List, [], ◌∷◌, Map, arith,
  lookup, if◌then◌else◌, Option-cases, inl, inr, ◌⊎◌, ◌||◌, All,
}
use remote_code.Workflow.Model.{
  Time, NodeRun, NodeState, node_pending, node_ready, node_skipped, JoinPolicy, join_all, join_any,
}
use remote_code.Workflow.Definition.{CompiledDefinition}
use remote_code.Workflow.Journal.{Work, append_event}
use remote_code.Workflow.Yields.{
  Yields, Yields-ok, Yields-if, Yields-then, Yields-present, Yields-imp,
}
use remote_code.Workflow.Advance.{
  Inputs, Round, input_value, resolve_at, resolve_input, resolve_inputs, join_decision, is_pending,
  apply_join, settle_pending, settle_node, settle_nodes, incoming_of, unresolved, weight,
  weight_of_state, advance_measure,
}
use remote_code.Workflow.Advance.Measure.{
  IsIn, IsIn-All, unresolved-insert_le, unresolved-insert_lt, measure_of-insert_le,
  measure_of-insert_lt,
}

-- From one state of the loop over the inputs to another: no more sources are unresolved, and fewer
-- where a source has been resolved newly.
pub record Gains (sources : List String) (a b : Inputs) : Type 0 where
  pub kept : unresolved sources b.resolved ≤ unresolved sources a.resolved
  pub gained :
      b.newly ≡ true
      → (a.newly ≡ true) ⊎ (unresolved sources b.resolved < unresolved sources a.resolved)

Gains-refl : (sources : List String) (a : Inputs) → Gains sources a a
Gains-refl sources a = record { kept = omega arith; gained = λ h. inl h }

Gains-trans :
    (sources : List String) (a b c : Inputs)
    → Gains sources a b
    → Gains sources b c
    → Gains sources a c
Gains-trans sources a b c p q = record {
  kept = omega (arith, p.kept, q.kept);
  gained = λ h. elim (q.gained h) [
    | inr lt ↦ inr (omega (arith, lt, p.kept))
    | inl h' ↦ elim (p.gained h') [ inl h'' ↦ inl h'' | inr lt ↦ inr (omega (arith, lt, q.kept)) ]
  ];
}

input_value-Yields :
    (definition : CompiledDefinition) (source target : String) (node : NodeRun)
    → Yields (λ _. Unit {0}) (input_value definition source target node)
unfolding input_value
input_value-Yields definition source target node =
    Yields-if _ _ _ (λ _. Yields-present _ _ λ compiled _. Yields-ok _ tt) (λ _. Yields-ok _ tt)

resolve_input-Gains :
    (definition : CompiledDefinition) (nodes : Map NodeRun) (target source : String)
    (sources : List String) (inputs : Inputs)
    → IsIn source sources
    → Yields (Gains sources inputs) (resolve_input definition nodes target source inputs)
unfolding resolve_input resolve_at
resolve_input-Gains definition nodes target source sources inputs i =
    elim (Option-cases (lookup source inputs.resolved)) [
      | inr (v, h) ↦ rw h (Yields-ok _ (record { kept = omega arith; gained = λ e. inl e }))
      | inl h ↦ rw h (
          Yields-present _ _ λ node _.
            Yields-if _ _ _
              (λ _. Yields-then _ _ (input_value-Yields definition source target node) λ v _.
                Yields-ok _ (record {
                  kept = unresolved-insert_le sources source v inputs.resolved;
                  gained = λ _. inr (unresolved-insert_lt sources source v inputs.resolved i h);
                }))
              (λ _. Yields-ok inputs (Gains-refl sources inputs)))
    ]

resolve_inputs-Gains :
    (definition : CompiledDefinition) (nodes : Map NodeRun) (target : String)
    (sources : List String) (rest : List String) (inputs : Inputs)
    → All (λ source. IsIn source sources) rest
    → Yields (Gains sources inputs) (resolve_inputs definition nodes target rest inputs)
unfolding resolve_inputs
resolve_inputs-Gains definition nodes target sources [] inputs i =
    Yields-ok inputs (Gains-refl sources inputs)
resolve_inputs-Gains definition nodes target sources (source ∷ rest) inputs i =
    Yields-then _ _ (resolve_input-Gains definition nodes target source sources inputs i.0) λ a p.
      Yields-imp _ (resolve_inputs-Gains definition nodes target sources rest a i.1)
        λ b q. Gains-trans sources inputs a b p q

-- From one round's record to another: the bound does not grow, and it falls where the record has
-- newly been changed.
pub record Falls (definition : CompiledDefinition) (a b : Round) : Type 0 where
  pub not_above : advance_measure definition b.work.rec ≤ advance_measure definition a.work.rec
  pub below :
      b.changed ≡ true
      → (a.changed ≡ true)
        ⊎ (advance_measure definition b.work.rec < advance_measure definition a.work.rec)

pub Falls-refl : (definition : CompiledDefinition) (a : Round) → Falls definition a a
Falls-refl definition a = record { not_above = omega arith; below = λ h. inl h }

pub Falls-strict :
    (definition : CompiledDefinition) (a b : Round)
    → advance_measure definition b.work.rec < advance_measure definition a.work.rec
    → Falls definition a b
Falls-strict definition a b lt = record { not_above = omega (arith, lt); below = λ _. inr lt }

pub or-cases : (a b : Bool) → (a || b) ≡ true → (a ≡ true) ⊎ (b ≡ true)
or-cases true b h = inl refl
or-cases false b h = inr h

-- A step that has been counted from an unchanged record, in a round that may have changed before.
pub Falls-merge :
    (definition : CompiledDefinition) (a b : Round)
    → Falls definition (record a { changed = false }) b
    → Falls definition a (record b { changed = a.changed || b.changed })
Falls-merge definition a b f = record {
  not_above = f.not_above;
  below = λ h. elim (or-cases a.changed b.changed h) [
    | inl h' ↦ inl h'
    | inr h' ↦ elim (f.below h') [ inl e ↦ cc | inr lt ↦ inr lt ]
  ];
}

pub Falls-trans :
    (definition : CompiledDefinition) (a b c : Round)
    → Falls definition a b
    → Falls definition b c
    → Falls definition a c
Falls-trans definition a b c p q = record {
  not_above = omega (arith, p.not_above, q.not_above);
  below = λ h. elim (q.below h) [
    | inr lt ↦ inr (omega (arith, lt, p.not_above))
    | inl h' ↦ elim (p.below h') [
      | inl h'' ↦ inl h''
      | inr lt ↦ inr (omega (arith, lt, q.not_above))
    ]
  ];
}

is_pending→eq : (state : NodeState) → is_pending state ≡ true → state ≡ node_pending
unfolding is_pending
is_pending→eq node_pending h = refl
is_pending→eq _ h = cc

-- What the switch on the join policy may decide.
data Decision : Option NodeState → Type 0 where
  stays : Decision none
  readies : Decision (some node_ready)
  skips : Decision (some node_skipped)

Decision-if :
    (b : Bool) (x y : Option NodeState) → Decision x → Decision y → Decision (if b then x else y)
unfolding if◌then◌else◌
Decision-if true x y h k = h
Decision-if false x y h k = k

join_decision-Decision :
    (join : JoinPolicy) (selected resolved incoming : ℕ)
    → Decision (join_decision join selected resolved incoming)
unfolding join_decision
join_decision-Decision join_any selected resolved incoming =
    Decision-if _ _ _ readies (Decision-if _ _ _ skips stays)
join_decision-Decision join_all selected resolved incoming =
    Decision-if _ _ _ readies (Decision-if _ _ _ skips stays)

apply_join-Falls :
    (definition : CompiledDefinition) (w : Work) (now : Time) (key : String) (node : NodeRun)
    (inputs : Inputs) (d : Option NodeState)
    → IsIn key definition.order
    → lookup key w.rec.run.nodes ≡ some node
    → node.node_state ≡ node_pending
    → Gains
        (incoming_of definition key)
        (record { resolved = node.resolved_inputs; selected = 0; newly = false })
        inputs
    → Decision d
    → Falls definition
        (record { work = w; changed = false })
        (apply_join w now key (record node { resolved_inputs = inputs.resolved }) inputs.newly d)
unfolding apply_join append_event advance_measure weight weight_of_state
apply_join-Falls definition w now key node inputs _ i found pending g stays = record {
  not_above =
      measure_of-insert_le definition key node _ _ found definition.order
        (rw pending (omega (arith, g.kept)));
  below = λ newly. elim (g.gained newly) [
    | inl e ↦ inl e
    | inr lt ↦ inr (
        measure_of-insert_lt definition key node _ _ found definition.order i
          (rw pending (omega (arith, lt))))
  ];
}
apply_join-Falls definition w now key node inputs _ i found pending g readies =
    Falls-strict definition _ _ (
      measure_of-insert_lt definition key node _ _ found definition.order i
        (rw pending (omega arith)))
apply_join-Falls definition w now key node inputs _ i found pending g skips =
    Falls-strict definition _ _ (
      measure_of-insert_lt definition key node _ _ found definition.order i
        (rw pending (omega arith)))

settle_pending-Falls :
    (definition : CompiledDefinition) (now : Time) (w : Work) (key : String) (node : NodeRun)
    → IsIn key definition.order
    → lookup key w.rec.run.nodes ≡ some node
    → node.node_state ≡ node_pending
    → Yields
        (Falls definition (record { work = w; changed = false }))
        (settle_pending definition now w key node)
unfolding settle_pending
settle_pending-Falls definition now w key node i found pending =
    Yields-then _ _
      (resolve_inputs-Gains definition _ key (incoming_of definition key) _ _
        (IsIn-All (incoming_of definition key)))
      λ inputs g. Yields-present _ _ λ compiled _. Yields-ok _ (
        apply_join-Falls definition w now key node inputs _ i found pending g
          (join_decision-Decision compiled.node_definition.join _ _ _))

settle_node-Falls :
    (definition : CompiledDefinition) (now : Time) (r : Round) (key : String)
    → IsIn key definition.order
    → Yields (Falls definition r) (settle_node definition now r key)
unfolding settle_node
settle_node-Falls definition now r key i = Yields-present _ _ λ node found.
    Yields-if _ _ _
      (λ pending.
        Yields-then _ _
          (settle_pending-Falls definition now r.work key node i found
            (is_pending→eq node.node_state pending))
          λ r' f. Yields-ok _ (Falls-merge definition r r' f))
      (λ _. Yields-ok r (Falls-refl definition r))

pub settle_nodes-Falls :
    (definition : CompiledDefinition) (now : Time) (ks : List String) (r : Round)
    → All (λ k. IsIn k definition.order) ks
    → Yields (Falls definition r) (settle_nodes definition now ks r)
unfolding settle_nodes
settle_nodes-Falls definition now [] r i = Yields-ok r (Falls-refl definition r)
settle_nodes-Falls definition now (key ∷ ks) r i =
    Yields-then _ _ (settle_node-Falls definition now r key i.0) λ r' f.
      Yields-imp _ (settle_nodes-Falls definition now ks r' i.1)
        λ r'' f'. Falls-trans definition r r' r'' f f'
