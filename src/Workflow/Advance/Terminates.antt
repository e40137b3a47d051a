-- ===== src/Workflow/Advance/Terminates.antt =====
-- internal/workflow/service.go: `advance` ends.
use remote_code.Prelude.{
  not_below_zero, ℕ, zero, suc, ◌≡◌, ◌≢◌, ◌<◌, refl, Bool, true, false, arith, inl, inr,
}
use remote_code.Workflow.Model.{Time, Result, err, fuel_exhausted}
use remote_code.Workflow.Definition.{CompiledDefinition}
use remote_code.Workflow.Journal.{Work}
use remote_code.Workflow.Yields.{Yields, Yields-ok, Yields-if, Yields-then}
use remote_code.Workflow.Advance.{
  Peers, Round, Progress, going, returned, after_round, next_round, advance_measure, advance_rounds,
  advance,
}
use remote_code.Workflow.Advance.Measure.{IsIn-All}
use remote_code.Workflow.Advance.Settles.{Falls, settle_nodes-Falls}
use remote_code.Workflow.Advance.Evaluates.{FallsOn, FallsOn-trans, evaluate_nodes-Falls}

next_round-Yields :
    (definition : CompiledDefinition) (a b : Round) (now : Time) (again : Work → Result Work)
    → a.changed ≡ false
    → Falls definition a b
    → ((w : Work)
        → advance_measure definition w.rec < advance_measure definition a.work.rec
        → Yields (λ _. Unit {0}) (again w))
    → (changed : Bool) → b.changed ≡ changed
    → Yields (λ _. Unit {0}) (next_round changed now b.work again)
unfolding next_round
next_round-Yields definition a b now again fresh f h false e = Yields-ok _ tt
next_round-Yields definition a b now again fresh f h true e = elim (f.below e) [
  | inl e' ↦ cc
  | inr lt ↦ h b.work lt
]

after_round-Yields :
    (definition : CompiledDefinition) (a : Round) (p : Progress) (now : Time)
    (again : Work → Result Work)
    → a.changed ≡ false
    → FallsOn definition a p
    → ((w : Work)
        → advance_measure definition w.rec < advance_measure definition a.work.rec
        → Yields (λ _. Unit {0}) (again w))
    → Yields (λ _. Unit {0}) (after_round now p again)
unfolding after_round
after_round-Yields definition a (returned w) now again fresh f h = Yields-ok _ tt
after_round-Yields definition a (going b) now again fresh f h =
    next_round-Yields definition a b now again fresh f h b.changed refl

advance_rounds-Yields :
    (fuel : ℕ) (peers : Peers) (definition : CompiledDefinition) (now : Time) (w : Work)
    → advance_measure definition w.rec < fuel
    → Yields (λ _. Unit {0}) (advance_rounds fuel peers definition now w)
unfolding advance_rounds
advance_rounds-Yields zero peers definition now w lt = not_below_zero lt
advance_rounds-Yields (suc fuel) peers definition now w lt =
    Yields-if _ _ _
      (λ _.
        Yields-then _ _ (settle_nodes-Falls definition now _ _ (IsIn-All definition.order)) λ r f.
          Yields-then _ _
            (evaluate_nodes-Falls peers definition now _ r (IsIn-All definition.order))
            λ p g.
              after_round-Yields definition _ p now _ refl (FallsOn-trans definition _ r p f g)
                λ w' lt'.
                  advance_rounds-Yields fuel peers definition now w' (omega (arith, lt, lt')))
      (λ _. Yields-ok _ tt)

-- The rounds of `advance` end: one round more than the bound that it starts from is enough, for every
-- record, every definition and every behaviour of the scripts.
pub advance-terminates :
    (peers : Peers) (definition : CompiledDefinition) (now : Time) (w : Work)
    → advance peers definition now w ≢ err fuel_exhausted
unfolding advance
advance-terminates peers definition now w =
    (advance_rounds-Yields _ peers definition now w (omega arith)).fueled
