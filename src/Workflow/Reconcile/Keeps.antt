-- ===== src/Workflow/Reconcile/Keeps.antt =====
-- internal/workflow/service.go: `Reconcile` keeps every predicate of services that follows the rules,
-- also where it stops at an error.
use remote_code.Prelude.{
  ◌≡◌, refl, String, List, Bool, true, false, [], ◌∷◌, Option, none, some, lookup, if◌then◌else◌,
}
use remote_code.Workflow.Model.{
  Time, shutting_down, Result, ok, err, Error, RunRecord, NodeRun, Activity, ActivityState,
  activity_claimed, activity_running, activity_waiting_retry,
}
use remote_code.Workflow.Definition.{Config, CompiledDefinition}
use remote_code.Workflow.Ensures.{
  Ensures, Ensures-ok, Ensures-bind, Ensures-then, Ensures-if, Ensures-imp, Ensures-or_fail,
}
use remote_code.Workflow.Extends.{
  Extends, Extends-refl, Extends-trans, Extends-with_nodes, Extends-append_event,
}
use remote_code.Workflow.Rules.{Rules}
use remote_code.Workflow.Journal.{Work}
use remote_code.Workflow.Journal.Keeps.{fail_node-Extends, fail_current_attempt-Extends}
use remote_code.Workflow.Advance.Keeps.{advance-Extends}
use remote_code.Workflow.Service.{Service, Moment, begin}
use remote_code.Workflow.Reconcile.{
  Pass, release_retry, expire_lease, reconcile_by_state, reconcile_activities, reconcile_nodes,
  reconcile_record, commit_if, reconcile_run, reconcile_runs, reconcile,
}

abbrev pub ExtendsPass : Work → Pass → Type 0
ExtendsPass w p = Extends w p.work

ExtendsPass-if :
    (w : Work) (b : Bool) (p q : Pass)
    → ExtendsPass w p
    → ExtendsPass w q
    → ExtendsPass w (if b then p else q)
unfolding if◌then◌else◌
ExtendsPass-if w true p q h k = h
ExtendsPass-if w false p q h k = k

release_retry-Extends :
    (now : Time) (p : Pass) (key : String) (node : NodeRun) (operation : String)
    (activity : Activity)
    → ExtendsPass p.work (release_retry now p key node operation activity)
unfolding release_retry
release_retry-Extends now p key node operation activity =
    ExtendsPass-if p.work _ _ _
      (Extends-trans p.work _ _ (Extends-with_nodes p.work _) (Extends-append_event _ now _ _ _))
      (Extends-refl p.work)

expire_lease-Extends :
    (config : Config) (definition : CompiledDefinition) (now : Time) (p : Pass) (key : String)
    (node : NodeRun) (operation : String) (activity : Activity)
    → Ensures
        (ExtendsPass p.work)
        (expire_lease config definition now p key node operation activity)
unfolding expire_lease
expire_lease-Extends config definition now p key node operation activity =
    Ensures-if _ _ _
      (λ _.
        Ensures-then _ _
          (fail_current_attempt-Extends config definition p.work key node operation activity _ _
            now)
          λ w e. Ensures-ok _ e)
      (λ _. Ensures-ok p (Extends-refl p.work))

reconcile_by_state-Extends :
    (state : ActivityState) (config : Config) (definition : CompiledDefinition) (now : Time)
    (p : Pass) (key : String) (node : NodeRun) (operation : String) (activity : Activity)
    → Ensures
        (ExtendsPass p.work)
        (reconcile_by_state state config definition now p key node operation activity)
unfolding reconcile_by_state
reconcile_by_state-Extends activity_waiting_retry config definition now p key node operation a =
    Ensures-ok _ (release_retry-Extends now p key node operation a)
reconcile_by_state-Extends activity_claimed config definition now p key node operation a =
    expire_lease-Extends config definition now p key node operation a
reconcile_by_state-Extends activity_running config definition now p key node operation a =
    expire_lease-Extends config definition now p key node operation a
reconcile_by_state-Extends _ config definition now p key node operation a =
    Ensures-ok p (Extends-refl p.work)

reconcile_activities-Extends :
    (config : Config) (definition : CompiledDefinition) (now : Time) (key : String)
    (operations : List String) (p : Pass)
    → Ensures (ExtendsPass p.work) (reconcile_activities config definition now key operations p)
unfolding reconcile_activities
reconcile_activities-Extends config definition now key [] p = Ensures-ok p (Extends-refl p.work)
reconcile_activities-Extends config definition now key (operation ∷ rest) p =
    Ensures-bind _ _ λ node _. Ensures-bind _ _ λ activity _.
      Ensures-then _ _
        (reconcile_by_state-Extends activity.state config definition now p key node operation
          activity)
        λ p' e.
          Ensures-imp _ (reconcile_activities-Extends config definition now key rest p')
            λ p'' e'. Extends-trans p.work p'.work p''.work e e'

reconcile_nodes-Extends :
    (config : Config) (definition : CompiledDefinition) (now : Time) (ks : List String) (p : Pass)
    → Ensures (ExtendsPass p.work) (reconcile_nodes config definition now ks p)
unfolding reconcile_nodes
reconcile_nodes-Extends config definition now [] p = Ensures-ok p (Extends-refl p.work)
reconcile_nodes-Extends config definition now (key ∷ ks) p = Ensures-bind _ _ λ node _.
    Ensures-bind _ _ λ compiled _.
      Ensures-if _ _ _ (λ _. Ensures-ok _ (fail_node-Extends p.work key node _ now))
        (λ _. Ensures-then _ _ (reconcile_activities-Extends config definition now key _ p) λ p' e.
          Ensures-imp _ (reconcile_nodes-Extends config definition now ks p')
            λ p'' e'. Extends-trans p.work p'.work p''.work e e')

-- What a pass over a record keeps: the work that is to be committed, if any, extends the record.
abbrev pub ExtendsSome : Work → Option Work → Type 0
ExtendsSome w none = Unit
ExtendsSome w (some w') = Extends w w'

ExtendsSome-if : (v w : Work) (b : Bool) → Extends v w → ExtendsSome v (if b then some w else none)
unfolding if◌then◌else◌
ExtendsSome-if v w true h = h
ExtendsSome-if v w false h = tt

reconcile_record-Extends :
    (s : Service) (m : Moment) (definition : CompiledDefinition) (rec : RunRecord)
    → Ensures (ExtendsSome (begin rec m)) (reconcile_record s m definition rec)
unfolding reconcile_record
reconcile_record-Extends s m definition rec =
    Ensures-then _ _ (reconcile_nodes-Extends s.config definition m.now _ _) λ p e.
      Ensures-then {P = Extends p.work} _ _
        (Ensures-if _ _ _ (λ _. advance-Extends _ definition m.now p.work)
          (λ _. Ensures-ok p.work (Extends-refl p.work)))
        λ w e'. Ensures-ok _ (ExtendsSome-if _ w _ (Extends-trans _ p.work w e e'))

module _ (P : Service → Type 0) (E : String → Type 0) (rules : Rules P E) where
  commit_if-keeps :
      (s : Service) (m : Moment) (run_id : String) (rec : RunRecord)
      → P s
      → lookup run_id s.runs ≡ some rec
      → (changed : Option Work) → ExtendsSome (begin rec m) changed
      → Ensures P (commit_if s m changed)
  commit_if-keeps s m run_id rec p found none e = Ensures-ok s p
  commit_if-keeps s m run_id rec p found (some w) e =
      rules.commits s m run_id rec (begin rec m) w p found refl refl e

  reconcile_run-keeps :
      (s : Service) (m : Moment) (run_id : String) → P s → Ensures P (reconcile_run s m run_id)
  unfolding reconcile_run
  reconcile_run-keeps s m run_id p =
      Ensures-then {P = λ rec. lookup run_id s.runs ≡ some rec} _ _ (Ensures-or_fail _ _ λ rec e. e)
        λ rec found.
          Ensures-if _ _ _ (λ _. Ensures-ok s p)
            λ _. Ensures-bind _ _ λ definition _.
              Ensures-then _ _ (reconcile_record-Extends s m definition rec)
                (commit_if-keeps s m run_id rec p found)

  reconcile_runs-keeps :
      (m : Moment) (ids : List String) (s : Service) → P s → P (reconcile_runs m ids s).0
  unfolding reconcile_runs
  reconcile_runs-keeps m [] s p = p
  reconcile_runs-keeps m (run_id ∷ ids) s p =
      after_run _ (λ s' p'. reconcile_runs-keeps m ids s' p') _ (reconcile_run-keeps s m run_id p)
    where
      after_run :
          (again : Service → Service × Option Error)
          → ((s' : Service) → P s' → P (again s').0)
          → (r : Result Service) → Ensures P r
          → P (elim r as (λ _. Service × Option Error) [ err e ↦ (s, some e) | ok s' ↦ again s' ]).0
      after_run again k (err e) h = p
      after_run again k (ok s') h = k s' (h.at s' refl)

  pub reconcile-keeps : (s : Service) (m : Moment) → P s → P (reconcile s m).0
  unfolding reconcile if◌then◌else◌
  reconcile-keeps s m p = unless_closing _ _ (reconcile_runs-keeps m _ s p)
    where
      unless_closing :
          (b : Bool) (r : Service × Option Error)
          → P r.0
          → P (if b then (s, some shutting_down) else r).0
      unless_closing true r h = p
      unless_closing false r h = h
