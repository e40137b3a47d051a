-- ===== src/Workflow/Service/Effects.antt =====
-- internal/workflow/service.go: what a successful commit and a successful creation change.
use remote_code.Prelude.{◌≡◌, refl, String, none, lookup, insert, Option-cases, inl, inr}
use remote_code.Workflow.Model.{RunRecord, conflict, store_failed}
use remote_code.Workflow.Ensures.{Ensures, Ensures-ok, Ensures-err, Ensures-bind, Ensures-guard}
use remote_code.Workflow.Journal.{Work}
use remote_code.Workflow.Service.{Service, Moment, commit, create, create_at, put_events, with_key}

pub record Committed (s : Service) (w : Work) (s' : Service) : Type 0 where
  pub stamped : RunRecord
  pub same_run_id : stamped.run.run_id ≡ w.rec.run.run_id
  pub same_sequence : stamped.run.event_sequence ≡ w.rec.run.event_sequence
  pub same_state : stamped.run.run_state ≡ w.rec.run.run_state
  pub runs_after : s'.runs ≡ insert w.rec.run.run_id stamped s.runs
  pub stored_after : s'.stored ≡ put_events w.events s.stored
  pub same_nodes : stamped.run.nodes ≡ w.rec.run.nodes
  pub same_leases : stamped.leases ≡ w.rec.leases
  pub same_commands : stamped.commands ≡ w.rec.commands
  pub same_config : s'.config ≡ s.config
  pub same_platform : s'.platform ≡ s.platform
  pub same_closing : s'.closing ≡ s.closing

pub record Created (s : Service) (w : Work) (workflow key : String) (s' : Service) : Type 0 where
  pub was_free : lookup w.rec.run.run_id s.runs ≡ none
  pub runs_created : s'.runs ≡ insert w.rec.run.run_id w.rec s.runs
  pub stored_created : s'.stored ≡ put_events w.events s.stored
  pub config_created : s'.config ≡ s.config
  pub registry_created : s'.registry ≡ s.registry
  pub closing_created : s'.closing ≡ s.closing
  pub indexed : s'.idempotency ≡ with_key workflow key w.rec.run.run_id s.idempotency

pub commit-Committed :
    (s : Service) (w : Work) (m : Moment) → Ensures (Committed s w) (commit s w m)
unfolding commit
commit-Committed s w m = Ensures-bind _ _ (λ found e. Ensures-guard _ store_failed _ (λ _.
    Ensures-ok _ (record {
      stamped = record w.rec { run = record w.rec.run { run_updated_at = m.committed_at } };
      same_run_id = refl;
      same_sequence = refl;
      same_state = refl;
      runs_after = refl;
      stored_after = refl;
      same_nodes = refl;
      same_leases = refl;
      same_commands = refl;
      same_config = refl;
      same_platform = refl;
      same_closing = refl;
    })))

pub create-Created :
    (s : Service) (w : Work) (workflow key : String) (m : Moment)
    → Ensures (Created s w workflow key) (create s w workflow key m)
unfolding create create_at
create-Created s w workflow key m = elim (Option-cases (lookup w.rec.run.run_id s.runs)) [
  | inr (rec, e) ↦ rw e (Ensures-err conflict)
  | inl e ↦ rw e (
      Ensures-guard _ conflict _ (λ _. Ensures-guard _ store_failed _ (λ _. Ensures-ok _ (record {
        was_free = e;
        runs_created = refl;
        stored_created = refl;
        config_created = refl;
        registry_created = refl;
        closing_created = refl;
        indexed = refl;
      }))))
]
