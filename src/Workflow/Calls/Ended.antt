-- ===== src/Workflow/Calls/Ended.antt =====
-- internal/workflow/service.go: a run that has ended, over any calls.
use remote_code.Prelude.{
  ◌≡◌, refl, sym, ap, ◌∙◌, String, true, false, none, some, List, lookup, insert, lookup-insert,
  lookup-delete, str_eq, str_eq→eq, if◌then◌else◌, inl, inr, Bool-cases,
}
use remote_code.Workflow.Model.{RunState, RunRecord, terminal_run_state}
use remote_code.Workflow.Extends.{Extends}
use remote_code.Workflow.Rules.{Rules}
use remote_code.Workflow.Journal.{Work}
use remote_code.Workflow.Service.{Service, Moment, erase_run}
use remote_code.Workflow.Service.Effects.{Committed, Created, commit-Committed, create-Created}
use remote_code.Workflow.Calls.{Call, run_calls}
use remote_code.Workflow.Calls.Keeps.{run_calls-keeps, AllowsAll}
use remote_code.Workflow.Calls.Gapless.{IsJournaled, IsJournaled-rules}

-- The run stands in the service, in this state.
pub record StandsIn (id : String) (state : RunState) (s : Service) : Type 0 where
  pub record_of : RunRecord
  pub found_at : lookup id s.runs ≡ some record_of
  pub in_state : record_of.run.run_state ≡ state

some-injective : {A : Type 0} {a b : A} → some a ≡ some b → a ≡ b
some-injective p = cc

none≢some : {A B : Type 0} {a : A} → none ≡ some a → B
none≢some p = cc

module _ (id : String) (state : RunState) where
  -- A record is put under another id, or under this one in this state.
  put-StandsIn :
      (s s' : Service) (key : String) (rec : RunRecord)
      → StandsIn id state s
      → s'.runs ≡ insert key rec s.runs
      → (str_eq key id ≡ true → rec.run.run_state ≡ state)
      → StandsIn id state s'
  unfolding if◌then◌else◌
  put-StandsIn s s' key rec p e h = elim (Bool-cases (str_eq key id)) [
    | inl own ↦ record {
      record_of = rec;
      found_at = ap (lookup id) e ∙ lookup-insert key id rec s.runs ∙ rw own refl;
      in_state = h own;
    }
    | inr other ↦ record {
      record_of = p.record_of;
      found_at = ap (lookup id) e ∙ lookup-insert key id rec s.runs ∙ rw other p.found_at;
      in_state = p.in_state;
    }
  ]

  commit-StandsIn :
      (s s' : Service) (run_id : String) (rec : RunRecord) (v w : Work)
      → terminal_run_state state ≡ true
      → IsJournaled s
      → StandsIn id state s
      → lookup run_id s.runs ≡ some rec
      → v.rec.run ≡ rec.run
      → Extends v w
      → Committed s w s'
      → StandsIn id state s'
  commit-StandsIn s s' run_id rec v w ended journaled p found same e c =
      put-StandsIn s s' _ c.stamped p c.runs_after λ own.
        c.same_state
        ∙ e.keeps_end (ap terminal_run_state (state_before own) ∙ ended)
        ∙ state_before own
    where
      key_eq : w.rec.run.run_id ≡ run_id
      key_eq = e.same_id ∙ ap (λ r. r.run_id) same ∙ journaled.keyed run_id rec found

      state_before : str_eq w.rec.run.run_id id ≡ true → v.rec.run.run_state ≡ state
      state_before own =
          ap (λ r. r.run_state) same
          ∙ ap (λ r. r.run.run_state)
              (some-injective (
                sym found
                ∙ ap (λ k. lookup k s.runs) (sym key_eq ∙ str_eq→eq _ id own)
                ∙ p.found_at))
          ∙ p.in_state

  create-StandsIn :
      (s s' : Service) (w : Work) (workflow key : String)
      → StandsIn id state s
      → Created s w workflow key s'
      → StandsIn id state s'
  create-StandsIn s s' w workflow key p c = put-StandsIn s s' _ w.rec p c.runs_created λ own.
      none≢some (sym c.was_free ∙ ap (λ k. lookup k s.runs) (str_eq→eq _ id own) ∙ p.found_at)

  erase-StandsIn :
      (s : Service) (run_id : String) (rec : RunRecord)
      → StandsIn id state s
      → str_eq run_id id ≡ false
      → StandsIn id state (erase_run s run_id rec)
  unfolding erase_run if◌then◌else◌
  erase-StandsIn s run_id rec p other = record {
    record_of = p.record_of;
    found_at = lookup-delete run_id id s.runs ∙ rw other p.found_at;
    in_state = p.in_state;
  }

  ended_rules :
      terminal_run_state state ≡ true
      → Rules (λ s. IsJournaled s × StandsIn id state s) (λ other. str_eq other id ≡ false)
  ended_rules ended = record {
    commits = λ s m run_id rec v w p found same none_yet e. record {
      at = λ s' done. (
        (journal.commits s m run_id rec v w p.0 found same none_yet e).at s' done,
        commit-StandsIn s s' run_id rec v w ended p.0 p.1 found same e
            ((commit-Committed s w m).at s' done),
      );
    };
    creates = λ s m workflow key v w p room zero_yet none_yet e. record {
      at = λ s' done. (
        (journal.creates s m workflow key v w p.0 room zero_yet none_yet e).at s' done,
        create-StandsIn s s' w workflow key p.1 ((create-Created s w workflow key m).at s' done),
      );
    };
    erases = λ s run_id rec p other found over.
        (journal.erases s run_id rec p.0 tt found over, erase-StandsIn s run_id rec p.1 other);
    redefines = λ s d p. (journal.redefines s d p.0, stays s _ refl p.1);
    closes = λ s p. (journal.closes s p.0, stays s _ refl p.1);
  }
    where
      journal : Rules IsJournaled (λ _. Unit)
      journal = IsJournaled-rules (λ _. Unit)

      stays : (s s' : Service) → s'.runs ≡ s.runs → StandsIn id state s → StandsIn id state s'
      stays s s' e p = record {
        record_of = p.record_of;
        found_at = ap (lookup id) e ∙ p.found_at;
        in_state = p.in_state;
      }

-- In a journaled service, a run that has ended stays, in its state, over every sequence of calls
-- that does not delete it.
pub run_calls-keeps_ended :
    (s : Service) (calls : List (Moment × Call)) (id : String) (rec : RunRecord)
    → IsJournaled s
    → lookup id s.runs ≡ some rec
    → terminal_run_state rec.run.run_state ≡ true
    → AllowsAll (λ other. str_eq other id ≡ false) calls
    → StandsIn id rec.run.run_state (run_calls s calls)
run_calls-keeps_ended s calls id rec p found ended allowed =
    (run_calls-keeps _ _ (ended_rules id rec.run.run_state ended) s calls allowed
      (p, record { record_of = rec; found_at = found; in_state = refl })).1
