-- ===== src/Workflow/Calls/Appends.antt =====
-- internal/workflow/service.go and store.go: the stored events of a run, over any calls.
use remote_code.Prelude.{
  suc, ◌≡◌, ap, subst, ◌∙◌, sym, String, true, false, List, [], ◌++◌, lookup, str_eq, str_eq→eq,
  inl, inr, Bool-cases,
}
use mathlib.Core.List.{append-nil, append_assoc}
use remote_code.Workflow.Model.{Event, RunRecord}
use remote_code.Workflow.Extends.{Extends}
use remote_code.Workflow.Rules.{Rules}
use remote_code.Workflow.Journal.{Work}
use remote_code.Workflow.Service.{Service, Moment, put_events, erase_run}
use remote_code.Workflow.Service.Effects.{commit-Committed, create-Created}
use remote_code.Workflow.Stored.{of_run, of_run-put_next, of_other-put_events, of_run-not_of_other}
use remote_code.Workflow.Calls.{Call, run_calls}
use remote_code.Workflow.Calls.Gapless.{
  IsJournaled, IsJournaled-rules, counted_by, counted_before, counted_new,
}
use remote_code.Workflow.Calls.Keeps.{run_calls-keeps, AllowsAll}

-- The stored events of the run begin with these.
pub record BeginsWith (id : String) (log : List Event) (s : Service) : Type 0 where
  pub more : List Event
  pub log_is : of_run id s.stored ≡ log ++ more

-- The numbers of the events keep them from the rows that are there.
record IsGrown (id : String) (log : List Event) (s : Service) : Type 0 where
  journaled : IsJournaled s
  begins : BeginsWith id log s

-- The events that a call adds come up behind the rows of their run.
put_added :
    (s : Service) (v w : Work)
    → IsJournaled s
    → counted_by (lookup v.rec.run.run_id s.runs) ≡ v.rec.run.event_sequence
    → (e : Extends v w)
    → of_run v.rec.run.run_id (put_events e.added s.stored)
      ≡ of_run v.rec.run.run_id s.stored ++ e.added
put_added s v w p before e =
    of_run-put_next v.rec.run.run_id e.added s.stored (p.gapless v.rec.run.run_id)
      (rw (← p.counts v.rec.run.run_id, before) e.numbered)

module _ (id : String) (log : List Event) where
  extend-BeginsWith :
      (s s' : Service) (v w : Work)
      → IsJournaled s
      → counted_by (lookup v.rec.run.run_id s.runs) ≡ v.rec.run.event_sequence
      → v.events ≡ []
      → Extends v w
      → s'.stored ≡ put_events w.events s.stored
      → BeginsWith id log s
      → BeginsWith id log s'
  extend-BeginsWith s s' v w p before none_yet e stored_eq b =
      elim (Bool-cases (str_eq v.rec.run.run_id id)) [
        | inl own ↦ record {
          more = b.more ++ e.added;
          log_is =
              stored_as
              ∙ put_own own
              ∙ ap (λ xs. xs ++ e.added) b.log_is
              ∙ append_assoc log b.more e.added;
        }
        | inr other ↦ record {
          more = b.more;
          log_is =
              stored_as
              ∙ of_other-put_events v.rec.run.run_id id (suc v.rec.run.event_sequence) e.added
                  s.stored other e.numbered
              ∙ b.log_is;
        }
      ]
    where
      stored_as : of_run id s'.stored ≡ of_run id (put_events e.added s.stored)
      stored_as =
          ap (of_run id) stored_eq
          ∙ ap (λ es. of_run id (put_events es s.stored))
              (e.same_events ∙ ap (λ es. es ++ e.added) none_yet)

      put_own :
          str_eq v.rec.run.run_id id ≡ true
          → of_run id (put_events e.added s.stored) ≡ of_run id s.stored ++ e.added
      put_own own =
          subst (λ x. of_run x (put_events e.added s.stored) ≡ of_run x s.stored ++ e.added)
            (str_eq→eq v.rec.run.run_id id own) (put_added s v w p before e)

  erase-BeginsWith :
      (s : Service) (run_id : String) (rec : RunRecord)
      → BeginsWith id log s
      → str_eq run_id id ≡ false
      → BeginsWith id log (erase_run s run_id rec)
  unfolding erase_run
  erase-BeginsWith s run_id rec p other = record {
    more = p.more;
    log_is = of_run-not_of_other run_id id s.stored other ∙ p.log_is;
  }

  growing_rules : Rules (IsGrown id log) (λ other. str_eq other id ≡ false)
  growing_rules =
      let rules = IsJournaled-rules (λ other. str_eq other id ≡ false) in
      record {
        commits = λ s m run_id rec v w p found same none_yet e. record {
          at = λ s' r. record {
            journaled =
                (rules.commits s m run_id rec v w p.journaled found same none_yet e).at s' r;
            begins =
                extend-BeginsWith s s' v w p.journaled
                  (counted_before s run_id rec v p.journaled found same) none_yet e
                  ((commit-Committed s w m).at s' r).stored_after p.begins;
          };
        };
        creates = λ s m workflow key v w p room zero_yet none_yet e. record {
          at = λ s' r.
              let c = (create-Created s w workflow key m).at s' r in
              record {
                journaled =
                    (rules.creates s m workflow key v w p.journaled room zero_yet none_yet e).at s'
                      r;
                begins =
                    extend-BeginsWith s s' v w p.journaled (counted_new s v w e c.was_free zero_yet)
                      none_yet e c.stored_created p.begins;
              };
        };
        erases = λ s run_id rec p other found ended. record {
          journaled = rules.erases s run_id rec p.journaled other found ended;
          begins = erase-BeginsWith s run_id rec p.begins other;
        };
        redefines = λ s d p. record {
          journaled = rules.redefines s d p.journaled;
          begins = record { more = p.begins.more; log_is = p.begins.log_is };
        };
        closes = λ s p. record {
          journaled = rules.closes s p.journaled;
          begins = record { more = p.begins.more; log_is = p.begins.log_is };
        };
      }

-- From a journaled service, over every sequence of calls that does not delete the run, its stored
-- events only grow at their end, so that none of them is overwritten.
pub run_calls-appends :
    (s : Service) (calls : List (Moment × Call)) (id : String)
    → IsJournaled s
    → AllowsAll (λ other. str_eq other id ≡ false) calls
    → BeginsWith id (of_run id s.stored) (run_calls s calls)
run_calls-appends s calls id journaled allowed =
    (run_calls-keeps _ _ (growing_rules id (of_run id s.stored)) s calls allowed (record {
      journaled = journaled;
      begins = record { more = []; log_is = sym (append-nil (of_run id s.stored)) };
    })).begins
