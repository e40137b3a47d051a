-- ===== src/Workflow/Calls/Capacity.antt =====
-- internal/workflow/service.go: the bound on the runs that have not ended, over any calls.
use remote_code.Prelude.{◌≡◌, ◌≤◌, ◌<◌, ap, ◌∙◌, String, true, some, List, arith, lookup}
use remote_code.Workflow.Model.{RunRecord, terminal_run_state}
use remote_code.Workflow.Rules.{Rules}
use remote_code.Workflow.Extends.{Extends}
use remote_code.Workflow.Journal.{Work}
use remote_code.Workflow.Service.{Service, Moment, erase_run, active_run_count}
use remote_code.Workflow.Service.Active.{
  count_active-replace, count_active-insert, count_active-delete,
}
use remote_code.Workflow.Service.Effects.{Committed, Created, commit-Committed, create-Created}
use remote_code.Workflow.Calls.{Call, run_calls}
use remote_code.Workflow.Calls.Keeps.{run_calls-keeps, allows_all}
use remote_code.Workflow.Calls.Gapless.{IsJournaled, IsJournaled-rules}

-- At most as many runs have not ended as the configuration allows.
abbrev pub HasRoom : Service → Type 0
HasRoom s = active_run_count s ≤ s.config.max_active_runs

commit-HasRoom :
    (s s' : Service) (run_id : String) (rec : RunRecord) (v w : Work)
    → IsJournaled s
    → HasRoom s
    → lookup run_id s.runs ≡ some rec
    → v.rec.run ≡ rec.run
    → Extends v w
    → Committed s w s'
    → HasRoom s'
unfolding active_run_count
commit-HasRoom s s' run_id rec v w journaled p found same e c =
    rw (c.runs_after, c.same_config)
      (omega
        (arith, p, count_active-replace w.rec.run.run_id rec c.stamped s.runs found_there ends))
  where
    found_there : lookup w.rec.run.run_id s.runs ≡ some rec
    found_there =
        ap (λ k. lookup k s.runs)
          (e.same_id ∙ ap (λ r. r.run_id) same ∙ journaled.keyed run_id rec found)
        ∙ found

    state_eq : v.rec.run.run_state ≡ rec.run.run_state
    state_eq = ap (λ r. r.run_state) same

    ends :
        terminal_run_state rec.run.run_state ≡ true
        → terminal_run_state c.stamped.run.run_state ≡ true
    ends over =
        ap terminal_run_state
          (c.same_state ∙ e.keeps_end (ap terminal_run_state state_eq ∙ over) ∙ state_eq)
        ∙ over

create-HasRoom :
    (s s' : Service) (w : Work) (workflow key : String)
    → active_run_count s < s.config.max_active_runs
    → Created s w workflow key s'
    → HasRoom s'
unfolding active_run_count
create-HasRoom s s' w workflow key room c =
    rw (c.runs_created, c.config_created)
      (omega (arith, room, count_active-insert w.rec.run.run_id w.rec s.runs))

erase-HasRoom :
    (s : Service) (run_id : String) (rec : RunRecord) → HasRoom s → HasRoom (erase_run s run_id rec)
unfolding active_run_count erase_run
erase-HasRoom s run_id rec p = omega (arith, p, count_active-delete run_id s.runs)

room_rules : Rules (λ s. IsJournaled s × HasRoom s) (λ _. Unit)
unfolding active_run_count
room_rules = record {
  commits = λ s m run_id rec v w p found same none_yet e. record {
    at = λ s' done. (
      (journal.commits s m run_id rec v w p.0 found same none_yet e).at s' done,
      commit-HasRoom s s' run_id rec v w p.0 p.1 found same e ((commit-Committed s w m).at s' done),
    );
  };
  creates = λ s m workflow key v w p room zero_yet none_yet e. record {
    at = λ s' done. (
      (journal.creates s m workflow key v w p.0 room zero_yet none_yet e).at s' done,
      create-HasRoom s s' w workflow key room ((create-Created s w workflow key m).at s' done),
    );
  };
  erases = λ s run_id rec p allowed found over.
      (journal.erases s run_id rec p.0 tt found over, erase-HasRoom s run_id rec p.1);
  redefines = λ s d p. (journal.redefines s d p.0, p.1);
  closes = λ s p. (journal.closes s p.0, p.1);
}
  where
    journal : Rules IsJournaled (λ _. Unit)
    journal = IsJournaled-rules (λ _. Unit)

-- In a journaled service with at most as many runs that have not ended as its configuration allows,
-- that bound holds after every sequence of calls.
pub run_calls-HasRoom :
    (s : Service) (calls : List (Moment × Call))
    → IsJournaled s
    → HasRoom s
    → HasRoom (run_calls s calls)
run_calls-HasRoom s calls p room =
    (run_calls-keeps _ _ room_rules s calls (allows_all calls) (p, room)).1
