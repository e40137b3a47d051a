-- ===== src/Workflow/Rules.antt =====
-- internal/workflow/service.go: what a predicate of services has to allow for every call to keep it.
-- Each call ends in a commit of a record that extends the stored one, in the creation of a run, in a
-- deletion, or in nothing.
use remote_code.Prelude.{◌≡◌, String, true, some, [], Map, lookup, ◌<◌}
use remote_code.Workflow.Model.{RunRecord, terminal_run_state}
use remote_code.Workflow.Definition.{CompiledDefinition}
use remote_code.Workflow.Ensures.{Ensures}
use remote_code.Workflow.Extends.{Extends}
use remote_code.Workflow.Journal.{Work}
use remote_code.Workflow.Service.{Service, Moment, commit, create, erase_run, active_run_count}

-- `E` says which runs may be deleted.
pub record Rules (P : Service → Type 0) (E : String → Type 0) : Type 0 where
  pub commits :
      (s : Service) (m : Moment) (run_id : String) (rec : RunRecord) (v w : Work)
      → P s
      → lookup run_id s.runs ≡ some rec
      → v.rec.run ≡ rec.run
      → v.events ≡ []
      → Extends v w
      → Ensures P (commit s w m)
  pub creates :
      (s : Service) (m : Moment) (workflow key : String) (v w : Work)
      → P s
      → active_run_count s < s.config.max_active_runs
      → v.rec.run.event_sequence ≡ 0
      → v.events ≡ []
      → Extends v w
      → Ensures P (create s w workflow key m)
  pub erases :
      (s : Service) (run_id : String) (rec : RunRecord)
      → P s
      → E run_id
      → lookup run_id s.runs ≡ some rec
      → terminal_run_state rec.run.run_state ≡ true
      → P (erase_run s run_id rec)
  pub redefines :
      (s : Service) (d : Map CompiledDefinition) → P s → P (record s { definitions = d })
  pub closes : (s : Service) → P s → P (record s { closing = true })
