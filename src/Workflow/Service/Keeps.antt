-- ===== src/Workflow/Service/Keeps.antt =====
-- internal/workflow/service.go: the calls on runs keep every predicate of services that follows the
-- rules.
use remote_code.Prelude.{ltb→lt, ◌<◌, ◌≡◌, refl, String, true, Option, none, some, lookup}
use remote_code.Workflow.Model.{
  Message, Json, Result, RunRecord, CommandRecord, RunState, run_running, run_paused,
  terminal_run_state, conflict, not_found,
}
use remote_code.Workflow.Definition.{CompiledDefinition}
use remote_code.Workflow.Script.{Platform, Payload}
use remote_code.Workflow.Ensures.{
  Ensures, Ensures-ok, Ensures-err, Ensures-bind, Ensures-then, Ensures-if, Ensures-imp,
  Ensures-or_fail, Ensures-guard,
}
use remote_code.Workflow.Extends.{
  Extends, Extends-trans, Extends-quiet, Extends-with_nodes, Extends-append_event,
}
use remote_code.Workflow.Rules.{Rules}
use remote_code.Workflow.Journal.{Work, with_run}
use remote_code.Workflow.Journal.Keeps.{finish_run-Extends}
use remote_code.Workflow.Advance.Keeps.{advance-Extends, random_identifier-events}
use remote_code.Workflow.Service.{
  active_run_count, Service, Moment, begin, mutable_record, register_entry, cancel_body, pause_body,
  resume_body, register_command, run_command, cancel_run, pause_run, resume_run, delete_run,
  is_run_running, is_run_paused, initial_record, launch, start_fresh, start_or_replay, start_run,
}

register_entry-run :
    (rec : RunRecord) (command : String) (entry : CommandRecord) (old : Option CommandRecord)
    → Ensures (λ p. p.1.run ≡ rec.run) (register_entry rec command entry old)
unfolding register_entry
register_entry-run rec command entry none = Ensures-ok _ refl
register_entry-run rec command entry (some old) =
    Ensures-if _ _ _ (λ _. Ensures-ok _ refl) (λ _. Ensures-err _)

-- The registration of a command leaves the run alone.
pub register_command-run :
    (p : Platform) (rec : RunRecord) (command activity action : String) (content : Payload)
    → Ensures (λ q. q.1.run ≡ rec.run) (register_command p rec command activity action content)
unfolding register_command
register_command-run p rec command activity action content =
    Ensures-if _ _ _ (λ _. register_entry-run rec command _ _) (λ _. Ensures-err _)

pub mutable_record-lookup :
    (s : Service) (run_id : String)
    → Ensures (λ rec. lookup run_id s.runs ≡ some rec) (mutable_record s run_id)
unfolding mutable_record
mutable_record-lookup s run_id =
    Ensures-if _ _ _ (λ _. Ensures-err _) (λ _. Ensures-or_fail _ _ λ rec e. e)

running-not_ended :
    (state : RunState)
    → is_run_running state ≡ true
    → terminal_run_state state ≡ true
    → run_paused ≡ state
unfolding is_run_running terminal_run_state
running-not_ended run_running h k = cc
running-not_ended _ h k = cc

paused-not_ended :
    (state : RunState)
    → is_run_paused state ≡ true
    → terminal_run_state state ≡ true
    → run_running ≡ state
unfolding is_run_paused terminal_run_state
paused-not_ended run_paused h k = cc
paused-not_ended _ h k = cc

pub cancel_body-Extends :
    (m : Moment) (message : Message) (w : Work) → Ensures (Extends w) (cancel_body m message w)
unfolding cancel_body
cancel_body-Extends m message w = Ensures-ok _ (finish_run-Extends w _ _ m.now)

pub pause_body-Extends :
    (m : Moment) (message : Message) (w : Work) → Ensures (Extends w) (pause_body m message w)
unfolding pause_body
pause_body-Extends m message w =
    Ensures-if _ _ _
      (λ running. Ensures-ok _ (
        Extends-trans w _ _
          (Extends-quiet w (with_run w (record w.rec.run { run_state = run_paused })) refl refl refl
            refl (running-not_ended w.rec.run.run_state running))
          (Extends-append_event _ m.now _ "" "")))
      (λ _. Ensures-err conflict)

pub resume_body-Extends :
    (s : Service) (m : Moment) (run_id : String) (w : Work)
    → Ensures (Extends w) (resume_body s m run_id w)
unfolding resume_body
resume_body-Extends s m run_id w =
    Ensures-if _ _ _
      (λ paused. Ensures-bind _ _ λ definition _.
        Ensures-imp _ (advance-Extends _ definition m.now _) λ w' e.
          Extends-trans w _ w'
            (Extends-trans w _ _
              (Extends-quiet w (with_run w (record w.rec.run { run_state = run_running })) refl refl
                refl refl (paused-not_ended w.rec.run.run_state paused))
              (Extends-append_event _ m.now _ "" ""))
            e)
      (λ _. Ensures-err conflict)

module _ (P : Service → Type 0) (E : String → Type 0) (rules : Rules P E) where
  run_command-keeps :
      (s : Service) (m : Moment) (run_id command action : String) (content : Payload)
      (body : Work → Result Work)
      → ((w : Work) → Ensures (Extends w) (body w))
      → P s
      → Ensures P (run_command s m run_id command action content body)
  unfolding run_command
  run_command-keeps s m run_id command action content body extends h =
      Ensures-then _ _ (mutable_record-lookup s run_id) λ rec found.
        Ensures-then _ _ (register_command-run s.platform rec command "" action content) λ q same.
          Ensures-if _ _ _ (λ _. Ensures-ok s h)
            (λ _.
              Ensures-then _ _ (extends (begin q.1 m))
                λ w e. rules.commits s m run_id rec (begin q.1 m) w h found same refl e)

  pub cancel_run-keeps :
      (s : Service) (m : Moment) (run_id command : String) (message : Message)
      → P s
      → Ensures P (cancel_run s m run_id command message)
  unfolding cancel_run
  cancel_run-keeps s m run_id command message =
      run_command-keeps s m run_id command _ _ _ (cancel_body-Extends m message)

  pub pause_run-keeps :
      (s : Service) (m : Moment) (run_id command : String) (message : Message)
      → P s
      → Ensures P (pause_run s m run_id command message)
  unfolding pause_run
  pause_run-keeps s m run_id command message =
      run_command-keeps s m run_id command _ _ _ (pause_body-Extends m message)

  pub resume_run-keeps :
      (s : Service) (m : Moment) (run_id command : String)
      → P s
      → Ensures P (resume_run s m run_id command)
  unfolding resume_run
  resume_run-keeps s m run_id command =
      run_command-keeps s m run_id command _ _ _ (resume_body-Extends s m run_id)

  pub delete_run-keeps :
      (s : Service) (m : Moment) (run_id : String)
      → P s
      → E run_id
      → Ensures P (delete_run s m run_id)
  unfolding delete_run
  delete_run-keeps s m run_id h allowed =
      Ensures-if _ _ _ (λ _. Ensures-err _)
        (λ _.
          Ensures-then _ _ (Ensures-or_fail (lookup run_id s.runs) not_found (λ rec e. e))
            λ rec found. Ensures-guard _ _ _ λ ended.
              Ensures-guard _ _ _
                λ _. Ensures-ok _ (rules.erases s run_id rec h allowed found ended))

  launch-keeps :
      (s : Service) (m : Moment) (definition : CompiledDefinition) (workflow key : String)
      (parameters : Json)
      → P s
      → active_run_count s < s.config.max_active_runs
      → Ensures (λ q. P q.0) (launch s m definition workflow key parameters)
  unfolding launch initial_record
  launch-keeps s m definition workflow key parameters h room =
      Ensures-then _ _ (random_identifier-events "run" (begin _ m)) λ q none_yet.
        Ensures-bind _ _ λ entry_node _.
          Ensures-then _ _ (advance-Extends _ definition m.now _) λ advanced e.
            Ensures-then _ _
              (rules.creates s m workflow key
                (record q.1 { rec = initial_record definition q.0 workflow key parameters m.now })
                advanced h room refl none_yet
                (Extends-trans _ _ advanced
                  (Extends-trans _ _ _ (Extends-with_nodes _ _)
                    (Extends-append_event _ m.now _ "" ""))
                  e))
              λ s' h'. Ensures-ok _ (rules.redefines s' _ h')

  start_fresh-keeps :
      (s : Service) (m : Moment) (definition : CompiledDefinition) (workflow key : String)
      (parameters : Option Json)
      → P s
      → Ensures (λ q. P q.0) (start_fresh s m definition workflow key parameters)
  unfolding start_fresh
  start_fresh-keeps s m definition workflow key parameters h = Ensures-guard _ _ _ λ room.
      Ensures-bind _ _ λ cloned _.
        Ensures-guard _ _ _ λ _. launch-keeps s m definition workflow key cloned h (ltb→lt _ _ room)

  start_or_replay-keeps :
      (existing : Option String) (s : Service) (m : Moment) (definition : CompiledDefinition)
      (workflow key : String) (parameters : Option Json)
      → P s
      → Ensures (λ q. P q.0) (start_or_replay existing s m definition workflow key parameters)
  unfolding start_or_replay
  start_or_replay-keeps none s m definition workflow key parameters h =
      start_fresh-keeps s m definition workflow key parameters h
  start_or_replay-keeps (some existing) s m definition workflow key parameters h =
      Ensures-bind _ _ λ rec _. Ensures-ok _ h

  pub start_run-keeps :
      (s : Service) (m : Moment) (workflow key : String) (parameters : Option Json)
      → P s
      → Ensures (λ q. P q.0) (start_run s m workflow key parameters)
  unfolding start_run
  start_run-keeps s m workflow key parameters h =
      Ensures-if _ _ _ (λ _. Ensures-err _)
        (λ _. Ensures-bind _ _ λ definition _.
          Ensures-if _ _ _ (λ _. start_fresh-keeps s m definition workflow key parameters h)
            (λ _.
              Ensures-guard _ _ _
                λ _. start_or_replay-keeps _ s m definition workflow key parameters h))
