-- ===== src/Workflow/Service/Replay.antt =====
-- internal/workflow/service.go: a command on a run that is sent again.
use remote_code.Prelude.{◌≡◌, refl, sym, subst, ap, ◌∙◌, String, false, some, if◌then◌else◌}
use remote_code.Workflow.Model.{Message, Result, ok, err, ◌>>=◌, conflict, CommandRecord}
use remote_code.Workflow.Script.{Platform, Payload, text_payload}
use remote_code.Workflow.Ensures.{Ensures, Ensures-ok, Ensures-if, Ensures-then}
use remote_code.Workflow.Extends.{Extends}
use remote_code.Workflow.Journal.{Work}
use remote_code.Workflow.Service.{
  Service, Moment, begin, run_command, command_entry, same_command, cancel_run, pause_run,
  resume_run,
}
use remote_code.Workflow.Service.Keeps.{cancel_body-Extends, pause_body-Extends}
use remote_code.Workflow.Service.Registered.{
  IsRegistered, register_command-Registration, register_command-again, register_command-other,
  mutable_record-open, mutable_record-found, commit-Registered,
}
use remote_code.Workflow.Calls.Gapless.{IsJournaled}

-- A service in which the run remembers this command, in the form that its platform gives it.
abbrev pub Knows : Service → String → String → String → String → Payload → Platform → Type 0
Knows s run_id command activity action content p =
    (s.platform ≡ p) × IsRegistered s run_id command (command_entry p activity action content)

pub Knows-own :
    (s : Service) (run_id command activity action : String) (content : Payload) (p : Platform)
    → Knows s run_id command activity action content p
    → IsRegistered s run_id command (command_entry s.platform activity action content)
Knows-own s run_id command activity action content p k =
    subst (λ q. IsRegistered s run_id command (command_entry q activity action content)) (sym k.0)
      k.1

run_command-Knows :
    (s : Service) (m : Moment) (run_id command action : String) (content : Payload)
    (body : Work → Result Work)
    → ((w : Work) → Ensures (Extends w) (body w))
    → IsJournaled s
    → Ensures
        (λ s'. Knows s' run_id command "" action content s.platform)
        (run_command s m run_id command action content body)
unfolding run_command
run_command-Knows s m run_id command action content body extends p =
    Ensures-then _ _ (mutable_record-open s run_id) λ rec found.
      Ensures-then _ _ (register_command-Registration s.platform rec command "" action content)
        λ q r.
          Ensures-if _ _ _
            (λ duplicate. Ensures-ok s (
              refl,
              record {
                record_of = q.1;
                found_at = found.0 ∙ ap (λ x. some x) (sym (r.2 duplicate));
                remembers = r.1;
                is_open = found.1;
              },
            ))
            (λ _.
              Ensures-then _ _ (extends (begin q.1 m))
                λ w e. commit-Registered s m run_id command rec q.1 _ w p found.0 found.1 r.0 r.1 e)

run_command-again :
    (s : Service) (m : Moment) (run_id command action : String) (content : Payload)
    (body : Work → Result Work)
    → IsRegistered s run_id command (command_entry s.platform "" action content)
    → run_command s m run_id command action content body ≡ ok s
unfolding run_command ◌>>=◌ if◌then◌else◌
run_command-again s m run_id command action content body r =
    rw
      (
        mutable_record-found s run_id r.record_of r.found_at r.is_open,
        register_command-again s.platform r.record_of command "" action content r.remembers,
      )
      refl

run_command-other :
    (s : Service) (m : Moment) (run_id command action : String) (content : Payload)
    (body : Work → Result Work) (entry : CommandRecord)
    → IsRegistered s run_id command entry
    → same_command entry (command_entry s.platform "" action content) ≡ false
    → run_command s m run_id command action content body ≡ err conflict
unfolding run_command ◌>>=◌ if◌then◌else◌
run_command-other s m run_id command action content body entry r other =
    rw
      (
        mutable_record-found s run_id r.record_of r.found_at r.is_open,
        register_command-other s.platform r.record_of command "" action content entry r.remembers
            other,
      )
      refl

-- In a journaled service: a cancellation that succeeded leaves the service as it is when the same
-- command is sent again, at any later moment.
pub cancel_run-replay :
    (s s' : Service) (m m' : Moment) (run_id command : String) (message : Message)
    → IsJournaled s
    → cancel_run s m run_id command message ≡ ok s'
    → cancel_run s' m' run_id command message ≡ ok s'
unfolding cancel_run
cancel_run-replay s s' m m' run_id command message p done =
    run_command-again s' m' run_id command _ _ _ (Knows-own s' run_id command _ _ _ s.platform k)
  where
    k : Knows s' run_id command "" "cancel-run" (text_payload message) s.platform
    k = (run_command-Knows s m run_id command _ _ _ (cancel_body-Extends m message) p).at s' done

-- In a journaled service: a pause that succeeded succeeds without any change when the same command
-- is sent again, though the run is not running any more, and its command id is refused to a
-- resumption.
pub pause_run-replay :
    (s s' : Service) (m m' : Moment) (run_id command : String) (message : Message)
    → IsJournaled s
    → pause_run s m run_id command message ≡ ok s'
    → (pause_run s' m' run_id command message ≡ ok s')
      × (resume_run s' m' run_id command ≡ err conflict)
unfolding pause_run resume_run
pause_run-replay s s' m m' run_id command message p done = (
  run_command-again s' m' run_id command _ _ _ (Knows-own s' run_id command _ _ _ s.platform k),
  run_command-other s' m' run_id command _ _ _ _ k.1 refl,
)
  where
    k : Knows s' run_id command "" "pause-run" (text_payload message) s.platform
    k = (run_command-Knows s m run_id command _ _ _ (pause_body-Extends m message) p).at s' done
