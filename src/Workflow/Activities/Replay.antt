-- ===== src/Workflow/Activities/Replay.antt =====
-- internal/workflow/service.go: a call of an executor that is sent again.
use remote_code.Prelude.{◌≡◌, refl, sym, ap, ◌∙◌, String, some, if◌then◌else◌}
use remote_code.Workflow.Model.{Result, ok, err, ◌>>=◌, ActivityResult}
use remote_code.Workflow.Script.{Payload, attempt_payload}
use remote_code.Workflow.Ensures.{
  Ensures, Ensures-ok, Ensures-if, Ensures-then, Ensures-bind, Ensures-seq,
}
use remote_code.Workflow.Extends.{Extends}
use remote_code.Workflow.Journal.{Work}
use remote_code.Workflow.Service.{Service, Moment, begin, command_entry}
use remote_code.Workflow.Service.Registered.{
  IsRegistered, register_command-Registration, register_command-again, mutable_record-open,
  mutable_record-found, commit-Registered,
}
use remote_code.Workflow.Service.Replay.{Knows, Knows-own}
use remote_code.Workflow.Activities.{
  Found, Holder, lease_command, start_activity, complete_activity, normalize_activity_result,
}
use remote_code.Workflow.Activities.Keeps.{start_body-Extends, complete_body-Extends}
use remote_code.Workflow.Calls.Gapless.{IsJournaled}

lease_command-Knows :
    (s : Service) (m : Moment) (run_id : String) (h : Holder) (command action : String)
    (content : Payload) (body : Work → Found → Result Work)
    → ((w : Work) (f : Found) → Ensures (Extends w) (body w f))
    → IsJournaled s
    → Ensures
        (λ s'. Knows s' run_id command h.held_activity action content s.platform)
        (lease_command s m run_id h command action content body)
unfolding lease_command
lease_command-Knows s m run_id h command action content body extends p =
    Ensures-then _ _ (mutable_record-open s run_id) λ rec found.
      Ensures-then _ _
        (register_command-Registration s.platform rec command h.held_activity action content)
        λ q r.
          Ensures-if _ _ _
            (λ duplicate. Ensures-ok s (
              refl,
              record {
                record_of = q.1;
                found_at = found.0 ∙ ap (λ x. some x) (sym (r.2 duplicate));
                remembers = r.1;
                is_open = found.1;
              },
            ))
            (λ _. Ensures-bind _ _ λ f _. Ensures-seq _ _ λ _.
              Ensures-then _ _ (extends (begin q.1 m) f)
                λ w e. commit-Registered s m run_id command rec q.1 _ w p found.0 found.1 r.0 r.1 e)

lease_command-again :
    (s : Service) (m : Moment) (run_id : String) (h : Holder) (command action : String)
    (content : Payload) (body : Work → Found → Result Work)
    → IsRegistered s run_id command (command_entry s.platform h.held_activity action content)
    → lease_command s m run_id h command action content body ≡ ok s
unfolding lease_command ◌>>=◌ if◌then◌else◌
lease_command-again s m run_id h command action content body r =
    rw
      (
        mutable_record-found s run_id r.record_of r.found_at r.is_open,
        register_command-again s.platform r.record_of command h.held_activity action content
            r.remembers,
      )
      refl

-- In a journaled service: a start that succeeded leaves the service as it is when the same command is
-- sent again, also by a holder whose lease has run out by then.
pub start_activity-replay :
    (s s' : Service) (m m' : Moment) (run_id : String) (h : Holder) (command : String)
    → IsJournaled s
    → start_activity s m run_id h command ≡ ok s'
    → start_activity s' m' run_id h command ≡ ok s'
unfolding start_activity
start_activity-replay s s' m m' run_id h command p done =
    lease_command-again s' m' run_id h command _ _ _
      (Knows-own s' run_id command _ _ _ s.platform k)
  where
    k :
        Knows s' run_id command h.held_activity "start-activity"
          (attempt_payload h.held_attempt)
          s.platform
    k = (lease_command-Knows s m run_id h command _ _ _ (start_body-Extends m) p).at s' done

-- In a journaled service: a completion that succeeded, and so gave its lease back, succeeds without
-- any change when the same command is sent again with the same result.
pub complete_activity-replay :
    (s s' : Service) (m m' : Moment) (run_id : String) (h : Holder) (command : String)
    (given : ActivityResult)
    → IsJournaled s
    → complete_activity s m run_id h command given ≡ ok s'
    → complete_activity s' m' run_id h command given ≡ ok s'
unfolding complete_activity ◌>>=◌
complete_activity-replay s s' m m' run_id h command given p done =
    both (normalize_activity_result given) _ _
      (λ r first.
        let k =
          (lease_command-Knows s m run_id h command _ _ _
              (λ w f. Ensures-bind _ _ λ definition _. complete_body-Extends s m definition r w f)
              p).at
            s' first in
        lease_command-again s' m' run_id h command _ _ _
          (Knows-own s' run_id command _ _ _ s.platform k))
      done
  where
    both :
        (r : Result ActivityResult) (f g : ActivityResult → Result Service)
        → ((a : ActivityResult) → f a ≡ ok s' → g a ≡ ok s')
        → (r >>= f) ≡ ok s'
        → (r >>= g) ≡ ok s'
    both (ok a) f g h e = h a e
    both (err e') f g h e = e
