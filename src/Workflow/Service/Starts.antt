-- ===== src/Workflow/Service/Starts.antt =====
-- internal/workflow/service.go: a run that is started again under its idempotency key.
use remote_code.Prelude.{
  ◌≡◌, refl, ap, ◌∙◌, String, true, false, Option, none, some, lookup, lookup-insert_self, str_eq,
  str_eq_refl, if◌then◌else◌,
}
use remote_code.Workflow.Model.{Json, ok, ◌>>=◌, ◌>>◌, guard, or_fail, RunRecord}
use remote_code.Workflow.Definition.{CompiledDefinition, identifier_pattern}
use remote_code.Workflow.Ensures.{
  Ensures, Ensures-ok, Ensures-err, Ensures-if, Ensures-then, Ensures-bind, Ensures-guard,
  Ensures-or_fail, Ensures-imp,
}
use remote_code.Workflow.Journal.{append_event}
use remote_code.Workflow.Advance.Keeps.{advance-Extends}
use remote_code.Workflow.Service.{
  Service, Moment, idempotent_run, with_key, launch, start_fresh, start_or_replay, start_run,
  initial_record,
}
use remote_code.Workflow.Service.Effects.{create-Created}

-- The index of the service gives the run of this id for the key.
record Answers (s : Service) (workflow key id : String) : Type 0 where
  indexed_run : String
  index : idempotent_run s.idempotency workflow key ≡ some indexed_run
  record_of : RunRecord
  found_at : lookup indexed_run s.runs ≡ some record_of
  answer_is : record_of.run.run_id ≡ id

module _ (workflow key : String) (named : str_eq key "" ≡ false) where
  index-with_key :
      (s : Service) (id : String)
      → idempotent_run (with_key workflow key id s.idempotency) workflow key ≡ some id
  unfolding idempotent_run if◌then◌else◌
  index-with_key s id = rw (named, str_eq_refl workflow, str_eq_refl key) refl

  launch-Answers :
      (s : Service) (m : Moment) (definition : CompiledDefinition) (parameters : Json)
      → Ensures
          (λ q.
            Answers q.0 workflow key q.1 × (q.0.closing ≡ s.closing) × (q.0.registry ≡ s.registry))
          (launch s m definition workflow key parameters)
  unfolding launch initial_record append_event
  launch-Answers s m definition parameters = Ensures-bind _ _ λ q _.
      Ensures-bind _ _ λ entry_node _.
        Ensures-then _ _ (advance-Extends _ definition m.now _) λ advanced e.
          Ensures-then _ _ (create-Created s advanced workflow key m) λ s' c. Ensures-ok _ (
            record {
              indexed_run = advanced.rec.run.run_id;
              index =
                  ap (λ i. idempotent_run i workflow key) c.indexed
                  ∙ index-with_key s advanced.rec.run.run_id;
              record_of = advanced.rec;
              found_at =
                  ap (lookup advanced.rec.run.run_id) c.runs_created
                  ∙ lookup-insert_self advanced.rec.run.run_id advanced.rec s.runs;
              answer_is = e.same_id;
            },
            c.closing_created,
            c.registry_created,
          )

  start_or_replay-Answers :
      (existing : Option String) (s : Service) (m : Moment) (definition : CompiledDefinition)
      (parameters : Option Json)
      → idempotent_run s.idempotency workflow key ≡ existing
      → Ensures
          (λ q.
            Answers q.0 workflow key q.1 × (q.0.closing ≡ s.closing) × (q.0.registry ≡ s.registry))
          (start_or_replay existing s m definition workflow key parameters)
  unfolding start_or_replay start_fresh
  start_or_replay-Answers none s m definition parameters e = Ensures-guard _ _ _ λ _.
      Ensures-bind _ _ λ cloned _. Ensures-guard _ _ _ λ _. launch-Answers s m definition cloned
  start_or_replay-Answers (some existing) s m definition parameters e =
      Ensures-then {P = λ rec. lookup existing s.runs ≡ some rec} _ _
        (Ensures-or_fail _ _ λ rec found. found)
        λ rec found. Ensures-ok _ (
          record {
            indexed_run = existing;
            index = e;
            record_of = rec;
            found_at = found;
            answer_is = refl;
          },
          refl,
          refl,
        )

  -- What a start under the key needs to be answered by the index.
  record Started (s : Service) (id : String) : Type 0 where
    answers : Answers s workflow key id
    is_open : s.closing ≡ false
    definition : CompiledDefinition
    registered : lookup workflow s.registry ≡ some definition
    well_formed : identifier_pattern key ≡ true

  start_run-Started :
      (s : Service) (m : Moment) (parameters : Option Json)
      → Ensures (λ q. Started q.0 q.1) (start_run s m workflow key parameters)
  unfolding start_run if◌then◌else◌
  start_run-Started s m parameters =
      Ensures-if _ _ _ (λ _. Ensures-err _)
        λ is_open.
          Ensures-then {P = λ d. lookup workflow s.registry ≡ some d} _ _
            (Ensures-or_fail _ _ λ d e. e)
            λ d registered.
              Ensures-if (str_eq key "") (start_fresh s m d workflow key parameters) _ (λ e. cc)
                λ _. Ensures-guard _ _ _ λ well_formed.
                  Ensures-imp _ (start_or_replay-Answers _ s m d parameters refl) λ q a. record {
                    answers = a.0;
                    is_open = a.1 ∙ is_open;
                    definition = d;
                    registered = ap (lookup workflow) a.2 ∙ registered;
                    well_formed = well_formed;
                  }

  Started-again :
      (s : Service) (m : Moment) (parameters : Option Json) (id : String)
      → Started s id
      → start_run s m workflow key parameters ≡ ok (s, id)
  unfolding start_run start_or_replay ◌>>=◌ ◌>>◌ guard or_fail if◌then◌else◌
  Started-again s m parameters id p = simp (
    p.is_open, p.registered, named, p.well_formed, p.answers.index, p.answers.found_at,
    p.answers.answer_is,
  )

-- A start under an idempotency key, which is not the empty text, that succeeded is answered with the same run, and without any
-- change, when it is sent again under the same key, with any parameters.
pub start_run-idempotent :
    (s s' : Service) (m m' : Moment) (workflow key : String) (parameters parameters' : Option Json)
    (id : String)
    → str_eq key "" ≡ false
    → start_run s m workflow key parameters ≡ ok (s', id)
    → start_run s' m' workflow key parameters' ≡ ok (s', id)
start_run-idempotent s s' m m' workflow key parameters parameters' id named done =
    Started-again workflow key named s' m' parameters' id
      ((start_run-Started workflow key named s m parameters).at (s', id) done)
