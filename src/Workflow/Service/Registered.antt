-- ===== src/Workflow/Service/Registered.antt =====
-- internal/workflow/service.go: the commands that a run remembers, from `registerCommand`.
use remote_code.Prelude.{
  ◌≡◌, refl, ap, ◌∙◌, String, Bool, true, false, Option, none, some, lookup, insert,
  lookup-insert_self, str_eq, str_eq→eq, str_eq_refl, ◌&&◌, if◌then◌else◌,
}
use remote_code.Workflow.Model.{ok, err, or_fail, conflict, not_found, RunRecord, CommandRecord}
use remote_code.Workflow.Definition.{identifier_pattern}
use remote_code.Workflow.Script.{Platform, Payload}
use remote_code.Workflow.Ensures.{
  Ensures, Ensures-ok, Ensures-err, Ensures-if, Ensures-imp, Ensures-or_fail,
}
use remote_code.Workflow.Extends.{Extends}
use remote_code.Workflow.Journal.{Work}
use remote_code.Workflow.Service.{
  Service, Moment, begin, commit, mutable_record, register_entry, register_command, command_entry,
  same_command,
}
use remote_code.Workflow.Service.Effects.{commit-Committed}
use remote_code.Workflow.Calls.Gapless.{IsJournaled}

-- The record remembers the command.
pub record Remembers (rec : RunRecord) (command : String) (entry : CommandRecord) : Type 0 where
  pub well_named : identifier_pattern command ≡ true
  pub remembered : lookup command rec.commands ≡ some entry

-- The record of the run remembers the command, in a service that still takes commands.
pub record IsRegistered (s : Service) (run_id command : String) (entry : CommandRecord)
    : Type 0 where
  pub record_of : RunRecord
  pub found_at : lookup run_id s.runs ≡ some record_of
  pub remembers : Remembers record_of command entry
  pub is_open : s.closing ≡ false

same_command_refl : (a : CommandRecord) → same_command a a ≡ true
same_command_refl a =
    rw (str_eq_refl a.command_activity_id, str_eq_refl a.command_action, str_eq_refl a.payload_hash)
      refl

same_command→eq : (a b : CommandRecord) → same_command a b ≡ true → a ≡ b
same_command→eq a b h = λ i. record {
  command_activity_id = str_eq→eq a.command_activity_id b.command_activity_id both.0 i;
  command_action = str_eq→eq a.command_action b.command_action both.1 i;
  payload_hash = str_eq→eq a.payload_hash b.payload_hash both.2 i;
}
  where
    split : (x y z : Bool) → (x && y && z) ≡ true → (x ≡ true) × (y ≡ true) × (z ≡ true)
    split true true true h = (refl, refl, refl)
    split false y z h = cc
    split true false z h = cc
    split true true false h = cc

    both :
        (str_eq a.command_activity_id b.command_activity_id ≡ true)
        × (str_eq a.command_action b.command_action ≡ true)
        × (str_eq a.payload_hash b.payload_hash ≡ true)
    both = split _ _ _ h

-- What a registration leaves: the run as it was, and the command remembered.
abbrev pub Registration : RunRecord → String → CommandRecord → Bool × RunRecord → Type 0
Registration rec command entry q =
    (q.1.run ≡ rec.run) × Remembers q.1 command entry × (q.0 ≡ true → q.1 ≡ rec)

register_entry-Registration :
    (rec : RunRecord) (command : String) (entry : CommandRecord) (old : Option CommandRecord)
    → identifier_pattern command ≡ true
    → lookup command rec.commands ≡ old
    → Ensures (Registration rec command entry) (register_entry rec command entry old)
unfolding register_entry
register_entry-Registration rec command entry none named e = Ensures-ok _ (
  refl,
  record { well_named = named; remembered = lookup-insert_self command entry rec.commands },
  λ d. cc,
)
register_entry-Registration rec command entry (some old) named e =
    Ensures-if _ _ _
      (λ same. Ensures-ok _ (
        refl,
        record {
          well_named = named;
          remembered = e ∙ ap (λ x. some x) (same_command→eq old entry same);
        },
        λ d. refl,
      ))
      (λ _. Ensures-err _)

pub register_command-Registration :
    (p : Platform) (rec : RunRecord) (command activity action : String) (content : Payload)
    → Ensures
        (Registration rec command (command_entry p activity action content))
        (register_command p rec command activity action content)
unfolding register_command
register_command-Registration p rec command activity action content =
    Ensures-if _ _ _ (λ named. register_entry-Registration rec command _ _ named refl)
      (λ _. Ensures-err _)

-- A command that is remembered is a duplicate when it is the same, and a conflict when it is not.
pub register_command-again :
    (p : Platform) (rec : RunRecord) (command activity action : String) (content : Payload)
    → Remembers rec command (command_entry p activity action content)
    → register_command p rec command activity action content ≡ ok (true, rec)
unfolding register_command register_entry if◌then◌else◌
register_command-again p rec command activity action content r =
    rw (r.well_named, r.remembered, same_command_refl (command_entry p activity action content))
      refl

pub register_command-other :
    (p : Platform) (rec : RunRecord) (command activity action : String) (content : Payload)
    (entry : CommandRecord)
    → Remembers rec command entry
    → same_command entry (command_entry p activity action content) ≡ false
    → register_command p rec command activity action content ≡ err conflict
unfolding register_command register_entry if◌then◌else◌
register_command-other p rec command activity action content entry r other =
    rw (r.well_named, r.remembered, other) refl

pub mutable_record-open :
    (s : Service) (run_id : String)
    → Ensures
        (λ rec. (lookup run_id s.runs ≡ some rec) × (s.closing ≡ false))
        (mutable_record s run_id)
unfolding mutable_record or_fail
mutable_record-open s run_id =
    Ensures-if _ _ _ (λ _. Ensures-err _)
      (λ is_open. Ensures-or_fail (lookup run_id s.runs) not_found λ rec e. (e, is_open))

pub mutable_record-found :
    (s : Service) (run_id : String) (rec : RunRecord)
    → lookup run_id s.runs ≡ some rec
    → s.closing ≡ false
    → mutable_record s run_id ≡ ok rec
unfolding mutable_record or_fail if◌then◌else◌
mutable_record-found s run_id rec e c = rw (c, e) refl

-- A commit of work on a record that remembers the command registers it.
pub commit-Registered :
    (s : Service) (m : Moment) (run_id command : String) (rec rec' : RunRecord)
    (entry : CommandRecord) (w : Work)
    → IsJournaled s
    → lookup run_id s.runs ≡ some rec
    → s.closing ≡ false
    → rec'.run ≡ rec.run
    → Remembers rec' command entry
    → Extends (begin rec' m) w
    → Ensures
        (λ s'. (s'.platform ≡ s.platform) × IsRegistered s' run_id command entry)
        (commit s w m)
commit-Registered s m run_id command rec rec' entry w p found is_open same r e =
    Ensures-imp _ (commit-Committed s w m) λ s' c. (
      c.same_platform,
      record {
        record_of = c.stamped;
        found_at =
            ap (lookup run_id) c.runs_after
            ∙ ap (λ k. lookup run_id (insert k c.stamped s.runs)) key_eq
            ∙ lookup-insert_self run_id c.stamped s.runs;
        remembers = record {
          well_named = r.well_named;
          remembered = ap (lookup command) (c.same_commands ∙ e.same_commands) ∙ r.remembered;
        };
        is_open = c.same_closing ∙ is_open;
      },
    )
  where
    key_eq : w.rec.run.run_id ≡ run_id
    key_eq = e.same_id ∙ ap (λ x. x.run_id) same ∙ p.keyed run_id rec found
