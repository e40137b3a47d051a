-- ===== src/Workflow/Calls/Gapless.antt =====
-- internal/workflow/service.go and store.go: the journal of a run. The database keeps one row for
-- each event of a run, and the record counts them.
use remote_code.Prelude.{
  ℕ, suc, ◌+◌, ◌≡◌, refl, sym, ap, ◌∙◌, String, true, false, Option, none, some, List, [], ◌++◌,
  arith, length, length-append, lookup, insert, delete, lookup-insert, lookup-delete,
  lookup-insert_self, str_eq→eq, str_eq, if◌then◌else◌, inl, inr, Bool-cases,
}
use remote_code.Workflow.Model.{Event, RunRecord}
use remote_code.Workflow.Ensures.{Ensures-imp}
use remote_code.Workflow.Extends.{Extends, IsNumbered, IsNumbered-append}
use remote_code.Workflow.Rules.{Rules}
use remote_code.Workflow.Journal.{Work}
use remote_code.Workflow.Service.{Service, Moment, put_events, erase_run}
use remote_code.Workflow.Service.Effects.{commit-Committed, create-Created}
use remote_code.Workflow.Stored.{
  of_run, of_run-put_next, of_other-put_events, of_run-not_of_run, of_run-not_of_other,
}
use remote_code.Workflow.Calls.{Call, run_calls}
use remote_code.Workflow.Calls.Keeps.{run_calls-keeps, allows_all}

-- How many events a record counts; a run that is not there has none.
abbrev pub counted_by : Option RunRecord → ℕ
counted_by none = 0
counted_by (some rec) = rec.run.event_sequence

-- The records stand under their runs' ids, and the stored events of each run are numbered in a row
-- from 1 to the number that its record counts.
pub record IsJournaled (s : Service) : Type 0 where
  pub keyed : (id : String) (rec : RunRecord) → lookup id s.runs ≡ some rec → rec.run.run_id ≡ id
  pub gapless : (id : String) → IsNumbered id 1 (of_run id s.stored)
  pub counts : (id : String) → counted_by (lookup id s.runs) ≡ length (of_run id s.stored)

-- Everything journaled stays so when a record is put with the events that it has come to count.
module _ (s s' : Service) (id : String) (rec : RunRecord) (es : List Event)
    (runs_eq : s'.runs ≡ insert id rec s.runs) (stored_eq : s'.stored ≡ put_events es s.stored)
    (journaled : IsJournaled s) where
  put-keyed :
      rec.run.run_id ≡ id
      → (other : String) (rec' : RunRecord) → lookup other s'.runs ≡ some rec'
      → rec'.run.run_id ≡ other
  unfolding if◌then◌else◌
  put-keyed own other rec' e = elim (Bool-cases (str_eq id other)) [
    | inl h ↦
        ap (λ r. r.run.run_id) (some-injective (sym (found_own h) ∙ e)) ∙ own ∙ str_eq→eq id other h
    | inr h ↦ journaled.keyed other rec' (sym (found_other h) ∙ e)
  ]
    where
      some-injective : {a b : RunRecord} → some a ≡ some b → b ≡ a
      some-injective p = cc

      found_own : str_eq id other ≡ true → lookup other s'.runs ≡ some rec
      found_own h = ap (λ m. lookup other m) runs_eq ∙ lookup-insert id other rec s.runs ∙ rw h refl

      found_other : str_eq id other ≡ false → lookup other s'.runs ≡ lookup other s.runs
      found_other h =
          ap (λ m. lookup other m) runs_eq ∙ lookup-insert id other rec s.runs ∙ rw h refl

  next_in_row :
      IsNumbered id (suc (counted_by (lookup id s.runs))) es
      → IsNumbered id (suc (length (of_run id s.stored))) es
  next_in_row h = rw (← journaled.counts id) h

  stored-own :
      IsNumbered id (suc (counted_by (lookup id s.runs))) es
      → of_run id s'.stored ≡ of_run id s.stored ++ es
  stored-own h =
      ap (of_run id) stored_eq
      ∙ of_run-put_next id es s.stored (journaled.gapless id) (next_in_row h)

  stored-other :
      (other : String) (n : ℕ)
      → str_eq id other ≡ false
      → IsNumbered id n es
      → of_run other s'.stored ≡ of_run other s.stored
  stored-other other n d h =
      ap (of_run other) stored_eq ∙ of_other-put_events id other n es s.stored d h

  put-gapless :
      IsNumbered id (suc (counted_by (lookup id s.runs))) es
      → (other : String) → IsNumbered other 1 (of_run other s'.stored)
  put-gapless h other = elim (Bool-cases (str_eq id other)) [
    | inl e ↦
        rw (← str_eq→eq id other e, stored-own h)
          (IsNumbered-append id 1 _ _ es (journaled.gapless id) h
            (omega (arith, journaled.counts id)))
    | inr e ↦ rw (stored-other other _ e h) (journaled.gapless other)
  ]

  put-counts :
      IsNumbered id (suc (counted_by (lookup id s.runs))) es
      → rec.run.event_sequence ≡ counted_by (lookup id s.runs) + length es
      → (other : String) → counted_by (lookup other s'.runs) ≡ length (of_run other s'.stored)
  unfolding if◌then◌else◌
  put-counts h n other = elim (Bool-cases (str_eq id other)) [
    | inl e ↦
        rw (← str_eq→eq id other e, stored-own h, runs_eq, lookup-insert_self id rec s.runs)
          (omega (arith, n, journaled.counts id, length-append (of_run id s.stored) es))
    | inr e ↦
        rw (stored-other other _ e h, runs_eq, lookup-insert id other rec s.runs, e)
          (journaled.counts other)
  ]

  put-IsJournaled :
      rec.run.run_id ≡ id
      → IsNumbered id (suc (counted_by (lookup id s.runs))) es
      → rec.run.event_sequence ≡ counted_by (lookup id s.runs) + length es
      → IsJournaled s'
  put-IsJournaled own h n = record {
    keyed = put-keyed own;
    gapless = put-gapless h;
    counts = put-counts h n;
  }

-- A record that extends the one that stands under its id, or an empty one where none stands.
extend-IsJournaled :
    (s s' : Service) (v w : Work) (rec : RunRecord)
    → IsJournaled s
    → counted_by (lookup v.rec.run.run_id s.runs) ≡ v.rec.run.event_sequence
    → v.events ≡ []
    → Extends v w
    → rec.run.run_id ≡ w.rec.run.run_id
    → rec.run.event_sequence ≡ w.rec.run.event_sequence
    → s'.runs ≡ insert w.rec.run.run_id rec s.runs
    → s'.stored ≡ put_events w.events s.stored
    → IsJournaled s'
extend-IsJournaled s s' v w rec p before none_yet e own n runs_eq stored_eq =
    put-IsJournaled s s' v.rec.run.run_id rec e.added (rw (← e.same_id) runs_eq)
      (rw (← added_events) stored_eq) p (own ∙ e.same_id) (rw before e.numbered)
      (omega (arith, before, n, e.counted))
  where
    added_events : w.events ≡ e.added
    added_events = e.same_events ∙ ap (λ es. es ++ e.added) none_yet

erase-IsJournaled :
    (s : Service) (run_id : String) (rec : RunRecord)
    → IsJournaled s
    → IsJournaled (erase_run s run_id rec)
unfolding erase_run if◌then◌else◌
erase-IsJournaled s run_id rec p = record {
  keyed = λ id r e. elim (Bool-cases (str_eq run_id id)) [
    | inl h ↦ cc_none (sym (gone id h) ∙ e)
    | inr h ↦ p.keyed id r (sym (kept id h) ∙ e)
  ];
  gapless = λ id. elim (Bool-cases (str_eq run_id id)) [
    | inl h ↦ rw (← str_eq→eq run_id id h, of_run-not_of_run run_id s.stored) tt
    | inr h ↦ rw (of_run-not_of_other run_id id s.stored h) (p.gapless id)
  ];
  counts = λ id. elim (Bool-cases (str_eq run_id id)) [
    | inl h ↦ rw (gone id h, ← str_eq→eq run_id id h, of_run-not_of_run run_id s.stored) refl
    | inr h ↦ rw (kept id h, of_run-not_of_other run_id id s.stored h) (p.counts id)
  ];
}
  where
    gone : (id : String) → str_eq run_id id ≡ true → lookup id (delete run_id s.runs) ≡ none
    gone id h = lookup-delete run_id id s.runs ∙ rw h refl

    cc_none : {A : Type 0} {r : RunRecord} → none ≡ some r → A
    cc_none q = cc

    kept :
        (id : String)
        → str_eq run_id id ≡ false
        → lookup id (delete run_id s.runs) ≡ lookup id s.runs
    kept id h = lookup-delete run_id id s.runs ∙ rw h refl

-- What a call starts from counts what the service counts under its id, in a commit and in a creation.
pub counted_before :
    (s : Service) (run_id : String) (rec : RunRecord) (v : Work)
    → IsJournaled s
    → lookup run_id s.runs ≡ some rec
    → v.rec.run ≡ rec.run
    → counted_by (lookup v.rec.run.run_id s.runs) ≡ v.rec.run.event_sequence
counted_before s run_id rec v p found same =
    ap (λ k. counted_by (lookup k s.runs)) (ap (λ r. r.run_id) same ∙ p.keyed run_id rec found)
    ∙ ap counted_by found
    ∙ sym (ap (λ r. r.event_sequence) same)

pub counted_new :
    (s : Service) (v w : Work)
    → Extends v w
    → lookup w.rec.run.run_id s.runs ≡ none
    → v.rec.run.event_sequence ≡ 0
    → counted_by (lookup v.rec.run.run_id s.runs) ≡ v.rec.run.event_sequence
counted_new s v w e was_free zero_yet =
    ap (λ k. counted_by (lookup k s.runs)) (sym e.same_id) ∙ ap counted_by was_free ∙ sym zero_yet

pub IsJournaled-rules : (E : String → Type 0) → Rules IsJournaled E
IsJournaled-rules E = record {
  commits = λ s m run_id rec v w p found same none_yet e.
      Ensures-imp _ (commit-Committed s w m) λ s' c.
        extend-IsJournaled s s' v w c.stamped p (counted_before s run_id rec v p found same)
          none_yet e c.same_run_id c.same_sequence c.runs_after c.stored_after;
  creates = λ s m workflow key v w p room zero_yet none_yet e.
      Ensures-imp _ (create-Created s w workflow key m) λ s' c.
        extend-IsJournaled s s' v w w.rec p (counted_new s v w e c.was_free zero_yet) none_yet e
          refl refl c.runs_created c.stored_created;
  erases = λ s run_id rec p allowed found ended. erase-IsJournaled s run_id rec p;
  redefines = λ s d p. record { keyed = p.keyed; gapless = p.gapless; counts = p.counts };
  closes = λ s p. record { keyed = p.keyed; gapless = p.gapless; counts = p.counts };
}

-- From a journaled service, every sequence of calls, failed ones included, leads to a service whose
-- records stand under their runs' ids, and in which the stored events of each run are numbered in a
-- row from 1 to the number that its record counts.
pub run_calls-IsJournaled :
    (s : Service) (calls : List (Moment × Call)) → IsJournaled s → IsJournaled (run_calls s calls)
run_calls-IsJournaled s calls p =
    run_calls-keeps IsJournaled (λ _. Unit) (IsJournaled-rules (λ _. Unit)) s calls
      (allows_all calls) p
