-- ===== src/Workflow/Stored.antt =====
-- internal/workflow/store.go: the rows of the events bucket, by run.
use mathlib.Core.List.{append-nil, append_assoc}
use remote_code.Prelude.{
  ℕ, suc, ◌+◌, ◌≤◌, ◌≡◌, refl, sym, ap, ◌∙◌, String, true, false, List, [], ◌∷◌, ◌++◌, arith,
  length, length-append, and_true, str_eq, str_eq_refl, str_eq→eq, if◌then◌else◌, inl, inr,
  Bool-cases,
}
use remote_code.Workflow.Model.{Event}
use remote_code.Workflow.Extends.{IsNumbered, IsNumbered-append}
use remote_code.Workflow.Service.{same_row, put_event, put_events, not_of_run}

-- The stored events of one run, in their order.
abbrev pub of_run : String → List Event → List Event
of_run id [] = []
of_run id (e ∷ es) = if str_eq e.event_run_id id then e ∷ of_run id es else of_run id es

-- A row of the event's own run is put among the rows of that run.
of_run-put_event :
    (id : String) (e : Event) (rows : List Event)
    → e.event_run_id ≡ id
    → of_run id (put_event e rows) ≡ put_event e (of_run id rows)
unfolding put_event same_row if◌then◌else◌
of_run-put_event id e [] own = rw (ap (λ x. str_eq x id) own ∙ str_eq_refl id) refl
of_run-put_event id e (f ∷ fs) own = elim (Bool-cases (same_row e f)) [
  | inl s ↦
      rw
        (
          s,
          own_row,
          ap (λ x. str_eq x id) (sym (str_eq→eq e.event_run_id f.event_run_id (and_true _ _ s).0))
              ∙ own_row,
          s,
        )
        refl
  | inr d ↦ elim (Bool-cases (str_eq f.event_run_id id)) [
    | inl h ↦ rw (d, h, d) (ap (λ es. f ∷ es) (of_run-put_event id e fs own))
    | inr h ↦ rw (d, h) (of_run-put_event id e fs own)
  ]
]
  where
    own_row : str_eq e.event_run_id id ≡ true
    own_row = ap (λ x. str_eq x id) own ∙ str_eq_refl id

of_other-put_event :
    (id : String) (e : Event) (rows : List Event)
    → str_eq e.event_run_id id ≡ false
    → of_run id (put_event e rows) ≡ of_run id rows
unfolding put_event same_row if◌then◌else◌
of_other-put_event id e [] other = rw other refl
of_other-put_event id e (f ∷ fs) other = elim (Bool-cases (same_row e f)) [
  | inl s ↦
      rw
        (
          s,
          other,
          ap (λ x. str_eq x id) (sym (str_eq→eq e.event_run_id f.event_run_id (and_true _ _ s).0))
              ∙ other,
        )
        refl
  | inr d ↦ elim (Bool-cases (str_eq f.event_run_id id)) [
    | inl h ↦ rw (d, h) (ap (λ es. f ∷ es) (of_other-put_event id e fs other))
    | inr h ↦ rw (d, h) (of_other-put_event id e fs other)
  ]
]

-- An event numbered above all rows takes the place of none.
put_event-above :
    (id : String) (n : ℕ) (e : Event) (rows : List Event)
    → IsNumbered id n rows
    → n + length rows ≤ e.sequence
    → put_event e rows ≡ rows ++ (e ∷ [])
unfolding put_event same_row if◌then◌else◌
put_event-above id n e [] h above = refl
put_event-above id n e (f ∷ fs) h above =
    rw (apart) (ap (λ es. f ∷ es) (put_event-above id (suc n) e fs h.2 (omega (arith, above))))
  where
    apart : same_row e f ≡ false
    apart = ground (arith, h.1, above)

put_events-above :
    (id : String) (n k : ℕ) (es rows : List Event)
    → IsNumbered id n rows
    → IsNumbered id k es
    → k ≡ n + length rows
    → put_events es rows ≡ rows ++ es
unfolding put_events
put_events-above id n k [] rows h l m = sym (append-nil rows)
put_events-above id n k (e ∷ es) rows h l m =
    ap (put_events es) (put_event-above id n e rows h (omega (arith, l.1, m)))
    ∙ put_events-above id n (suc k) es (rows ++ (e ∷ []))
        (IsNumbered-append id n k rows (e ∷ []) h (l.0, l.1, tt) m) l.2
        (omega (arith, m, length-append rows (e ∷ [])))
    ∙ append_assoc rows (e ∷ []) es

of_run-put_events :
    (id : String) (k : ℕ) (es rows : List Event)
    → IsNumbered id k es
    → of_run id (put_events es rows) ≡ put_events es (of_run id rows)
unfolding put_events
of_run-put_events id k [] rows l = refl
of_run-put_events id k (e ∷ es) rows l =
    of_run-put_events id (suc k) es (put_event e rows) l.2
    ∙ ap (put_events es) (of_run-put_event id e rows l.0)

-- The next events of a run come up behind its rows, where these are numbered in a row from 1.
pub of_run-put_next :
    (id : String) (es rows : List Event)
    → IsNumbered id 1 (of_run id rows)
    → IsNumbered id (suc (length (of_run id rows))) es
    → of_run id (put_events es rows) ≡ of_run id rows ++ es
of_run-put_next id es rows h l =
    of_run-put_events id _ es rows l ∙ put_events-above id 1 _ es (of_run id rows) h l (omega arith)

-- They leave the rows of every other run as they are.
pub of_other-put_events :
    (id other : String) (k : ℕ) (es rows : List Event)
    → str_eq id other ≡ false
    → IsNumbered id k es
    → of_run other (put_events es rows) ≡ of_run other rows
unfolding put_events
of_other-put_events id other k [] rows d l = refl
of_other-put_events id other k (e ∷ es) rows d l =
    of_other-put_events id other (suc k) es (put_event e rows) d l.2
    ∙ of_other-put_event other e rows (ap (λ x. str_eq x other) l.0 ∙ d)

pub of_run-not_of_run : (id : String) (es : List Event) → of_run id (not_of_run id es) ≡ []
unfolding if◌then◌else◌
of_run-not_of_run id [] = refl
of_run-not_of_run id (e ∷ es) = elim (Bool-cases (str_eq e.event_run_id id)) [
  | inl h ↦ rw h (of_run-not_of_run id es)
  | inr h ↦ rw (h, h) (of_run-not_of_run id es)
]

pub of_run-not_of_other :
    (id other : String) (es : List Event)
    → str_eq id other ≡ false
    → of_run other (not_of_run id es) ≡ of_run other es
unfolding if◌then◌else◌
of_run-not_of_other id other [] d = refl
of_run-not_of_other id other (e ∷ es) d = elim (Bool-cases (str_eq e.event_run_id id)) [
  | inl h ↦
      rw (h, ap (λ x. str_eq x other) (str_eq→eq e.event_run_id id h) ∙ d)
        (of_run-not_of_other id other es d)
  | inr h ↦ elim (Bool-cases (str_eq e.event_run_id other)) [
    | inl h' ↦ rw (h, h') (ap (λ es'. e ∷ es') (of_run-not_of_other id other es d))
    | inr h' ↦ rw (h, h') (of_run-not_of_other id other es d)
  ]
]
