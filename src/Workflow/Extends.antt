-- ===== src/Workflow/Extends.antt =====
-- internal/workflow/service.go: what each change of a record keeps, whatever else it does.
use remote_code.Prelude.{
  ℕ, suc, ◌+◌, ◌≡◌, refl, sym, ap, ◌∙◌, String, Bool, true, false, List, [], ◌∷◌, ◌++◌, Map, arith,
  length, length-append, if◌then◌else◌,
}
use mathlib.Core.List.{append-nil, append_assoc}
use remote_code.Workflow.Model.{Time, NodeRun, EventType, Event, LeaseRecord, terminal_run_state}
use remote_code.Workflow.Journal.{Work, with_nodes, with_leases, append_event}

-- The events of one run, numbered in a row from `n`.
abbrev pub IsNumbered : String → ℕ → List Event → Type 0
IsNumbered id n [] = Unit
IsNumbered id n (e ∷ es) = (e.event_run_id ≡ id) × (e.sequence ≡ n) × IsNumbered id (suc n) es

pub IsNumbered-append :
    (id : String) (n k : ℕ) (xs ys : List Event)
    → IsNumbered id n xs
    → IsNumbered id k ys
    → k ≡ n + length xs
    → IsNumbered id n (xs ++ ys)
IsNumbered-append id n k [] ys hx hy e = subst_number (omega arith) hy
  where
    subst_number : k ≡ n → IsNumbered id k ys → IsNumbered id n ys
    subst_number p h = rw p at h
IsNumbered-append id n k (x ∷ xs) ys hx hy e =
    (hx.0, hx.1, IsNumbered-append id (suc n) k xs ys hx.2 hy (omega arith))

-- `w'` comes from `w` by changes that keep the run's identity, its registered commands and a
-- terminal state, and that number the events they append in a row.
pub record Extends (w w' : Work) : Type 0 where
  pub added : List Event
  pub same_id : w'.rec.run.run_id ≡ w.rec.run.run_id
  pub same_commands : w'.rec.commands ≡ w.rec.commands
  pub same_events : w'.events ≡ w.events ++ added
  pub counted : w'.rec.run.event_sequence ≡ w.rec.run.event_sequence + length added
  pub numbered : IsNumbered w.rec.run.run_id (suc w.rec.run.event_sequence) added
  pub keeps_end :
      terminal_run_state w.rec.run.run_state ≡ true → w'.rec.run.run_state ≡ w.rec.run.run_state

-- A change that touches nothing of these but, in a live run, the state.
pub Extends-quiet :
    (w w' : Work)
    → w'.rec.run.run_id ≡ w.rec.run.run_id
    → w'.rec.commands ≡ w.rec.commands
    → w'.events ≡ w.events
    → w'.rec.run.event_sequence ≡ w.rec.run.event_sequence
    → (terminal_run_state w.rec.run.run_state ≡ true → w'.rec.run.run_state ≡ w.rec.run.run_state)
    → Extends w w'
Extends-quiet w w' i c e n s = record {
  added = [];
  same_id = i;
  same_commands = c;
  same_events = e ∙ sym (append-nil w.events);
  counted = omega arith;
  numbered = tt;
  keeps_end = s;
}

pub Extends-refl : (w : Work) → Extends w w
Extends-refl w = Extends-quiet w w refl refl refl refl (λ _. refl)

pub Extends-trans : (u v w : Work) → Extends u v → Extends v w → Extends u w
Extends-trans u v w p q = record {
  added = p.added ++ q.added;
  same_id = q.same_id ∙ p.same_id;
  same_commands = q.same_commands ∙ p.same_commands;
  same_events = rw (q.same_events, p.same_events) (append_assoc u.events p.added q.added);
  counted = omega (arith, length-append p.added q.added, p.counted, q.counted);
  numbered =
      IsNumbered-append u.rec.run.run_id (suc u.rec.run.event_sequence)
        (suc v.rec.run.event_sequence) p.added q.added p.numbered (rw p.same_id at q.numbered)
        (omega (arith, p.counted));
  keeps_end = λ t. q.keeps_end (ap terminal_run_state (p.keeps_end t) ∙ t) ∙ p.keeps_end t;
}

pub Extends-with_nodes : (w : Work) (ns : Map NodeRun) → Extends w (with_nodes w ns)
Extends-with_nodes w ns = Extends-quiet w (with_nodes w ns) refl refl refl refl (λ _. refl)

pub Extends-with_leases : (w : Work) (ls : Map LeaseRecord) → Extends w (with_leases w ls)
Extends-with_leases w ls = Extends-quiet w (with_leases w ls) refl refl refl refl (λ _. refl)

pub Extends-append_event :
    (w : Work) (now : Time) (kind : EventType) (node activity : String)
    → Extends w (append_event w now kind node activity)
unfolding append_event
Extends-append_event w now kind node activity = record {
  added =
      record {
        event_run_id = w.rec.run.run_id;
        sequence = w.rec.run.event_sequence + 1;
        time = now;
        event_type = kind;
        event_node_id = node;
        event_activity_id = activity;
      }
      ∷ [];
  same_id = refl;
  same_commands = refl;
  same_events = refl;
  counted = omega arith;
  numbered = (refl, omega arith, tt);
  keeps_end = λ _. refl;
}

pub Extends-if :
    (w : Work) (b : Bool) (u v : Work) → Extends w u → Extends w v → Extends w (if b then u else v)
unfolding if◌then◌else◌
Extends-if w true u v h k = h
Extends-if w false u v h k = k
