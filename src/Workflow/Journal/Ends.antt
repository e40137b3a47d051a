-- ===== src/Workflow/Journal/Ends.antt =====
-- internal/workflow/service.go: what `finishRun` and `failNode` leave of a run.
use remote_code.Prelude.{
  ◌≡◌, refl, ap, ◌∙◌, String, true, false, none, some, [], ◌∷◌, Map, lookup, insert,
  lookup-insert_self, lookup-delete, str_eq, str_eq_refl, str_eq_ne, if◌then◌else◌, Bool-cases, inl,
  inr, ◌⊎◌,
}
use remote_code.Workflow.Model.{
  Time, Message, RunState, Activity, NodeRun, LeaseRecord, terminal_run_state, terminal_node_state,
  node_failed,
}
use remote_code.Workflow.Journal.{
  Work, append_event, is_settled, cancel_lease, cancel_activities, cancel_node, cancel_nodes,
  end_run, finish_run, fail_node,
}

-- Every node has ended.
abbrev pub AllEnded : Map NodeRun → Type 0
AllEnded [] = Unit
AllEnded ((k, node) ∷ m) = (terminal_node_state node.node_state ≡ true) × AllEnded m

-- Some node that has not ended holds an activity of this id that has not.
abbrev pub HoldsOne : String → Map Activity → Type 0
HoldsOne id [] = ⊥
HoldsOne id ((k, a) ∷ m) = ((a.id ≡ id) × (is_settled a.state ≡ false)) ⊎ HoldsOne id m

abbrev pub HoldsLive : String → Map NodeRun → Type 0
HoldsLive id [] = ⊥
HoldsLive id ((k, node) ∷ m) =
    ((terminal_node_state node.node_state ≡ false) × HoldsOne id node.activities) ⊎ HoldsLive id m

cancel_node-ended :
    (now : Time) (node : NodeRun) (leases : Map LeaseRecord)
    → terminal_node_state (cancel_node now node leases).0.node_state ≡ true
unfolding cancel_node if◌then◌else◌ terminal_node_state
cancel_node-ended now node leases = elim (Bool-cases (terminal_node_state node.node_state)) [
  | inl h ↦ simp (h)
  | inr h ↦ simp (h)
]

cancel_nodes-AllEnded :
    (now : Time) (nodes : Map NodeRun) (leases : Map LeaseRecord)
    → AllEnded (cancel_nodes now nodes leases).0
unfolding cancel_nodes
cancel_nodes-AllEnded now [] leases = tt
cancel_nodes-AllEnded now ((k, node) ∷ m) leases =
    (cancel_node-ended now node leases, cancel_nodes-AllEnded now m _)

-- A lease that is gone stays gone.
cancel_lease-gone :
    (id : String) (a : Activity) (leases : Map LeaseRecord)
    → lookup id leases ≡ none
    → lookup id (cancel_lease a leases) ≡ none
unfolding cancel_lease if◌then◌else◌
cancel_lease-gone id a leases h = elim (Bool-cases (is_settled a.state)) [
  | inl e ↦ rw e h
  | inr e ↦
      rw (e, lookup-delete a.id id leases, h)
        (elim (Bool-cases (str_eq a.id id)) [ inl e' ↦ rw e' refl | inr e' ↦ rw e' refl ])
]

cancel_activities-gone :
    (now : Time) (id : String) (m : Map Activity) (leases : Map LeaseRecord)
    → lookup id leases ≡ none
    → lookup id (cancel_activities now m leases).1 ≡ none
unfolding cancel_activities
cancel_activities-gone now id [] leases h = h
cancel_activities-gone now id ((k, a) ∷ m) leases h =
    cancel_activities-gone now id m _ (cancel_lease-gone id a leases h)

cancel_activities-HoldsOne :
    (now : Time) (id : String) (m : Map Activity) (leases : Map LeaseRecord)
    → HoldsOne id m
    → lookup id (cancel_activities now m leases).1 ≡ none
unfolding cancel_activities cancel_lease if◌then◌else◌
cancel_activities-HoldsOne now id [] leases h = elim h [ ]
cancel_activities-HoldsOne now id ((k, a) ∷ m) leases (inr h) =
    cancel_activities-HoldsOne now id m _ h
cancel_activities-HoldsOne now id ((k, a) ∷ m) leases (inl h) =
    cancel_activities-gone now id m _ deleted
  where
    deleted : lookup id (cancel_lease a leases) ≡ none
    deleted = rw (h.1, ← h.0, lookup-delete a.id a.id leases, str_eq_refl a.id) refl

cancel_node-gone :
    (now : Time) (id : String) (node : NodeRun) (leases : Map LeaseRecord)
    → lookup id leases ≡ none
    → lookup id (cancel_node now node leases).1 ≡ none
unfolding cancel_node if◌then◌else◌
cancel_node-gone now id node leases h = elim (Bool-cases (terminal_node_state node.node_state)) [
  | inl e ↦ rw e h
  | inr e ↦ rw e (cancel_activities-gone now id node.activities leases h)
]

cancel_node-HoldsOne :
    (now : Time) (id : String) (node : NodeRun) (leases : Map LeaseRecord)
    → terminal_node_state node.node_state ≡ false
    → HoldsOne id node.activities
    → lookup id (cancel_node now node leases).1 ≡ none
unfolding cancel_node if◌then◌else◌
cancel_node-HoldsOne now id node leases live h =
    rw live (cancel_activities-HoldsOne now id node.activities leases h)

cancel_nodes-gone :
    (now : Time) (id : String) (m : Map NodeRun) (leases : Map LeaseRecord)
    → lookup id leases ≡ none
    → lookup id (cancel_nodes now m leases).1 ≡ none
unfolding cancel_nodes
cancel_nodes-gone now id [] leases h = h
cancel_nodes-gone now id ((k, node) ∷ m) leases h =
    cancel_nodes-gone now id m _ (cancel_node-gone now id node leases h)

cancel_nodes-HoldsLive :
    (now : Time) (id : String) (m : Map NodeRun) (leases : Map LeaseRecord)
    → HoldsLive id m
    → lookup id (cancel_nodes now m leases).1 ≡ none
unfolding cancel_nodes
cancel_nodes-HoldsLive now id [] leases h = elim h [ ]
cancel_nodes-HoldsLive now id ((k, node) ∷ m) leases (inr h) = cancel_nodes-HoldsLive now id m _ h
cancel_nodes-HoldsLive now id ((k, node) ∷ m) leases (inl h) =
    cancel_nodes-gone now id m _ (cancel_node-HoldsOne now id node leases h.0 h.1)

-- In a run that has not ended, `finishRun` sets the state and ends every node.
pub finish_run-ends :
    (w : Work) (state : RunState) (message : Message) (now : Time)
    → terminal_run_state w.rec.run.run_state ≡ false
    → ((finish_run w state message now).rec.run.run_state ≡ state)
      × AllEnded (finish_run w state message now).rec.run.nodes
unfolding finish_run end_run append_event if◌then◌else◌
finish_run-ends w state message now live =
    rw live (refl, cancel_nodes-AllEnded now w.rec.run.nodes w.rec.leases)

abbrev pub failed_node : NodeRun → Message → Time → NodeRun
failed_node node message now = record node {
  node_state = node_failed;
  acquired = false;
  node_error = message;
  node_finished_at = now;
}

some-injective : {A : Type 0} {a b : A} → some a ≡ some b → a ≡ b
some-injective p = cc

cancel_nodes-ended :
    (now : Time) (key : String) (node : NodeRun) (m : Map NodeRun) (leases : Map LeaseRecord)
    → lookup key m ≡ some node
    → terminal_node_state node.node_state ≡ true
    → lookup key (cancel_nodes now m leases).0 ≡ some node
unfolding cancel_nodes cancel_node lookup if◌then◌else◌
cancel_nodes-ended now key node [] leases found ended = cc
cancel_nodes-ended now key node ((k, other) ∷ m) leases found ended =
    elim (Bool-cases (str_eq k key)) [
      | inr e ↦ rw e (cancel_nodes-ended now key node m _ (rw e at found) ended)
      | inl e ↦ rw e (ap (λ n. some n) (stays (first e) ∙ first e))
    ]
  where
    first : str_eq k key ≡ true → other ≡ node
    first e = some-injective (rw e at found)

    stays : other ≡ node → (cancel_node now other leases).0 ≡ other
    stays e = simp (ap (λ n. terminal_node_state n.node_state) e ∙ ended)

-- The lease of an activity that no live node holds stays.
cancel_activities-other :
    (now : Time) (id : String) (m : Map Activity) (leases : Map LeaseRecord)
    → ¬ HoldsOne id m
    → lookup id (cancel_activities now m leases).1 ≡ lookup id leases
unfolding cancel_activities
cancel_activities-other now id [] leases h = refl
cancel_activities-other now id ((k, a) ∷ m) leases h =
    cancel_activities-other now id m _ (λ h'. h (inr h')) ∙ cancel_lease-other
  where
    cancel_lease-other : lookup id (cancel_lease a leases) ≡ lookup id leases
    cancel_lease-other = elim (Bool-cases (is_settled a.state)) [
      | inl e ↦ unfold cancel_lease if◌then◌else◌ in rw e refl
      | inr e ↦
          unfold cancel_lease if◌then◌else◌ in
          rw (e, lookup-delete a.id id leases, str_eq_ne a.id id (λ e'. h (inl (e', e)))) refl
    ]

cancel_node-other :
    (now : Time) (id : String) (node : NodeRun) (leases : Map LeaseRecord)
    → (terminal_node_state node.node_state ≡ false → ¬ HoldsOne id node.activities)
    → lookup id (cancel_node now node leases).1 ≡ lookup id leases
unfolding cancel_node if◌then◌else◌
cancel_node-other now id node leases h = elim (Bool-cases (terminal_node_state node.node_state)) [
  | inl e ↦ rw e refl
  | inr e ↦ rw e (cancel_activities-other now id node.activities leases (h e))
]

cancel_nodes-other :
    (now : Time) (id : String) (m : Map NodeRun) (leases : Map LeaseRecord)
    → ¬ HoldsLive id m
    → lookup id (cancel_nodes now m leases).1 ≡ lookup id leases
unfolding cancel_nodes
cancel_nodes-other now id [] leases h = refl
cancel_nodes-other now id ((k, node) ∷ m) leases h =
    cancel_nodes-other now id m _ (λ h'. h (inr h'))
    ∙ cancel_node-other now id node leases (λ live one. h (inl (live, one)))

-- In a run that has not ended, `finishRun` takes the lease of every activity that had not ended in a
-- node that had not, and no lease that no such activity holds.
pub finish_run-takes_lease :
    (w : Work) (state : RunState) (message : Message) (now : Time) (id other : String)
    → terminal_run_state w.rec.run.run_state ≡ false
    → HoldsLive id w.rec.run.nodes
    → ¬ HoldsLive other w.rec.run.nodes
    → (lookup id (finish_run w state message now).rec.leases ≡ none)
      × (lookup other (finish_run w state message now).rec.leases ≡ lookup other w.rec.leases)
unfolding finish_run end_run append_event if◌then◌else◌
finish_run-takes_lease w state message now id other live held free = rw live (
  cancel_nodes-HoldsLive now id w.rec.run.nodes w.rec.leases held,
  cancel_nodes-other now other w.rec.run.nodes w.rec.leases free,
)

-- In a run that has not ended, `failNode` leaves the failed node its activities as they are, and a
-- lease that no live activity of another node holds stays, whatever the state of its activity.
pub fail_node-keeps_activities :
    (w : Work) (key : String) (node : NodeRun) (message : Message) (now : Time) (id : String)
    → terminal_run_state w.rec.run.run_state ≡ false
    → ¬ HoldsLive id (insert key (failed_node node message now) w.rec.run.nodes)
    → (lookup key (fail_node w key node message now).rec.run.nodes
        ≡ some (failed_node node message now))
      × (lookup id (fail_node w key node message now).rec.leases ≡ lookup id w.rec.leases)
unfolding fail_node finish_run end_run append_event if◌then◌else◌ terminal_node_state
fail_node-keeps_activities w key node message now id live free = rw live (
  cancel_nodes-ended now key _ _ w.rec.leases (lookup-insert_self key _ w.rec.run.nodes) refl,
  cancel_nodes-other now id _ w.rec.leases free,
)
