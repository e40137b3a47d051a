-- ===== src/Workflow/Graph/Sorts.antt =====
-- internal/workflow/definition.go: the loop over the queue of nodes without sources left.
use mathlib.Core.List.{reverse, reverse-append}
use remote_code.Prelude.{
  ℕ, zero, suc, ◌+◌, ◌-◌, ◌≤◌, ◌<◌, ◌==◌, ◌≡◌, sym, ap, ◌∙◌, true, false, String, List, [], ◌∷◌,
  ◌++◌, ◌||◌, if◌then◌else◌, length, length-append, Map, insert, lookup-insert, keys, str_eq,
  str_eq_refl, eq_iff, has, has-append, occurrences, occurrences-nil, occurrences-cons, IsDistinct,
  Within, Bool-cases, inl, inr, arith, accept, or_cases, or_right, has_head, has_first,
  not_below_zero, List-cases,
}
use remote_code.Workflow.Graph.{
  names_at, count_at, lower_targets, Sorting, visit, next_node, sort_nodes,
}
use remote_code.Workflow.Graph.Waits.{waits, pending_edges, waits-visit, pending_edges-visit}

pub count_at-insert :
    (k v : String) (n : ℕ) (m : Map ℕ)
    → count_at (insert k n m) v ≡ (if str_eq k v then n else count_at m v)
unfolding if◌then◌else◌
count_at-insert k v n m = ground (arith, lookup-insert k v n m, eq_iff k v)

-- What the loop over the targets leaves, where `w` are the edges that stay.
record Lowers (w : String → ℕ) (ts queue : List String) (r : List String × Map ℕ) : Type 0 where
  counted : (v : String) → count_at r.1 v ≡ w v
  idle : (v : String) → has v r.0 ≡ true → w v ≡ 0
  entered : (v : String) → has v r.0 ≡ true → (has v queue || has v ts) ≡ true
  grown : length r.0 ≤ length queue + length ts
  stays : (v : String) → has v queue ≡ true → has v r.0 ≡ true
  freed : (v : String) → w v ≡ 0 → 0 < occurrences v ts → has v r.0 ≡ true

lower_targets-Lowers :
    (w : String → ℕ) (ts queue : List String) (m : Map ℕ)
    → ((v : String) → count_at m v ≡ w v + occurrences v ts)
    → ((v : String) → has v queue ≡ true → w v ≡ 0)
    → Lowers w ts queue (lower_targets ts queue m)
unfolding lower_targets if◌then◌else◌
lower_targets-Lowers w [] queue m c i = record {
  counted = λ v. c v ∙ omega (arith, occurrences-nil v);
  idle = i;
  entered = λ v h. ground arith;
  grown = omega arith;
  stays = λ v h. h;
  freed = λ v z o. absurd (omega (arith, occurrences-nil v));
}
lower_targets-Lowers w (t ∷ ts) queue m c i = elim (Bool-cases (count_at m t - 1 == 0)) [
  | inl e ↦
      let r =
        lower_targets-Lowers w ts (queue ++ t ∷ []) (insert t (count_at m t - 1) m)
          (λ v. ground (
            arith,
            c v,
            c t,
            count_at-insert t v (count_at m t - 1) m,
            occurrences-cons v t ts,
            eq_iff t v,
          ))
          (λ v h. ground (
            arith,
            c t,
            i v,
            has-append v queue (t ∷ []),
            occurrences-cons t t ts,
            str_eq_refl t,
            eq_iff t v,
          )) in
      rw e (record {
        counted = r.counted;
        idle = r.idle;
        entered = λ v h. ground (arith, r.entered v h, has-append v queue (t ∷ []));
        grown = omega (arith, r.grown, length-append queue (t ∷ []));
        stays = λ v h. r.stays v (ground (arith, has-append v queue (t ∷ []), h));
        freed = λ v z o. ground (
          arith,
          r.freed v,
          r.stays v,
          occurrences-cons v t ts,
          has-append v queue (t ∷ []),
          eq_iff t v,
        );
      })
  | inr e ↦
      let r =
        lower_targets-Lowers w ts queue (insert t (count_at m t - 1) m)
          (λ v. ground (
            arith,
            c v,
            c t,
            count_at-insert t v (count_at m t - 1) m,
            occurrences-cons v t ts,
            eq_iff t v,
          ))
          i in
      rw e (record {
        counted = r.counted;
        idle = r.idle;
        entered = λ v h. ground (arith, r.entered v h);
        grown = omega (arith, r.grown);
        stays = λ v h. r.stays v h;
        freed = λ v z o. ground (arith, r.freed v, c v, c t, occurrences-cons v t ts, eq_iff t v);
      })
]

-- Every node was visited after the nodes that it waited for; the latest stands first.
abbrev pub Sorted : Map (List String) → List String → Type 0
Sorted m [] = Unit
Sorted m (v ∷ vs) = (has v vs ≡ false) × (waits m vs v ≡ 0) × Sorted m vs

module _ (m : Map (List String)) (names : List String) (distinct : IsDistinct (keys m))
    (targets : (u v : String) → has v (names_at m u) ≡ true → has v names ≡ true) where
  pub record IsSorting (s : Sorting) : Type 0 where
    pub counted : (v : String) → count_at s.degrees v ≡ waits m s.visited v
    pub idle : (v : String) → has v s.queue ≡ true → waits m s.visited v ≡ 0
    pub sorted : Sorted m s.visited
    pub listed : s.ordered ≡ reverse s.visited
    pub queued : Within s.queue names
    pub reached : Within s.visited names
    pub ready :
        (v : String)
        → has v names ≡ true
        → waits m s.visited v ≡ 0
        → (has v s.visited || has v s.queue) ≡ true

  abbrev pub work_left : Sorting → ℕ
  work_left s = length s.queue + pending_edges m s.visited

  visit-IsSorting :
      (node : String) (queue : List String) (s : Sorting)
      → s.queue ≡ node ∷ queue
      → has node s.visited ≡ false
      → IsSorting s
      → IsSorting (visit m node queue s) × (work_left (visit m node queue s) < work_left s)
  unfolding visit
  visit-IsSorting node queue s e new h =
      let w = λ (v : String). waits m (node ∷ s.visited) v in
      let in_queue = λ (v : String) (q : has v (node ∷ queue) ≡ true). ap (λ l. has v l) e ∙ q in
      let low =
        lower_targets-Lowers w (names_at m node) queue s.degrees
          (λ v. h.counted v ∙ sym (waits-visit node v m s.visited distinct new))
          (λ v q. omega (
            arith,
            waits-visit node v m s.visited distinct new,
            h.idle v (in_queue v (or_right (str_eq node v) (has v queue) q)),
          )) in
      (
        record {
          counted = low.counted;
          idle = low.idle;
          sorted = (new, h.idle node (in_queue node (has_first node queue)), h.sorted);
          listed = ap (λ l. l ++ node ∷ []) h.listed ∙ sym (reverse-append (node ∷ []) s.visited);
          queued = λ v q.
              elim (or_cases (has v queue) (has v (names_at m node)) (low.entered v q)) [
                | inl old ↦ h.queued v (in_queue v (or_right (str_eq node v) (has v queue) old))
                | inr target ↦ targets node v target
              ];
          reached = λ v q. elim (or_cases (str_eq node v) (has v s.visited) q) [
            | inl same ↦ h.queued v (in_queue v (has_head v node queue same))
            | inr old ↦ h.reached v old
          ];
          ready = λ v there z. ground (
            arith,
            h.ready v there,
            ap (λ l. has v l) e,
            low.stays v,
            low.freed v z,
            waits-visit node v m s.visited distinct new,
          );
        },
        omega (arith, low.grown, ap length e, pending_edges-visit node m s.visited distinct new),
      )

  next_node-IsSorting :
      (node : String) (queue : List String) (s : Sorting)
      → s.queue ≡ node ∷ queue
      → IsSorting s
      → IsSorting (next_node m node queue s) × (work_left (next_node m node queue s) < work_left s)
  unfolding next_node if◌then◌else◌
  next_node-IsSorting node queue s e h = elim (Bool-cases (has node s.visited)) [
    | inr new ↦ rw new (visit-IsSorting node queue s e new h)
    | inl old ↦
        let in_queue = λ (v : String) (q : has v queue ≡ true).
          ap (λ l. has v l) e ∙ or_right (str_eq node v) (has v queue) q in
        rw old (
          record {
            counted = h.counted;
            idle = λ v q. h.idle v (in_queue v q);
            sorted = h.sorted;
            listed = h.listed;
            queued = λ v q. h.queued v (in_queue v q);
            reached = h.reached;
            ready = λ v there z.
                ground (arith, h.ready v there z, ap (λ l. has v l) e, old, eq_iff node v);
          },
          omega (arith, ap length e),
        )
  ]

  -- The loop ends when its fuel exceeds the work that is left, with the queue empty.
  pub sort_nodes-IsSorting :
      (fuel : ℕ) (s : Sorting)
      → IsSorting s
      → work_left s < fuel
      → (s' : Sorting) × (sort_nodes fuel m s ≡ accept s') × IsSorting s' × (s'.queue ≡ [])
  unfolding sort_nodes
  sort_nodes-IsSorting zero s h l = not_below_zero l
  sort_nodes-IsSorting (suc fuel) s h l = elim (List-cases s.queue) [
    | inl empty ↦ (s, simp (empty, sort_nodes), h, empty)
    | inr (node, queue, e) ↦
        let step = next_node-IsSorting node queue s e h in
        let later =
          sort_nodes-IsSorting fuel (next_node m node queue s) step.0 (omega (arith, step.1)) in
        (later.0, rw (e, sort_nodes) later.1, later.2, later.3)
  ]
