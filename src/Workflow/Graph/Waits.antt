-- ===== src/Workflow/Graph/Waits.antt =====
-- internal/workflow/definition.go: the edges of nodes that are not visited yet.
use remote_code.Prelude.{
  ℕ, suc, ◌+◌, ◌≡◌, refl, true, false, String, List, [], ◌∷◌, ◌++◌, if◌then◌else◌, length,
  length-append, Map, lookup, insert, keys, str_eq, eq_iff, has, occurrences, occurrences-append,
  occurrences-nil, occurrences-cons, occurrences-has, IsDistinct, Bool-cases, inl, inr, arith,
}
use remote_code.Workflow.Graph.{names_at}

-- The edges into a node from nodes that are not visited.
unfoldable pub waits : Map (List String) → List String → String → ℕ
waits [] visited v = 0
waits ((u, ts) ∷ m) visited v = (if has u visited then 0 else occurrences v ts) + waits m visited v

-- All edges from nodes that are not visited.
unfoldable pub pending_edges : Map (List String) → List String → ℕ
pending_edges [] visited = 0
pending_edges ((u, ts) ∷ m) visited =
    (if has u visited then 0 else length ts) + pending_edges m visited

pub names_at-head :
    (u k : String) (ts : List String) (m : Map (List String))
    → names_at ((u, ts) ∷ m) k ≡ (if str_eq u k then ts else names_at m k)
unfolding lookup if◌then◌else◌
names_at-head u k ts m = elim (Bool-cases (str_eq u k)) [ inl e ↦ rw e refl | inr e ↦ rw e refl ]

pub names_at-absent :
    (k : String) (m : Map (List String)) → has k (keys m) ≡ false → names_at m k ≡ []
unfolding lookup if◌then◌else◌
names_at-absent k [] h = refl
names_at-absent k ((u, ts) ∷ m) h = ground (arith, names_at-absent k m, names_at-head u k ts m)

waits-absent :
    (n v : String) (m : Map (List String)) (visited : List String)
    → has n (keys m) ≡ false
    → waits m (n ∷ visited) v ≡ waits m visited v
unfolding waits if◌then◌else◌
waits-absent n v [] visited h = refl
waits-absent n v ((u, ts) ∷ m) visited h =
    ground (arith, waits-absent n v m visited, eq_iff n u, eq_iff u n)

-- A visit takes the edges of its node away.
pub waits-visit :
    (n v : String) (m : Map (List String)) (visited : List String)
    → IsDistinct (keys m)
    → has n visited ≡ false
    → waits m (n ∷ visited) v + occurrences v (names_at m n) ≡ waits m visited v
unfolding waits lookup if◌then◌else◌
waits-visit n v [] visited d h = omega (arith, occurrences-nil v)
waits-visit n v ((u, ts) ∷ m) visited d h = ground (
  arith,
  waits-visit n v m visited,
  waits-absent n v m visited,
  names_at-head u n ts m,
  eq_iff u n,
  eq_iff n u,
)

pending_edges-absent :
    (n : String) (m : Map (List String)) (visited : List String)
    → has n (keys m) ≡ false
    → pending_edges m (n ∷ visited) ≡ pending_edges m visited
unfolding pending_edges if◌then◌else◌
pending_edges-absent n [] visited h = refl
pending_edges-absent n ((u, ts) ∷ m) visited h =
    ground (arith, pending_edges-absent n m visited, eq_iff n u, eq_iff u n)

pub pending_edges-visit :
    (n : String) (m : Map (List String)) (visited : List String)
    → IsDistinct (keys m)
    → has n visited ≡ false
    → pending_edges m (n ∷ visited) + length (names_at m n) ≡ pending_edges m visited
unfolding pending_edges lookup if◌then◌else◌
pending_edges-visit n [] visited d h = omega arith
pending_edges-visit n ((u, ts) ∷ m) visited d h = ground (
  arith,
  pending_edges-visit n m visited,
  pending_edges-absent n m visited,
  names_at-head u n ts m,
  eq_iff u n,
  eq_iff n u,
)

-- A node that waits for nothing has all its sources visited.
pub waits_none :
    (m : Map (List String)) (visited : List String) (u v : String)
    → waits m visited v ≡ 0
    → has v (names_at m u) ≡ true
    → has u visited ≡ true
unfolding waits lookup if◌then◌else◌
waits_none [] visited u v z h = cc
waits_none ((w, ts) ∷ m) visited u v z h =
    ground
      (arith, waits_none m visited u v, occurrences-has v ts, names_at-head w u ts m, eq_iff w u)

-- An edge more, of a source that is not visited.
pub waits-add :
    (m : Map (List String)) (u t v : String)
    → waits (insert u (names_at m u ++ t ∷ []) m) [] v
      ≡ (if str_eq t v then suc (waits m [] v) else waits m [] v)
unfolding waits insert lookup if◌then◌else◌
waits-add [] u t v = ground (arith, occurrences-cons v t [], occurrences-nil v)
waits-add ((w, ts) ∷ m) u t v = ground (
  arith,
  waits-add m u t v,
  names_at-head w u ts m,
  occurrences-append v ts (t ∷ []),
  occurrences-cons v t [],
  occurrences-nil v,
  eq_iff w u,
)

pub pending_edges-add :
    (m : Map (List String)) (u t : String)
    → pending_edges (insert u (names_at m u ++ t ∷ []) m) [] ≡ suc (pending_edges m [])
unfolding pending_edges insert lookup if◌then◌else◌
pending_edges-add [] u t = omega arith
pending_edges-add ((w, ts) ∷ m) u t =
    ground (
      arith,
      pending_edges-add m u t,
      names_at-head w u ts m,
      length-append ts (t ∷ []),
      eq_iff w u,
    )
