-- ===== src/Workflow/Claim/Keeps.antt =====
-- internal/workflow/service.go: `ClaimActivity` keeps every predicate of services that follows the
-- rules.
use remote_code.Prelude.{
  ◌≡◌, refl, String, List, [], ◌∷◌, ℕ, Option, none, some, lookup, sort_strings, keys,
}
use remote_code.Workflow.Model.{Result, panicked, RunRecord, not_found}
use remote_code.Workflow.Ensures.{
  Ensures, Ensures-ok, Ensures-bind, Ensures-then, Ensures-if, Ensures-guard, Ensures-or_fail,
}
use remote_code.Workflow.Extends.{
  Extends, Extends-trans, Extends-with_nodes, Extends-with_leases, Extends-append_event,
}
use remote_code.Workflow.Rules.{Rules}
use remote_code.Workflow.Service.{Service, Moment, begin}
use remote_code.Workflow.Resolve.Keeps.{random_token-Extends}
use remote_code.Workflow.Activities.{Found}
use remote_code.Workflow.Claim.{Candidate, or_next, find_in_runs, claim_found, claim_activity}

-- A candidate is a run of the service.
abbrev pub Stands : Service → Option Candidate → Type 0
Stands s none = Unit {0}
Stands s (some c) = lookup c.candidate_run s.runs ≡ some c.candidate_record

or_next-Stands :
    (s : Service) (run_id : String) (rec : RunRecord) (found : Option Found)
    (rest : Result (Option Candidate))
    → lookup run_id s.runs ≡ some rec
    → Ensures (Stands s) rest
    → Ensures (Stands s) (or_next run_id rec found rest)
or_next-Stands s run_id rec none rest e h = h
or_next-Stands s run_id rec (some f) rest e h = Ensures-ok _ e

pub find_in_runs-Stands :
    (s : Service) (kinds : List String) (now : ℕ) (ids : List String)
    → Ensures (Stands s) (find_in_runs s kinds now ids)
unfolding find_in_runs
find_in_runs-Stands s kinds now [] = Ensures-ok none tt
find_in_runs-Stands s kinds now (run_id ∷ ids) =
    Ensures-then _ _ (Ensures-or_fail (lookup run_id s.runs) panicked (λ rec e. e)) λ rec e.
      Ensures-if _ _ _
        (λ _. Ensures-bind _ _ λ definition _.
          Ensures-bind _ _
            λ found _. or_next-Stands s run_id rec found _ e (find_in_runs-Stands s kinds now ids))
        (λ _. find_in_runs-Stands s kinds now ids)

pub claim_found-Extends :
    (s : Service) (m : Moment) (executor : String) (c : Candidate)
    → Ensures (λ p. Extends (begin c.candidate_record m) p.0) (claim_found s m executor c)
unfolding claim_found
claim_found-Extends s m executor c =
    Ensures-then _ _ (random_token-Extends s.platform (begin c.candidate_record m)) λ t e.
      Ensures-ok _ (
        Extends-trans _ t.2 _ e.0 (
          Extends-trans t.2 _ _
            (Extends-trans t.2 _ _ (Extends-with_leases t.2 _) (Extends-with_nodes _ _))
            (Extends-append_event _ m.now _ _ _)))

module _ (P : Service → Type 0) (E : String → Type 0) (rules : Rules P E) where
  pub claim_activity-keeps :
      (s : Service) (m : Moment) (executor : String) (kinds : List String)
      → P s
      → Ensures (λ q. P q.0) (claim_activity s m executor kinds)
  unfolding claim_activity
  claim_activity-keeps s m executor kinds p = Ensures-guard _ _ _ λ _. Ensures-guard _ _ _ λ _.
      Ensures-guard _ _ _ λ _. Ensures-guard _ _ _ λ _.
        Ensures-then _ _ (find_in_runs-Stands s kinds m.now (sort_strings (keys s.runs))) λ o h.
          Ensures-then _ _
            (Ensures-or_fail {P = λ c. Stands s (some c)} o not_found (λ c e. subst_stands o c e h))
            λ c stands. Ensures-then _ _ (claim_found-Extends s m executor c) λ q e.
              Ensures-then _ _
                (rules.commits s m c.candidate_run c.candidate_record (begin c.candidate_record m)
                  q.0 p stands refl refl e)
                λ s' p'. Ensures-ok _ p'
    where
      subst_stands :
          (o : Option Candidate) (c : Candidate) → o ≡ some c → Stands s o → Stands s (some c)
      subst_stands o c e h = rw e at h
