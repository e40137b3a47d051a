-- ===== src/Workflow/Claim/Grants.antt =====
-- internal/workflow/service.go: what `ClaimActivity` hands out.
use remote_code.Prelude.{
  ◌<◌, ◌≡◌, refl, sym, ap, ◌∙◌, String, List, [], ◌∷◌, ◌++◌, some, lookup, insert,
  lookup-insert_self, subst, keys, sort_strings,
}
use remote_code.Workflow.Model.{
  Time, Result, ok, err, activity_claimed, Attempt, Activity, NodeRun, RunRecord, ActivityClaim,
  random_failed, not_found,
}
use remote_code.Workflow.Script.{Platform}
use remote_code.Workflow.Ensures.{
  Ensures, Ensures-ok, Ensures-err, Ensures-then, Ensures-guard, Ensures-or_fail,
}
use remote_code.Workflow.Journal.{Work, get_last, append_event}
use remote_code.Workflow.Service.{Service, Moment, begin}
use remote_code.Workflow.Service.Effects.{Committed, commit-Committed}
use remote_code.Workflow.Activities.Lease.{Authorises, verify_lease_iff}
use remote_code.Workflow.Activities.{verify_lease}
use remote_code.Workflow.Resolve.{random_token}
use remote_code.Workflow.Claim.{Candidate, claim_found, claim_activity}
use remote_code.Workflow.Claim.Keeps.{Stands, find_in_runs-Stands, claim_found-Extends}
use remote_code.Workflow.Calls.Gapless.{IsJournaled}

-- The activity of the claim stands in the record, claimed, and the claim's token and attempt
-- authorise calls on it at this time.
pub record Grants (p : Platform) (rec : RunRecord) (claim : ActivityClaim) (now : Time)
    : Type 0 where
  pub node : NodeRun
  pub found_node : lookup claim.claim_node_id rec.run.nodes ≡ some node
  pub operation : String
  pub activity : Activity
  pub found_activity : lookup operation node.activities ≡ some activity
  pub same_activity : activity.id ≡ claim.claim_activity_id
  pub is_claimed : activity.state ≡ activity_claimed
  pub authorised : Authorises p rec activity claim.claim_attempt claim.lease_token now

get_last-append : (xs : List Attempt) (a : Attempt) → get_last (xs ++ a ∷ []) ≡ some a
unfolding get_last
get_last-append [] a = refl
get_last-append (x ∷ []) a = refl
get_last-append (x ∷ y ∷ xs) a = get_last-append (y ∷ xs) a

random_token-hash : (p : Platform) (w : Work) → Ensures (λ t. t.1 ≡ p.digest t.0) (random_token p w)
unfolding random_token
random_token-hash p w = by_entropy w.entropy
  where
    by_entropy :
        (entropy : List String)
        → Ensures
            (λ (t : String × String × Work). t.1 ≡ p.digest t.0)
            (elim entropy [
              | [] ↦ err random_failed
              | token ∷ rest ↦ ok (token, p.digest token, record w { entropy = rest })
            ])
    by_entropy [] = Ensures-err random_failed
    by_entropy (token ∷ rest) = Ensures-ok _ refl

claim_found-Grants :
    (s : Service) (m : Moment) (executor : String) (c : Candidate) (later : Time)
    → Ensures
        (λ q.
          (q.1.claim_run_id ≡ c.candidate_run)
          × (later < q.1.claim_lease_deadline → Grants s.platform q.0.rec q.1 later))
        (claim_found s m executor c)
unfolding claim_found append_event
claim_found-Grants s m executor c later =
    Ensures-then _ _ (random_token-hash s.platform (begin c.candidate_record m)) λ t hashed.
      Ensures-ok _ (
        refl,
        λ before. record {
          node = _;
          found_node = lookup-insert_self c.candidate_found.node_key _ _;
          operation = c.candidate_found.operation_key;
          activity = _;
          found_activity = lookup-insert_self c.candidate_found.operation_key _ _;
          same_activity = refl;
          is_claimed = refl;
          authorised = record {
            lease = _;
            held = lookup-insert_self c.candidate_found.activity.id _ _;
            of_attempt = refl;
            last = _;
            last_is = get_last-append c.candidate_found.activity.attempts _;
            last_number = refl;
            not_over = before;
            of_token = sym hashed;
          };
        },
      )

-- What the service holds after the claim's commit.
pub record IsGranted (s : Service) (claim : ActivityClaim) (now : Time) : Type 0 where
  pub record_of : RunRecord
  pub found_at : lookup claim.claim_run_id s.runs ≡ some record_of
  pub grants : Grants s.platform record_of claim now
  pub passes :
      verify_lease s.platform record_of grants.activity claim.claim_attempt claim.lease_token now
      ≡ ok tt

commit-IsGranted :
    (s s' : Service) (w : Work) (claim : ActivityClaim) (now : Time)
    → w.rec.run.run_id ≡ claim.claim_run_id
    → Grants s.platform w.rec claim now
    → Committed s w s'
    → IsGranted s' claim now
commit-IsGranted s s' w claim now own g c = record {
  record_of = c.stamped;
  found_at =
      ap (lookup claim.claim_run_id) c.runs_after
      ∙ ap (λ k. lookup claim.claim_run_id (insert k c.stamped s.runs)) own
      ∙ lookup-insert_self claim.claim_run_id c.stamped s.runs;
  grants = stamped_grants;
  passes =
      (verify_lease_iff s'.platform c.stamped g.activity claim.claim_attempt claim.lease_token
          now).1
        stamped_grants.authorised;
}
  where
    stamped_grants : Grants s'.platform c.stamped claim now
    stamped_grants = record {
      node = g.node;
      found_node = ap (lookup claim.claim_node_id) c.same_nodes ∙ g.found_node;
      operation = g.operation;
      activity = g.activity;
      found_activity = g.found_activity;
      same_activity = g.same_activity;
      is_claimed = g.is_claimed;
      authorised =
          let a = g.authorised in
          record {
            lease = a.lease;
            held = ap (lookup g.activity.id) c.same_leases ∙ a.held;
            of_attempt = a.of_attempt;
            last = a.last;
            last_is = a.last_is;
            last_number = a.last_number;
            not_over = a.not_over;
            of_token = ap (λ p. p.digest claim.lease_token) c.same_platform ∙ a.of_token;
          };
    }

claim_activity-Ensures :
    (s : Service) (m : Moment) (executor : String) (kinds : List String) (later : Time)
    → IsJournaled s
    → Ensures
        (λ q. later < q.1.claim_lease_deadline → IsGranted q.0 q.1 later)
        (claim_activity s m executor kinds)
unfolding claim_activity
claim_activity-Ensures s m executor kinds later p = Ensures-guard _ _ _ λ _.
    Ensures-guard _ _ _ λ _. Ensures-guard _ _ _ λ _. Ensures-guard _ _ _ λ _.
      Ensures-then _ _ (find_in_runs-Stands s kinds m.now (sort_strings (keys s.runs))) λ o h.
        Ensures-then _ _
          (Ensures-or_fail {P = λ c. Stands s (some c)} o not_found
            (λ c e. subst (λ x. Stands s x) e h))
          λ c stands.
            Ensures-then _ _
              (both _ (claim_found-Extends s m executor c)
                (claim_found-Grants s m executor c later))
              λ q g. Ensures-then _ _ (commit-Committed s q.0 m) λ s' done. Ensures-ok _ (λ before.
                commit-IsGranted s s' q.0 q.1 later
                  (g.0.same_id ∙ p.keyed c.candidate_run c.candidate_record stands ∙ sym g.1.0)
                  (g.1.1 before) done)
  where
    both :
        {A : Type 0} {P Q : A → Type 0} (r : Result A)
        → Ensures P r
        → Ensures Q r
        → Ensures (λ a. P a × Q a) r
    both r h k = record { at = λ a e. (h.at a e, k.at a e) }

-- In a journaled service, the activity of a claim that was handed out stands claimed in its run, and
-- the token and the attempt of the claim pass `verifyLease` at every time before its deadline.
pub claim_activity-IsGranted :
    (s s' : Service) (m : Moment) (executor : String) (kinds : List String) (claim : ActivityClaim)
    (later : Time)
    → IsJournaled s
    → claim_activity s m executor kinds ≡ ok (s', claim)
    → later < claim.claim_lease_deadline
    → IsGranted s' claim later
claim_activity-IsGranted s s' m executor kinds claim later p done =
    (claim_activity-Ensures s m executor kinds later p).at (s', claim) done
