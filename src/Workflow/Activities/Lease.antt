-- ===== src/Workflow/Activities/Lease.antt =====
-- internal/workflow/service.go: `verifyLease`, which fences an executor's calls.
use remote_code.Prelude.{
  ℕ, ◌≡◌, ◌<◌, refl, String, Bool, true, false, not, Option, none, some, arith, lookup, str_eq,
  str_eq→eq, str_eq_refl, ltb, ◌==◌, ◌&&◌, ◌↔◌,
}
use remote_code.Workflow.Model.{
  Time, ok, ◌>>=◌, ◌>>◌, guard, or_fail, Activity, Attempt, LeaseRecord, RunRecord,
}
use remote_code.Workflow.Script.{Platform}
use remote_code.Workflow.Journal.{get_last}
use remote_code.Workflow.Ensures.{
  Ensures, Ensures-or_fail, Ensures-then, Ensures-guard, Ensures-last,
}
use remote_code.Workflow.Activities.{verify_lease, last_has_number}

-- The lease that stands for the activity is of this attempt, which is the last one, has not run out
-- at this time, and belongs to this token.
pub record Authorises (p : Platform) (rec : RunRecord) (activity : Activity) (attempt : ℕ)
    (token : String) (now : Time) : Type 0 where
  pub lease : LeaseRecord
  pub held : lookup activity.id rec.leases ≡ some lease
  pub of_attempt : lease.lease_attempt ≡ attempt
  pub last : Attempt
  pub last_is : get_last activity.attempts ≡ some last
  pub last_number : last.number ≡ attempt
  pub not_over : now < lease.deadline
  pub of_token : p.digest token ≡ lease.token_hash

and-both : (a b : Bool) → (a && b) ≡ true → (a ≡ true) × (b ≡ true)
and-both true true h = (refl, refl)
and-both true false h = cc
and-both false b h = cc

last_has_number-Last :
    (attempt : ℕ) (o : Option Attempt)
    → last_has_number o attempt ≡ true
    → (a : Attempt) × (o ≡ some a) × (a.number ≡ attempt)
last_has_number-Last attempt none h = cc
last_has_number-Last attempt (some a) h = (a, refl, ground (arith, h))

same_number : (a b : ℕ) → a ≡ b → (a == b) ≡ true
same_number a b e = ground (arith, e)

same_number→eq : (a b : ℕ) → (a == b) ≡ true → a ≡ b
same_number→eq a b e = ground (arith, e)

is_over-false :
    (now deadline : ℕ) → (not (deadline == 0) && ltb now deadline) ≡ true → now < deadline
is_over-false now deadline h = ground (arith, h)

is_timely : (now deadline : ℕ) → now < deadline → (not (deadline == 0) && ltb now deadline) ≡ true
is_timely now deadline h = ground (arith, h)

module _ (p : Platform) (rec : RunRecord) (activity : Activity) (attempt : ℕ) (token : String)
    (now : Time) where
  verify_lease-Authorises :
      Ensures
        (λ _. Authorises p rec activity attempt token now)
        (verify_lease p rec activity attempt token now)
  unfolding verify_lease
  verify_lease-Authorises =
      Ensures-then {P = λ lease. lookup activity.id rec.leases ≡ some lease} _ _
        (Ensures-or_fail _ _ λ lease e. e)
        λ lease held. Ensures-guard _ _ _ λ current. Ensures-guard _ _ _ λ timely.
          Ensures-last _ _ λ own.
            authorised lease held (and-both _ _ current)
              (last_has_number-Last attempt _ (and-both _ _ current).1) timely own
    where
      authorised :
          (lease : LeaseRecord)
          → lookup activity.id rec.leases ≡ some lease
          → ((lease.lease_attempt == attempt) ≡ true)
            × (last_has_number (get_last activity.attempts) attempt ≡ true)
          → ((a : Attempt) × (get_last activity.attempts ≡ some a) × (a.number ≡ attempt))
          → (not (lease.deadline == 0) && ltb now lease.deadline) ≡ true
          → str_eq (p.digest token) lease.token_hash ≡ true
          → Authorises p rec activity attempt token now
      authorised lease held current last timely own = record {
        lease = lease;
        held = held;
        of_attempt = same_number→eq lease.lease_attempt attempt current.0;
        last = last.0;
        last_is = last.1;
        last_number = last.2;
        not_over = is_over-false now lease.deadline timely;
        of_token = str_eq→eq _ _ own;
      }

  -- A call of an executor passes `verifyLease` exactly when a lease stands for the activity that is of
  -- the call's attempt, that attempt is the last one of the activity, the lease runs out after the
  -- call's time, and its hash is that of the call's token.
  pub verify_lease_iff :
      (verify_lease p rec activity attempt token now ≡ ok tt)
      ↔ Authorises p rec activity attempt token now
  unfolding verify_lease or_fail ◌>>=◌ ◌>>◌ guard
  verify_lease_iff = (
    λ e. verify_lease-Authorises.at tt e,
    λ a.
        rw
          (
            a.held,
            same_number _ _ a.of_attempt,
            a.last_is,
            same_number _ _ a.last_number,
            is_timely now a.lease.deadline a.not_over,
            a.of_token,
            str_eq_refl a.lease.token_hash,
          )
          refl,
  )
