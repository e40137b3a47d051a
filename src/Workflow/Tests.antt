-- ===== src/Workflow/Tests.antt =====
-- internal/workflow: each theorem at the states of one run.
use remote_code.Prelude.{
  ◌*◌, ◌^◌, min, none, some, [], ◌∷◌, ◌≡◌, ◌≢◌, ◌↔◌, refl, arith, inl, inr, lookup, insert,
  str_eq→ne,
}
use remote_code.Workflow.Model.{ok, err, conflict, fuel_exhausted, run_succeeded, run_cancelled}
use remote_code.Workflow.Journal.{finish_run, fail_node, retry_backoff}
use remote_code.Workflow.Journal.Ends.{
  AllEnded, HoldsLive, failed_node, finish_run-ends, finish_run-takes_lease,
  fail_node-keeps_activities,
}
use remote_code.Workflow.Journal.Backoff.{retry_backoff-min}
use remote_code.Workflow.Advance.{advance}
use remote_code.Workflow.Advance.Terminates.{advance-terminates}
use remote_code.Workflow.Service.{peers_of, begin, start_run, cancel_run, pause_run, resume_run}
use remote_code.Workflow.Service.Replay.{cancel_run-replay, pause_run-replay}
use remote_code.Workflow.Service.Starts.{start_run-idempotent}
use remote_code.Workflow.Activities.{verify_lease, start_activity, complete_activity}
use remote_code.Workflow.Activities.Lease.{Authorises, verify_lease_iff}
use remote_code.Workflow.Activities.Replay.{start_activity-replay, complete_activity-replay}
use remote_code.Workflow.Claim.{active_attempt_count}
use remote_code.Workflow.Claim.Grants.{IsGranted, claim_activity-IsGranted}
use remote_code.Workflow.Calls.{deletes_run, reconciles, run_calls, calls_code}
use remote_code.Workflow.Calls.Gapless.{IsJournaled, run_calls-IsJournaled}
use remote_code.Workflow.Calls.Ended.{StandsIn, run_calls-keeps_ended}
use remote_code.Workflow.Calls.Appends.{BeginsWith, run_calls-appends}
use remote_code.Workflow.Calls.Capacity.{HasRoom, run_calls-HasRoom}
use remote_code.Workflow.Stored.{of_run}
use remote_code.Workflow.Scene.{
  platform, definition, empty, moment, start_call, claim_call, holder, begin_call, result,
  finish_call, started, claimed, begun, ended, record_in, later_calls, claim, claimed_activity,
  paused, cancelled, claimed_work, build_node,
}

empty-IsJournaled : IsJournaled empty
unfolding lookup
empty-IsJournaled = record { keyed = λ id rec e. cc; gapless = λ id. tt; counts = λ id. refl }

-- The journal of the run in which the activity is claimed, started and completed has no gap.
run_calls-IsJournaled_example : IsJournaled ended
run_calls-IsJournaled_example =
    run_calls-IsJournaled empty (start_call ∷ claim_call ∷ begin_call ∷ finish_call ∷ [])
      empty-IsJournaled

begun-IsJournaled : IsJournaled begun
begun-IsJournaled =
    run_calls-IsJournaled empty (start_call ∷ claim_call ∷ begin_call ∷ []) empty-IsJournaled

claimed-IsJournaled : IsJournaled claimed
claimed-IsJournaled = run_calls-IsJournaled empty (start_call ∷ claim_call ∷ []) empty-IsJournaled

started-IsJournaled : IsJournaled started
started-IsJournaled = run_calls-IsJournaled empty (start_call ∷ []) empty-IsJournaled

run_calls-keeps_ended_example : StandsIn "run-01" run_succeeded (run_calls ended later_calls)
unfolding calls_code
run_calls-keeps_ended_example =
    run_calls-keeps_ended ended later_calls "run-01" (record_in ended) run_calls-IsJournaled_example
      refl refl (tt, (tt, (tt, tt)))

run_calls-HasRoom_example : HasRoom (run_calls empty (start_call ∷ later_calls))
unfolding calls_code
run_calls-HasRoom_example =
    run_calls-HasRoom empty (start_call ∷ later_calls) empty-IsJournaled (omega arith)

run_calls-appends_example :
    BeginsWith "run-01"
      (of_run "run-01" started.stored)
      (run_calls started (claim_call ∷ begin_call ∷ (moment 8, deletes_run "run-02") ∷ []))
unfolding calls_code
run_calls-appends_example =
    run_calls-appends started (claim_call ∷ begin_call ∷ (moment 8, deletes_run "run-02") ∷ [])
      "run-01" started-IsJournaled (tt, (tt, (refl, tt)))

advance-terminates_example :
    advance (peers_of empty) definition 1 (begin (record_in started) (moment 2))
    ≢ err fuel_exhausted
advance-terminates_example =
    advance-terminates (peers_of empty) definition 1 (begin (record_in started) (moment 2))

claim_activity-IsGranted_example : IsGranted claimed claim 50
unfolding calls_code
claim_activity-IsGranted_example =
    claim_activity-IsGranted started claimed (moment 2) "executor" ("shell" ∷ []) claim 50
      started-IsJournaled refl (omega arith)

verify_lease_iff_example :
    (verify_lease platform (record_in claimed) claimed_activity 1 "02" 50 ≡ ok tt)
    ↔ Authorises platform (record_in claimed) claimed_activity 1 "02" 50
verify_lease_iff_example = verify_lease_iff platform (record_in claimed) claimed_activity 1 "02" 50

start_run-idempotent_example :
    start_run started (moment 20) "release" "first" none ≡ ok (started, "run-01")
unfolding calls_code
start_run-idempotent_example =
    start_run-idempotent empty started (moment 1) (moment 20) "release" "first" none none "run-01"
      refl refl

complete_activity-replay_example :
    complete_activity ended (moment 9) "run-01" holder "finish" result ≡ ok ended
unfolding calls_code
complete_activity-replay_example =
    complete_activity-replay begun ended (moment 4) (moment 9) "run-01" holder "finish" result
      begun-IsJournaled refl

start_activity-replay_example : start_activity begun (moment 900) "run-01" holder "begin" ≡ ok begun
unfolding calls_code
start_activity-replay_example =
    start_activity-replay claimed begun (moment 3) (moment 900) "run-01" holder "begin"
      claimed-IsJournaled refl

pause_run-replay_example :
    (pause_run paused (moment 9) "run-01" "hold" [] ≡ ok paused)
    × (resume_run paused (moment 9) "run-01" "hold" ≡ err conflict)
unfolding calls_code
pause_run-replay_example =
    pause_run-replay started paused (moment 5) (moment 9) "run-01" "hold" [] started-IsJournaled
      refl

cancel_run-replay_example : cancel_run cancelled (moment 9) "run-01" "stop" [] ≡ ok cancelled
unfolding calls_code
cancel_run-replay_example =
    cancel_run-replay started cancelled (moment 5) (moment 9) "run-01" "stop" [] started-IsJournaled
      refl

finish_run-ends_example :
    ((finish_run claimed_work run_cancelled [] 5).rec.run.run_state ≡ run_cancelled)
    × AllEnded (finish_run claimed_work run_cancelled [] 5).rec.run.nodes
unfolding calls_code
finish_run-ends_example = finish_run-ends claimed_work run_cancelled [] 5 refl

other_not_held : ¬ HoldsLive "act-09" claimed_work.rec.run.nodes
unfolding calls_code
other_not_held (inl (live, inl (e, s))) = str_eq→ne "act-02" "act-09" refl e
other_not_held (inl (live, inr h)) = h
other_not_held (inr (inl (live, h))) = h
other_not_held (inr (inr h)) = h

finish_run-takes_lease_example :
    (lookup "act-02" (finish_run claimed_work run_cancelled [] 5).rec.leases ≡ none)
    × (lookup "act-09" (finish_run claimed_work run_cancelled [] 5).rec.leases
        ≡ lookup "act-09" claimed_work.rec.leases)
unfolding calls_code
finish_run-takes_lease_example =
    finish_run-takes_lease claimed_work run_cancelled [] 5 "act-02" "act-09" refl
      (inl (refl, inl (refl, refl))) other_not_held

retry_backoff-min_example : retry_backoff empty.config 3 ≡ min (10 * 2 ^ 2) 60
retry_backoff-min_example = retry_backoff-min empty.config 3

no_live_node :
    ¬ HoldsLive "act-02" (insert "build" (failed_node build_node [] 5) claimed_work.rec.run.nodes)
unfolding calls_code
no_live_node (inl (live, h)) = cc
no_live_node (inr (inl (live, h))) = h
no_live_node (inr (inr h)) = h

fail_node-keeps_activities_example :
    (lookup "build" (fail_node claimed_work "build" build_node [] 5).rec.run.nodes
      ≡ some (failed_node build_node [] 5))
    × (lookup "act-02" (fail_node claimed_work "build" build_node [] 5).rec.leases
        ≡ lookup "act-02" claimed_work.rec.leases)
unfolding calls_code
fail_node-keeps_activities_example =
    fail_node-keeps_activities claimed_work "build" build_node [] 5 "act-02" refl no_live_node

-- A node that times out takes its claimed activity with it into the failed run, and the activity goes
-- on counting as active.
timed_out_holds_attempt :
    active_attempt_count (run_calls claimed ((moment 2000, reconciles) ∷ [])) ≡ 1
unfolding calls_code
timed_out_holds_attempt = refl
