-- ===== src/Examples/Jobs.antt =====
-- A job in its fast pass, which waits for the result of a recovery dispatch.
use disc_rescue.Prelude.{true, ◌≡◌, refl, List, [], ◌∷◌, none, some, arith, ok}
use disc_rescue.Coordinator.Job.{
  fast_pass, completed, unset, dispatch_recovery, no_kind, Job, Event, pause_job, resume_job,
  worker_result_received, job_checkpointed, worker_unresponsive_detected, invalid_state,
  validate_job, valid_job_state, running_phase,
}
use disc_rescue.Coordinator.Handle.{Snapshot, calculate_transition, handle, run}
use disc_rescue.Coordinator.Safety.{IsCareful, unchecked, handle-IsCareful, handle-eq-unchecked}
use disc_rescue.Coordinator.Tokens.{Retired, handle-Retired_after_run}
use disc_rescue.Coordinator.Progress.{
  Forward, run-Forward, run_finished, awaiting, unresponsive_checkpoint_refused,
}
use disc_rescue.Coordinator.Shutdown.{cancel, ShutdownPlan, all_steps, build_shutdown_plan}
use disc_rescue.Coordinator.Shutdown.Laws.{Orderly, build_shutdown_plan-Orderly}

abbrev fast_job : Job
fast_job = record {
  id = "disc";
  state = fast_pass;
  resume_state = unset;
  pending_kind = dispatch_recovery;
  pending_token = 3;
  next_token = 4;
}

abbrev at_fast_pass : Snapshot
at_fast_pass = record { job = fast_job }

abbrev at_end : Snapshot
at_end = record {
  job = record fast_job { state = completed; pending_kind = no_kind; pending_token = 0 };
}

fast_job_valid : validate_job fast_job ≡ ok tt
unfolding validate_job valid_job_state running_phase
fast_job_valid = refl

ended_job_valid : validate_job at_end.job ≡ ok tt
unfolding validate_job valid_job_state running_phase
ended_job_valid = refl

abbrev pause_and_resume : List Event
pause_and_resume = pause_job "disc" ∷ resume_job "disc" ∷ []

second_token-Retired : Retired 2 fast_job
second_token-Retired = record {
  issued = omega arith;
  counter_fits = omega arith;
  not_awaited = λ e. absurd (omega arith);
}

handle-IsCareful_example : IsCareful at_fast_pass (handle at_fast_pass (pause_job "disc"))
handle-IsCareful_example = handle-IsCareful at_fast_pass (pause_job "disc") fast_job_valid

handle-eq-unchecked_example :
    handle at_fast_pass (pause_job "disc")
    ≡ unchecked at_fast_pass (calculate_transition fast_job (pause_job "disc"))
handle-eq-unchecked_example =
    handle-eq-unchecked at_fast_pass (pause_job "disc") fast_job_valid (omega arith) tt

handle-Retired_after_run_example :
    ((handle (run at_fast_pass pause_and_resume) (worker_result_received "disc" 2 completed none)).0
      ≡ run at_fast_pass pause_and_resume)
    × ((handle
          (run at_fast_pass pause_and_resume)
          (worker_result_received "disc" 2 completed none)).1
        ≡ [])
handle-Retired_after_run_example =
    handle-Retired_after_run 2 at_fast_pass pause_and_resume
      (worker_result_received "disc" 2 completed none) fast_job_valid (omega arith) (tt, (tt, tt))
      second_token-Retired refl

run-Forward_example : Forward fast_job (run at_fast_pass pause_and_resume).job
run-Forward_example = run-Forward at_fast_pass pause_and_resume fast_job_valid (tt, (tt, tt))

run_finished_example : run at_end pause_and_resume ≡ at_end
run_finished_example = run_finished at_end pause_and_resume ended_job_valid refl (tt, (tt, tt))

unresponsive_checkpoint_refused_example :
    ((handle at_fast_pass (worker_unresponsive_detected "disc" 3 "stuck")).0
      ≡ record { job = awaiting fast_job })
    × (handle (record { job = awaiting fast_job }) (job_checkpointed "disc" 4)
        ≡ (record { job = awaiting fast_job }, [], some invalid_state))
unresponsive_checkpoint_refused_example =
    unresponsive_checkpoint_refused at_fast_pass "stuck" fast_job_valid (omega arith) running refl
  where
    running : running_phase fast_pass ≡ true
    running = unfold running_phase in refl

abbrev cancel_plan : ShutdownPlan
cancel_plan = record { reason = cancel; steps = all_steps }

plan_for_cancel : build_shutdown_plan cancel ≡ ok cancel_plan
unfolding build_shutdown_plan
plan_for_cancel = refl

build_shutdown_plan-Orderly_example : Orderly cancel cancel_plan
build_shutdown_plan-Orderly_example = build_shutdown_plan-Orderly cancel cancel_plan plan_for_cancel
