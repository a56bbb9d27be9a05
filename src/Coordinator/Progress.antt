-- ===== src/Coordinator/Progress.antt =====
-- The phases of a job: they never go back, and a finished job stays as it is.
use disc_rescue.Prelude.{
  ℕ, ◌+◌, ◌-◌, ◌^◌, ◌≤◌, ◌<◌, ◌≡◌, refl, ◌∙◌, Bool, true, false, some, String, List, [], ◌∷◌, arith,
  All, eq_iff, if◌then◌else◌, Result, ok, err,
}
use disc_rescue.Coordinator.Job.{
  CoordinatorError, invalid_state, dispatch_recovery, checkpoint, JobState, identifying, preparing,
  fast_pass, trim_pass, adaptive_pass, scrape_pass, verifying, completed, incomplete, failed, Job,
  Effect, Event, start_job, resume_job, cancel_job, job_checkpointed, worker_unresponsive_detected,
  validate_job, valid_job_state, keeps_phase, running_phase, active_job_state,
}
use disc_rescue.Coordinator.Transition.{
  Transition, noop, move, transition_allowed, calculate_pause_transition,
  calculate_worker_result_transition, calculate_probe_completed_transition,
  calculate_write_result_transition, calculate_resume_transition, calculate_cancel_transition,
  calculate_checkpoint_transition, calculate_job_failed_transition,
  calculate_worker_unresponsive_transition,
}
use disc_rescue.Coordinator.Handle.{
  Snapshot, committed, answer, calculate_transition, validate_move, handle, run,
}
use disc_rescue.Coordinator.Safety.{
  handle_of_valid, handle-IsCareful, handle-eq-unchecked, unchecked,
}
use disc_rescue.Coordinator.Tokens.{NotStart, IsIdleAnswer, answer_idle}

-- How far a job has come.
abbrev pub rank : JobState → ℕ
rank identifying = 1
rank preparing = 2
rank fast_pass = 3
rank trim_pass = 4
rank adaptive_pass = 5
rank scrape_pass = 6
rank verifying = 7
rank completed = 8
rank incomplete = 8
rank failed = 8
rank _ = 0

-- The phase of a job: the one that it will resume, while it is paused or stopping.
abbrev pub phase : Job → JobState
phase j = if keeps_phase j.state then j.resume_state else j.state

abbrev GoesOn : Job → Result CoordinatorError Transition → Type 0
GoesOn j (ok (move k es)) = (rank (phase j) ≤ rank (phase k)) × (k.id ≡ j.id)
GoesOn j _ = Unit

calculate_transition-GoesOn :
    (j : Job) (event : Event)
    → validate_job j ≡ ok tt
    → NotStart event
    → GoesOn j (calculate_transition j event)
unfolding calculate_transition calculate_pause_transition calculate_worker_result_transition
    calculate_probe_completed_transition calculate_write_result_transition
    calculate_resume_transition calculate_cancel_transition calculate_checkpoint_transition
    calculate_job_failed_transition calculate_worker_unresponsive_transition transition_allowed
    active_job_state running_phase validate_job valid_job_state
calculate_transition-GoesOn j (start_job id) v n = absurd n
calculate_transition-GoesOn j (resume_job id) v n = ground arith
calculate_transition-GoesOn j (cancel_job id) v n = ground arith
calculate_transition-GoesOn j _ v n = ground arith

-- The job of the snapshot goes on, or stays.
abbrev pub Forward : Job → Job → Type 0
Forward j k = (rank (phase j) ≤ rank (phase k)) × (k.id ≡ j.id)

committed-Forward :
    (s : Snapshot) (j : Job) (es : List Effect) (r : Result CoordinatorError Unit)
    → Forward s.job j
    → validate_move j es ≡ r
    → Forward s.job (committed s (move j es)).0.job
committed-Forward s j es (ok u) f h = rw (h, committed) f
committed-Forward s j es (err e) f h = rw (h, committed) (omega arith, refl)

answer-Forward :
    (s : Snapshot) (x : Result CoordinatorError Transition)
    → GoesOn s.job x
    → Forward s.job (answer s x).0.job
answer-Forward s (err e) g = (omega arith, refl)
answer-Forward s (ok noop) g = (omega arith, refl)
answer-Forward s (ok (move j es)) g = committed-Forward s j es (validate_move j es) g refl

handle-Forward :
    (s : Snapshot) (event : Event)
    → validate_job s.job ≡ ok tt
    → NotStart event
    → Forward s.job (handle s event).0.job
handle-Forward s event v n =
    rw (handle_of_valid s event v)
      (answer-Forward s _ (calculate_transition-GoesOn s.job event v n))

-- Over any events that start no new job, a valid job keeps its name and its phase (the phase that
-- it will resume, while it is pausing, paused or stopping) never goes back in the order
-- identifying, preparing, fast, trim, adaptive, scrape, verifying, finished.
pub run-Forward :
    (s : Snapshot) (events : List Event)
    → validate_job s.job ≡ ok tt
    → All NotStart events
    → Forward s.job (run s events).job
unfolding run
run-Forward s [] v n = (omega arith, refl)
run-Forward s (e ∷ es) v (n, ns) =
    let (le, same) = handle-Forward s e v n in
    let (le', same') = run-Forward (handle s e).0 es (handle-IsCareful s e v).0 ns in
    (omega arith, same' ∙ same)

-- A job that has ended.
abbrev pub is_finished : JobState → Bool
is_finished completed = true
is_finished incomplete = true
is_finished failed = true
is_finished _ = false

finished_answer :
    (s : Snapshot) (x : Result CoordinatorError Transition) → IsIdleAnswer x → (answer s x).0 ≡ s
finished_answer s x i = (answer_idle s x i).0

calculate_transition-finished :
    (j : Job) (event : Event)
    → is_finished j.state ≡ true
    → NotStart event
    → IsIdleAnswer (calculate_transition j event)
unfolding calculate_transition calculate_pause_transition calculate_worker_result_transition
    calculate_probe_completed_transition calculate_write_result_transition
    calculate_resume_transition calculate_cancel_transition calculate_checkpoint_transition
    calculate_job_failed_transition calculate_worker_unresponsive_transition active_job_state
    running_phase
calculate_transition-finished j (start_job id) f n = absurd n
calculate_transition-finished j (resume_job id) f n = ground arith
calculate_transition-finished j (cancel_job id) f n = ground arith
calculate_transition-finished j _ f n = ground arith

-- A valid job that is completed, incomplete or failed is not changed by any events but the start
-- of a new job.
pub run_finished :
    (s : Snapshot) (events : List Event)
    → validate_job s.job ≡ ok tt
    → is_finished s.job.state ≡ true
    → All NotStart events
    → run s events ≡ s
unfolding run
run_finished s [] v f n = refl
run_finished s (e ∷ es) v f (n, ns) =
    let same : (handle s e).0 ≡ s =
      rw (handle_of_valid s e v)
        (finished_answer s _ (calculate_transition-finished s.job e f n)) in
    rw same (run_finished s es v f ns)

-- The job that waits for the checkpoint of an unresponsive worker's sectors.
abbrev pub awaiting : Job → Job
awaiting j = record j {
  pending_kind = checkpoint;
  pending_token = j.next_token;
  next_token = j.next_token + 1;
}

unresponsive_answer :
    (j : Job) (s : Snapshot)
    → validate_job j ≡ ok tt
    → j.next_token < 2 ^ 64 - 1
    → running_phase j.state ≡ true
    → j.pending_kind ≡ dispatch_recovery
    → (unchecked s (calculate_worker_unresponsive_transition j j.id j.pending_token)).0
      ≡ record { job = awaiting j }
unfolding calculate_worker_unresponsive_transition active_job_state running_phase validate_job
unresponsive_answer j s v h r p = ground (arith, eq_iff j.id j.id)

checkpoint_refused :
    (j : Job) (token : ℕ)
    → running_phase j.state ≡ true
    → calculate_checkpoint_transition j j.id token ≡ err invalid_state
unfolding calculate_checkpoint_transition running_phase
checkpoint_refused j token r = ground (arith, eq_iff j.id j.id)

awaiting-valid :
    (j : Job)
    → validate_job j ≡ ok tt
    → j.next_token < 2 ^ 64 - 1
    → running_phase j.state ≡ true
    → validate_job (awaiting j) ≡ ok tt
unfolding validate_job valid_job_state running_phase
awaiting-valid j v h r = ground arith

-- In a valid running job whose token counter is below 2^64 - 1, and which waits for a recovery
-- dispatch, a report that the worker is unresponsive leaves a job that waits for a checkpoint with
-- the next token; the event that acknowledges this checkpoint is then refused, and the snapshot
-- stays as it is.
pub unresponsive_checkpoint_refused :
    (s : Snapshot) (reason : String)
    → validate_job s.job ≡ ok tt
    → s.job.next_token < 2 ^ 64 - 1
    → running_phase s.job.state ≡ true
    → s.job.pending_kind ≡ dispatch_recovery
    → ((handle s (worker_unresponsive_detected s.job.id s.job.pending_token reason)).0
        ≡ record { job = awaiting s.job })
      × (handle (record { job = awaiting s.job }) (job_checkpointed s.job.id s.job.next_token)
          ≡ (record { job = awaiting s.job }, [], some invalid_state))
unfolding calculate_transition
unresponsive_checkpoint_refused s reason v h r p = (
  rw
      (handle-eq-unchecked s (worker_unresponsive_detected s.job.id s.job.pending_token reason) v h
        tt)
      (unresponsive_answer s.job s v h r p),
  rw
      (handle_of_valid (record { job = awaiting s.job })
        (job_checkpointed s.job.id s.job.next_token) (awaiting-valid s.job v h r))
      (rw (checkpoint_refused (awaiting s.job) s.job.next_token r)),
)
