-- ===== src/Coordinator/Safety.antt =====
-- Every transition that an event calculates from a valid job passes the coordinator's own check.
use disc_rescue.Prelude.{
  ◌⊎◌, inl, inr, ℕ, ◌-◌, ◌^◌, ◌<◌, ◌≡◌, ◌≢◌, refl, Option, none, some, String, List, [], ◌∷◌, arith,
  eq_iff, ◌∙◌, >>-eq-ok, Result, ok, err,
}
use disc_rescue.Coordinator.Job.{
  CoordinatorError, JobState, Job, Effect, Event, start_job, resume_job, pause_job, cancel_job,
  probe_completed, write_result_received, job_failed, worker_result_received, job_checkpointed,
  worker_unresponsive_detected, validate_job, valid_job_state, running_phase, active_job_state,
}
use disc_rescue.Coordinator.Transition.{
  Transition, noop, move, transition_allowed, calculate_pause_transition,
  calculate_start_transition, calculate_worker_result_transition,
  calculate_probe_completed_transition, calculate_write_result_transition,
  calculate_resume_transition, calculate_cancel_transition, calculate_checkpoint_transition,
  calculate_job_failed_transition, calculate_worker_unresponsive_transition,
}
use disc_rescue.Coordinator.Handle.{
  Snapshot, Reply, committed, answer, calculate_transition, validate_move, validate_effects, handle,
  run,
}

-- The transition passes `validateTransition`.
abbrev pub Passes : Result CoordinatorError Transition → Type 0
Passes (ok (move j es)) = validate_move j es ≡ ok tt
Passes _ = Unit

-- Shared by the lemmas below: a valid job whose token counter has room.
module _ (j : Job) (v : validate_job j ≡ ok tt) (h : j.next_token < 2 ^ 64 - 1) where
  pause-Passes : (id : String) → Passes (calculate_pause_transition j id)
  unfolding calculate_pause_transition validate_job validate_move validate_effects valid_job_state
      running_phase
  pause-Passes id = ground (arith, eq_iff j.id "")

  start-Passes : (id : String) → id ≢ "" → Passes (calculate_start_transition j id)
  unfolding calculate_start_transition validate_job validate_move validate_effects valid_job_state
      running_phase
  start-Passes id n = ground (arith, eq_iff id "")

  probe-Passes :
      (id : String) (token : ℕ) (e : Option String)
      → Passes (calculate_probe_completed_transition j id token e)
  unfolding calculate_probe_completed_transition validate_job validate_move validate_effects
      valid_job_state running_phase
  probe-Passes id token e = ground (arith, eq_iff j.id "")

  write-Passes :
      (id : String) (token : ℕ) (e : Option String)
      → Passes (calculate_write_result_transition j id token e)
  unfolding calculate_write_result_transition validate_job validate_move validate_effects
      valid_job_state running_phase
  write-Passes id token e = ground (arith, eq_iff j.id "")

  resume-Passes : (id : String) → Passes (calculate_resume_transition j id)
  unfolding calculate_resume_transition validate_job validate_move validate_effects valid_job_state
      running_phase
  resume-Passes id = ground (arith, eq_iff j.id "")

  cancel-Passes : (id : String) → Passes (calculate_cancel_transition j id)
  unfolding calculate_cancel_transition validate_job validate_move validate_effects valid_job_state
      running_phase
  cancel-Passes id = ground (arith, eq_iff j.id "", eq_iff j.id id)

  checkpoint-Passes :
      (id : String) (token : ℕ) → Passes (calculate_checkpoint_transition j id token)
  unfolding calculate_checkpoint_transition validate_job validate_move validate_effects
      valid_job_state running_phase
  checkpoint-Passes id token = ground (arith, eq_iff j.id "", eq_iff j.id id)

  worker-Passes :
      (id : String) (token : ℕ) (s : JobState) (e : Option String)
      → Passes (calculate_worker_result_transition j id token s e)
  unfolding calculate_worker_result_transition validate_job validate_move validate_effects
      valid_job_state running_phase transition_allowed
  worker-Passes id token s e = ground (arith, eq_iff j.id "")

  failed-Passes : (id : String) (token : ℕ) → Passes (calculate_job_failed_transition j id token)
  unfolding calculate_job_failed_transition validate_job validate_move validate_effects
      valid_job_state running_phase active_job_state
  failed-Passes id token = ground (arith, eq_iff j.id "")

  unresponsive-Passes :
      (id : String) (token : ℕ) → Passes (calculate_worker_unresponsive_transition j id token)
  unfolding calculate_worker_unresponsive_transition validate_job validate_move validate_effects
      valid_job_state running_phase active_job_state
  unresponsive-Passes id token = ground (arith, eq_iff j.id "", eq_iff j.id id)

-- A start names a job.
abbrev pub NamesJob : Event → Type 0
NamesJob (start_job id) = id ≢ ""
NamesJob _ = Unit

calculate_transition-Passes :
    (j : Job) (event : Event)
    → validate_job j ≡ ok tt
    → j.next_token < 2 ^ 64 - 1
    → NamesJob event
    → Passes (calculate_transition j event)
unfolding calculate_transition
calculate_transition-Passes j (start_job id) v h n = start-Passes j v h id n
calculate_transition-Passes j (resume_job id) v h n = resume-Passes j v h id
calculate_transition-Passes j (pause_job id) v h n = pause-Passes j v h id
calculate_transition-Passes j (cancel_job id) v h n = cancel-Passes j v h id
calculate_transition-Passes j (probe_completed id t e) v h n = probe-Passes j v h id t e
calculate_transition-Passes j (write_result_received id t e) v h n = write-Passes j v h id t e
calculate_transition-Passes j (job_failed id t e) v h n = failed-Passes j v h id t
calculate_transition-Passes j (worker_result_received id t s e) v h n = worker-Passes j v h id t s e
calculate_transition-Passes j (job_checkpointed id t) v h n = checkpoint-Passes j v h id t
calculate_transition-Passes j (worker_unresponsive_detected id t r) v h n =
    unresponsive-Passes j v h id t

-- What a snapshot answers if the calculated transition is taken as it is, with no check.
abbrev pub unchecked : Snapshot → Result CoordinatorError Transition → Reply
unchecked s (err e) = (s, [], some e)
unchecked s (ok noop) = (s, [], none)
unchecked s (ok (move j es)) = (record s { job = j }, es, none)

pub handle_of_valid :
    (s : Snapshot) (event : Event)
    → validate_job s.job ≡ ok tt
    → handle s event ≡ answer s (calculate_transition s.job event)
unfolding handle
handle_of_valid s event v = rw (v, handle)

answer-eq-unchecked :
    (s : Snapshot) (r : Result CoordinatorError Transition) → Passes r → answer s r ≡ unchecked s r
answer-eq-unchecked s (err e) p = refl
answer-eq-unchecked s (ok noop) p = refl
answer-eq-unchecked s (ok (move j es)) p = rw (p, committed)

-- On a valid job whose token counter is below 2^64 - 1, and for an event that does not start a
-- job with an empty name, `Handle` commits exactly what the event's rule calculates: the check of
-- the next job and of its effects never rejects a transition.
pub handle-eq-unchecked :
    (s : Snapshot) (event : Event)
    → validate_job s.job ≡ ok tt
    → s.job.next_token < 2 ^ 64 - 1
    → NamesJob event
    → handle s event ≡ unchecked s (calculate_transition s.job event)
handle-eq-unchecked s event v h n =
    handle_of_valid s event v
    ∙ answer-eq-unchecked s _ (calculate_transition-Passes s.job event v h n)

-- A valid job, and nothing changed or asked for where there is an error.
abbrev pub IsCareful : Snapshot → Reply → Type 0
IsCareful s r = (validate_job r.0.job ≡ ok tt) × ((r.2 ≡ none) ⊎ ((r.0 ≡ s) × (r.1 ≡ [])))

committed-IsCareful :
    (s : Snapshot) (j : Job) (es : List Effect) (r : Result CoordinatorError Unit)
    → validate_job s.job ≡ ok tt
    → validate_move j es ≡ r
    → IsCareful s (committed s (move j es))
unfolding validate_move
committed-IsCareful s j es (ok u) v h =
    rw (h, committed) ((>>-eq-ok (validate_job j) _ h).0, inl refl)
committed-IsCareful s j es (err e) v h = rw (h, committed) (v, inr (refl, refl))

answer-IsCareful :
    (s : Snapshot) (r : Result CoordinatorError Transition)
    → validate_job s.job ≡ ok tt
    → IsCareful s (answer s r)
answer-IsCareful s (err e) v = (v, inr (refl, refl))
answer-IsCareful s (ok noop) v = (v, inl refl)
answer-IsCareful s (ok (move j es)) v = committed-IsCareful s j es (validate_move j es) v refl

-- On a valid job, `Handle` leaves a valid job, whatever the event, and either reports no error or
-- changes nothing and asks for nothing.
pub handle-IsCareful :
    (s : Snapshot) (event : Event) → validate_job s.job ≡ ok tt → IsCareful s (handle s event)
handle-IsCareful s event v = rw (handle_of_valid s event v) (answer-IsCareful s _ v)

pub run-valid :
    (s : Snapshot) (events : List Event)
    → validate_job s.job ≡ ok tt
    → validate_job (run s events).job ≡ ok tt
unfolding run
run-valid s [] v = v
run-valid s (e ∷ es) v = run-valid (handle s e).0 es (handle-IsCareful s e v).0
