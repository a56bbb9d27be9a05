-- ===== src/Coordinator/Tokens.antt =====
-- Tokens: an effect's token is accepted at most once.
use disc_rescue.Prelude.{
  ℕ, ◌<◌, ◌^◌, ◌≡◌, ◌≢◌, refl, true, false, List, [], ◌∷◌, arith, All, >>-eq-ok, Result, ok, err,
}
use disc_rescue.Coordinator.Job.{
  CoordinatorError, Job, Effect, Event, start_job, resume_job, pause_job, cancel_job,
  probe_completed, write_result_received, job_failed, worker_result_received, job_checkpointed,
  worker_unresponsive_detected, validate_job, valid_job_state, is_idle, running_phase,
  active_job_state,
}
use disc_rescue.Coordinator.Transition.{
  Transition, noop, move, only_paused, transition_allowed, calculate_pause_transition,
  calculate_worker_result_transition, calculate_probe_completed_transition,
  calculate_write_result_transition, calculate_resume_transition, calculate_cancel_transition,
  calculate_checkpoint_transition, calculate_job_failed_transition,
  calculate_worker_unresponsive_transition,
}
use disc_rescue.Coordinator.Handle.{
  Snapshot, committed, answer, calculate_transition, validate_move, handle, run,
}
use disc_rescue.Coordinator.Safety.{handle_of_valid, handle-IsCareful, run-valid}

-- A token that was issued and is no longer awaited.
pub record Retired (t : ℕ) (j : Job) : Type 0 where
  pub issued : t < j.next_token
  pub counter_fits : j.next_token < 2 ^ 64
  pub not_awaited : t ≢ j.pending_token

-- The transition keeps the token retired, unless the token counter wrapped to 0.
abbrev StaysRetired : ℕ → Result CoordinatorError Transition → Type 0
StaysRetired t (ok (move j es)) = (is_idle j.state ≡ false) × (j.next_token ≢ 0 → Retired t j)
StaysRetired t _ = Unit

abbrev pub NotStart : Event → Type 0
NotStart (start_job id) = ⊥
NotStart _ = Unit

-- A paused job resumes a running phase, which is not `idle`.
resumes_running :
    (j : Job) → validate_job j ≡ ok tt → only_paused j.state ≡ true → is_idle j.resume_state ≡ false
unfolding validate_job valid_job_state running_phase
resumes_running j v p = ground arith

calculate_transition-StaysRetired :
    (t : ℕ) (j : Job) (event : Event)
    → validate_job j ≡ ok tt
    → 0 < t
    → Retired t j
    → NotStart event
    → StaysRetired t (calculate_transition j event)
unfolding calculate_transition calculate_pause_transition calculate_worker_result_transition
    calculate_probe_completed_transition calculate_write_result_transition
    calculate_resume_transition calculate_cancel_transition calculate_checkpoint_transition
    calculate_job_failed_transition calculate_worker_unresponsive_transition transition_allowed
    active_job_state running_phase
calculate_transition-StaysRetired t j (start_job id) v p r n = absurd n
calculate_transition-StaysRetired t j (resume_job id) v p r n = ground (arith, resumes_running j v)
calculate_transition-StaysRetired t j (cancel_job id) v p r n = ground arith
calculate_transition-StaysRetired t j _ v p r n = ground arith

validate_job-counts :
    (j : Job) → validate_job j ≡ ok tt → is_idle j.state ≡ false → j.next_token ≢ 0
unfolding validate_job
validate_job-counts j v i = ground arith

committed-Retired :
    (t : ℕ) (s : Snapshot) (j : Job) (es : List Effect) (r : Result CoordinatorError Unit)
    → Retired t s.job
    → StaysRetired t (ok (move j es))
    → validate_move j es ≡ r
    → Retired t (committed s (move j es)).0.job
unfolding validate_move
committed-Retired t s j es (ok u) r (i, k) h =
    rw (h, committed) (k (validate_job-counts j (>>-eq-ok (validate_job j) _ h).0 i))
committed-Retired t s j es (err e) r k h = rw (h, committed) r

answer-Retired :
    (t : ℕ) (s : Snapshot) (x : Result CoordinatorError Transition)
    → Retired t s.job
    → StaysRetired t x
    → Retired t (answer s x).0.job
answer-Retired t s (err e) r k = r
answer-Retired t s (ok noop) r k = r
answer-Retired t s (ok (move j es)) r k = committed-Retired t s j es (validate_move j es) r k refl

handle-Retired :
    (t : ℕ) (s : Snapshot) (event : Event)
    → validate_job s.job ≡ ok tt
    → 0 < t
    → NotStart event
    → Retired t s.job
    → Retired t (handle s event).0.job
handle-Retired t s event v p n r =
    rw (handle_of_valid s event v)
      (answer-Retired t s _ r (calculate_transition-StaysRetired t s.job event v p r n))

-- A token above 0 that is retired in a valid job stays retired over any events that start no new
-- job.
pub run-Retired :
    (t : ℕ) (s : Snapshot) (events : List Event)
    → validate_job s.job ≡ ok tt
    → 0 < t
    → All NotStart events
    → Retired t s.job
    → Retired t (run s events).job
unfolding run
run-Retired t s [] v p n r = r
run-Retired t s (e ∷ es) v p (n, ns) r =
    run-Retired t (handle s e).0 es (handle-IsCareful s e v).0 p ns (handle-Retired t s e v p n r)

-- The token that an event brings back.
abbrev pub Brings : ℕ → Event → Type 0
Brings t (probe_completed id u e) = u ≡ t
Brings t (write_result_received id u e) = u ≡ t
Brings t (worker_result_received id u s e) = u ≡ t
Brings t (job_checkpointed id u) = u ≡ t
Brings t (job_failed id u e) = u ≡ t
Brings t (worker_unresponsive_detected id u r) = u ≡ t
Brings t _ = ⊥

-- No transition, or an error.
abbrev pub IsIdleAnswer : Result CoordinatorError Transition → Type 0
IsIdleAnswer (ok (move j es)) = ⊥
IsIdleAnswer _ = Unit

calculate_transition-Retired :
    (t : ℕ) (j : Job) (event : Event)
    → Retired t j
    → Brings t event
    → IsIdleAnswer (calculate_transition j event)
unfolding calculate_transition calculate_worker_result_transition
    calculate_probe_completed_transition calculate_write_result_transition
    calculate_checkpoint_transition calculate_job_failed_transition
    calculate_worker_unresponsive_transition
calculate_transition-Retired t j (start_job id) r b = absurd b
calculate_transition-Retired t j (resume_job id) r b = absurd b
calculate_transition-Retired t j (pause_job id) r b = absurd b
calculate_transition-Retired t j (cancel_job id) r b = absurd b
calculate_transition-Retired t j _ r b = ground arith

pub answer_idle :
    (s : Snapshot) (x : Result CoordinatorError Transition)
    → IsIdleAnswer x
    → ((answer s x).0 ≡ s) × ((answer s x).1 ≡ [])
answer_idle s (err e) i = (refl, refl)
answer_idle s (ok noop) i = (refl, refl)
answer_idle s (ok (move j es)) i = absurd i

-- Once a token above 0 is retired in a valid job, an event that brings it back, after whatever
-- other events that start no new job, changes nothing and asks for nothing.
pub handle-Retired_after_run :
    (t : ℕ) (s : Snapshot) (events : List Event) (event : Event)
    → validate_job s.job ≡ ok tt
    → 0 < t
    → All NotStart events
    → Retired t s.job
    → Brings t event
    → ((handle (run s events) event).0 ≡ run s events) × ((handle (run s events) event).1 ≡ [])
handle-Retired_after_run t s events event v p n r b =
    rw (handle_of_valid (run s events) event (run-valid s events v)) (
      answer_idle (run s events) _ (
        calculate_transition-Retired t (run s events).job event (run-Retired t s events v p n r) b))
