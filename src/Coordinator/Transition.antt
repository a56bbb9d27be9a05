-- ===== src/Coordinator/Transition.antt =====
-- internal/coordinator/transition*.go: what each event does to a job in the right state.
use disc_rescue.Prelude.{
  ℕ, ◌+◌, Bool, true, false, Option, none, some, String, List, [], ◌∷◌, ◌==◌, str_eq, if◌then◌else◌,
  u64, Result, ok, err, guard, ◌>>=◌, ◌>>◌,
}
use disc_rescue.Coordinator.Job.{
  JobState, unset, idle, identifying, preparing, fast_pass, trim_pass, adaptive_pass, scrape_pass,
  verifying, pausing, paused, stopping, completed, incomplete, failed, EffectKind, no_kind,
  probe_media, bootstrap_recovery, dispatch_recovery, checkpoint, publish_pause, stop_after_save,
  report_failure, worker_unresponsive, Job, Effect, CoordinatorError, unknown_job, invalid_state,
  invalid_transition, running_phase, active_job_state, clear_pending, accept_pending,
  accept_any_pending,
}

-- `transition`: a next job with the effects to publish, or `Noop`.
pub data Transition : Type 0 where
  noop : Transition
  move : Job → List Effect → Transition

-- `issueEffect`.
unfoldable pub issue_effect : Job → EffectKind → JobState → Job × Effect
issue_effect j kind s =
    let token = if j.next_token == 0 then 1 else j.next_token in
    (
      record j { next_token = u64 (token + 1); pending_kind = kind; pending_token = token },
      record { kind = kind; job_id = j.id; state = s; token = token },
    )

-- The job in state `s` with one effect issued for it.
abbrev pub issue : Job → EffectKind → JobState → Transition
issue j kind s = let r = issue_effect j kind s in move r.0 (r.1 ∷ [])

abbrev pub plain : EffectKind → String → JobState → Effect
plain kind id s = record { kind = kind; job_id = id; state = s; token = 0 }

unfoldable pub build_failed_transition : Job → Transition
unfolding clear_pending
build_failed_transition j =
    move (clear_pending (record j { state = failed; resume_state = unset }))
      (plain report_failure j.id failed ∷ [])

unfoldable pub transition_allowed : JobState → JobState → Bool
transition_allowed fast_pass fast_pass = true
transition_allowed fast_pass trim_pass = true
transition_allowed fast_pass adaptive_pass = true
transition_allowed fast_pass scrape_pass = true
transition_allowed fast_pass verifying = true
transition_allowed trim_pass trim_pass = true
transition_allowed trim_pass adaptive_pass = true
transition_allowed trim_pass scrape_pass = true
transition_allowed trim_pass verifying = true
transition_allowed adaptive_pass adaptive_pass = true
transition_allowed adaptive_pass scrape_pass = true
transition_allowed adaptive_pass verifying = true
transition_allowed scrape_pass scrape_pass = true
transition_allowed scrape_pass verifying = true
transition_allowed verifying completed = true
transition_allowed verifying incomplete = true
transition_allowed _ _ = false

abbrev startable : JobState → Bool
startable idle = true
startable completed = true
startable incomplete = true
startable failed = true
startable _ = false

unfoldable pub calculate_start_transition : Job → String → Result CoordinatorError Transition
unfolding issue_effect
calculate_start_transition j id = do
  guard (startable j.state) invalid_state
  ok (
      issue
        (record {
          id = id;
          state = identifying;
          resume_state = unset;
          pending_kind = no_kind;
          pending_token = 0;
          next_token = 1;
        })
        probe_media identifying)

abbrev pub only_identifying : JobState → Bool
only_identifying identifying = true
only_identifying _ = false

abbrev pub only_preparing : JobState → Bool
only_preparing preparing = true
only_preparing _ = false

abbrev pub only_paused : JobState → Bool
only_paused paused = true
only_paused _ = false

-- A completion that is stale does nothing; one with an error fails the job.
abbrev pub settle :
    Job × Bool
    → Option String
    → (Job → Result CoordinatorError Transition)
    → Result CoordinatorError Transition
settle (j, true) e next = ok noop
settle (j, false) none next = next j
settle (j, false) (some m) next = ok (build_failed_transition j)

unfoldable pub calculate_probe_completed_transition :
    Job → String → ℕ → Option String → Result CoordinatorError Transition
unfolding accept_pending issue_effect build_failed_transition
calculate_probe_completed_transition j id token e = do
  accepted ← accept_pending j id token probe_media only_identifying
  settle accepted e (λ k. ok (issue (record k { state = preparing }) bootstrap_recovery preparing))

unfoldable pub calculate_write_result_transition :
    Job → String → ℕ → Option String → Result CoordinatorError Transition
unfolding accept_pending issue_effect build_failed_transition
calculate_write_result_transition j id token e = do
  accepted ← accept_pending j id token bootstrap_recovery only_preparing
  settle accepted e (λ k. ok (issue (record k { state = fast_pass }) dispatch_recovery fast_pass))

unfoldable pub calculate_resume_transition : Job → String → Result CoordinatorError Transition
unfolding issue_effect
calculate_resume_transition j id = do
  guard (str_eq j.id id) unknown_job
  guard (only_paused j.state) invalid_state
  ok (
      issue (record j { state = j.resume_state; resume_state = unset }) dispatch_recovery
        j.resume_state)

unfoldable pub calculate_pause_transition : Job → String → Result CoordinatorError Transition
unfolding issue_effect clear_pending
calculate_pause_transition j id = do
  guard (str_eq j.id id) unknown_job
  guard (running_phase j.state) invalid_state
  ok (
      issue (record (clear_pending j) { state = pausing; resume_state = j.state }) checkpoint
        j.state)

-- The `switch` of `calculateCancelTransition`.
abbrev pub cancel_in : JobState → Job → String → Result CoordinatorError Transition
cancel_in paused j id = ok (
    move (clear_pending (record j { state = incomplete; resume_state = unset }))
      (plain stop_after_save id incomplete ∷ []))
cancel_in pausing j id = ok (move (record j { state = stopping }) [])
cancel_in s j id = do
  guard (running_phase s) invalid_state
  ok (issue (record (clear_pending j) { state = stopping; resume_state = s }) checkpoint s)

unfoldable pub calculate_cancel_transition : Job → String → Result CoordinatorError Transition
unfolding issue_effect clear_pending
calculate_cancel_transition j id = do guard (str_eq j.id id) unknown_job; cancel_in j.state j id

abbrev pub awaiting_checkpoint : JobState → Bool
awaiting_checkpoint pausing = true
awaiting_checkpoint stopping = true
awaiting_checkpoint _ = false

abbrev pub checkpointed_in : JobState → Job → String → Result CoordinatorError Transition
checkpointed_in pausing k id =
    ok (move (record k { state = paused }) (plain publish_pause id paused ∷ []))
checkpointed_in stopping k id = ok (
    move (record k { state = incomplete; resume_state = unset })
      (plain stop_after_save id incomplete ∷ []))
checkpointed_in s k id = err invalid_state

unfoldable pub calculate_checkpoint_transition :
    Job → String → ℕ → Result CoordinatorError Transition
unfolding accept_pending
calculate_checkpoint_transition j id token = do
  accepted ← accept_pending j id token checkpoint awaiting_checkpoint
  if accepted.1 then ok noop else checkpointed_in j.state accepted.0 id

-- What a running job becomes by a worker's result.
abbrev pub advance_to : JobState → Job → Transition
advance_to completed k = move (record k { state = completed }) []
advance_to incomplete k = move (record k { state = incomplete }) []
advance_to s k = issue (record k { state = s }) dispatch_recovery s

unfoldable pub calculate_worker_result_transition :
    Job → String → ℕ → JobState → Option String → Result CoordinatorError Transition
unfolding accept_pending issue_effect build_failed_transition
calculate_worker_result_transition j id token s e = do
  accepted ← accept_pending j id token dispatch_recovery running_phase
  settle accepted e
      (λ k. do guard (transition_allowed j.state s) invalid_transition; ok (advance_to s k))

unfoldable pub calculate_job_failed_transition :
    Job → String → ℕ → Result CoordinatorError Transition
unfolding accept_any_pending build_failed_transition
calculate_job_failed_transition j id token = do
  accepted ← accept_any_pending j id token active_job_state
  ok (if accepted.1 then noop else build_failed_transition accepted.0)

unfoldable pub calculate_worker_unresponsive_transition :
    Job → String → ℕ → Result CoordinatorError Transition
unfolding accept_pending issue_effect
calculate_worker_unresponsive_transition j id token = do
  accepted ← accept_pending j id token dispatch_recovery active_job_state
  let r = issue_effect accepted.0 checkpoint j.state
  ok (if accepted.1 then noop else move r.0 (r.1 ∷ plain worker_unresponsive id j.state ∷ []))
