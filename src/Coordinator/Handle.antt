-- ===== src/Coordinator/Handle.antt =====
-- internal/coordinator/coordinator.go: the handling of one event, and of several in a row.
use disc_rescue.Prelude.{
  Bool, not, ◌&&◌, ◌||◌, Option, none, some, List, [], ◌∷◌, ◌==◌, str_eq, Result, ok, err, guard,
  ◌>>◌,
}
use disc_rescue.Coordinator.Job.{
  EffectKind, no_kind, probe_media, bootstrap_recovery, dispatch_recovery, checkpoint, kind_eq, Job,
  Effect, Event, start_job, resume_job, pause_job, cancel_job, probe_completed,
  write_result_received, job_failed, worker_result_received, job_checkpointed,
  worker_unresponsive_detected, CoordinatorError, effect_without_kind, effect_without_job,
  effect_without_token, validate_job,
}
use disc_rescue.Coordinator.Transition.{
  Transition, noop, move, calculate_start_transition, calculate_probe_completed_transition,
  calculate_write_result_transition, calculate_resume_transition, calculate_pause_transition,
  calculate_cancel_transition, calculate_checkpoint_transition, calculate_worker_result_transition,
  calculate_job_failed_transition, calculate_worker_unresponsive_transition,
}

pub record Snapshot : Type 0 where
  pub job : Job

unfoldable pub calculate_transition : Job → Event → Result CoordinatorError Transition
calculate_transition j (start_job id) = calculate_start_transition j id
calculate_transition j (probe_completed id token e) =
    calculate_probe_completed_transition j id token e
calculate_transition j (write_result_received id token e) =
    calculate_write_result_transition j id token e
calculate_transition j (resume_job id) = calculate_resume_transition j id
calculate_transition j (pause_job id) = calculate_pause_transition j id
calculate_transition j (cancel_job id) = calculate_cancel_transition j id
calculate_transition j (worker_result_received id token s e) =
    calculate_worker_result_transition j id token s e
calculate_transition j (job_checkpointed id token) = calculate_checkpoint_transition j id token
calculate_transition j (job_failed id token e) = calculate_job_failed_transition j id token
calculate_transition j (worker_unresponsive_detected id token reason) =
    calculate_worker_unresponsive_transition j id token

-- The effects that a later event must name by their token.
abbrev pub is_async : EffectKind → Bool
is_async k =
    kind_eq k probe_media
    || (kind_eq k bootstrap_recovery || (kind_eq k dispatch_recovery || kind_eq k checkpoint))

unfoldable pub validate_effects : List Effect → Result CoordinatorError Unit
validate_effects [] = ok tt
validate_effects (e ∷ es) = do
  guard (not (kind_eq e.kind no_kind)) effect_without_kind
  guard (not (str_eq e.job_id "")) effect_without_job
  guard (not (is_async e.kind && e.token == 0)) effect_without_token
  validate_effects es

unfoldable pub validate_move : Job → List Effect → Result CoordinatorError Unit
validate_move j es = do validate_job j; validate_effects es

-- The snapshot after an event, the effects to publish, and the error.
abbrev pub Reply : Type 0
Reply = Snapshot × List Effect × Option CoordinatorError

abbrev pub committed : Snapshot → Transition → Reply
committed s noop = (s, [], none)
committed s (move j es) = elim (validate_move j es) [
  | ok u ↦ (record s { job = j }, es, none)
  | err e ↦ (s, [], some e)
]

-- The answer where the event's rule has been calculated.
abbrev pub answer : Snapshot → Result CoordinatorError Transition → Reply
answer s (err e) = (s, [], some e)
answer s (ok t) = committed s t

unfoldable pub handle : Snapshot → Event → Reply
handle s event = elim (validate_job s.job) [
  | err e ↦ (s, [], some e)
  | ok u ↦ answer s (calculate_transition s.job event)
]

-- The snapshot after a list of events, each handled in turn.
unfoldable pub run : Snapshot → List Event → Snapshot
run s [] = s
run s (event ∷ events) = run (handle s event).0 events
