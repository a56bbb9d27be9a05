-- ===== src/Coordinator/Shutdown.antt =====
-- internal/coordinator/shutdown.go: the steps of a shutdown, in their order.
pub mod Laws
use disc_rescue.Prelude.{ℕ, Bool, true, false, List, [], ◌∷◌, ◌==◌, if◌then◌else◌, Result, ok, err}

-- `ShutdownReason`, a string: the empty one, the three constants, and any other one.
pub data ShutdownReason : Type 0 where
  no_reason pause cancel fatal_error : ShutdownReason
  other_reason : ℕ → ShutdownReason

pub data ShutdownStep : Type 0 where
  stop_scheduling cancel_worker drain_image commit_map final_checkpoint : ShutdownStep
  catalog_best_effort close_image_map close_catalog stop_worker : ShutdownStep
  stop_log_writer notify_tui restore_terminal : ShutdownStep

pub data ShutdownError : Type 0 where
  reason_required unsupported_reason : ShutdownError

pub record ShutdownPlan : Type 0 where
  pub reason : ShutdownReason
  pub steps : List ShutdownStep

-- The place of a step among the constants; steps are compared by it.
abbrev pub step_code : ShutdownStep → ℕ
step_code stop_scheduling = 0
step_code cancel_worker = 1
step_code drain_image = 2
step_code commit_map = 3
step_code final_checkpoint = 4
step_code catalog_best_effort = 5
step_code close_image_map = 6
step_code close_catalog = 7
step_code stop_worker = 8
step_code stop_log_writer = 9
step_code notify_tui = 10
step_code restore_terminal = 11

abbrev pub step_eq : ShutdownStep → ShutdownStep → Bool
step_eq a b = step_code a == step_code b

unfoldable pub remove_shutdown_step : List ShutdownStep → ShutdownStep → List ShutdownStep
remove_shutdown_step [] target = []
remove_shutdown_step (step ∷ steps) target =
    let filtered = remove_shutdown_step steps target in
    if step_eq step target then filtered else step ∷ filtered

abbrev pub all_steps : List ShutdownStep
all_steps =
    stop_scheduling ∷ cancel_worker ∷ drain_image ∷ commit_map ∷ final_checkpoint
    ∷ catalog_best_effort ∷ close_image_map ∷ close_catalog ∷ stop_worker ∷ stop_log_writer
    ∷ notify_tui ∷ restore_terminal ∷ []

unfoldable pub build_shutdown_plan : ShutdownReason → Result ShutdownError ShutdownPlan
unfolding remove_shutdown_step
build_shutdown_plan no_reason = err reason_required
build_shutdown_plan pause = ok (record {
  reason = pause;
  steps = remove_shutdown_step (remove_shutdown_step all_steps close_catalog) stop_log_writer;
})
build_shutdown_plan cancel = ok (record { reason = cancel; steps = all_steps })
build_shutdown_plan fatal_error = ok (record { reason = fatal_error; steps = all_steps })
build_shutdown_plan (other_reason n) = err unsupported_reason
