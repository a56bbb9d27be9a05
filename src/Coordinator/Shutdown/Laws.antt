-- ===== src/Coordinator/Shutdown/Laws.antt =====
-- Every plan has its steps in one order, and leaves out only what a pause keeps open.
use disc_rescue.Prelude.{
  ℕ, ◌+◌, ◌<◌, ◌≡◌, refl, subst, arith, Bool, true, false, not, ◌||◌, List, [], ◌∷◌, Result, ok,
}
use disc_rescue.Coordinator.Shutdown.{
  ShutdownReason, no_reason, pause, cancel, fatal_error, other_reason, ShutdownStep,
  stop_scheduling, close_catalog, stop_log_writer, ShutdownError, ShutdownPlan, step_code, step_eq,
  all_steps, remove_shutdown_step, build_shutdown_plan,
}

-- The steps from place `n` on, each after those before it.
abbrev pub Ascending : ℕ → List ShutdownStep → Type 0
Ascending n [] = Unit
Ascending n (step ∷ steps) = (n < step_code step + 1) × Ascending (step_code step + 1) steps

abbrev pub has_step : ShutdownStep → List ShutdownStep → Bool
has_step step [] = false
has_step step (s ∷ steps) = step_eq s step || has_step step steps

-- What a pause keeps open.
abbrev pub is_kept_open : ShutdownReason → ShutdownStep → Bool
is_kept_open pause close_catalog = true
is_kept_open pause stop_log_writer = true
is_kept_open _ _ = false

abbrev pub Orderly : ShutdownReason → ShutdownPlan → Type 0
Orderly reason plan =
    (plan.reason ≡ reason)
    × Ascending 0 plan.steps
    × ((step : ShutdownStep) → has_step step plan.steps ≡ not (is_kept_open reason step))

steps_after_pause :
    (step : ShutdownStep)
    → has_step step
        (remove_shutdown_step (remove_shutdown_step all_steps close_catalog) stop_log_writer)
      ≡ not (is_kept_open pause step)
unfolding remove_shutdown_step
steps_after_pause stop_scheduling = refl
steps_after_pause _ = refl

steps_at_end : (step : ShutdownStep) → has_step step all_steps ≡ true
steps_at_end stop_scheduling = refl
steps_at_end _ = refl

plan-injective :
    {a b : ShutdownPlan} → Path (Result ShutdownError ShutdownPlan) (ok a) (ok b) → a ≡ b
plan-injective h = cc

-- A shutdown plan that is built for a reason names it, has its steps in the order of the
-- constants, none of them twice, and has every step but, for a pause, the closing of the catalog
-- and the stop of the log writer.
pub build_shutdown_plan-Orderly :
    (reason : ShutdownReason) (plan : ShutdownPlan)
    → build_shutdown_plan reason ≡ ok plan
    → Orderly reason plan
unfolding build_shutdown_plan remove_shutdown_step
build_shutdown_plan-Orderly no_reason plan h = cc
build_shutdown_plan-Orderly (other_reason n) plan h = cc
build_shutdown_plan-Orderly pause plan h =
    subst (Orderly pause) (plan-injective h) (refl, omega arith, steps_after_pause)
build_shutdown_plan-Orderly cancel plan h =
    subst (Orderly cancel) (plan-injective h) (refl, omega arith, steps_at_end)
build_shutdown_plan-Orderly fatal_error plan h =
    subst (Orderly fatal_error) (plan-injective h) (refl, omega arith, steps_at_end)
