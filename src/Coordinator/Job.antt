-- ===== src/Coordinator/Job.antt =====
-- internal/coordinator/job.go, effects.go, events.go and pending.go: the job, what may happen to
-- it and what it asks for in return.
use disc_rescue.Prelude.{
  ℕ, ◌+◌, Bool, true, false, not, ◌&&◌, ◌||◌, Option, String, ltb, ◌==◌, str_eq, if◌then◌else◌,
  Result, ok, guard, ◌>>◌,
}

-- `JobState`, a string. `unset` is the empty string, `other_state n` any string that is no
-- constant.
pub data JobState : Type 0 where
  unset idle identifying preparing fast_pass trim_pass adaptive_pass scrape_pass : JobState
  verifying pausing paused stopping completed incomplete failed : JobState
  other_state : ℕ → JobState

-- `EffectKind`, a string, likewise.
pub data EffectKind : Type 0 where
  no_kind probe_media bootstrap_recovery dispatch_recovery checkpoint : EffectKind
  publish_pause stop_after_save report_failure worker_unresponsive : EffectKind
  other_kind : ℕ → EffectKind

abbrev pub kind_code : EffectKind → ℕ
kind_code no_kind = 0
kind_code probe_media = 1
kind_code bootstrap_recovery = 2
kind_code dispatch_recovery = 3
kind_code checkpoint = 4
kind_code publish_pause = 5
kind_code stop_after_save = 6
kind_code report_failure = 7
kind_code worker_unresponsive = 8
kind_code (other_kind n) = 9 + n

-- `a == b` on effect kinds.
abbrev pub kind_eq : EffectKind → EffectKind → Bool
kind_eq a b = kind_code a == kind_code b

pub record Job : Type 0 where
  pub id : String
  pub state : JobState
  pub resume_state : JobState
  pub pending_kind : EffectKind
  pub pending_token : ℕ  -- uint64
  pub next_token : ℕ  -- uint64

pub record Effect : Type 0 where
  pub kind : EffectKind
  pub job_id : String
  pub state : JobState
  pub token : ℕ  -- uint64

-- The ten events; an `Err error` field is `none` where it is nil.
pub data Event : Type 0 where
  start_job resume_job pause_job cancel_job : String → Event
  probe_completed write_result_received job_failed : String → ℕ → Option String → Event
  worker_result_received : String → ℕ → JobState → Option String → Event
  job_checkpointed : String → ℕ → Event
  worker_unresponsive_detected : String → ℕ → String → Event

pub data CoordinatorError : Type 0 where
  state_required idle_retains id_required unsupported_state resume_required resume_retained :
      CoordinatorError
  token_without_kind kind_without_token next_token_zero token_not_below_next : CoordinatorError
  unknown_job invalid_state invalid_transition : CoordinatorError
  effect_without_kind effect_without_job effect_without_token : CoordinatorError

unfoldable pub valid_job_state : JobState → Bool
valid_job_state unset = false
valid_job_state (other_state n) = false
valid_job_state _ = true

unfoldable pub running_phase : JobState → Bool
running_phase fast_pass = true
running_phase trim_pass = true
running_phase adaptive_pass = true
running_phase scrape_pass = true
running_phase verifying = true
running_phase _ = false

unfoldable pub active_job_state : JobState → Bool
active_job_state identifying = true
active_job_state preparing = true
active_job_state fast_pass = true
active_job_state trim_pass = true
active_job_state adaptive_pass = true
active_job_state scrape_pass = true
active_job_state verifying = true
active_job_state pausing = true
active_job_state paused = true
active_job_state stopping = true
active_job_state _ = false

abbrev pub is_unset : JobState → Bool
is_unset unset = true
is_unset _ = false

abbrev pub is_idle : JobState → Bool
is_idle idle = true
is_idle _ = false

-- The states of the `switch` in `Validate` that keep the phase to resume.
abbrev pub keeps_phase : JobState → Bool
keeps_phase pausing = true
keeps_phase paused = true
keeps_phase stopping = true
keeps_phase _ = false

-- `Validate` of an idle job, and the rest of it of any other.
abbrev pub validate_idle : Job → Result CoordinatorError Unit
validate_idle j =
    guard
      (str_eq j.id ""
        && (is_unset j.resume_state
            && (kind_eq j.pending_kind no_kind && (j.pending_token == 0 && j.next_token == 0))))
      idle_retains

abbrev pub validate_pending : Job → Result CoordinatorError Unit
validate_pending j =
    if kind_eq j.pending_kind no_kind
    then guard (j.pending_token == 0) token_without_kind
    else guard (not (j.pending_token == 0)) kind_without_token

abbrev pub validate_active : Job → Result CoordinatorError Unit
validate_active j = do
  guard (not (str_eq j.id "")) id_required
  guard (valid_job_state j.state) unsupported_state
  if keeps_phase j.state
      then guard (running_phase j.resume_state) resume_required
      else guard (is_unset j.resume_state) resume_retained
  validate_pending j
  guard (not (j.next_token == 0)) next_token_zero
  guard (ltb j.pending_token j.next_token) token_not_below_next

unfoldable pub validate_job : Job → Result CoordinatorError Unit
validate_job j = do
  guard (not (is_unset j.state)) state_required
  if is_idle j.state then validate_idle j else validate_active j

unfoldable pub clear_pending : Job → Job
clear_pending j = record j { pending_kind = no_kind; pending_token = 0 }

-- The job with the pending effect cleared, and whether the completion is stale.
unfoldable pub accept_pending :
    Job → String → ℕ → EffectKind → (JobState → Bool) → Result CoordinatorError (Job × Bool)
unfolding clear_pending
accept_pending j id token kind allowed = do
  guard (str_eq j.id id) unknown_job
  guard (allowed j.state) invalid_state
  if not (kind_eq j.pending_kind kind) || not (j.pending_token == token)
      then ok (j, true)
      else ok (clear_pending j, false)

unfoldable pub accept_any_pending :
    Job → String → ℕ → (JobState → Bool) → Result CoordinatorError (Job × Bool)
unfolding clear_pending
accept_any_pending j id token allowed = do
  guard (str_eq j.id id) unknown_job
  guard (allowed j.state) invalid_state
  if kind_eq j.pending_kind no_kind || not (j.pending_token == token)
      then ok (j, true)
      else ok (clear_pending j, false)
