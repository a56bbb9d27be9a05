-- ===== src/Recovery/Trim.antt =====
-- internal/recovery/trim_pass.go: a damaged extent is read from its left and from its right end.
pub mod Laws
pub mod Run
use disc_rescue.Prelude.{
  ℕ, ◌+◌, ◌-◌, ◌^◌, Bool, true, false, not, Option, none, some, ltb, leb, ◌==◌, if◌then◌else◌, u16,
  u32, u64, Result, ok, err, guard, ◌>>=◌, ◌>>◌,
}
use disc_rescue.Mapfile.State.{SectorState, unknown, skipped, io_error, missing, checksum_error}
use disc_rescue.Mapfile.Extent.{Extent, MapError, end_lba, validate}
use disc_rescue.Recovery.Request.{Request, request_eq, trim_pass}

-- `TrimPassMode`, a string; `other_mode n` is any string that is no constant.
pub data TrimMode : Type 0 where
  left_cluster left_single right_cluster right_single mode_done : TrimMode
  other_mode : ℕ → TrimMode

pub data TrimDecision : Type 0 where
  read : Request → TrimDecision
  wait_backpressure done : TrimDecision

pub data TrimError : Type 0 where
  not_unresolved no_cluster no_budget still_active no_active_request wrong_request : TrimError
  unsupported_mode : TrimError
  bad_target : MapError → TrimError

pub record TrimState : Type 0 where
  pub target : Extent
  pub small_cluster : ℕ  -- uint32
  pub failure_budget : ℕ  -- uint16
  pub left_cursor : ℕ  -- uint64
  pub right_cursor : ℕ  -- uint64
  pub mode : TrimMode
  pub active_request : Option Request
  pub left_failure_streak : ℕ  -- uint16
  pub right_failure_streak : ℕ  -- uint16

pub record TrimOutcome : Type 0 where
  pub request : Request
  pub success : Bool

abbrev pub lift_target : Result MapError Unit → Result TrimError Unit
lift_target (ok u) = ok u
lift_target (err e) = err (bad_target e)

unfoldable pub schedulable_trim_state : SectorState → Bool
schedulable_trim_state unknown = true
schedulable_trim_state skipped = true
schedulable_trim_state io_error = true
schedulable_trim_state missing = true
schedulable_trim_state checksum_error = true
schedulable_trim_state _ = false

unfoldable pub start_trim_pass : Extent → ℕ → ℕ → Result TrimError TrimState
start_trim_pass target small_cluster budget = do
  lift_target (validate target)
  guard (schedulable_trim_state target.state) not_unresolved
  guard (not (small_cluster == 0)) no_cluster
  guard (not (budget == 0)) no_budget
  ok (record {
    target = target;
    small_cluster = small_cluster;
    failure_budget = budget;
    left_cursor = target.start_lba;
    right_cursor = end_lba target;
    mode = left_cluster;
    active_request = none;
    left_failure_streak = 0;
    right_failure_streak = 0;
  })

-- The size of a cluster read: what is left, at most `SmallCluster`.
abbrev pub cluster_size : TrimState → ℕ
cluster_size s =
    let rest = u32 (s.right_cursor - s.left_cursor) in
    if ltb s.small_cluster rest then s.small_cluster else rest

abbrev pub request_in : TrimMode → TrimState → Option Request
request_in left_cluster s = some (trim_pass s.left_cursor (cluster_size s))
request_in left_single s = some (trim_pass s.left_cursor 1)
request_in right_cluster s = some (trim_pass (s.right_cursor - cluster_size s) (cluster_size s))
request_in right_single s = some (trim_pass (s.right_cursor - 1) 1)
request_in _ s = none

unfoldable pub next_trim_pass_request : TrimState → Option Request
unfolding trim_pass
next_trim_pass_request s = if leb s.right_cursor s.left_cursor then none else request_in s.mode s

abbrev pub is_done : TrimMode → Bool
is_done mode_done = true
is_done _ = false

abbrev pub is_active : Option Request → Bool
is_active none = false
is_active (some r) = true

-- The end of `DispatchTrimPass`: a read, or the end of the pass.
abbrev pub dispatched : TrimState → Option Request → TrimState × TrimDecision
dispatched s none = (record s { mode = mode_done }, done)
dispatched s (some r) = (record s { active_request = some r }, read r)

unfoldable pub dispatch_trim_pass : TrimState → Bool → Result TrimError (TrimState × TrimDecision)
unfolding next_trim_pass_request
dispatch_trim_pass s writer_available = do
  lift_target (validate s.target)
  guard (not (s.small_cluster == 0)) no_cluster
  guard (not (s.failure_budget == 0)) no_budget
  guard (not (is_active s.active_request)) still_active
  ok (
      if is_done s.mode
      then (s, done)
      else if not writer_available
      then (s, wait_backpressure)
      else dispatched s (next_trim_pass_request s))

unfoldable pub finish_or_continue_trim : TrimState → TrimMode → TrimState
finish_or_continue_trim s preferred = record s {
  mode = if leb s.right_cursor s.left_cursor then mode_done else preferred;
}

unfoldable pub next_right_mode : TrimState → TrimMode
next_right_mode s = if leb s.right_cursor s.left_cursor then mode_done else right_cluster

-- The failed single reads: one more in the streak, and the next mode where the budget is used up.
abbrev pub left_single_failed : TrimState → TrimState
left_single_failed s =
    let streak = u16 (s.left_failure_streak + 1) in
    if leb s.failure_budget streak
    then record s { left_failure_streak = 0; mode = next_right_mode s }
    else record s { left_failure_streak = streak }

abbrev pub right_single_failed : TrimState → TrimState
right_single_failed s =
    let streak = u16 (s.right_failure_streak + 1) in
    if leb s.failure_budget streak
    then record s { right_failure_streak = 0; mode = mode_done }
    else record s { right_failure_streak = streak }

-- The `switch` of `ResolveTrimPass`; `s` has no active request any more.
abbrev pub resolve_in : TrimMode → TrimState → Request → Bool → Result TrimError TrimState
resolve_in left_cluster s r true = ok (
    finish_or_continue_trim (record s { left_cursor = u64 (s.left_cursor + r.sectors) })
      left_cluster)
resolve_in left_cluster s r false = ok (record s { mode = left_single; left_failure_streak = 0 })
resolve_in left_single s r true = ok (
    finish_or_continue_trim
      (record s { left_cursor = u64 (s.left_cursor + 1); left_failure_streak = 0 }) left_single)
resolve_in left_single s r false =
    let t = left_single_failed s in ok (finish_or_continue_trim t t.mode)
resolve_in right_cluster s r true = ok (
    finish_or_continue_trim (record s { right_cursor = u64 (s.right_cursor + 2 ^ 64 - r.sectors) })
      right_cluster)
resolve_in right_cluster s r false = ok (record s { mode = right_single; right_failure_streak = 0 })
resolve_in right_single s r true = ok (
    finish_or_continue_trim
      (record s { right_cursor = u64 (s.right_cursor + 2 ^ 64 - 1); right_failure_streak = 0 })
      right_single)
resolve_in right_single s r false =
    let t = right_single_failed s in ok (finish_or_continue_trim t t.mode)
resolve_in _ s r success = err unsupported_mode

unfoldable pub resolve_trim_pass : TrimState → TrimOutcome → Result TrimError TrimState
unfolding finish_or_continue_trim next_right_mode
resolve_trim_pass s o = elim (s.active_request) [
  | none ↦ err no_active_request
  | some r ↦ do
    guard (request_eq o.request r) wrong_request
    resolve_in s.mode (record s { active_request = none }) r o.success
]

unfoldable pub remaining_trim_interior : TrimState → Option Extent
remaining_trim_interior s =
    if leb s.right_cursor s.left_cursor
    then none
    else some (record s.target {
      start_lba = s.left_cursor;
      sectors = u32 (s.right_cursor - s.left_cursor);
    })
