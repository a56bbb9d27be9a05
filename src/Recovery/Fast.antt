-- ===== src/Recovery/Fast.antt =====
-- internal/recovery/fast_pass.go: the disc is read once in large clusters, and what fails is left
-- behind after a look at single sectors.
pub mod Reach
pub mod Laws
use disc_rescue.Prelude.{
  ℕ, ◌+◌, ◌-◌, ◌^◌, Bool, true, false, not, ◌||◌, ◌&&◌, Option, none, some, List, [], ◌∷◌, ◌++◌,
  ltb, leb, ◌==◌, if◌then◌else◌, u16, u32, u64, Result, ok, err, guard, ◌>>=◌, ◌>>◌,
}
use disc_rescue.Mapfile.State.{SectorState, Confidence, unknown, io_error, skipped, no_confidence}
use disc_rescue.Mapfile.Extent.{Extent, MapError, end_lba, validate_extent_set}
use disc_rescue.Mapfile.Edit.{coalesce_extents}
use disc_rescue.Recovery.Request.{Request, request_eq, fast_pass}

-- `FastPassMode`, a string; `other_mode n` is any string that is no constant.
pub data FastMode : Type 0 where
  cluster single checkpoint mode_done : FastMode
  other_mode : ℕ → FastMode

pub data FastDecision : Type 0 where
  read : Request → FastDecision
  wait_backpressure take_checkpoint done : FastDecision

pub record FastState : Type 0 where
  pub extents : List Extent
  pub cursor_lba : ℕ  -- uint64
  pub cluster_size : ℕ  -- uint32
  pub skip_after_failure : ℕ  -- uint32
  pub mode : FastMode
  pub cluster_boundary : ℕ  -- uint64
  pub active_request : Option Request
  pub checkpoint_active : Bool

pub record FastOutcome : Type 0 where
  pub request : Request
  pub success : Bool
  pub checkpoint_completed : Bool

pub data FastError : Type 0 where
  no_cluster no_skip still_active checkpoint_required no_active_request wrong_request : FastError
  unsupported_outcome not_schedulable : FastError
  bad_map : MapError → FastError

abbrev pub lift_fast : {A : Type 0} → Result MapError A → Result FastError A
lift_fast (ok v) = ok v
lift_fast (err e) = err (bad_map e)

unfoldable pub schedulable_fast_state : SectorState → Bool
schedulable_fast_state unknown = true
schedulable_fast_state _ = false

unfoldable pub start_fast_pass : List Extent → ℕ → Result FastError FastState
start_fast_pass es cluster_size = do
  lift_fast (validate_extent_set es)
  guard (not (cluster_size == 0)) no_cluster
  ok (record {
    extents = es;
    cursor_lba = 0;
    cluster_size = cluster_size;
    skip_after_failure = 256;
    mode = cluster;
    cluster_boundary = 0;
    active_request = none;
    checkpoint_active = false;
  })

-- The test by which the loops pass over an extent.
abbrev pub passed_over : Extent → ℕ → Bool
passed_over e cursor = not (schedulable_fast_state e.state) || leb (end_lba e) cursor

-- Where the work on an extent begins.
abbrev pub start_in : Extent → ℕ → ℕ
start_in e cursor = if ltb e.start_lba cursor then cursor else e.start_lba

unfoldable pub next_cluster_range : List Extent → ℕ → ℕ → Option (ℕ × ℕ)
next_cluster_range [] cursor cluster_size = none
next_cluster_range (e ∷ es) cursor cluster_size =
    let later = next_cluster_range es cursor cluster_size in
    let span = u32 (end_lba e - start_in e cursor) in
    if passed_over e cursor
    then later
    else some (start_in e cursor, if ltb cluster_size span then cluster_size else span)

unfoldable pub next_single_sector : List Extent → ℕ → ℕ → Option ℕ
next_single_sector [] cursor boundary = none
next_single_sector (e ∷ es) cursor boundary =
    let later = next_single_sector es cursor boundary in
    if passed_over e cursor
    then later
    else if leb boundary (start_in e cursor)
    then none
    else some (start_in e cursor)

abbrev pub has_schedulable : List Extent → ℕ → ℕ → Bool
has_schedulable es cursor boundary = elim (next_single_sector es cursor boundary) [
  | none ↦ false
  | some l ↦ true
]

abbrev pub cluster_request : Option (ℕ × ℕ) → Option Request
cluster_request none = none
cluster_request (some (start, sectors)) = some (fast_pass start sectors)

abbrev pub single_request : Option ℕ → Option Request
single_request none = none
single_request (some start) = some (fast_pass start 1)

abbrev pub request_for : FastMode → FastState → Option Request
request_for cluster s = cluster_request (next_cluster_range s.extents s.cursor_lba s.cluster_size)
request_for single s = single_request (next_single_sector s.extents s.cursor_lba s.cluster_boundary)
request_for _ s = none

-- `nextFastPassRequest`.
unfoldable pub next_fast_pass_request : FastState → Option Request
next_fast_pass_request s = request_for s.mode s

-- The loop of `skipLength`.
unfoldable pub skip_loop : List Extent → ℕ → ℕ → ℕ → ℕ
skip_loop [] current limit total = total
skip_loop (e ∷ es) current limit total =
    let passed = skip_loop es current limit total in
    let available = u32 (end_lba e - start_in e current) in
    let remaining = u32 (limit + 2 ^ 32 - total) in
    let later = skip_loop es (end_lba e) limit (u32 (total + available)) in
    if passed_over e current
    then passed
    else if not (start_in e current == current)
    then total
    else if leb remaining available
    then u32 (total + remaining)
    else if u32 (total + available) == limit
    then limit
    else later

unfoldable pub skip_length : ℕ → ℕ → List Extent → ℕ
skip_length start limit es = if limit == 0 then 0 else skip_loop es start limit 0

-- What the loop of `replaceRangeState` makes of an extent that the range meets.
unfoldable pub replaced_parts : ℕ → ℕ → SectorState → Confidence → Extent → List Extent
replaced_parts start end state trust e =
    let middle_start = if ltb start e.start_lba then e.start_lba else start in
    let middle_end = if ltb (end_lba e) end then end_lba e else end in
    let middle = record e {
      start_lba = middle_start;
      sectors = u32 (middle_end - middle_start);
      state = state;
      confidence = trust;
      attempts = u16 (e.attempts + 1);
    } in
    (if ltb e.start_lba start then record e { sectors = u32 (start - e.start_lba) } ∷ [] else [])
    ++ (middle
        ∷ (if ltb middle_end (end_lba e)
            then record e { start_lba = middle_end; sectors = u32 (end_lba e - middle_end) } ∷ []
            else []))

unfoldable pub replace_loop :
    ℕ → ℕ → SectorState → Confidence → List Extent → Result FastError (List Extent)
replace_loop start end state trust [] = ok []
replace_loop start end state trust (e ∷ es) =
    if leb (end_lba e) start || leb end e.start_lba
    then (do rest ← replace_loop start end state trust es; ok (e ∷ rest))
    else (do
      guard (schedulable_fast_state e.state) not_schedulable
      rest ← replace_loop start end state trust es
      ok (replaced_parts start end state trust e ++ rest))

unfoldable pub replace_range_state :
    List Extent → ℕ → ℕ → SectorState → Confidence → Result FastError (List Extent)
replace_range_state es start sectors state trust = if sectors == 0 then ok es else (do
  result ← replace_loop start (u64 (start + sectors)) state trust es
  lift_fast (coalesce_extents result))

-- The sectors behind a failure are skipped, if there are any.
abbrev pub skip_range : List Extent → ℕ → ℕ → Result FastError (List Extent)
skip_range failed start sectors =
    if sectors == 0
    then ok failed
    else replace_range_state failed start sectors skipped no_confidence

unfoldable pub apply_fast_pass_failure : List Extent → ℕ → ℕ → Result FastError (List Extent)
apply_fast_pass_failure es failed_lba skip_after_failure = do
  failed ← replace_range_state es failed_lba 1 io_error no_confidence
  skip_range failed (u64 (failed_lba + 1))
      (skip_length (u64 (failed_lba + 1)) skip_after_failure failed)

-- The part of `DispatchFastPass` that asks for a read.
abbrev pub dispatched_fast : FastState → Option Request → FastState × FastDecision
dispatched_fast s none = (record s { mode = checkpoint; checkpoint_active = true }, take_checkpoint)
dispatched_fast s (some r) = (record s { active_request = some r }, read r)

abbrev pub dispatch_in : FastMode → FastState → Bool → FastState × FastDecision
dispatch_in mode_done s writer_available = (s, done)
dispatch_in checkpoint s writer_available = (record s { checkpoint_active = true }, take_checkpoint)
dispatch_in _ s writer_available =
    if writer_available
    then dispatched_fast s (next_fast_pass_request s)
    else (s, wait_backpressure)

abbrev pub has_active : Option Request → Bool
has_active none = false
has_active (some r) = true

unfoldable pub dispatch_fast_pass : FastState → Bool → Result FastError (FastState × FastDecision)
dispatch_fast_pass s writer_available = do
  lift_fast (validate_extent_set s.extents)
  guard (not (s.cluster_size == 0)) no_cluster
  guard (not (s.skip_after_failure == 0)) no_skip
  guard (not (has_active s.active_request || s.checkpoint_active)) still_active
  ok (dispatch_in s.mode s writer_available)

-- The `switch` of `ResolveFastPass`; `s` has no active request.
unfoldable pub single_read : FastState → Request → FastState
single_read s r =
    let cursor = u64 (r.start_lba + 1) in
    if ltb cursor s.cluster_boundary && has_schedulable s.extents cursor s.cluster_boundary
    then record s { cursor_lba = cursor; mode = single }
    else record s {
      cursor_lba = if ltb cursor s.cluster_boundary then s.cluster_boundary else cursor;
      mode = cluster;
    }

unfoldable pub single_failed : FastState → Request → Result FastError FastState
single_failed s r = do
  let skip_sectors = skip_length (u64 (r.start_lba + 1)) s.skip_after_failure s.extents
  failed ← apply_fast_pass_failure s.extents r.start_lba s.skip_after_failure
  ok (record s {
    extents = failed;
    mode = cluster;
    cursor_lba = u64 (u64 (r.start_lba + 1) + skip_sectors);
  })

abbrev pub resolve_fast_in : FastMode → FastState → Request → Bool → Result FastError FastState
resolve_fast_in cluster s r true =
    ok (record s { cursor_lba = u64 (r.start_lba + r.sectors); mode = cluster })
resolve_fast_in cluster s r false = ok (record s {
  mode = single;
  cursor_lba = r.start_lba;
  cluster_boundary = u64 (r.start_lba + r.sectors);
})
resolve_fast_in single s r true = ok (single_read s r)
resolve_fast_in single s r false = single_failed s r
resolve_fast_in _ s r success = err unsupported_outcome

unfoldable pub resolve_fast_pass : FastState → FastOutcome → Result FastError FastState
resolve_fast_pass s o =
    if s.checkpoint_active
    then (do
      guard o.checkpoint_completed checkpoint_required
      ok (record s { checkpoint_active = false; mode = mode_done }))
    else elim (s.active_request) [
      | none ↦ err no_active_request
      | some r ↦ do
        guard (request_eq o.request r) wrong_request
        resolve_fast_in s.mode (record s { active_request = none }) r o.success
    ]
