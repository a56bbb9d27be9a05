-- ===== src/Image/Commit.antt =====
-- internal/image/commit_order.go and enospc.go: in which order a sector becomes durable, and what
-- is left when the output disc is full.
use disc_rescue.Prelude.{
  ℕ, ◌+◌, Bool, true, false, not, ◌||◌, List, [], ◌∷◌, ◌==◌, if◌then◌else◌, String, Option, none,
  some, Result, ok, err, guard, ◌>>◌,
}
use disc_rescue.Mapfile.State.{
  SectorState, read_unverified, verified, reconstructed, missing, io_error, skipped, checksum_error,
  conflicting,
}
use disc_rescue.Mapfile.Extent.{Extent, MapError, validate}
use disc_rescue.Image.{SectorWrite, WriteError, build_positioned_writes}

-- `DurabilityProfile`, a string; `no_profile` is the empty one.
pub data DurabilityProfile : Type 0 where
  no_profile fast balanced strict : DurabilityProfile
  other_profile : ℕ → DurabilityProfile

-- `CommitStage`, a string.
pub data CommitStage : Type 0 where
  validate_bounds write_image sync_image append_journal sync_journal publish_ui : CommitStage
  other_stage : ℕ → CommitStage

abbrev pub stage_code : CommitStage → ℕ
stage_code validate_bounds = 0
stage_code write_image = 1
stage_code sync_image = 2
stage_code append_journal = 3
stage_code sync_journal = 4
stage_code publish_ui = 5
stage_code (other_stage n) = 6 + n

pub record RecoveredSectorCommit : Type 0 where
  pub logical_sector_size : ℕ  -- uint32
  pub expected_sectors : ℕ  -- uint64
  pub write : SectorWrite
  pub extent : Extent
  pub profile : DurabilityProfile

pub data CommitError : Type 0 where
  profile_required wrong_sector_size not_recovered not_failed different_sector : CommitError
  stage_not_present not_enospc_stage : CommitError
  bad_extent : MapError → CommitError
  bad_write : WriteError → CommitError

abbrev pub lift_extent : Result MapError Unit → Result CommitError Unit
lift_extent (ok u) = ok u
lift_extent (err e) = err (bad_extent e)

abbrev pub lift_plan : {A : Type 0} → Result WriteError A → Result CommitError Unit
lift_plan (ok v) = ok tt
lift_plan (err e) = err (bad_write e)

abbrev pub is_given : DurabilityProfile → Bool
is_given no_profile = false
is_given _ = true

abbrev pub is_recovered : SectorState → Bool
is_recovered read_unverified = true
is_recovered verified = true
is_recovered reconstructed = true
is_recovered _ = false

abbrev pub is_failed : SectorState → Bool
is_failed missing = true
is_failed io_error = true
is_failed skipped = true
is_failed checksum_error = true
is_failed conflicting = true
is_failed _ = false

-- The actions of a recovered sector: the image is synced first in the strict profile only.
abbrev pub recovered_actions : DurabilityProfile → List CommitStage
recovered_actions strict =
    validate_bounds ∷ write_image ∷ sync_image ∷ append_journal ∷ sync_journal ∷ publish_ui ∷ []
recovered_actions _ =
    validate_bounds ∷ write_image ∷ append_journal ∷ sync_journal ∷ publish_ui ∷ []

unfoldable pub build_recovered_sector_commit :
    RecoveredSectorCommit → Result CommitError (List CommitStage)
build_recovered_sector_commit c = do
  guard (is_given c.profile) profile_required
  guard (c.write.logical_sector_size == c.logical_sector_size) wrong_sector_size
  guard (is_recovered c.extent.state) not_recovered
  lift_extent (validate c.extent)
  lift_plan (
      build_positioned_writes (record {
        logical_sector_size = c.logical_sector_size;
        expected_sectors = c.expected_sectors;
        writes = c.write ∷ [];
      }))
  guard (not (not (c.write.lba == c.extent.start_lba) || not (c.extent.sectors == 1)))
      different_sector
  ok (recovered_actions c.profile)

-- `BuildFailedSectorCommit`, of the extent that is its input.
unfoldable pub build_failed_sector_commit : Extent → Result CommitError (List CommitStage)
build_failed_sector_commit e = do
  guard (is_failed e.state) not_failed
  lift_extent (validate e)
  ok (append_journal ∷ sync_journal ∷ publish_ui ∷ [])

-- The actions before the first of a stage.
unfoldable pub simulate_crash : List CommitStage → CommitStage → List CommitStage
simulate_crash [] stage = []
simulate_crash (a ∷ rest) stage =
    let before = simulate_crash rest stage in
    if stage_code a == stage_code stage then [] else a ∷ before

unfoldable pub contains : List CommitStage → CommitStage → Bool
contains [] stage = false
contains (a ∷ rest) stage = stage_code a == stage_code stage || contains rest stage

pub record ResumableState : Type 0 where
  pub last_durable_extent : Option Extent
  pub scheduling_stopped : Bool
  pub needs_user_intervention : Bool
  pub resumable : Bool
  pub unrecoverable_metadata : Bool
  pub status_message : String

pub record EnospcEvaluation : Type 0 where
  pub commit_sequence : List CommitStage
  pub failed_stage : CommitStage
  pub previous_durable_pair : Option Extent
  pub pending_extent : Extent

abbrev pub validate_previous : Option Extent → Result CommitError Unit
validate_previous none = ok tt
validate_previous (some e) = lift_extent (validate e)

abbrev pub before_advance : String
before_advance = "Output storage is full. Recovery stopped before advancing durable map state."

abbrev pub after_image : String
after_image =
    "Output storage is full after image durability, but before journal completion. Resume from the last durable map state."

abbrev pub stopped_state : Option Extent → String → ResumableState
stopped_state previous message = record {
  last_durable_extent = previous;
  scheduling_stopped = true;
  needs_user_intervention = true;
  resumable = true;
  unrecoverable_metadata = false;
  status_message = message;
}

-- The `switch` of `EvaluateENOSPC`.
abbrev pub state_at : CommitStage → Option Extent → Result CommitError ResumableState
state_at write_image previous = ok (stopped_state previous before_advance)
state_at sync_image previous = ok (stopped_state previous before_advance)
state_at append_journal previous = ok (stopped_state previous after_image)
state_at sync_journal previous = ok (stopped_state previous after_image)
state_at _ previous = err not_enospc_stage

unfoldable pub evaluate_enospc : EnospcEvaluation → Result CommitError ResumableState
evaluate_enospc i = do
  lift_extent (validate i.pending_extent)
  validate_previous i.previous_durable_pair
  guard (contains i.commit_sequence i.failed_stage) stage_not_present
  state_at i.failed_stage i.previous_durable_pair
