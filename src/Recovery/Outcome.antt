-- ===== src/Recovery/Outcome.antt =====
-- internal/recovery/outcome.go: how a session is reported, from what its map records.
pub mod Laws
use disc_rescue.Prelude.{
  ℕ, ◌+◌, Bool, true, false, ◌&&◌, ◌||◌, not, List, [], ◌∷◌, String, ltb, ◌==◌, if◌then◌else◌, u64,
  Result, ok, err, ◌>>=◌, ◌>>◌,
}
use disc_rescue.Mapfile.State.{
  SectorState, unknown, queued, read_unverified, verified, missing, io_error, checksum_error,
  conflicting, reconstructed, skipped, invalid,
}
use disc_rescue.Mapfile.Extent.{Extent, MapError, validate_extent_set}

-- `OutcomeClass`, a string; `no_class` is the empty one.
pub data OutcomeClass : Type 0 where
  no_class in_progress complete_verified complete_unverified incomplete : OutcomeClass
  stopped_resumable failed_no_valid_pair : OutcomeClass

pub record OutcomeInput : Type 0 where
  pub extents : List Extent
  pub accept_unverified_by_policy : Bool
  pub passes_exhausted : Bool
  pub scheduling_stopped : Bool
  pub valid_image_map_pair : Bool

pub record OutcomeResult : Type 0 where
  pub outcome_class : OutcomeClass
  pub plain_status : String
  pub resumable : Bool
  pub fully_verified : Bool
  pub verified_sectors : ℕ  -- uint64
  pub reconstructed_sectors : ℕ  -- uint64
  pub accepted_unverified_sectors : ℕ  -- uint64
  pub unresolved_sectors : ℕ  -- uint64

pub data OutcomeError : Type 0 where
  bad_extents : MapError → OutcomeError
  unsupported_state : SectorState → OutcomeError

abbrev pub no_result : OutcomeResult
no_result = record {
  outcome_class = no_class;
  plain_status = "";
  resumable = false;
  fully_verified = false;
  verified_sectors = 0;
  reconstructed_sectors = 0;
  accepted_unverified_sectors = 0;
  unresolved_sectors = 0;
}

-- The result of one class, with the counters of `r`.
abbrev pub report : OutcomeResult → OutcomeClass → String → Bool → Bool → OutcomeResult
report r c status resumable full = record r {
  outcome_class = c;
  plain_status = status;
  resumable = resumable;
  fully_verified = full;
}

abbrev pub lift_extents : Result MapError Unit → Result OutcomeError Unit
lift_extents (ok u) = ok u
lift_extents (err e) = err (bad_extents e)

-- The `switch` on the state of an extent of `n` sectors.
abbrev pub count_state : SectorState → ℕ → OutcomeResult → Result OutcomeError OutcomeResult
count_state verified n r = ok (record r { verified_sectors = u64 (r.verified_sectors + n) })
count_state reconstructed n r =
    ok (record r { reconstructed_sectors = u64 (r.reconstructed_sectors + n) })
count_state read_unverified n r =
    ok (record r { accepted_unverified_sectors = u64 (r.accepted_unverified_sectors + n) })
count_state (invalid k) n r = err (unsupported_state (invalid k))
count_state _ n r = ok (record r { unresolved_sectors = u64 (r.unresolved_sectors + n) })

unfoldable pub count_extents : List Extent → OutcomeResult → Result OutcomeError OutcomeResult
count_extents [] r = ok r
count_extents (e ∷ es) r = do counted ← count_state e.state e.sectors r; count_extents es counted

-- The class for the counters, once all extents are counted.
unfoldable pub classify : OutcomeInput → OutcomeResult → OutcomeResult
classify input r =
    let has_unverified = ltb 0 r.accepted_unverified_sectors in
    if r.unresolved_sectors == 0 && (not has_unverified || input.accept_unverified_by_policy)
    then (if has_unverified
        then report r complete_unverified "Image created with unverified sectors." false false
        else report r complete_verified "Image created successfully and fully verified." false true)
    else if input.scheduling_stopped
    then report r stopped_resumable "Recovery stopped but resumable." true false
    else if input.passes_exhausted
    then report r incomplete "Image created with missing sectors." true false
    else report r in_progress "Recovery is still in progress." true false

unfoldable pub evaluate_outcome : OutcomeInput → Result OutcomeError OutcomeResult
unfolding classify count_extents
evaluate_outcome input = do
  lift_extents (validate_extent_set input.extents)
  (if not input.valid_image_map_pair
      then ok (
          report no_result failed_no_valid_pair
            "Recovery failed before a valid image/map pair was established." false false)
      else (count_extents input.extents no_result >>= λ counted. ok (classify input counted)))
