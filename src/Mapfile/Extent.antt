-- ===== src/Mapfile/Extent.antt =====
-- internal/mapfile: extents.go, extent.go, geometry.go, extent_ops.go and extent_apply.go.
-- An extent is a run of sectors with one recovery state; a map is a sorted list of extents.
use disc_rescue.Prelude.{
  ℕ, ◌+◌, ◌-◌, ◌*◌, ◌/◌, ◌^◌, Bool, true, false, ◌&&◌, ◌||◌, not, Option, none, some, List, [], ◌∷◌,
  ltb, leb, ◌==◌, if◌then◌else◌, u32, u64, Result, ok, err, guard, ◌>>=◌, ◌>>◌,
}
use disc_rescue.Mapfile.State.{
  SectorState, Confidence, StateError, state_code, confidence_code, validate_state_confidence,
  validate_transition,
}

pub record Extent : Type 0 where
  pub start_lba : ℕ  -- uint64
  pub sectors : ℕ  -- uint32
  pub state : SectorState
  pub confidence : Confidence
  pub attempts : ℕ  -- uint16
  pub capture_id : ℕ  -- uint32
  pub last_sense_key : ℕ  -- uint8
  pub last_asc : ℕ  -- uint8
  pub last_ascq : ℕ  -- uint8
  pub data_hash : List ℕ  -- [16]byte

pub data MapError : Type 0 where
  zero_sectors range_overflow unsorted overlapping not_neighbors split_outside : MapError
  candidate_overlaps older_attempts no_capacity beyond_capacity : MapError
  no_sector_size offset_overflow : MapError
  bad_state : StateError → MapError

-- An error of the state rules, passed on as an error of the map.
abbrev pub lift_state : Result StateError Unit → Result MapError Unit
lift_state (ok u) = ok u
lift_state (err e) = err (bad_state e)

abbrev pub max_uint64 : ℕ
max_uint64 = 2 ^ 64 - 1

-- `EndLBA` wraps, as uint64 does.
unfoldable pub end_lba : Extent → ℕ
end_lba e = u64 (e.start_lba + e.sectors)

unfoldable pub checked_end_lba : Extent → Result MapError ℕ
checked_end_lba e =
    if ltb (max_uint64 - e.start_lba) e.sectors
    then err range_overflow
    else ok (u64 (e.start_lba + e.sectors))

unfoldable pub validate : Extent → Result MapError Unit
unfolding checked_end_lba
validate e = do
  guard (not (e.sectors == 0)) zero_sectors
  _ ← checked_end_lba e
  lift_state (validate_state_confidence e.state e.confidence)

-- `Extent.Transition`.
unfoldable pub transition : Extent → SectorState → Confidence → Result MapError Extent
transition e s c = do
  lift_state (validate_transition e.state e.confidence s c)
  ok (record e { state = s; confidence = c })

unfoldable pub overlaps : Extent → Extent → Bool
overlaps a b = ltb a.start_lba (end_lba b) && ltb b.start_lba (end_lba a)

unfoldable pub bytes_eq : List ℕ → List ℕ → Bool
bytes_eq [] [] = true
bytes_eq (x ∷ xs) (y ∷ ys) = x == y && bytes_eq xs ys
bytes_eq _ _ = false

unfoldable pub can_merge_adjacent : Extent → Extent → Bool
can_merge_adjacent a b =
    end_lba a == b.start_lba
    && (state_code a.state == state_code b.state
        && (confidence_code a.confidence == confidence_code b.confidence
            && (a.attempts == b.attempts
                && (a.capture_id == b.capture_id
                    && (a.last_sense_key == b.last_sense_key
                        && (a.last_asc == b.last_asc
                            && (a.last_ascq == b.last_ascq
                                && bytes_eq a.data_hash b.data_hash)))))))

unfoldable pub merge_adjacent : Extent → Extent → Result MapError Extent
merge_adjacent a b = do
  validate a
  validate b
  guard (can_merge_adjacent a b) not_neighbors
  ok (record a { sectors = u32 (a.sectors + b.sectors) })

unfoldable pub split_extent : Extent → ℕ → Result MapError (Extent × Extent)
split_extent e lba = do
  validate e
  guard (not (leb lba e.start_lba || leb (end_lba e) lba)) split_outside
  ok (
    record e { sectors = u32 (lba - e.start_lba) },
    record e { start_lba = lba; sectors = u32 (end_lba e - lba) },
  )

abbrev pub covers : Extent → ℕ → Bool
covers e lba = leb e.start_lba lba && ltb lba (end_lba e)

-- The loop of `LookupExtent`, from an index on.
abbrev pub lookup_from : ℕ → List Extent → ℕ → Option (Extent × ℕ)
lookup_from i [] lba = none
lookup_from i (e ∷ es) lba = if covers e lba then some (e, i) else lookup_from (i + 1) es lba

-- `LookupExtent`; the false of its last result is `none`.
unfoldable pub lookup_extent : List Extent → ℕ → Option (Extent × ℕ)
lookup_extent es lba = lookup_from 0 es lba

-- The loop of `ValidateExtentSet` behind its first extent.
unfoldable pub validate_after : Extent → List Extent → Result MapError Unit
validate_after previous [] = ok tt
validate_after previous (e ∷ es) = do
  validate e
  guard (leb previous.start_lba e.start_lba) unsorted
  guard (not (overlaps previous e)) overlapping
  validate_after e es

unfoldable pub validate_extent_set : List Extent → Result MapError Unit
validate_extent_set [] = ok tt
validate_extent_set (e ∷ es) = do validate e; validate_after e es

-- The second loop of `ValidateExtentSetWithinCapacity`.
unfoldable pub check_capacity : ℕ → List Extent → Result MapError Unit
check_capacity n [] = ok tt
check_capacity n (e ∷ es) = do
  end ← checked_end_lba e
  guard (not (leb n e.start_lba || ltb n end)) beyond_capacity
  check_capacity n es

unfoldable pub validate_extent_set_within_capacity : List Extent → ℕ → Result MapError Unit
validate_extent_set_within_capacity es n = do
  guard (not (n == 0)) no_capacity
  validate_extent_set es
  check_capacity n es

unfoldable pub checked_sector_byte_offset : ℕ → ℕ → Result MapError ℕ
checked_sector_byte_offset lba size = do
  guard (not (size == 0)) no_sector_size
  guard (not (ltb (max_uint64 / size) lba)) offset_overflow
  ok (u64 (lba * size))
