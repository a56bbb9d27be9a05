-- ===== src/Image.antt =====
-- internal/image/writer.go: the sectors of a plan become writes at byte offsets of the image.
pub mod Commit
pub mod Order
pub mod Laws
use disc_rescue.Prelude.{
  ℕ, zero, suc, ◌+◌, ◌*◌, Bool, true, false, not, ◌&&◌, List, [], ◌∷◌, ◌++◌, length, ltb, leb, ◌==◌,
  if◌then◌else◌, u32, u64, Result, ok, err, guard, ◌>>=◌, ◌>>◌,
}

pub record SectorWrite : Type 0 where
  pub lba : ℕ  -- uint64
  pub logical_sector_size : ℕ  -- uint32
  pub bytes : List ℕ

pub record PositionedWrite : Type 0 where
  pub offset : ℕ  -- uint64
  pub bytes : List ℕ

pub record WriterPlan : Type 0 where
  pub logical_sector_size : ℕ  -- uint32
  pub expected_sectors : ℕ  -- uint64
  pub writes : List SectorWrite

pub data WriteError : Type 0 where
  no_sector_size wrong_length wrong_sector_size beyond_disc unordered : WriteError

-- `SectorWrite.Offset` wraps, as uint64 does.
unfoldable pub write_offset : SectorWrite → ℕ
write_offset w = u64 (w.lba * w.logical_sector_size)

unfoldable pub validate_write : SectorWrite → Result WriteError Unit
validate_write w = do
  guard (not (w.logical_sector_size == 0)) no_sector_size
  guard (u32 (length w.bytes) == w.logical_sector_size) wrong_length

abbrev pub at_offset : SectorWrite → PositionedWrite
at_offset w = record { offset = write_offset w; bytes = w.bytes }

unfoldable pub positioned : SectorWrite → Result WriteError PositionedWrite
positioned w = do validate_write w; ok (at_offset w)

-- What the loop of `WriterPlan.Validate` checks of each write.
unfoldable pub validate_in_plan : WriterPlan → SectorWrite → Result WriteError Unit
validate_in_plan p w = do
  validate_write w
  guard (w.logical_sector_size == p.logical_sector_size) wrong_sector_size
  guard (not (ltb 0 p.expected_sectors && leb p.expected_sectors w.lba)) beyond_disc

-- The loop behind its first write.
unfoldable pub validate_later : WriterPlan → SectorWrite → List SectorWrite → Result WriteError Unit
validate_later p previous [] = ok tt
validate_later p previous (w ∷ ws) = do
  validate_in_plan p w
  guard (not (leb w.lba previous.lba)) unordered
  validate_later p w ws

abbrev pub validate_writes : WriterPlan → List SectorWrite → Result WriteError Unit
validate_writes p [] = ok tt
validate_writes p (w ∷ ws) = do validate_in_plan p w; validate_later p w ws

unfoldable pub validate_plan : WriterPlan → Result WriteError Unit
validate_plan p = do
  guard (not (p.logical_sector_size == 0)) no_sector_size
  validate_writes p p.writes

-- The loop of `BuildPositionedWrites`, with its `current`.
unfoldable pub build_from : PositionedWrite → List SectorWrite → List PositionedWrite
build_from current [] = current ∷ []
build_from current (w ∷ ws) = elim (write_offset w == u64 (current.offset + length current.bytes)) [
  | true ↦ build_from (record current { bytes = current.bytes ++ w.bytes }) ws
  | false ↦ current ∷ build_from (at_offset w) ws
]

abbrev pub build_all : List SectorWrite → List PositionedWrite
build_all [] = []
build_all (w ∷ ws) = build_from (at_offset w) ws

unfoldable pub build_positioned_writes : WriterPlan → Result WriteError (List PositionedWrite)
build_positioned_writes p = do validate_plan p; ok (build_all p.writes)
