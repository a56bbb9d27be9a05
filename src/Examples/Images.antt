-- ===== src/Examples/Images.antt =====
-- Two neighbouring sectors of two bytes, and the commit of one of them.
use disc_rescue.Prelude.{◌≡◌, refl, [], ◌∷◌, arith, ok}
use disc_rescue.Mapfile.State.{verified, trusted_checksum, validate_state_confidence}
use disc_rescue.Mapfile.Extent.{Extent, validate}
use disc_rescue.Image.{
  SectorWrite, PositionedWrite, WriterPlan, write_offset, validate_write, validate_in_plan,
  validate_later, validate_plan, build_from, build_positioned_writes,
}
use disc_rescue.Image.Laws.{put_all, put_sectors, build_positioned_writes-put_sectors}
use disc_rescue.Image.Commit.{
  RecoveredSectorCommit, strict, sync_journal, recovered_actions, build_recovered_sector_commit,
  simulate_crash,
}
use disc_rescue.Image.Order.{IsOrdered, simulate_crash-IsOrdered}
use disc_rescue.Examples.Maps.{zeros}

abbrev sector_three : SectorWrite
sector_three = record { lba = 3; logical_sector_size = 2; bytes = 7 ∷ 8 ∷ [] }

abbrev sector_four : SectorWrite
sector_four = record { lba = 4; logical_sector_size = 2; bytes = 9 ∷ 10 ∷ [] }

abbrev two_writes : WriterPlan
two_writes = record {
  logical_sector_size = 2;
  expected_sectors = 10;
  writes = sector_three ∷ sector_four ∷ [];
}

abbrev one_write : PositionedWrite
one_write = record { offset = 6; bytes = 7 ∷ 8 ∷ 9 ∷ 10 ∷ [] }

two_writes_built : build_positioned_writes two_writes ≡ ok (one_write ∷ [])
unfolding build_positioned_writes validate_plan validate_in_plan validate_later validate_write
    build_from write_offset
two_writes_built = refl

build_positioned_writes-put_sectors_example :
    put_all (one_write ∷ []) (λ k. 0) ≡ put_sectors (sector_three ∷ sector_four ∷ []) (λ k. 0)
build_positioned_writes-put_sectors_example =
    build_positioned_writes-put_sectors two_writes (one_write ∷ []) (λ k. 0)
      (omega arith, (omega arith, tt)) two_writes_built

abbrev third_extent : Extent
third_extent = record {
  start_lba = 3;
  sectors = 1;
  state = verified;
  confidence = trusted_checksum;
  attempts = 1;
  capture_id = 7;
  last_sense_key = 0;
  last_asc = 0;
  last_ascq = 0;
  data_hash = zeros;
}

abbrev third_commit : RecoveredSectorCommit
third_commit = record {
  logical_sector_size = 2;
  expected_sectors = 10;
  write = sector_three;
  extent = third_extent;
  profile = strict;
}

third_built : build_recovered_sector_commit third_commit ≡ ok (recovered_actions strict)
unfolding build_recovered_sector_commit build_positioned_writes validate_plan validate_in_plan
    validate_write build_from write_offset validate validate_state_confidence validate_later
third_built = refl

simulate_crash-IsOrdered_example :
    IsOrdered strict (simulate_crash (recovered_actions strict) sync_journal)
simulate_crash-IsOrdered_example =
    simulate_crash-IsOrdered third_commit (recovered_actions strict) sync_journal third_built
