-- ===== src/Examples/Maps.antt =====
-- A map of eight sectors: four were read, four could not be read, and two of these are read now.
use disc_rescue.Prelude.{ℕ, ◌≡◌, refl, ◌↔◌, ◌<◌, List, [], ◌∷◌, some, arith, ok}
use disc_rescue.Mapfile.State.{
  verified, io_error, read_unverified, trusted_checksum, no_confidence, single_read,
  validate_state_confidence, validate_transition, state_claims_image_data,
}
use disc_rescue.Mapfile.Extent.{
  Extent, validate, overlaps, end_lba, validate_extent_set, validate_extent_set_within_capacity,
  can_merge_adjacent, validate_after,
}
use disc_rescue.Mapfile.Valid.{IsValid, Between, validate_extent_set_within_capacity_iff}
use disc_rescue.Mapfile.View.{view, sector_at}
use disc_rescue.Mapfile.Edit.{
  apply_extent, coalesce_extents, insert_extent, may_replace, coalesce_from, carve_all, carve,
  sort_by_start, insert_by_start, left_of, right_of, insert_loop,
}
use disc_rescue.Mapfile.Edit.Carve.{Replaceable}
use disc_rescue.Mapfile.Edit.Apply.{
  IsUpdate, KeepsWork, apply_extent_iff, apply_extent-IsUpdate, apply_extent-KeepsWork,
}
use disc_rescue.Mapfile.Edit.Insert.{Misses, insert_extent-eq-apply_extent}
use disc_rescue.Mapfile.Codec.Laws.{IsTyped}

abbrev pub zeros : List ℕ
zeros = 0 ∷ 0 ∷ 0 ∷ 0 ∷ 0 ∷ 0 ∷ 0 ∷ 0 ∷ 0 ∷ 0 ∷ 0 ∷ 0 ∷ 0 ∷ 0 ∷ 0 ∷ 0 ∷ []

abbrev good_part : Extent
good_part = record {
  start_lba = 0;
  sectors = 4;
  state = verified;
  confidence = trusted_checksum;
  attempts = 1;
  capture_id = 7;
  last_sense_key = 0;
  last_asc = 0;
  last_ascq = 0;
  data_hash = zeros;
}

abbrev pub bad_part : Extent
bad_part = record {
  start_lba = 4;
  sectors = 4;
  state = io_error;
  confidence = no_confidence;
  attempts = 1;
  capture_id = 7;
  last_sense_key = 3;
  last_asc = 17;
  last_ascq = 0;
  data_hash = zeros;
}

-- Two sectors of the bad part, read at last.
abbrev late_read : Extent
late_read = record {
  start_lba = 6;
  sectors = 2;
  state = read_unverified;
  confidence = single_read;
  attempts = 2;
  capture_id = 7;
  last_sense_key = 0;
  last_asc = 0;
  last_ascq = 0;
  data_hash = zeros;
}

-- Sectors that the map says nothing of.
abbrev far_read : Extent
far_read = record late_read { start_lba = 10 }

abbrev disc_map : List Extent
disc_map = good_part ∷ bad_part ∷ []

abbrev updated_map : List Extent
updated_map = good_part ∷ record bad_part { sectors = 2 } ∷ late_read ∷ []

abbrev grown_map : List Extent
grown_map = good_part ∷ bad_part ∷ far_read ∷ []

good_part-IsValid : IsValid good_part
unfolding validate_state_confidence
good_part-IsValid = record { nonempty = omega arith; bounded = omega arith; allowed = refl }

pub bad_part-IsValid : IsValid bad_part
unfolding validate_state_confidence
bad_part-IsValid = record { nonempty = omega arith; bounded = omega arith; allowed = refl }

late_read-IsValid : IsValid late_read
unfolding validate_state_confidence
late_read-IsValid = record { nonempty = omega arith; bounded = omega arith; allowed = refl }

far_read-IsValid : IsValid far_read
unfolding validate_state_confidence
far_read-IsValid = record { nonempty = omega arith; bounded = omega arith; allowed = refl }

disc_map-Between : Between 0 16 disc_map
disc_map-Between =
    (good_part-IsValid, omega arith, omega arith, (bad_part-IsValid, omega arith, omega arith, tt))

apply_late_read : apply_extent disc_map late_read ≡ ok updated_map
unfolding apply_extent validate validate_state_confidence validate_extent_set validate_after
    overlaps end_lba carve_all carve may_replace validate_transition state_claims_image_data
    coalesce_extents sort_by_start insert_by_start left_of right_of coalesce_from can_merge_adjacent
apply_late_read = refl

insert_far_read : insert_extent disc_map far_read ≡ ok grown_map
unfolding insert_extent validate validate_state_confidence validate_extent_set validate_after
    overlaps end_lba insert_loop coalesce_extents coalesce_from can_merge_adjacent
insert_far_read = refl

apply_extent_iff_example :
    ((ys : List Extent) × (apply_extent disc_map late_read ≡ ok ys))
    ↔ Replaceable late_read disc_map
apply_extent_iff_example =
    apply_extent_iff 16 (omega arith) disc_map late_read disc_map-Between late_read-IsValid
      (omega arith)

apply_extent-IsUpdate_example : IsUpdate 16 disc_map late_read updated_map
apply_extent-IsUpdate_example =
    apply_extent-IsUpdate 16 (omega arith) disc_map late_read disc_map-Between late_read-IsValid
      (omega arith) updated_map apply_late_read

apply_extent-KeepsWork_example :
    (new : Extent) × (view updated_map 2 ≡ some new) × KeepsWork (sector_at good_part 2) new
apply_extent-KeepsWork_example =
    apply_extent-KeepsWork 16 disc_map late_read updated_map 2 (sector_at good_part 2) (omega arith)
      disc_map-Between late_read-IsValid (omega arith) apply_late_read seen
  where
    seen : view disc_map 2 ≡ some (sector_at good_part 2)
    seen = unfold end_lba in refl

far_read-Misses : Misses far_read disc_map
unfolding overlaps end_lba
far_read-Misses = (refl, (refl, tt))

insert_extent-eq-apply_extent_example :
    insert_extent disc_map far_read ≡ apply_extent disc_map far_read
insert_extent-eq-apply_extent_example =
    insert_extent-eq-apply_extent 16 disc_map far_read disc_map-Between far_read-IsValid
      far_read-Misses

validate_extent_set_within_capacity_example :
    (validate_extent_set_within_capacity disc_map 8 ≡ ok tt) ↔ ((0 < 8) × Between 0 8 disc_map)
validate_extent_set_within_capacity_example = validate_extent_set_within_capacity_iff disc_map 8

late_read-IsTyped : IsTyped late_read
late_read-IsTyped = record {
  start_fits = omega arith;
  sectors_fit = omega arith;
  attempts_fit = omega arith;
  capture_fits = omega arith;
  hash_length = refl;
}
