-- ===== src/Examples/FastReads.antt =====
-- A fast pass over eight sectors, four of which are unknown.
use disc_rescue.Prelude.{◌<◌, ◌≡◌, refl, true, false, some, none, List, [], ◌∷◌, arith, ok}
use disc_rescue.Mapfile.State.{unknown, no_confidence, validate_state_confidence}
use disc_rescue.Mapfile.Extent.{
  Extent, end_lba, overlaps, validate, validate_extent_set, validate_after,
}
use disc_rescue.Mapfile.Valid.{Between, IsValid}
use disc_rescue.Recovery.Request.{Request, fast_pass}
use disc_rescue.Recovery.Fast.{
  FastState, cluster, single, read, schedulable_fast_state, next_cluster_range,
  next_fast_pass_request, dispatch_fast_pass, resolve_fast_pass,
}
use disc_rescue.Recovery.Fast.Reach.{InReach}
use disc_rescue.Recovery.Fast.Laws.{steps_left, resolved, resolve_fast_pass-InReach}
use disc_rescue.Examples.Maps.{zeros, bad_part}
use disc_rescue.Examples.Headers.{bad_part-IsValid}

abbrev new_part : Extent
new_part = record {
  start_lba = 0;
  sectors = 4;
  state = unknown;
  confidence = no_confidence;
  attempts = 0;
  capture_id = 7;
  last_sense_key = 0;
  last_asc = 0;
  last_ascq = 0;
  data_hash = zeros;
}

abbrev half_new : List Extent
half_new = new_part ∷ bad_part ∷ []

new_part-IsValid : IsValid new_part
unfolding validate_state_confidence
new_part-IsValid = record { nonempty = omega arith; bounded = omega arith; allowed = refl }

half_new-Between : Between 0 8 half_new
half_new-Between =
    (new_part-IsValid, omega arith, omega arith, (bad_part-IsValid, omega arith, omega arith, tt))

abbrev at_first_sector : FastState
at_first_sector = record {
  extents = half_new;
  cursor_lba = 1;
  cluster_size = 2;
  skip_after_failure = 256;
  mode = cluster;
  cluster_boundary = 0;
  active_request = none;
  checkpoint_active = false;
}

abbrev first_cluster : Request
first_cluster = fast_pass 1 2

abbrev first_reading : FastState
first_reading = record at_first_sector { active_request = some first_cluster }

abbrev after_failure : FastState
after_failure = record at_first_sector { mode = single; cursor_lba = 1; cluster_boundary = 3 }

first_dispatch : dispatch_fast_pass at_first_sector true ≡ ok (first_reading, read first_cluster)
unfolding dispatch_fast_pass next_fast_pass_request next_cluster_range schedulable_fast_state
    end_lba validate_extent_set validate_after validate validate_state_confidence overlaps
first_dispatch = refl

first_failure : resolve_fast_pass first_reading (resolved first_cluster false) ≡ ok after_failure
unfolding resolve_fast_pass fast_pass
first_failure = refl

resolve_fast_pass-InReach_example :
    InReach 1 8 first_cluster.start_lba first_cluster.sectors
    × (steps_left 8 after_failure < steps_left 8 at_first_sector)
resolve_fast_pass-InReach_example =
    resolve_fast_pass-InReach 8 at_first_sector first_reading after_failure first_cluster false
      (omega arith) half_new-Between (omega arith) first_dispatch first_failure
