-- ===== src/Examples/Headers.antt =====
-- The header of a disc of 100 sectors, and the checkpoint of an empty map.
use disc_rescue.Prelude.{
  ℕ, ◌≡◌, refl, true, false, List, [], ◌∷◌, ◌++◌, arith, ok, err, length, take,
}
use disc_rescue.Mapfile.Header.{Header, validate_header, marshal_header, unmarshal_header}
use disc_rescue.Mapfile.Header.Laws.{IsTyped, unmarshal_header-marshal_header}
use disc_rescue.Mapfile.Checkpoint.{marshal_checkpoint, unmarshal_checkpoint}
use disc_rescue.Mapfile.Checkpoint.Laws.{unmarshal_checkpoint-marshal_checkpoint}
use disc_rescue.Mapfile.Codec.{short_buffer}
use disc_rescue.Mapfile.Codec.Laws
use disc_rescue.Mapfile.Replay.{Checkpoint}
use disc_rescue.Mapfile.Valid.{IsValid}
use disc_rescue.Mapfile.State.{validate_state_confidence}
use disc_rescue.Examples.Maps.{bad_part}

abbrev sixteen : List ℕ
sixteen = 9 ∷ 0 ∷ 0 ∷ 0 ∷ 0 ∷ 0 ∷ 0 ∷ 0 ∷ 0 ∷ 0 ∷ 0 ∷ 0 ∷ 0 ∷ 0 ∷ 0 ∷ 1 ∷ []

abbrev no_id : List ℕ
no_id = 0 ∷ 0 ∷ 0 ∷ 0 ∷ 0 ∷ 0 ∷ 0 ∷ 0 ∷ 0 ∷ 0 ∷ 0 ∷ 0 ∷ 0 ∷ 0 ∷ 0 ∷ 0 ∷ []

abbrev pub disc_header : Header
disc_header = record {
  logical_sector_size = 2048;
  expected_sector_count = 100;
  output_format = 1;
  identity_algorithm_version = 1;
  layout_sha256 = 5 ∷ 5 ∷ 5 ∷ 5 ∷ 5 ∷ 5 ∷ 5 ∷ 5 ∷ 5 ∷ 5 ∷ 5 ∷ 5 ∷ 5 ∷ 5 ∷ 5 ∷ 5 ∷ sixteen;
  quick_content_id_present = true;
  quick_content_id = sixteen;
  capture_id = sixteen;
  catalog_record_id_present = false;
  catalog_record_id = no_id;
  job_id = sixteen;
  creation_unix_nano = 1700000000;
  clean_shutdown = true;
}

pub disc_header-IsTyped : IsTyped disc_header
disc_header-IsTyped = record {
  size_fits = omega arith;
  count_fits = omega arith;
  format_fits = omega arith;
  version_fits = omega arith;
  layout_length = refl;
  quick_length = refl;
  capture_length = refl;
  catalog_length = refl;
  job_length = refl;
  creation_fits = omega arith;
}

disc_header_valid : validate_header disc_header ≡ ok tt
unfolding validate_header
disc_header_valid = refl

unmarshal_header-marshal_header_example :
    (bs : List ℕ) × (marshal_header disc_header ≡ ok bs)
    × (length bs ≡ 135)
    × (unmarshal_header (bs ++ sixteen) ≡ ok disc_header)
    × (unmarshal_header (take 90 bs) ≡ err short_buffer)
unmarshal_header-marshal_header_example =
    unmarshal_header-marshal_header disc_header sixteen 90 disc_header-IsTyped disc_header_valid
      (omega arith)

abbrev one_extent : Checkpoint
one_extent = record { last_sequence = 12; extents = bad_part ∷ [] }

pub bad_part-IsValid : IsValid bad_part
unfolding validate_state_confidence
bad_part-IsValid = record { nonempty = omega arith; bounded = omega arith; allowed = refl }

pub bad_part-IsTyped : Laws.IsTyped bad_part
bad_part-IsTyped = record {
  start_fits = omega arith;
  sectors_fit = omega arith;
  attempts_fit = omega arith;
  capture_fits = omega arith;
  hash_length = refl;
}

unmarshal_checkpoint-marshal_checkpoint_example :
    (bs : List ℕ) × (marshal_checkpoint one_extent ≡ ok bs)
    × (unmarshal_checkpoint bs ≡ ok one_extent)
unmarshal_checkpoint-marshal_checkpoint_example =
    unmarshal_checkpoint-marshal_checkpoint 0 8 one_extent
      (bad_part-IsValid, omega arith, omega arith, tt) (bad_part-IsTyped, tt) (omega arith)
      (omega arith)
