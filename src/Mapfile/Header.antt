-- ===== src/Mapfile/Header.antt =====
-- internal/mapfile/header.go and header_codec.go: the fixed header of a recovery map.
-- The layout is the code's; docs/formats/drmap-v1.md has seven reserved bytes before the checksum.
pub mod Laws
use disc_rescue.Prelude.{
  ℕ, Bool, true, false, not, List, [], ◌∷◌, ◌++◌, ltb, ◌==◌, if◌then◌else◌, length, take, Result,
  ok, guard, ◌>>=◌, ◌>>◌,
}
use disc_rescue.Prelude.Bytes.{le_bytes, le_value, slice, crc32c}
use disc_rescue.Mapfile.Extent.{bytes_eq}
use disc_rescue.Mapfile.Codec.{
  CodecError, short_buffer, bad_magic, bad_version, bad_header_length, bad_header, crc_mismatch,
  byte_at,
}

abbrev pub header_length : ℕ
header_length = 135

-- "DSR1"
abbrev pub header_magic : List ℕ
header_magic = 0x44 ∷ 0x53 ∷ 0x52 ∷ 0x31 ∷ []

abbrev pub format_version : ℕ
format_version = 1

pub record Header : Type 0 where
  pub logical_sector_size : ℕ  -- uint32
  pub expected_sector_count : ℕ  -- uint64
  pub output_format : ℕ  -- uint16
  pub identity_algorithm_version : ℕ  -- uint16
  pub layout_sha256 : List ℕ  -- [32]byte
  pub quick_content_id_present : Bool
  pub quick_content_id : List ℕ  -- [16]byte
  pub capture_id : List ℕ  -- [16]byte
  pub catalog_record_id_present : Bool
  pub catalog_record_id : List ℕ  -- [16]byte
  pub job_id : List ℕ  -- [16]byte
  pub creation_unix_nano : ℕ  -- the bits of an int64, as a uint64
  pub clean_shutdown : Bool

unfoldable pub validate_header : Header → Result CodecError Unit
validate_header h = do
  guard (not (h.logical_sector_size == 0)) bad_header
  guard (not (h.expected_sector_count == 0)) bad_header

abbrev pub flag_byte : Bool → ℕ
flag_byte true = 1
flag_byte false = 0

-- The bytes in front of the checksum; a field `n` of the record starts where the last one ends.
unfoldable pub header_body : Header → List ℕ
header_body h =
    header_magic
    ++ (le_bytes 2 format_version
        ++ (le_bytes 2 header_length
            ++ (le_bytes 4 h.logical_sector_size
                ++ (le_bytes 8 h.expected_sector_count
                    ++ (le_bytes 2 h.output_format
                        ++ (le_bytes 2 h.identity_algorithm_version
                            ++ (h.layout_sha256
                                ++ (flag_byte h.quick_content_id_present
                                    ∷ (h.quick_content_id
                                        ++ (h.capture_id
                                            ++ (flag_byte h.catalog_record_id_present
                                                ∷ (h.catalog_record_id
                                                    ++ (h.job_id
                                                        ++ (le_bytes 8 h.creation_unix_nano
                                                            ++ (flag_byte h.clean_shutdown
                                                            ∷ [])))))))))))))))

unfoldable pub marshal_header : Header → Result CodecError (List ℕ)
marshal_header h = do validate_header h; ok (header_body h ++ le_bytes 4 (crc32c (header_body h)))

-- The fields that `UnmarshalHeader` reads.
unfoldable pub header_of_bytes : List ℕ → Header
header_of_bytes bs = record {
  logical_sector_size = le_value (slice 8 12 bs);
  expected_sector_count = le_value (slice 12 20 bs);
  output_format = le_value (slice 20 22 bs);
  identity_algorithm_version = le_value (slice 22 24 bs);
  layout_sha256 = slice 24 56 bs;
  quick_content_id_present = byte_at 56 bs == 1;
  quick_content_id = slice 57 73 bs;
  capture_id = slice 73 89 bs;
  catalog_record_id_present = byte_at 89 bs == 1;
  catalog_record_id = slice 90 106 bs;
  job_id = slice 106 122 bs;
  creation_unix_nano = le_value (slice 122 130 bs);
  clean_shutdown = byte_at 130 bs == 1;
}

unfoldable pub unmarshal_header : List ℕ → Result CodecError Header
unmarshal_header bs = do
  guard (not (ltb (length bs) header_length)) short_buffer
  guard (bytes_eq (slice 0 4 bs) header_magic) bad_magic
  guard (le_value (slice 4 6 bs) == format_version) bad_version
  guard (le_value (slice 6 8 bs) == header_length) bad_header_length
  guard (le_value (slice 131 135 bs) == crc32c (take 131 bs)) crc_mismatch
  validate_header (header_of_bytes bs)
  ok (header_of_bytes bs)
