-- ===== src/Mapfile/Codec.antt =====
-- internal/mapfile/codec.go, journal.go and journal_codec.go: extents and journal records as bytes.
-- A byte slice is a list of numbers; an encoder that fills a buffer at fixed offsets is the
-- concatenation of its parts in that order.
pub mod Laws
pub mod Journal
pub mod RoundTrip
use disc_rescue.Prelude.{
  ℕ, ◌+◌, ◌-◌, ◌^◌, Bool, true, false, ◌&&◌, not, Option, none, some, List, [], ◌∷◌, ◌++◌, ltb,
  ◌==◌, if◌then◌else◌, length, take, drop, String, Result, ok, err, guard, ◌>>=◌, ◌>>◌,
}
use disc_rescue.Prelude.Bytes.{le_bytes, le_value, slice, crc32c}
use disc_rescue.Mapfile.State.{state_code, confidence_code, state_of_code, confidence_of_code}
use disc_rescue.Mapfile.Extent.{Extent, MapError, validate}

pub data CodecError : Type 0 where
  truncated_record wrong_length payload_too_long crc_mismatch bad_record_type zero_sequence :
      CodecError
  short_buffer bad_magic bad_version bad_header_length bad_header bad_payload_length : CodecError
  too_many_extents small_limit non_monotonic_sequence reader_required read_failed : CodecError
  bad_map : MapError → CodecError

abbrev pub lift_map : {A : Type 0} → Result MapError A → Result CodecError A
lift_map (ok a) = ok a
lift_map (err e) = err (bad_map e)

abbrev pub extent_encoded_bytes : ℕ
extent_encoded_bytes = 39

-- The 39 bytes that `MarshalExtent` writes.
unfoldable pub extent_bytes : Extent → List ℕ
extent_bytes e =
    le_bytes 8 e.start_lba
    ++ (le_bytes 4 e.sectors
        ++ (state_code e.state ∷ confidence_code e.confidence ∷ []
            ++ (le_bytes 2 e.attempts
                ++ (le_bytes 4 e.capture_id
                    ++ (e.last_sense_key ∷ e.last_asc ∷ e.last_ascq ∷ [] ++ e.data_hash)))))

unfoldable pub marshal_extent : Extent → Result CodecError (List ℕ)
marshal_extent e = do lift_map (validate e); ok (extent_bytes e)

abbrev pub byte_at : ℕ → List ℕ → ℕ
byte_at i bs = le_value (slice i (i + 1) bs)

-- The fields that `UnmarshalExtent` reads.
unfoldable pub extent_of_bytes : List ℕ → Extent
extent_of_bytes bs = record {
  start_lba = le_value (slice 0 8 bs);
  sectors = le_value (slice 8 12 bs);
  state = state_of_code (byte_at 12 bs);
  confidence = confidence_of_code (byte_at 13 bs);
  attempts = le_value (slice 14 16 bs);
  capture_id = le_value (slice 16 20 bs);
  last_sense_key = byte_at 20 bs;
  last_asc = byte_at 21 bs;
  last_ascq = byte_at 22 bs;
  data_hash = slice 23 39 bs;
}

unfoldable pub unmarshal_extent : List ℕ → Result CodecError Extent
unmarshal_extent bs = do
  guard (length bs == extent_encoded_bytes) wrong_length
  lift_map (validate (extent_of_bytes bs))
  ok (extent_of_bytes bs)

-- `RecordType`, a string; `other_type` is any string but the eleven constants.
pub data RecordType : Type 0 where
  job_created capture_opened pass_started data_written extent_state_changed : RecordType
  error_recorded media_reidentified checkpoint_committed pass_finished : RecordType
  job_stopped job_completed : RecordType
  other_type : String → RecordType

unfoldable pub record_type_code : RecordType → ℕ
record_type_code job_created = 1
record_type_code capture_opened = 2
record_type_code pass_started = 3
record_type_code data_written = 4
record_type_code extent_state_changed = 5
record_type_code error_recorded = 6
record_type_code media_reidentified = 7
record_type_code checkpoint_committed = 8
record_type_code pass_finished = 9
record_type_code job_stopped = 10
record_type_code job_completed = 11
record_type_code (other_type s) = 0

unfoldable pub decode_record_type : ℕ → Result CodecError RecordType
decode_record_type n =
    if n == 1
    then ok job_created
    else if n == 2
    then ok capture_opened
    else if n == 3
    then ok pass_started
    else if n == 4
    then ok data_written
    else if n == 5
    then ok extent_state_changed
    else if n == 6
    then ok error_recorded
    else if n == 7
    then ok media_reidentified
    else if n == 8
    then ok checkpoint_committed
    else if n == 9
    then ok pass_finished
    else if n == 10
    then ok job_stopped
    else if n == 11
    then ok job_completed
    else err bad_record_type

pub record JournalRecord : Type 0 where
  pub type : RecordType
  pub sequence : ℕ  -- uint64
  pub extent : Option Extent
  pub payload : List ℕ

abbrev pub max_journal_payload_bytes : ℕ
max_journal_payload_bytes = 2 ^ 20

unfoldable pub payload_bytes : JournalRecord → Result CodecError (List ℕ)
payload_bytes r = elim (r.extent) [ some e ↦ marshal_extent e | none ↦ ok (r.payload) ]

unfoldable pub validate_record : JournalRecord → Result CodecError Unit
validate_record r = do
  guard (not (r.sequence == 0)) zero_sequence
  payload ← payload_bytes r
  guard (not (ltb max_journal_payload_bytes (length payload))) payload_too_long

-- A record's bytes in front of its checksum, and with it.
abbrev pub record_body : RecordType → ℕ → List ℕ → List ℕ
record_body t n payload =
    le_bytes 2 (record_type_code t) ++ (le_bytes 8 n ++ (le_bytes 4 (length payload) ++ payload))

unfoldable pub frame : RecordType → ℕ → List ℕ → List ℕ
frame t n payload = record_body t n payload ++ le_bytes 4 (crc32c (record_body t n payload))

unfoldable pub marshal_journal_record : JournalRecord → Result CodecError (List ℕ)
marshal_journal_record r = do
  validate_record r
  payload ← payload_bytes r
  ok (frame r.type r.sequence payload)

abbrev pub is_extent_record : RecordType → Bool
is_extent_record extent_state_changed = true
is_extent_record _ = false

-- The last part of `UnmarshalJournalRecord`: an extent record's payload is decoded.
unfoldable pub decode_body : RecordType → ℕ → List ℕ → Result CodecError JournalRecord
decode_body t n payload =
    if is_extent_record t
    then (do
      e ← unmarshal_extent payload
      ok (record { type = t; sequence = n; extent = some e; payload = [] }))
    else ok (record { type = t; sequence = n; extent = none; payload = payload })

-- The record at the front of the bytes, and how many bytes it takes.
unfoldable pub unmarshal_journal_record : List ℕ → Result CodecError (JournalRecord × ℕ)
unmarshal_journal_record bs = do
  guard (not (ltb (length bs) 18)) truncated_record
  let payload_length = le_value (slice 10 14 bs)
  let total = 18 + payload_length
  guard (not (ltb (length bs) total)) truncated_record
  guard (not (ltb max_journal_payload_bytes payload_length)) payload_too_long
  guard (le_value (slice (total - 4) total bs) == crc32c (take (total - 4) bs)) crc_mismatch
  t ← decode_record_type (le_value (slice 0 2 bs))
  r ← decode_body t (le_value (slice 2 10 bs)) (slice 14 (total - 4) bs)
  validate_record r
  ok (r, total)

unfoldable pub append_journal_record : List ℕ → JournalRecord → Result CodecError (List ℕ)
append_journal_record journal r = do bs ← marshal_journal_record r; ok (journal ++ bs)
