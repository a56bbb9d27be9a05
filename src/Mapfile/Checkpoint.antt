-- ===== src/Mapfile/Checkpoint.antt =====
-- internal/mapfile/checkpoint.go and checkpoint_codec.go: the extents that a map starts with.
pub mod Laws
use disc_rescue.Prelude.{
  ℕ, zero, suc, ◌+◌, ◌-◌, ◌*◌, ◌^◌, not, ◌||◌, ◌&&◌, List, [], ◌∷◌, ◌++◌, ltb, ◌==◌, length, take,
  drop, u64, Result, ok, err, guard, ◌>>=◌, ◌>>◌,
}
use disc_rescue.Prelude.Bytes.{le_bytes, le_value, slice, crc32c}
use disc_rescue.Mapfile.Extent.{Extent, bytes_eq, validate_extent_set}
use disc_rescue.Mapfile.Codec.{
  CodecError, short_buffer, bad_magic, bad_version, bad_payload_length, wrong_length, crc_mismatch,
  too_many_extents, small_limit, truncated_record, lift_map, extent_encoded_bytes, marshal_extent,
  unmarshal_extent,
}
use disc_rescue.Mapfile.Replay.{Checkpoint}
use disc_rescue.Mapfile.Header.{format_version}

-- "DSCP"
abbrev pub checkpoint_magic : List ℕ
checkpoint_magic = 0x44 ∷ 0x53 ∷ 0x43 ∷ 0x50 ∷ []

abbrev pub checkpoint_fixed_payload_bytes : ℕ
checkpoint_fixed_payload_bytes = 12

pub record DecodeLimits : Type 0 where
  pub max_checkpoint_payload_bytes : ℕ  -- uint64
  pub max_checkpoint_extents : ℕ  -- uint64

abbrev pub default_decode_limits : DecodeLimits
default_decode_limits = record {
  max_checkpoint_payload_bytes = 2 ^ 26;
  max_checkpoint_extents = 2 ^ 20;
}

-- The loop of `MarshalCheckpoint`.
unfoldable pub marshal_extents : List Extent → Result CodecError (List ℕ)
marshal_extents [] = ok []
marshal_extents (e ∷ es) = do
  extent_bytes ← marshal_extent e
  rest ← marshal_extents es
  ok (extent_bytes ++ rest)

abbrev pub payload_length : Checkpoint → ℕ
payload_length c = 12 + length c.extents * extent_encoded_bytes

-- The bytes in front of the checksum.
unfoldable pub checkpoint_body : Checkpoint → List ℕ → List ℕ
checkpoint_body c extents =
    checkpoint_magic
    ++ (le_bytes 2 format_version
        ++ (le_bytes 4 (payload_length c)
            ++ (le_bytes 8 c.last_sequence ++ (le_bytes 4 (length c.extents) ++ extents))))

unfoldable pub marshal_checkpoint : Checkpoint → Result CodecError (List ℕ)
marshal_checkpoint c = do
  lift_map (validate_extent_set c.extents)
  guard (not (ltb default_decode_limits.max_checkpoint_extents (length c.extents))) too_many_extents
  guard
      (not (
        ltb default_decode_limits.max_checkpoint_payload_bytes (payload_length c)
        || ltb (2 ^ 32 - 1) (payload_length c)))
      bad_payload_length
  extents ← marshal_extents c.extents
  ok (checkpoint_body c extents ++ le_bytes 4 (crc32c (checkpoint_body c extents)))

-- The loop of `UnmarshalCheckpointWithLimits`; the bytes are those from the offset to the checksum.
unfoldable pub read_extents : ℕ → List ℕ → Result CodecError (List Extent)
read_extents zero bs = ok []
read_extents (suc count) bs = do
  guard (not (ltb (length bs) extent_encoded_bytes)) truncated_record
  e ← unmarshal_extent (take extent_encoded_bytes bs)
  es ← read_extents count (drop extent_encoded_bytes bs)
  ok (e ∷ es)

unfoldable pub unmarshal_checkpoint_with_limits :
    List ℕ → DecodeLimits → Result CodecError Checkpoint
unmarshal_checkpoint_with_limits bs limits = do
  guard (not (ltb limits.max_checkpoint_payload_bytes checkpoint_fixed_payload_bytes)) small_limit
  guard (not (ltb (length bs) 26)) short_buffer
  guard (bytes_eq (slice 0 4 bs) checkpoint_magic) bad_magic
  guard (le_value (slice 4 6 bs) == format_version) bad_version
  let declared = le_value (slice 6 10 bs)
  guard (not (ltb declared checkpoint_fixed_payload_bytes)) bad_payload_length
  guard (not (ltb limits.max_checkpoint_payload_bytes declared)) bad_payload_length
  guard (length bs == 14 + declared) wrong_length
  guard (le_value (slice (length bs - 4) (length bs) bs) == crc32c (take (length bs - 4) bs))
      crc_mismatch
  let count = le_value (slice 18 22 bs)
  let expected = u64 (checkpoint_fixed_payload_bytes + u64 (count * extent_encoded_bytes))
  guard (not (not (count == 0) && ltb expected checkpoint_fixed_payload_bytes)) bad_payload_length
  guard (expected == declared) bad_payload_length
  guard (not (ltb limits.max_checkpoint_extents count)) too_many_extents
  guard (not (ltb (2 ^ 63 - 1) count)) too_many_extents
  extents ← read_extents count (slice 22 (length bs - 4) bs)
  lift_map (validate_extent_set extents)
  ok (record { last_sequence = le_value (slice 10 18 bs); extents = extents })

unfoldable pub unmarshal_checkpoint : List ℕ → Result CodecError Checkpoint
unmarshal_checkpoint bs = unmarshal_checkpoint_with_limits bs default_decode_limits
