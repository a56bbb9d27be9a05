-- ===== src/Mapfile/Codec/Laws.antt =====
-- Round trips of the extent and journal codecs.
use disc_rescue.Prelude.{
  ℕ, ◌+◌, ◌^◌, ◌<◌, ◌≡◌, refl, List, [], ◌∷◌, arith, ◌*◌, ◌∙◌, zero, suc, ap, length, take, ok,
}
use disc_rescue.Mapfile.State.{
  state_code, confidence_code, state_of_code, confidence_of_code, state_of_code-state_code,
  confidence_of_code-confidence_code,
}
use disc_rescue.Prelude.Bytes.{
  le_value-le_bytes_two, le_value-le_bytes_four, le_value-le_bytes_eight,
}
use disc_rescue.Mapfile.Extent.{Extent}
use disc_rescue.Mapfile.Valid.{IsValid, IsValid→validate}
use disc_rescue.Mapfile.Codec.{extent_bytes, extent_of_bytes, marshal_extent, unmarshal_extent}

-- The fields have the widths of their Go types.
pub record IsTyped (e : Extent) : Type 0 where
  pub start_fits : e.start_lba < 2 ^ 64
  pub sectors_fit : e.sectors < 2 ^ 32
  pub attempts_fit : e.attempts < 2 ^ 16
  pub capture_fits : e.capture_id < 2 ^ 32
  pub hash_length : length e.data_hash ≡ 16

take_all {ℓ} : {A : Type ℓ} (xs : List A) (n : ℕ) → length xs ≡ n → take n xs ≡ xs
take_all [] zero h = refl
take_all [] (suc n) h = refl
take_all (x ∷ xs) zero h = absurd (omega arith)
take_all (x ∷ xs) (suc n) h = ap (λ t. x ∷ t) (take_all xs n (omega arith))

one_byte : (n : ℕ) → n + 256 * 0 ≡ n
one_byte n = omega arith

extent_of_bytes-extent_bytes : (e : Extent) → IsTyped e → extent_of_bytes (extent_bytes e) ≡ e
unfolding extent_of_bytes extent_bytes
extent_of_bytes-extent_bytes e t = λ i. record {
  start_lba = le_value-le_bytes_eight e.start_lba t.start_fits i;
  sectors = le_value-le_bytes_four e.sectors t.sectors_fit i;
  state = (ap state_of_code (one_byte (state_code e.state)) ∙ state_of_code-state_code e.state) i;
  confidence =
      (ap confidence_of_code (one_byte (confidence_code e.confidence))
          ∙ confidence_of_code-confidence_code e.confidence)
        i;
  attempts = le_value-le_bytes_two e.attempts t.attempts_fit i;
  capture_id = le_value-le_bytes_four e.capture_id t.capture_fits i;
  last_sense_key = one_byte e.last_sense_key i;
  last_asc = one_byte e.last_asc i;
  last_ascq = one_byte e.last_ascq i;
  data_hash = take_all e.data_hash 16 t.hash_length i;
}

length-extent_bytes : (e : Extent) → IsTyped e → length (extent_bytes e) ≡ 39
unfolding extent_bytes
length-extent_bytes e t = omega (arith, t.hash_length)

-- A valid extent whose fields fit their Go types is written as 39 bytes, from which
-- `UnmarshalExtent` reads it back.
pub unmarshal_extent-marshal_extent :
    (e : Extent)
    → IsTyped e
    → IsValid e
    → (bs : List ℕ) × (marshal_extent e ≡ ok bs) × (length bs ≡ 39) × (unmarshal_extent bs ≡ ok e)
unfolding marshal_extent unmarshal_extent
unmarshal_extent-marshal_extent e t v = (
  extent_bytes e,
  rw (IsValid→validate e v),
  length-extent_bytes e t,
  rw (length-extent_bytes e t, extent_of_bytes-extent_bytes e t, IsValid→validate e v),
)
