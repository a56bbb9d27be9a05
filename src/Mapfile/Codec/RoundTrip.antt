-- ===== src/Mapfile/Codec/RoundTrip.antt =====
-- Journal records are read back as they were written.
use disc_rescue.Prelude.{
  ℕ, ◌≤◌, ◌<◌, ◌^◌, ◌≡◌, refl, ◌∙◌, ap, Option, none, some, List, [], ◌++◌, arith, length, take, ok,
  err,
}
use disc_rescue.Mapfile.Extent.{Extent}
use disc_rescue.Mapfile.Valid.{IsValid}
use disc_rescue.Mapfile.Codec.{
  truncated_record, RecordType, job_created, extent_state_changed, other_type, record_type_code,
  decode_record_type, JournalRecord, payload_bytes, validate_record, frame, marshal_journal_record,
  decode_body, unmarshal_journal_record,
}
use disc_rescue.Mapfile.Codec.Laws.{IsTyped, unmarshal_extent-marshal_extent}
use disc_rescue.Mapfile.Codec.Journal.{unmarshal-frame, length-frame, unmarshal_journal_record-cut}

-- An extent record holds a valid extent and no other payload; the other ten types hold a payload
-- of at most 2^20 bytes and no extent.
abbrev pub Shape : RecordType → Option Extent → List ℕ → Type 0
Shape extent_state_changed (some e) p = IsTyped e × IsValid e × (p ≡ [])
Shape extent_state_changed none p = ⊥
Shape (other_type s) o p = ⊥
Shape t (some e) p = ⊥
Shape t none p = length p ≤ 2 ^ 20

pub record IsStorable (r : JournalRecord) : Type 0 where
  pub numbered : 0 < r.sequence
  pub sequence_fits : r.sequence < 2 ^ 64
  pub shaped : Shape r.type r.extent r.payload

-- The payload that is written, and what it is decoded to.
record Stored (r : JournalRecord) : Type 0 where
  bytes : List ℕ
  written : payload_bytes r ≡ ok bytes
  short : length bytes ≤ 2 ^ 20
  type_read : decode_record_type (record_type_code r.type) ≡ ok r.type
  body_read : decode_body r.type r.sequence bytes ≡ ok r

stored_extent :
    (n : ℕ) (e : Extent) (p : List ℕ)
    → IsTyped e
    → IsValid e
    → p ≡ []
    → Stored (record { type = extent_state_changed; sequence = n; extent = some e; payload = p })
unfolding payload_bytes decode_record_type record_type_code decode_body
stored_extent n e p t v h =
    let (bs, w, l, r) = unmarshal_extent-marshal_extent e t v in
    record { bytes = bs; written = w; short = omega arith; type_read = refl; body_read = rw (r, h) }

IsStorable-Stored :
    (t : RecordType) (n : ℕ) (o : Option Extent) (p : List ℕ)
    → Shape t o p
    → Stored (record { type = t; sequence = n; extent = o; payload = p })
unfolding payload_bytes decode_record_type record_type_code decode_body
IsStorable-Stored extent_state_changed n (some e) p (t, v, h) = stored_extent n e p t v h
IsStorable-Stored extent_state_changed n none p h = absurd h
IsStorable-Stored (other_type s) n o p h = absurd h
IsStorable-Stored job_created n none p h = record {
  bytes = p;
  written = refl;
  short = h;
  type_read = refl;
  body_read = refl;
}
IsStorable-Stored job_created n (some e) p h = absurd h
IsStorable-Stored _ n none p h = record {
  bytes = p;
  written = refl;
  short = h;
  type_read = refl;
  body_read = refl;
}
IsStorable-Stored _ n (some e) p h = absurd h

module _ (r : JournalRecord) (s : IsStorable r) where
  stored : Stored r
  stored = IsStorable-Stored r.type r.sequence r.extent r.payload s.shaped

  validate_record-ok : validate_record r ≡ ok tt
  unfolding validate_record
  validate_record-ok = rw (stored.written) (ground (arith, s.numbered, stored.short))

  -- A storable record is written as one frame, and read back from it with the frame's length,
  -- whatever bytes follow.
  pub unmarshal-marshal_journal_record :
      (rest : List ℕ)
      → (bs : List ℕ) × (marshal_journal_record r ≡ ok bs)
        × (unmarshal_journal_record (bs ++ rest) ≡ ok (r, length bs))
  unfolding marshal_journal_record
  unmarshal-marshal_journal_record rest =
      let bs = frame r.type r.sequence stored.bytes in
      (
        bs,
        rw (validate_record-ok, stored.written),
        unmarshal-frame r.type r.sequence stored.bytes rest s.sequence_fits stored.short
            ∙ rw (stored.type_read) (
                rw (stored.body_read) (
                  rw validate_record-ok (
                    rw (
                      length-frame r.type r.sequence stored.bytes rest s.sequence_fits
                        stored.short)))),
      )

  marshal-eq-frame :
      (bs : List ℕ) → marshal_journal_record r ≡ ok bs → frame r.type r.sequence stored.bytes ≡ bs
  marshal-eq-frame bs h = let (bs', h1, h2) = unmarshal-marshal_journal_record [] in cc (frame_of)
    where
      frame_of : marshal_journal_record r ≡ ok (frame r.type r.sequence stored.bytes)
      frame_of = unfold marshal_journal_record in rw (validate_record-ok, stored.written)

  -- A storable record is written as the frame of a payload of at most 2^20 bytes.
  pub marshal_journal_record-frame :
      (bs : List ℕ)
      → marshal_journal_record r ≡ ok bs
      → (p : List ℕ) × (length p ≤ 2 ^ 20) × (frame r.type r.sequence p ≡ bs)
  marshal_journal_record-frame bs h = (stored.bytes, stored.short, marshal-eq-frame bs h)

  -- A storable record that was written only in part reads as a truncated record.
  pub unmarshal-torn_journal_record :
      (bs : List ℕ) (k : ℕ)
      → marshal_journal_record r ≡ ok bs
      → k < length bs
      → unmarshal_journal_record (take k bs) ≡ err truncated_record
  unmarshal-torn_journal_record bs k h lt =
      let e = marshal-eq-frame bs h in
      rw (← e) (
        unmarshal_journal_record-cut r.type r.sequence stored.bytes [] s.sequence_fits stored.short
          k
          (omega (
            arith,
            ap length e,
            length-frame r.type r.sequence stored.bytes [] s.sequence_fits stored.short,
          )))
