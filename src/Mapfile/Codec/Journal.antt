-- ===== src/Mapfile/Codec/Journal.antt =====
-- A journal record is read back from its bytes whatever follows them, and a record that was cut
-- off is recognised as such.
use disc_rescue.Prelude.{
  ℕ, suc, ◌+◌, ◌-◌, ◌^◌, ◌≤◌, ◌<◌, ◌≡◌, ap, ◌∙◌, true, false, List, ◌++◌, append_assoc, arith, ltb,
  ◌==◌, length, take, drop, length-append, take-append, drop-append, length-take, ok, err, ◌>>=◌,
  ◌>>◌, Bool-cases, inl, inr, ltb→lt,
}
use disc_rescue.Prelude.Bytes.{
  le_bytes, le_value, slice, crc32c, crc32c-lt, le_value-le_bytes_two, le_value-le_bytes_four,
  le_value-le_bytes_eight,
}
use disc_rescue.Mapfile.Codec.{
  truncated_record, RecordType, job_created, record_type_code, decode_record_type,
  max_journal_payload_bytes, validate_record, record_body, frame, decode_body,
  unmarshal_journal_record, other_type,
}

lt_false : (a b : ℕ) → b ≤ a → ltb a b ≡ false
lt_false a b h = ground arith

lt_true : (a b : ℕ) → a < b → ltb a b ≡ true
lt_true a b h = ground arith

not_ltb→le : (a b : ℕ) → ltb a b ≡ false → b ≤ a
not_ltb→le a b h = ground arith

eq_true : (a : ℕ) → (a == a) ≡ true
eq_true a = ground arith

record_type_code-lt : (t : RecordType) → record_type_code t < 2 ^ 16
unfolding record_type_code
record_type_code-lt (other_type s) = omega arith
record_type_code-lt job_created = omega arith
record_type_code-lt _ = omega arith

fourteen :
    (k : ℕ)
    → 18 ≤ k
    → (j : ℕ) × (k
        ≡ suc (suc (suc (suc (suc (suc (suc (suc (suc (suc (suc (suc (suc (suc j))))))))))))))
fourteen k h = (k - 14, omega arith)

module _ (t : RecordType) (n : ℕ) (p rest : List ℕ) (hn : n < 2 ^ 64) (hp : length p ≤ 2 ^ 20) where
  pub length-frame : length (frame t n p) ≡ 18 + length p
  unfolding frame
  length-frame = omega (arith, length-append p (le_bytes 4 (crc32c (record_body t n p))))

  declared_length : le_value (slice 10 14 (frame t n p ++ rest)) ≡ length p
  unfolding frame
  declared_length = le_value-le_bytes_four (length p) (omega arith)

  declared_type : le_value (slice 0 2 (frame t n p ++ rest)) ≡ record_type_code t
  unfolding frame
  declared_type = le_value-le_bytes_two (record_type_code t) (record_type_code-lt t)

  declared_sequence : le_value (slice 2 10 (frame t n p ++ rest)) ≡ n
  unfolding frame
  declared_sequence = le_value-le_bytes_eight n hn

  declared_payload : slice 14 (18 + length p - 4) (frame t n p ++ rest) ≡ p
  unfolding frame
  declared_payload = rw append_assoc (take-append _ p _ (omega arith))

  length-body : length (record_body t n p) ≡ 18 + length p - 4
  length-body = omega arith

  declared_body : take (18 + length p - 4) (frame t n p ++ rest) ≡ record_body t n p
  unfolding frame
  declared_body =
      let eq = append_assoc (record_body t n p) (le_bytes 4 (crc32c (record_body t n p))) rest in
      ap (take (18 + length p - 4)) eq
      ∙ take-append (18 + length p - 4) (record_body t n p) _ length-body

  declared_crc :
      le_value (slice (18 + length p - 4) (18 + length p) (frame t n p ++ rest))
      ≡ crc32c (record_body t n p)
  unfolding frame
  declared_crc =
      let crc : List ℕ = le_bytes 4 (crc32c (record_body t n p)) in
      let eq = append_assoc (record_body t n p) crc rest in
      let tail = drop-append (18 + length p - 4) (record_body t n p) (crc ++ rest) length-body in
      let four : 18 + length p - (18 + length p - 4) ≡ 4 = omega arith in
      ap (λ bs. le_value (take (18 + length p - (18 + length p - 4)) (drop (18 + length p - 4) bs)))
        eq
      ∙ ap (λ bs. le_value (take (18 + length p - (18 + length p - 4)) bs)) tail
      ∙ ap (λ k. le_value (take k (crc ++ rest))) four
      ∙ le_value-le_bytes_four _ (crc32c-lt (record_body t n p))

  -- What `UnmarshalJournalRecord` makes of a frame, whatever follows it.
  pub unmarshal-frame : unmarshal_journal_record (frame t n p ++ rest) ≡ (do
    t' ← decode_record_type (record_type_code t)
    r ← decode_body t' n p
    validate_record r
    ok (r, 18 + length p))
  unfolding unmarshal_journal_record
  unmarshal-frame = rw (
    lt_false (length (frame t n p ++ rest)) 18 (omega (arith, whole)),
    declared_length,
    lt_false (length (frame t n p ++ rest)) (18 + length p) (omega (arith, whole)),
    lt_false max_journal_payload_bytes (length p) hp,
    declared_crc,
    declared_body,
    eq_true (crc32c (record_body t n p)),
    declared_type,
    declared_sequence,
    declared_payload,
  )
    where
      whole : length (frame t n p ++ rest) ≡ 18 + length p + length rest
      whole = omega (arith, length-append (frame t n p) rest, length-frame)

  -- A frame that was cut off anywhere is a truncated record.
  pub unmarshal_journal_record-cut :
      (k : ℕ)
      → k < 18 + length p
      → unmarshal_journal_record (take k (frame t n p)) ≡ err truncated_record
  unfolding unmarshal_journal_record
  unmarshal_journal_record-cut k h = elim (Bool-cases (ltb k 18)) [
    | inl short ↦
        rw (lt_true (length (take k (frame t n p))) 18 (omega (arith, cut, ltb→lt k 18 short)))
    | inr long ↦ rw (
      lt_false (length (take k (frame t n p))) 18 (omega (arith, cut, not_ltb→le k 18 long)),
      header k (not_ltb→le k 18 long),
      lt_true (length (take k (frame t n p))) (18 + length p) (omega (arith, cut)),
    )
  ]
    where
      cut : length (take k (frame t n p)) ≡ k
      cut = omega (arith, length-take k (frame t n p), length-frame)

      header : (k : ℕ) → 18 ≤ k → le_value (slice 10 14 (take k (frame t n p))) ≡ length p
      header k le =
          let (j, e) = fourteen k le in
          ap (λ m. le_value (slice 10 14 (take m (frame t n p)))) e
          ∙ unfold frame in le_value-le_bytes_four (length p) (omega arith)
