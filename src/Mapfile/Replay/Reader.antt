-- ===== src/Mapfile/Replay/Reader.antt =====
-- The two reads of a round of `ReplayJournalReader`, on a record and on a part of one.
use disc_rescue.Prelude.{
  ℕ, suc, ◌+◌, ◌-◌, ◌≤◌, ◌<◌, ◌^◌, ◌≡◌, refl, ap, ◌∙◌, true, false, none, some, List, ◌++◌, arith,
  ltb, length, take, length-append, take-append, drop-append, length-take, ok, err, Bool-cases, inl,
  inr,
}
use disc_rescue.Prelude.Bytes.{le_bytes, le_value, slice, crc32c, le_value-le_bytes_four}
use disc_rescue.Mapfile.Codec.{
  frame, RecordType, record_type_code, record_body, max_journal_payload_bytes,
}
use disc_rescue.Mapfile.Replay.{Stream, read_full, next_record}

-- A reader that ends after these bytes, with no error.
abbrev pub ending : List ℕ → Stream
ending bs = record { bytes = bs; broken = false }

read_full-whole :
    (n : ℕ) (bs rest : List ℕ)
    → length bs ≡ n
    → read_full n (ending (bs ++ rest)) ≡ ok (bs, ending rest)
unfolding read_full
read_full-whole n bs rest h = rw (lt_false, take-append n bs rest h, drop-append n bs rest h)
  where
    lt_false : ltb (length (bs ++ rest)) n ≡ false
    lt_false = ground (arith, length-append bs rest)

read_full-short : (n : ℕ) (bs : List ℕ) → length bs < n → read_full n (ending bs) ≡ err false
unfolding read_full
read_full-short n bs h = rw lt_true
  where
    lt_true : ltb (length bs) n ≡ true
    lt_true = ground arith

-- A frame is 14 bytes, which the first read of a round asks for, and the bytes of the second read.
abbrev frame_head : RecordType → ℕ → List ℕ → List ℕ
frame_head t n p = le_bytes 2 (record_type_code t) ++ (le_bytes 8 n ++ le_bytes 4 (length p))

abbrev frame_tail : RecordType → ℕ → List ℕ → List ℕ
frame_tail t n p = p ++ le_bytes 4 (crc32c (record_body t n p))

abbrev past_header : ℕ → ℕ
past_header j = suc (suc (suc (suc (suc (suc (suc (suc (suc (suc (suc (suc (suc (suc j)))))))))))))

fourteen : (k : ℕ) → 14 ≤ k → (j : ℕ) × (k ≡ past_header j)
fourteen k h = (k - 14, omega arith)

limit_passed : (n : ℕ) → n ≤ 2 ^ 20 → ltb max_journal_payload_bytes n ≡ false
limit_passed n h = ground arith

next_record-reads :
    (s s1 s2 : Stream) (header payload : List ℕ)
    → read_full 14 s ≡ ok (header, s1)
    → ltb max_journal_payload_bytes (le_value (slice 10 14 header)) ≡ false
    → read_full (le_value (slice 10 14 header) + 4) s1 ≡ ok (payload, s2)
    → next_record s ≡ ok (some (header ++ payload, s2))
unfolding next_record
next_record-reads s s1 s2 header payload h1 h2 h3 = rw (h1, next_record) (rw h2 (rw (h3)))

next_record-no_header : (s : Stream) → read_full 14 s ≡ err false → next_record s ≡ ok none
unfolding next_record
next_record-no_header s h = rw (h, next_record)

next_record-no_payload :
    (s s1 : Stream) (header : List ℕ)
    → read_full 14 s ≡ ok (header, s1)
    → ltb max_journal_payload_bytes (le_value (slice 10 14 header)) ≡ false
    → read_full (le_value (slice 10 14 header) + 4) s1 ≡ err false
    → next_record s ≡ ok none
unfolding next_record
next_record-no_payload s s1 header h1 h2 h3 = rw (h1, next_record) (rw h2 (rw (h3)))

module _ (t : RecordType) (n : ℕ) (p : List ℕ) (hp : length p ≤ 2 ^ 20) where
  declared_length : le_value (slice 10 14 (frame_head t n p)) ≡ length p
  declared_length = le_value-le_bytes_four (length p) (omega arith)

  length-frame_tail : length (frame_tail t n p) ≡ length p + 4
  length-frame_tail = omega (arith, length-append p (le_bytes 4 (crc32c (record_body t n p))))

  within : ltb max_journal_payload_bytes (le_value (slice 10 14 (frame_head t n p))) ≡ false
  within = ap (ltb max_journal_payload_bytes) declared_length ∙ limit_passed (length p) hp

  pub next_record-frame :
      (rest : List ℕ)
      → next_record (ending (frame t n p ++ rest)) ≡ ok (some (frame t n p, ending rest))
  unfolding frame
  next_record-frame rest =
      next_record-reads _ (ending (frame_tail t n p ++ rest)) (ending rest) (frame_head t n p)
        (frame_tail t n p) (read_full-whole 14 (frame_head t n p) (frame_tail t n p ++ rest) refl)
        within
        (rw (ap (λ m. m + 4) declared_length)
          (read_full-whole (length p + 4) (frame_tail t n p) rest length-frame_tail))

  pub length-frame : length (frame t n p) ≡ 18 + length p
  unfolding frame
  length-frame = omega (arith, length-frame_tail)

  pub next_record-cut :
      (k : ℕ) → k < 18 + length p → next_record (ending (take k (frame t n p))) ≡ ok none
  next_record-cut k h = elim (Bool-cases (ltb k 14)) [
    | inl short ↦ next_record-no_header _ (
        read_full-short 14 (take k (frame t n p))
          (ground (arith, length-take k (frame t n p), length-frame, short)))
    | inr long ↦ let (j, e) = fourteen k (ground (arith, long)) in rw e (long_cut j (omega arith))
  ]
    where
      long_cut :
          (j : ℕ)
          → j < 4 + length p
          → next_record (ending (take (past_header j) (frame t n p))) ≡ ok none
      long_cut j lt =
          unfold frame in
          next_record-no_payload _ (ending (take j (frame_tail t n p))) (frame_head t n p)
            (read_full-whole 14 (frame_head t n p) (take j (frame_tail t n p)) refl) within
            (rw (ap (λ m. m + 4) declared_length) (
              read_full-short (length p + 4) (take j (frame_tail t n p))
                (omega (arith, length-take j (frame_tail t n p), length-frame_tail))))
