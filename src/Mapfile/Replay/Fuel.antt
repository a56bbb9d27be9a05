-- ===== src/Mapfile/Replay/Fuel.antt =====
-- The journal's length is enough fuel: each round takes at least 18 bytes.
use disc_rescue.Prelude.{
  ℕ, zero, suc, ◌+◌, ◌≤◌, ◌<◌, ◌≡◌, refl, ap, not, List, [], ◌∷◌, arith, ltb, ◌==◌, u64, sym, ◌∙◌,
  inl, inr, Result-cases, length-drop, length, drop, Result, ok, err, guard, ◌>>=◌, ◌>>◌,
  guard-eq-ok, >>=-eq-ok, >>-eq-ok,
}
use mathlib.Core.Path.{fun_ext}
use disc_rescue.Prelude.Bytes.{slice, le_value, crc32c}
use disc_rescue.Mapfile.Codec.{
  CodecError, truncated_record, payload_too_long, crc_mismatch, non_monotonic_sequence,
  JournalRecord, validate_record, decode_body, decode_record_type, max_journal_payload_bytes,
  unmarshal_journal_record,
}
use disc_rescue.Mapfile.Replay.{Checkpoint, apply_record, replay_loop}

pub consumed_bounds :
    (bs : List ℕ) (r : JournalRecord) (n : ℕ)
    → unmarshal_journal_record bs ≡ ok (r, n)
    → (18 ≤ n) × (n ≤ length bs)
unfolding unmarshal_journal_record
consumed_bounds bs r n h =
    let (h1, h2) = guard-eq-ok (not (ltb (length bs) 18)) truncated_record _ h in
    let (h3, h4) =
      guard-eq-ok (not (ltb (length bs) (18 + le_value (slice 10 14 bs)))) truncated_record _ h2 in
    let (h5, h6) =
      guard-eq-ok (not (ltb max_journal_payload_bytes (le_value (slice 10 14 bs)))) payload_too_long
        _ h4 in
    let (h7, h8) = guard-eq-ok (le_value (slice _ _ bs) == crc32c _) crc_mismatch _ h6 in
    let (t, h9, h10) = >>=-eq-ok (decode_record_type _) _ h8 in
    let (r', h11, h12) = >>=-eq-ok (decode_body t _ _) _ h10 in
    let (h13, h14) = >>-eq-ok (validate_record r') _ h12 in
    let eq : 18 + le_value (slice 10 14 bs) ≡ n = cc in (omega arith, ground arith)

-- A round whose bytes do not decode.
abbrev pub ended : CodecError → Checkpoint → Result CodecError Checkpoint
ended truncated_record c = ok c
ended e c = err e

-- A round that decodes a record, with what the later rounds do.
abbrev pub round :
    Checkpoint
    → ℕ
    → JournalRecord
    → (Checkpoint → Result CodecError Checkpoint)
    → Result CodecError Checkpoint
round c expected r later = do
  guard (r.sequence == expected) non_monotonic_sequence
  c' ← apply_record c r
  later c'

pub replay_loop-err :
    (f : ℕ) (c : Checkpoint) (n b : ℕ) (bs : List ℕ) (e : CodecError)
    → unmarshal_journal_record (b ∷ bs) ≡ err e
    → replay_loop (suc f) c n (b ∷ bs) ≡ ended e c
unfolding replay_loop
replay_loop-err f c n b bs truncated_record h = rw (h, replay_loop)
replay_loop-err f c n b bs payload_too_long h = rw (h, replay_loop)
replay_loop-err f c n b bs _ h = rw (h, replay_loop)

pub replay_loop-ok :
    (f : ℕ) (c : Checkpoint) (n b : ℕ) (bs : List ℕ) (r : JournalRecord) (k : ℕ)
    → unmarshal_journal_record (b ∷ bs) ≡ ok (r, k)
    → replay_loop (suc f) c n (b ∷ bs)
      ≡ round c n r (λ c'. replay_loop f c' (u64 (n + 1)) (drop k (b ∷ bs)))
unfolding replay_loop
replay_loop-ok f c n b bs r k h = rw (h, replay_loop)

-- The result of the replay loop is the same for any two fuels that are at least the number of
-- bytes.
pub replay_loop_enough :
    (f g : ℕ) (c : Checkpoint) (n : ℕ) (bs : List ℕ)
    → length bs ≤ f
    → length bs ≤ g
    → replay_loop f c n bs ≡ replay_loop g c n bs
unfolding replay_loop
replay_loop_enough zero zero c n bs p q = refl
replay_loop_enough zero (suc g) c n [] p q = refl
replay_loop_enough (suc f) zero c n [] p q = refl
replay_loop_enough zero (suc g) c n (b ∷ bs) p q = absurd (omega arith)
replay_loop_enough (suc f) zero c n (b ∷ bs) p q = absurd (omega arith)
replay_loop_enough (suc f) (suc g) c n [] p q = refl
replay_loop_enough (suc f) (suc g) c n (b ∷ bs) p q =
    elim (Result-cases (unmarshal_journal_record (b ∷ bs))) [
      | inl (e, h) ↦ replay_loop-err f c n b bs e h ∙ sym (replay_loop-err g c n b bs e h)
      | inr ((r, k), h) ↦
          let rest : length (drop k (b ∷ bs)) < suc (length bs) =
            omega (arith, consumed_bounds (b ∷ bs) r k h, length-drop k (b ∷ bs)) in
          replay_loop-ok f c n b bs r k h
          ∙ ap (round c n r) (
              fun_ext (λ c'.
                replay_loop_enough f g c' (u64 (n + 1)) (drop k (b ∷ bs)) (omega arith)
                  (omega arith)))
          ∙ sym (replay_loop-ok g c n b bs r k h)
    ]
