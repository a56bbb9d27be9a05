-- ===== src/Mapfile/Replay/Frames.antt =====
-- A journal that was written record by record and cut off by a crash.
use disc_rescue.Prelude.{
  ℕ, zero, suc, ◌+◌, ◌≤◌, ◌<◌, ◌≡◌, refl, ap, sym, ◌∙◌, ◌⊎◌, inl, inr, List, [], ◌∷◌, ◌++◌,
  append_assoc, arith, All, u64, length, take, drop, length-drop, drop-append, Result, ok, err,
  ◌>>=◌, >>=-eq-ok,
}
use mathlib.Core.Path.{fun_ext}
use disc_rescue.Mapfile.Codec.{
  CodecError, truncated_record, JournalRecord, marshal_journal_record, unmarshal_journal_record,
}
use disc_rescue.Mapfile.Codec.RoundTrip.{
  IsStorable, unmarshal-marshal_journal_record, unmarshal-torn_journal_record,
}
use disc_rescue.Mapfile.Replay.{Checkpoint, requeued, replay_loop, replay_journal}
use disc_rescue.Mapfile.Replay.Fuel.{
  round, replay_loop-err, replay_loop-ok, replay_loop_enough, consumed_bounds,
}

-- The bytes of a journal with these records.
unfoldable pub journal_of : List JournalRecord → Result CodecError (List ℕ)
journal_of [] = ok []
journal_of (r ∷ rs) = do b ← marshal_journal_record r; rest ← journal_of rs; ok (b ++ rest)

-- The records applied in order, the first of them expected to have number `n`.
unfoldable pub replay_records : Checkpoint → ℕ → List JournalRecord → Result CodecError Checkpoint
replay_records c n [] = ok c
replay_records c n (r ∷ rs) = round c n r (λ c'. replay_records c' (u64 (n + 1)) rs)

-- A round over a record that is decoded, with the fuel that the rest needs.
pub loop_step :
    (f : ℕ) (c : Checkpoint) (n : ℕ) (bs : List ℕ) (r : JournalRecord) (k : ℕ)
    → unmarshal_journal_record bs ≡ ok (r, k)
    → length bs ≤ f
    → replay_loop f c n bs
      ≡ round c n r (λ c'. replay_loop (length (drop k bs)) c' (u64 (n + 1)) (drop k bs))
loop_step f c n [] r k h q = absurd (omega (arith, consumed_bounds [] r k h))
loop_step zero c n (b ∷ bs) r k h q = absurd (omega arith)
loop_step (suc f) c n (b ∷ bs) r k h q =
    replay_loop-ok f c n b bs r k h
    ∙ ap (round c n r) (
        fun_ext (λ c'.
          replay_loop_enough f (length (drop k (b ∷ bs))) c' (u64 (n + 1)) (drop k (b ∷ bs))
            (omega (arith, consumed_bounds (b ∷ bs) r k h, length-drop k (b ∷ bs))) (omega arith)))

-- What stands behind the last whole record: nothing, or a record that was cut off.
abbrev Torn : List ℕ → Type 0
Torn ts = (ts ≡ []) ⊎ (unmarshal_journal_record ts ≡ err truncated_record)

loop_tail :
    (ts : List ℕ) (f : ℕ) (c : Checkpoint) (n : ℕ)
    → Torn ts
    → length ts ≤ f
    → replay_loop f c n ts ≡ ok c
unfolding replay_loop
loop_tail [] zero c n t h = refl
loop_tail [] (suc f) c n t h = refl
loop_tail (b ∷ ts) zero c n t h = absurd (omega arith)
loop_tail (b ∷ ts) (suc f) c n (inl e) h = cc
loop_tail (b ∷ ts) (suc f) c n (inr e) h = replay_loop-err f c n b ts truncated_record e

replay_loop-frames :
    (tail : List ℕ) (rs : List JournalRecord) (bs : List ℕ) (f : ℕ) (c : Checkpoint) (n : ℕ)
    → Torn tail
    → All IsStorable rs
    → journal_of rs ≡ ok bs
    → length (bs ++ tail) ≤ f
    → replay_loop f c n (bs ++ tail) ≡ replay_records c n rs
unfolding journal_of replay_records
replay_loop-frames tail [] bs f c n t s j h =
    let e : [] ≡ bs = cc in rw (← e) (loop_tail tail f c n t (rw (← e) at h))
replay_loop-frames tail (r ∷ rs) bs f c n t (s, ss) j h =
    let (b, h1, h2) = >>=-eq-ok (marshal_journal_record r) _ j in
    let (rest, h3, h4) = >>=-eq-ok (journal_of rs) _ h2 in
    let (b', h5, h6) = unmarshal-marshal_journal_record r s (rest ++ tail) in
    let same : b' ≡ b = cc in
    let whole : b' ++ (rest ++ tail) ≡ bs ++ tail =
      rw same (sym (append_assoc b rest tail) ∙ ap (λ x. x ++ tail) (cc)) in
    let left : drop (length b') (b' ++ (rest ++ tail)) ≡ rest ++ tail =
      drop-append (length b') b' (rest ++ tail) refl in
    rw (← whole) (
      loop_step f c n (b' ++ (rest ++ tail)) r (length b') h6 (rw (← whole) at h)
      ∙ ap (round c n r) (
          fun_ext (λ c'. rw left (
            replay_loop-frames tail rs rest (length (rest ++ tail)) c' (u64 (n + 1)) t ss h3
              (omega arith)))))

Torn-take :
    (r : JournalRecord) (b : List ℕ) (k : ℕ)
    → IsStorable r
    → marshal_journal_record r ≡ ok b
    → k < length b
    → Torn (take k b)
Torn-take r b k s h lt = inr (unmarshal-torn_journal_record r s b k h lt)

-- A journal of storable records, followed by the first k bytes of one more (k smaller than that
-- record's length, 0 included), replays to the checkpoint with the whole records applied in
-- order, and the torn record is ignored.
pub replay_journal-torn :
    (c : Checkpoint) (rs : List JournalRecord) (r : JournalRecord) (bs b : List ℕ) (k : ℕ)
    → All IsStorable rs
    → journal_of rs ≡ ok bs
    → IsStorable r
    → marshal_journal_record r ≡ ok b
    → k < length b
    → replay_journal c (bs ++ take k b)
      ≡ (do next ← replay_records c (u64 (c.last_sequence + 1)) rs; ok (requeued next))
unfolding replay_journal
replay_journal-torn c rs r bs b k ss j s h lt = rw (
    replay_loop-frames (take k b) rs bs (length (bs ++ take k b)) c (u64 (c.last_sequence + 1))
      (Torn-take r b k s h lt) ss j (omega arith))
