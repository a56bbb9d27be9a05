-- ===== src/Mapfile/Replay/ReaderLoop.antt =====
-- The loop of `ReplayJournalReader` over a journal that was written record by record and cut off.
use disc_rescue.Prelude.{
  ℕ, zero, suc, ◌+◌, ◌-◌, ◌≤◌, ◌<◌, ◌≡◌, refl, ap, sym, ◌∙◌, none, some, List, [], ◌∷◌, ◌++◌,
  append_assoc, append-nil, subst, arith, All, u64, ltb, length, take, length-append, take-nil,
  take_within, take_beyond, ok, >>=-eq-ok, Bool-cases, inl, inr, ◌⊎◌,
}
use mathlib.Core.Path.{fun_ext}
use disc_rescue.Mapfile.Codec.{JournalRecord, marshal_journal_record, unmarshal_journal_record}
use disc_rescue.Mapfile.Codec.RoundTrip.{
  IsStorable, marshal_journal_record-frame, unmarshal-marshal_journal_record,
}
use disc_rescue.Mapfile.Replay.{Checkpoint, Stream, read_full, next_record, reader_loop}
use disc_rescue.Mapfile.Replay.Fuel.{round}
use disc_rescue.Mapfile.Replay.Frames.{journal_of, replay_records}
use disc_rescue.Mapfile.Replay.Reader.{ending, length-frame, next_record-frame, next_record-cut}

reader_loop-some :
    (f : ℕ) (c : Checkpoint) (n : ℕ) (s rest : Stream) (bs : List ℕ) (r : JournalRecord) (k : ℕ)
    → next_record s ≡ ok (some (bs, rest))
    → unmarshal_journal_record bs ≡ ok (r, k)
    → reader_loop (suc f) c n s ≡ round c n r (λ c'. reader_loop f c' (u64 (n + 1)) rest)
unfolding reader_loop
reader_loop-some f c n s rest bs r k h1 h2 = rw (h1, reader_loop) (rw h2)

reader_loop-none :
    (f : ℕ) (c : Checkpoint) (n : ℕ) (s : Stream)
    → next_record s ≡ ok none
    → reader_loop (suc f) c n s ≡ ok c
unfolding reader_loop
reader_loop-none f c n s h = rw (h, reader_loop)

-- What one storable record is written as, and how the reader takes it off the stream.
record Written (r : JournalRecord) (b : List ℕ) : Type 0 where
  nonempty : 0 < length b
  decoded : (k : ℕ) × (unmarshal_journal_record b ≡ ok (r, k))
  taken : (rest : List ℕ) → next_record (ending (b ++ rest)) ≡ ok (some (b, ending rest))
  cut : (k : ℕ) → (length b ≤ k) ⊎ ((k < length b) × (next_record (ending (take k b)) ≡ ok none))

marshal_journal_record-Written :
    (r : JournalRecord) (b : List ℕ) → IsStorable r → marshal_journal_record r ≡ ok b → Written r b
marshal_journal_record-Written r b s h =
    let (p, hp, e) = marshal_journal_record-frame r s b h in
    let (b', h1, h2) = unmarshal-marshal_journal_record r s [] in
    let same : b' ≡ b = cc in
    let size : length b ≡ 18 + length p = ap length (sym e) ∙ length-frame r.type r.sequence p hp in
    record {
      nonempty = omega (arith, size);
      decoded = (
        length b',
        subst (λ z. unmarshal_journal_record z ≡ ok (r, length b')) (append-nil b' ∙ same) h2,
      );
      taken = λ rest.
          subst (λ z. next_record (ending (z ++ rest)) ≡ ok (some (z, ending rest))) e
            (next_record-frame r.type r.sequence p hp rest);
      cut = λ k. elim (Bool-cases (ltb k (18 + length p))) [
        | inl t ↦ inr (
          ground (arith, t, size),
          subst (λ z. next_record (ending (take k z)) ≡ ok none) e
              (next_record-cut r.type r.sequence p hp k (ground (arith, t))),
        )
        | inr t ↦ inl (ground (arith, t, size))
      ];
    }

-- What the loop ignores at the end: nothing, or less than a record.
abbrev pub EndsIn : List ℕ → Type 0
EndsIn tail = next_record (ending tail) ≡ ok none

pub reader_loop-frames :
    (tail : List ℕ) (rs : List JournalRecord) (bs : List ℕ) (f : ℕ) (c : Checkpoint) (n : ℕ)
    → EndsIn tail
    → All IsStorable rs
    → journal_of rs ≡ ok bs
    → length bs < f
    → reader_loop f c n (ending (bs ++ tail)) ≡ replay_records c n rs
unfolding journal_of replay_records
reader_loop-frames tail rs bs zero c n t ss j h = absurd (omega arith)
reader_loop-frames tail [] bs (suc f) c n t ss j h =
    let e : [] ≡ bs = cc in rw (← e) (reader_loop-none f c n (ending tail) t)
reader_loop-frames tail (r ∷ rs) bs (suc f) c n t (s, ss) j h =
    let (b, h1, h2) = >>=-eq-ok (marshal_journal_record r) _ j in
    let (rest, h3, h4) = >>=-eq-ok (journal_of rs) _ h2 in
    let w = marshal_journal_record-Written r b s h1 in
    let parts : b ++ rest ≡ bs = cc in
    let whole : b ++ (rest ++ tail) ≡ bs ++ tail =
      sym (append_assoc b rest tail) ∙ ap (λ x. x ++ tail) parts in
    rw (← whole) (
      reader_loop-some f c n _ (ending (rest ++ tail)) b r w.decoded.0 (w.taken (rest ++ tail))
        w.decoded.1
      ∙ ap (round c n r) (
          fun_ext (λ c'.
            reader_loop-frames tail rs rest f c' (u64 (n + 1)) t ss h3
              (omega (arith, ap length parts, length-append b rest, w.nonempty)))))

-- A journal that is cut off anywhere is a journal of its first records and less than one more.
pub record Cut (rs : List JournalRecord) (bs : List ℕ) (k : ℕ) : Type 0 where
  pub kept : List JournalRecord
  pub lost : List JournalRecord
  pub kept_bytes : List ℕ
  pub tail : List ℕ
  pub split : kept ++ lost ≡ rs
  pub written : journal_of kept ≡ ok kept_bytes
  pub storable : All IsStorable kept
  pub cut_bytes : take k bs ≡ kept_bytes ++ tail
  pub ends : EndsIn tail

pub EndsIn-nil : EndsIn []
unfolding next_record read_full
EndsIn-nil = refl

pub journal_of-Cut :
    (rs : List JournalRecord) (bs : List ℕ) (k : ℕ)
    → All IsStorable rs
    → journal_of rs ≡ ok bs
    → Cut rs bs k
unfolding journal_of
journal_of-Cut [] bs k ss j =
    let e : [] ≡ bs = cc in
    record {
      kept = [];
      lost = [];
      kept_bytes = [];
      tail = [];
      split = refl;
      written = refl;
      storable = tt;
      cut_bytes = rw (← e) (take-nil k);
      ends = EndsIn-nil;
    }
journal_of-Cut (r ∷ rs) bs k (s, ss) j =
    let (b, h1, h2) = >>=-eq-ok (marshal_journal_record r) _ j in
    let (rest, h3, h4) = >>=-eq-ok (journal_of rs) _ h2 in
    let parts : b ++ rest ≡ bs = cc in
    let w = marshal_journal_record-Written r b s h1 in
    elim (w.cut k) [
      | inl long ↦
          let later = journal_of-Cut rs rest (k - length b) ss h3 in
          record {
            kept = r ∷ later.kept;
            lost = later.lost;
            kept_bytes = b ++ later.kept_bytes;
            tail = later.tail;
            split = ap (λ x. r ∷ x) later.split;
            written = rw (h1, later.written);
            storable = (s, later.storable);
            cut_bytes =
                ap (take k) (sym parts)
                ∙ take_beyond k b rest long
                ∙ ap (λ x. b ++ x) later.cut_bytes
                ∙ sym (append_assoc b later.kept_bytes later.tail);
            ends = later.ends;
          }
      | inr (short, torn) ↦ record {
        kept = [];
        lost = r ∷ rs;
        kept_bytes = [];
        tail = take k b;
        split = refl;
        written = refl;
        storable = tt;
        cut_bytes = ap (take k) (sym parts) ∙ take_within k b rest (omega arith);
        ends = torn;
      }
    ]
