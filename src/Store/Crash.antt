-- ===== src/Store/Crash.antt =====
-- What is read back of a store's file after a crash or a failed flush.
use disc_rescue.Prelude.{
  ℕ, suc, ◌+◌, ◌≡◌, refl, sym, ap, subst, ◌∙◌, List, ◌++◌, append_assoc, arith, length,
  length-append, take, drop, drop-append, All, All-append, u64, some, ok, ◌>>=◌,
}
use disc_rescue.Mapfile.Extent.{Extent}
use disc_rescue.Mapfile.Codec.{JournalRecord}
use disc_rescue.Mapfile.Codec.RoundTrip.{IsStorable}
use disc_rescue.Mapfile.Replay.{Checkpoint, requeued, replay_journal_reader}
use disc_rescue.Mapfile.Replay.Reader.{ending}
use disc_rescue.Mapfile.Replay.ReaderLoop.{journal_of-Cut, EndsIn, reader_loop-frames}
use disc_rescue.Mapfile.Replay.Frames.{journal_of, replay_records}
use disc_rescue.Store.{Store}
use disc_rescue.Store.Writes.{concat}
use disc_rescue.Store.History.{
  advance, advance-append, staged_records, staged_records-prefix, replay_records-append,
  replay_records-staged_records,
}
use disc_rescue.Store.Sound.{IsSound, journal_of-append}

-- The journal of storable records that ends in less than a record.
pub replay_journal_reader-frames :
    (c : Checkpoint) (rs : List JournalRecord) (bs tail : List ℕ)
    → All IsStorable rs
    → journal_of rs ≡ ok bs
    → EndsIn tail
    → replay_journal_reader c (some (ending (bs ++ tail)))
      ≡ (do d ← replay_records c (u64 (c.last_sequence + 1)) rs; ok (requeued d))
unfolding replay_journal_reader
replay_journal_reader-frames c rs bs tail ss j t = rw (
    reader_loop-frames tail rs bs (suc (length (bs ++ tail))) c (u64 (c.last_sequence + 1)) t ss j
      (omega (arith, length-append bs tail)))

-- Some first transitions of `ps`, and the map that they make of `es`.
pub record Kept (es ps : List Extent) : Type 0 where
  pub kept : List Extent
  pub lost : List Extent
  pub split : kept ++ lost ≡ ps
  pub map : List Extent
  pub advanced : advance es kept ≡ ok map

-- From a sound store, whatever number of bytes of its pending records has reached the file behind
-- the durable ones, the reader replays the journal to the durable extents with some first ones of
-- the staged transitions applied, queued work being unknown again.
pub replay_journal_reader-crashed :
    (c : Checkpoint) (front : List ℕ) (s : Store) (rs : List JournalRecord) (ps : List Extent)
    (i : IsSound c front s rs ps) (k : ℕ)
    → (m : Kept s.durable_extents ps) × (d : Checkpoint) × (replay_journal_reader c
          (some (ending (drop (length front) (s.file.bytes ++ take k (concat s.pending_records)))))
        ≡ ok (requeued d))
      × (d.extents ≡ m.map)
      × (u64 (d.last_sequence + 1) ≡ u64 (u64 (i.durable.last_sequence + 1) + length m.kept))
replay_journal_reader-crashed c front s rs ps i k =
    let n = u64 (i.durable.last_sequence + 1) in
    let t =
      journal_of-Cut (staged_records n ps) (concat s.pending_records) k i.pending_storable
        i.pending_written in
    let (qs, ts, e1, e2) = staged_records-prefix n t.kept t.lost ps t.split in
    let (ys, a1, a2) =
      advance-append s.durable_extents qs ts s.extents
        (ap (advance s.durable_extents) e1 ∙ i.advanced) in
    let (d, h1, h2, h3) =
      replay_records-staged_records i.durable n qs ys refl
        (ap (λ es. advance es qs) i.durable_same ∙ a1) in
    let whole : replay_records c (u64 (c.last_sequence + 1)) (rs ++ t.kept) ≡ ok d =
      replay_records-append c i.durable (u64 (c.last_sequence + 1)) rs t.kept refl i.replayed
      ∙ ap (replay_records i.durable n) e2
      ∙ h1 in
    let bytes : drop (length front) (s.file.bytes ++ take k (concat s.pending_records))
        ≡ (i.journal ++ t.kept_bytes) ++ t.tail =
      ap (λ z. drop (length front) (z ++ take k (concat s.pending_records))) i.file_bytes
      ∙ ap (drop (length front)) (append_assoc front i.journal (take k (concat s.pending_records)))
      ∙ drop-append (length front) front (i.journal ++ take k (concat s.pending_records)) refl
      ∙ ap (λ z. i.journal ++ z) t.cut_bytes
      ∙ sym (append_assoc i.journal t.kept_bytes t.tail) in
    (
      record { kept = qs; lost = ts; split = e1; map = ys; advanced = a1 },
      d,
      subst (λ z. replay_journal_reader c (some (ending z)) ≡ ok (requeued d)) (sym bytes)
          (replay_journal_reader-frames c (rs ++ t.kept) (i.journal ++ t.kept_bytes) t.tail
              (All-append IsStorable rs t.kept i.records_storable t.storable)
              (journal_of-append rs t.kept i.journal t.kept_bytes i.journal_written t.written)
              t.ends
            ∙ rw whole),
      h2,
      h3,
    )
