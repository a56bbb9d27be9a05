-- ===== src/Store/Retry.antt =====
-- A flush that is tried again after its sync failed.
use disc_rescue.Prelude.{
  ℕ, ◌+◌, ◌^◌, ◌<◌, ◌≢◌, ◌≡◌, refl, sym, ap, subst, ◌∙◌, false, List, [], ◌∷◌, ◌++◌, append_assoc,
  append-nil, arith, length, drop, drop-append, All-append, u64, ◌==◌, some, none, err,
}
use disc_rescue.Mapfile.Extent.{Extent}
use disc_rescue.Mapfile.Codec.{JournalRecord, non_monotonic_sequence}
use disc_rescue.Mapfile.Codec.RoundTrip.{IsStorable}
use disc_rescue.Mapfile.Replay.{Checkpoint, replay_journal_reader}
use disc_rescue.Mapfile.Replay.Frames.{replay_records}
use disc_rescue.Mapfile.Replay.Reader.{ending}
use disc_rescue.Mapfile.Replay.ReaderLoop.{EndsIn-nil}
use disc_rescue.Store.Disk.{StoreError}
use disc_rescue.Store.{Store, flush}
use disc_rescue.Store.Writes.{concat}
use disc_rescue.Store.History.{
  staged_records, replay_records-append, replay_records-staged_records, advance,
}
use disc_rescue.Store.Sound.{IsSound, AfterFlush, flush-AfterFlush, flush-bytes, journal_of-append}
use disc_rescue.Store.Crash.{replay_journal_reader-frames}

-- Records that are numbered from `n` on are refused where another number is expected.
replay_records-refused :
    (c : Checkpoint) (n m : ℕ) (p : Extent) (ps : List Extent)
    → n ≢ m
    → replay_records c m (staged_records n (p ∷ ps)) ≡ err non_monotonic_sequence
unfolding replay_records
replay_records-refused c n m p ps h = let e : (n == m) ≡ false = ground (arith, h) in rw e

module _ (c : Checkpoint) (front : List ℕ) (s : Store) (rs : List JournalRecord) (p : Extent)
    (ps : List Extent) (i : IsSound c front s rs (p ∷ ps)) where
  abbrev n : ℕ
  n = u64 (i.durable.last_sequence + 1)

  abbrev again : List JournalRecord
  again = staged_records n (p ∷ ps)

  replayed_twice :
      length (p ∷ ps) < 2 ^ 64
      → replay_records c (u64 (c.last_sequence + 1)) ((rs ++ again) ++ again)
        ≡ err non_monotonic_sequence
  replayed_twice few =
      let (d, h1, h2, h3) =
        replay_records-staged_records i.durable n (p ∷ ps) s.extents refl
          (ap (λ es. advance es (p ∷ ps)) i.durable_same ∙ i.advanced) in
      replay_records-append c d (u64 (c.last_sequence + 1)) (rs ++ again) again refl (
        replay_records-append c i.durable (u64 (c.last_sequence + 1)) rs again refl i.replayed ∙ h1)
      ∙ replay_records-refused d n (u64 (d.last_sequence + 1)) p ps (λ e. omega (arith, e, h3, few))

-- Where a sound store has staged transitions, and a flush writes all of their records and then
-- fails, the store keeps them pending: a second flush, which returns no error, leaves a journal
-- that the reader refuses.
pub flush_again-unreadable :
    (c : Checkpoint) (front : List ℕ) (s failed again_flushed : Store) (rs : List JournalRecord)
    (p : Extent) (ps : List Extent) (e : StoreError)
    → IsSound c front s rs (p ∷ ps)
    → length (p ∷ ps) < 2 ^ 64
    → flush s ≡ (failed, some e)
    → failed.file.bytes ≡ s.file.bytes ++ concat s.pending_records
    → flush failed ≡ (again_flushed, none)
    → replay_journal_reader c (some (ending (drop (length front) again_flushed.file.bytes)))
      ≡ err non_monotonic_sequence
flush_again-unreadable c front s failed t rs p ps e i few h1 h2 h3 =
    let (f, k, same, _, _) =
      subst (AfterFlush c front s rs (p ∷ ps) i) h1 (flush-AfterFlush c front s rs (p ∷ ps) i) in
    let n = u64 (i.durable.last_sequence + 1) in
    let more = staged_records n (p ∷ ps) in
    let bytes = concat s.pending_records in
    let in_use : failed.closed ≡ false = ap (λ (x : Store). x.closed) same ∙ i.in_use in
    let pending : concat failed.pending_records ≡ bytes =
      ap (λ (x : Store). concat x.pending_records) same in
    let stored : t.file.bytes ≡ front ++ ((i.journal ++ bytes) ++ bytes) =
      flush-bytes failed t in_use h3
      ∙ ap (λ z. failed.file.bytes ++ z) pending
      ∙ ap (λ z. z ++ bytes)
          (h2 ∙ ap (λ z. z ++ bytes) i.file_bytes ∙ append_assoc front i.journal bytes)
      ∙ append_assoc front (i.journal ++ bytes) bytes in
    let behind : drop (length front) t.file.bytes ≡ ((i.journal ++ bytes) ++ bytes) ++ [] =
      ap (drop (length front)) stored
      ∙ drop-append (length front) front _ refl
      ∙ sym (append-nil _) in
    ap (λ z. replay_journal_reader c (some (ending z))) behind
    ∙ replay_journal_reader-frames c ((rs ++ more) ++ more) ((i.journal ++ bytes) ++ bytes) []
        (All-append IsStorable (rs ++ more) more
          (All-append IsStorable rs more i.records_storable i.pending_storable) i.pending_storable)
        (journal_of-append (rs ++ more) more _ _
          (journal_of-append rs more _ _ i.journal_written i.pending_written) i.pending_written)
        EndsIn-nil
    ∙ rw (replayed_twice c front s rs p ps i few)
