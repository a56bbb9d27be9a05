-- ===== src/Store/Closing.antt =====
-- A map that was closed without an error is read back whole.
use disc_rescue.Prelude.{
  ℕ, ◌+◌, ◌≡◌, refl, sym, ap, ap₂, subst, ◌∙◌, Bool, false, List, [], ◌∷◌, ◌++◌, append_assoc,
  append-nil, arith, length, drop-append, Option, some, none, ok,
}
use disc_rescue.Mapfile.Extent.{Extent}
use disc_rescue.Mapfile.Valid.{Between}
use disc_rescue.Mapfile.Codec.{JournalRecord}
use disc_rescue.Mapfile.Header.{Header, validate_header, marshal_header, unmarshal_header}
use disc_rescue.Mapfile.Header.Laws.{IsTyped, unmarshal_header-marshal_header}
use disc_rescue.Mapfile.Replay.{Checkpoint, requeued, requeue_all, replay_journal_reader}
use disc_rescue.Mapfile.Replay.Requeue.{requeue_all-Between}
use disc_rescue.Mapfile.Replay.Reader.{ending}
use disc_rescue.Mapfile.Replay.ReaderLoop.{EndsIn-nil}
use disc_rescue.Store.Disk.{
  StoreError, Answer, completes, writes, fails, File, Done, ◌▷◌, answer_call, sync, write_at,
  overwrite,
}
use disc_rescue.Store.{
  Geometry, Store, with_shutdown, joined, shut, flush, flush_pending, flushed, finalize,
  finalize_flushed, close,
}
use disc_rescue.Store.Session.{read_state, inspect}
use disc_rescue.Store.ReadState.{Fits, read_state-parts}
use disc_rescue.Store.Sound.{IsSound, AfterFlush, flush-AfterFlush, if_else, none-some}
use disc_rescue.Store.Crash.{replay_journal_reader-frames}
use disc_rescue.Store.Reopen.{Front, capacity_checked}
use disc_rescue.Store.Creation.{with_shutdown-IsTyped, ▷-eq-none, sync-Leaves, write_at-Leaves}

-- `Close` returns no error only where the call before it returned none.
joined-eq-nil : (es : List StoreError) (d : Done) → (joined es d).1 ≡ [] → es ≡ []
joined-eq-nil es (f, none) h = h
joined-eq-nil [] (f, some e) h = refl
joined-eq-nil (x ∷ es) (f, some e) h = cc

joined-bytes :
    (es : List StoreError) (f : File) (later : List Answer)
    → (joined es (answer_call f later)).0.bytes ≡ f.bytes
joined-bytes es f [] = refl
joined-bytes es f (completes ∷ later) = refl
joined-bytes es f (writes n ∷ later) = refl
joined-bytes es f (fails n ∷ later) = refl

shut-eq-nil :
    (s s' : Store) (d : Done)
    → shut s d ≡ (s', [])
    → (g : File) × (d ≡ (g, none)) × (s'.file.bytes ≡ g.bytes)
shut-eq-nil s s' (f, none) h = (
  f,
  refl,
  ap (λ (q : Store × List StoreError). q.0.file.bytes) (sym h) ∙ joined-bytes [] f f.answers,
)
shut-eq-nil s s' (f, some e) h = absurd (
    some_error (
      joined-eq-nil (e ∷ []) (answer_call f f.answers)
        (ap (λ (q : Store × List StoreError). q.1) h)))
  where
    some_error : (e ∷ []) ≡ [] → ⊥
    some_error q = cc

flush-header : (s : Store) → s.closed ≡ false → (flush s).0.header ≡ s.header
unfolding flush
flush-header s o =
    ap (λ (q : Store × Option StoreError). q.0.header) (if_else s.closed _ _ o)
    ∙ pending s.pending_records
  where
    after : (d : Done) → (flushed s d).0.header ≡ s.header
    after (f, none) = refl
    after (f, some e) = refl

    pending : (rs : List (List ℕ)) → (flush_pending s rs).0.header ≡ s.header
    pending [] = refl
    pending (r ∷ rs) = after _

with_shutdown-Fits :
    (clean : Bool) (h : Header) (g : Geometry) → Fits h g → Fits (with_shutdown clean h) g
with_shutdown-Fits clean h g f = record {
  sized = f.sized;
  counted = f.counted;
  same_size = f.same_size;
  same_count = f.same_count;
}

Fits-validate_header : (h : Header) (g : Geometry) → Fits h g → validate_header h ≡ ok tt
unfolding validate_header
Fits-validate_header h g f = ground (arith, f.sized, f.counted, f.same_size, f.same_count)

finalize-ok :
    (s : Store) (clean : Bool) (hb : List ℕ)
    → marshal_header (with_shutdown clean s.header) ≡ ok hb
    → finalize s clean
      ≡ shut (record s { header = with_shutdown clean s.header }) (write_at 0 hb s.file ▷ sync)
unfolding finalize
finalize-ok s clean hb m = rw (m, finalize)

-- What the end of `Close` leaves in the file: a new header in front of what stood behind the old.
finalize-bytes :
    (s s' : Store) (clean : Bool) (hb : List ℕ)
    → marshal_header (with_shutdown clean s.header) ≡ ok hb
    → finalize s clean ≡ (s', [])
    → s'.file.bytes ≡ overwrite 0 hb s.file.bytes
finalize-bytes s s' clean hb m h =
    let marked : Store = record s { header = with_shutdown clean s.header } in
    let e : shut marked (write_at 0 hb s.file ▷ sync) ≡ (s', []) =
      sym (finalize-ok s clean hb m) ∙ h in
    let (g, h1, h2) = shut-eq-nil marked s' (write_at 0 hb s.file ▷ sync) e in
    let (f, h3, h4) = ▷-eq-none (write_at 0 hb s.file) sync g h1 in
    h2 ∙ (sync-Leaves f g h4).bytes_left ∙ (write_at-Leaves 0 hb s.file f h3).bytes_left

-- The file of a sound store with nothing pending, with another header of 135 bytes in front.
overwrite_header :
    (hb hb' rest : List ℕ)
    → length hb ≡ 135
    → length hb' ≡ 135
    → overwrite 0 hb' (hb ++ rest) ≡ hb' ++ rest
overwrite_header hb hb' rest l l' =
    ap (λ z. hb' ++ z) (drop-append (0 + length hb') hb rest (omega (arith, l, l')))

module _ (hb cb : List ℕ) (h : Header) (c : Checkpoint) (fr : Front hb cb h c) (g : Geometry) where
  -- What is read back of a closed store's file.
  closed_reads :
      (s s' : Store) (rs : List JournalRecord) (clean : Bool)
      → IsSound c (hb ++ cb) s rs []
      → IsTyped s.header
      → Fits s.header g
      → Between 0 g.expected_sector_count s.durable_extents
      → finalize s clean ≡ (s', [])
      → inspect s'.file.bytes g ≡ ok (with_shutdown clean s.header, requeue_all s.durable_extents)
  unfolding inspect
  closed_reads s s' rs clean i t f b e =
      let marked = with_shutdown clean s.header in
      let fits = with_shutdown-Fits clean s.header g f in
      let (hb', m1, m2, m3, _) =
        unmarshal_header-marshal_header marked [] 0 (with_shutdown-IsTyped clean s.header t)
          (Fits-validate_header marked g fits) (omega arith) in
      let bytes : s'.file.bytes ≡ hb' ++ (cb ++ i.journal) =
        finalize-bytes s s' clean hb' m1 e
        ∙ ap (overwrite 0 hb') (i.file_bytes ∙ append_assoc hb cb i.journal)
        ∙ overwrite_header hb hb' (cb ++ i.journal) fr.header_size m2 in
      let replay : replay_journal_reader c (some (ending i.journal)) ≡ ok (requeued i.durable) =
        ap (λ z. replay_journal_reader c (some (ending z))) (sym (append-nil i.journal))
        ∙ replay_journal_reader-frames c rs i.journal [] i.records_storable i.journal_written
            EndsIn-nil
        ∙ rw (i.replayed) in
      let checked =
        capacity_checked c (requeued i.durable) i.journal g.expected_sector_count replay
          (subst (λ z. Between 0 g.expected_sector_count (requeue_all z)) (sym i.durable_same)
            (requeue_all-Between 0 g.expected_sector_count s.durable_extents b))
          f.counted in
      let state : read_state s'.file.bytes g ≡ ok (marked, requeued i.durable) =
        ap (λ z. read_state z g) bytes
        ∙ read_state-parts hb' cb i.journal marked c m2
            (ap unmarshal_header (sym (append-nil hb')) ∙ m3) fr.checkpoint_read g fits
        ∙ rw checked in
      rw (state, inspect) (ap (λ z. ok (marked, requeue_all z)) i.durable_same)

  closed_flushed :
      (s s' : Store) (rs : List JournalRecord) (ps : List Extent) (clean : Bool)
      (i : IsSound c (hb ++ cb) s rs ps) (d : Store × Option StoreError)
      → IsTyped s.header
      → Fits s.header g
      → Between 0 g.expected_sector_count s.extents
      → AfterFlush c (hb ++ cb) s rs ps i d
      → d.0.header ≡ s.header
      → finalize_flushed clean d ≡ (s', [])
      → inspect s'.file.bytes g ≡ ok (with_shutdown clean s.header, requeue_all s.extents)
  closed_flushed s s' rs ps clean i (s1, some f) t fits b a eh e =
      let (_, no_error, _) = shut-eq-nil s1 s' (s1.file, some f) e in
      absurd (none-some (ap (λ (q : Done). q.1) no_error))
  closed_flushed s s' rs ps clean i (s1, none) t fits b (i1, ed, es) eh e =
      closed_reads s1 s' _ clean i1 (subst IsTyped (sym eh) t)
        (subst (λ (z : Header). Fits z g) (sym eh) fits)
        (subst (Between 0 g.expected_sector_count) (sym ed) b) e
      ∙ ap₂ (λ z w. ok (with_shutdown clean z, requeue_all w)) eh ed

-- When `Close` of a sound store returns no error, and the extents lie in order on the disc that
-- the header describes, then `Inspect` of the file returns the header, marked as the caller asked,
-- and every extent of the store, the staged ones included, queued work being unknown again.
pub close-inspected :
    (hb cb : List ℕ) (h : Header) (c : Checkpoint) (s s' : Store) (rs : List JournalRecord)
    (ps : List Extent) (g : Geometry) (clean : Bool)
    → Front hb cb h c
    → IsSound c (hb ++ cb) s rs ps
    → IsTyped s.header
    → Fits s.header g
    → Between 0 g.expected_sector_count s.extents
    → close s clean ≡ (s', [])
    → inspect s'.file.bytes g ≡ ok (with_shutdown clean s.header, requeue_all s.extents)
unfolding close
close-inspected hb cb h c s s' rs ps g clean fr i t f b e =
    closed_flushed hb cb h c fr g s s' rs ps clean i (flush s) t f b
      (flush-AfterFlush c (hb ++ cb) s rs ps i) (flush-header s i.in_use)
      (sym (if_else s.closed _ _ i.in_use) ∙ e)
