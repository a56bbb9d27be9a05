-- ===== src/Store/Reopen.antt =====
-- `readState` of a store's file after a crash, and after a flush that was tried again.
use disc_rescue.Prelude.{
  ℕ, ◌^◌, ◌≤◌, ◌<◌, ◌≢◌, ◌≡◌, refl, sym, ap, subst, ◌∙◌, List, [], ◌∷◌, ◌++◌, append_assoc, arith,
  length, take, drop, drop-append, All, All-prefix, some, ok, >>=-eq-ok, >>-eq-ok,
}
use disc_rescue.Mapfile.Extent.{Extent, validate}
use disc_rescue.Mapfile.Valid.{
  IsValid, validate→IsValid, stop, Between, validate_extent_set_within_capacity_iff,
}
use disc_rescue.Mapfile.Edit.{apply_extent}
use disc_rescue.Mapfile.Edit.Apply.{apply_extent-IsUpdate}
use disc_rescue.Mapfile.Codec.{JournalRecord}
use disc_rescue.Mapfile.Header.{Header, unmarshal_header}
use disc_rescue.Mapfile.Checkpoint.{unmarshal_checkpoint}
use disc_rescue.Mapfile.Replay.{
  Checkpoint, requeued, requeue_all, replay_journal_reader, replay_journal_reader_within_capacity,
}
use disc_rescue.Mapfile.Replay.Requeue.{requeue_all-Between}
use disc_rescue.Mapfile.Replay.Reader.{ending}
use disc_rescue.Store.{Geometry, Store}
use disc_rescue.Store.Session.{read_state}
use disc_rescue.Store.ReadState.{Fits, read_state-parts}
use disc_rescue.Store.Writes.{concat}
use disc_rescue.Store.History.{advance}
use disc_rescue.Store.Sound.{IsSound}
use disc_rescue.Store.Crash.{Kept, replay_journal_reader-crashed}

applied-IsValid :
    (es : List Extent) (p : Extent) (es' : List Extent) → apply_extent es p ≡ ok es' → IsValid p
unfolding apply_extent
applied-IsValid es p es' h = validate→IsValid p (>>-eq-ok (validate p) _ h).0

-- Transitions that end within the disc keep a map in order within it.
advance-Between :
    (hi : ℕ) (es ps ys : List Extent)
    → hi < 2 ^ 32
    → Between 0 hi es
    → All (λ (p : Extent). stop p ≤ hi) ps
    → advance es ps ≡ ok ys
    → Between 0 hi ys
advance-Between hi es [] ys f b a h = let e : es ≡ ys = cc in subst (Between 0 hi) e b
advance-Between hi es (p ∷ ps) ys f b (r, a) h =
    let (es', h1, h2) = >>=-eq-ok (apply_extent es p) _ h in
    advance-Between hi es' ps ys f
      ((apply_extent-IsUpdate hi f es p b (applied-IsValid es p es' h1) r es' h1).0) a h2

-- The front of a map's file: its header, as 135 bytes, and its checkpoint.
pub record Front (hb cb : List ℕ) (h : Header) (c : Checkpoint) : Type 0 where
  pub header_size : length hb ≡ 135
  pub header_read : unmarshal_header hb ≡ ok h
  pub checkpoint_read : unmarshal_checkpoint cb ≡ ok c

pub capacity_checked :
    (c d : Checkpoint) (js : List ℕ) (n : ℕ)
    → replay_journal_reader c (some (ending js)) ≡ ok d
    → Between 0 n d.extents
    → n ≢ 0
    → replay_journal_reader_within_capacity c (some (ending js)) n ≡ ok d
unfolding replay_journal_reader_within_capacity
capacity_checked c d js n h b z =
    let e = (validate_extent_set_within_capacity_iff d.extents n).1 (omega (arith, z), b) in
    rw (h, e)

-- Where the extents of a sound store lie in order on the disc that its header describes, one of
-- fewer than 2^32 sectors, and its staged transitions end on the disc, then whatever number of
-- bytes of the pending records has reached the file, `readState` accepts the file. It returns the
-- header and the durable extents with some first ones of the staged transitions applied, queued
-- work being unknown again.
pub read_state-crashed :
    (hb cb : List ℕ) (h : Header) (c : Checkpoint) (s : Store) (rs : List JournalRecord)
    (ps : List Extent) (g : Geometry) (k : ℕ)
    → Front hb cb h c
    → Fits h g
    → g.expected_sector_count < 2 ^ 32
    → IsSound c (hb ++ cb) s rs ps
    → Between 0 g.expected_sector_count s.durable_extents
    → All (λ (p : Extent). stop p ≤ g.expected_sector_count) ps
    → (m : Kept s.durable_extents ps) × (d : Checkpoint) × (read_state
          (s.file.bytes ++ take k (concat s.pending_records))
          g
        ≡ ok (h, requeued d))
      × (d.extents ≡ m.map)
read_state-crashed hb cb h c s rs ps g k fr f lt i b a =
    let n = g.expected_sector_count in
    let part = take k (concat s.pending_records) in
    let (m, d, e1, e2, e3) = replay_journal_reader-crashed c (hb ++ cb) s rs ps i k in
    let js = drop (length (hb ++ cb)) (s.file.bytes ++ part) in
    let stored : s.file.bytes ++ part ≡ (hb ++ cb) ++ (i.journal ++ part) =
      ap (λ z. z ++ part) i.file_bytes ∙ append_assoc (hb ++ cb) i.journal part in
    let behind : js ≡ i.journal ++ part =
      ap (drop (length (hb ++ cb))) stored ∙ drop-append (length (hb ++ cb)) (hb ++ cb) _ refl in
    let whole : s.file.bytes ++ part ≡ hb ++ (cb ++ js) =
      stored ∙ append_assoc hb cb _ ∙ ap (λ z. hb ++ (cb ++ z)) (sym behind) in
    let kept_on_disc =
      All-prefix (λ (p : Extent). stop p ≤ n) m.kept m.lost
        (subst (All (λ (p : Extent). stop p ≤ n)) (sym m.split) a) in
    let placed : Between 0 n m.map =
      advance-Between n s.durable_extents m.kept m.map lt b kept_on_disc m.advanced in
    let replayed =
      capacity_checked c (requeued d) js n e1
        (subst (λ z. Between 0 n (requeue_all z)) (sym e2) (requeue_all-Between 0 n m.map placed))
        f.counted in
    (
      m,
      d,
      ap (λ z. read_state z g) whole
          ∙ read_state-parts hb cb js h c fr.header_size fr.header_read fr.checkpoint_read g f
          ∙ rw replayed,
      e2,
    )
