-- ===== src/Store/Sound.antt =====
-- The invariant of a store between its operations: its file holds the transitions that were
-- made durable, its pending records are those of the transitions that were staged since.
use disc_rescue.Prelude.{
  ℕ, ◌+◌, ◌<◌, ◌≡◌, refl, sym, ap, subst, ◌∙◌, ◌⊎◌, inl, inr, Bool, false, not, List, [], ◌∷◌, ◌++◌,
  append-nil, append_assoc, arith, length, length-append, take, All, All-append, ◌==◌, u64, Option,
  some, none, Result, Result-cases, ok, err, >>=-eq-ok, >>-eq-ok, guard-eq-ok, if◌then◌else◌,
}
use disc_rescue.Mapfile.Extent.{Extent, MapError, validate}
use disc_rescue.Mapfile.Valid.{IsValid, validate→IsValid}
use disc_rescue.Mapfile.Edit.{apply_extent}
use disc_rescue.Mapfile.Codec.{CodecError, lift_map, JournalRecord, marshal_journal_record}
use disc_rescue.Mapfile.Codec.Laws.{IsTyped}
use disc_rescue.Mapfile.Codec.RoundTrip.{IsStorable}
use disc_rescue.Mapfile.Replay.{Checkpoint}
use disc_rescue.Mapfile.Replay.Frames.{journal_of, replay_records}
use disc_rescue.Store.Disk.{StoreError, sequence_exhausted, File, Done, ◌▷◌, seek_end, sync}
use disc_rescue.Store.{
  Store, coded, extent_record, prepare_extent, stage_extent, write_records, flushed, flush_pending,
  flush,
}
use disc_rescue.Store.Writes.{
  concat, concat-append, Flushes, Flushes-then, seek_end-Appends, write_records-Appends,
  Appends-then, sync-Flushes,
}
use disc_rescue.Store.History.{
  advance, advance_then, staged_records, staged_records-append, replay_records-append,
  replay_records-staged_records,
}

-- `c` is the checkpoint of the file and `front` the bytes up to its journal, `rs` are the records
-- of the journal and `ps` the transitions staged since.
pub record IsSound (c : Checkpoint) (front : List ℕ) (s : Store) (rs : List JournalRecord)
    (ps : List Extent) : Type 0 where
  pub in_use : s.closed ≡ false
  pub journal : List ℕ
  pub journal_written : journal_of rs ≡ ok journal
  pub records_storable : All IsStorable rs
  pub file_bytes : s.file.bytes ≡ front ++ journal
  pub file_synced : s.file.synced ≡ s.file.bytes
  pub durable : Checkpoint
  pub replayed : replay_records c (u64 (c.last_sequence + 1)) rs ≡ ok durable
  pub durable_same : durable.extents ≡ s.durable_extents
  pub pending_written :
      journal_of (staged_records (u64 (durable.last_sequence + 1)) ps)
      ≡ ok (concat s.pending_records)
  pub pending_count : length s.pending_records ≡ length ps
  pub pending_storable : All IsStorable (staged_records (u64 (durable.last_sequence + 1)) ps)
  pub advanced : advance s.durable_extents ps ≡ ok s.extents
  pub next_number : s.next_sequence ≡ u64 (u64 (durable.last_sequence + 1) + length ps)

pub journal_of-append :
    (rs qs : List JournalRecord) (bs cs : List ℕ)
    → journal_of rs ≡ ok bs
    → journal_of qs ≡ ok cs
    → journal_of (rs ++ qs) ≡ ok (bs ++ cs)
unfolding journal_of
journal_of-append [] qs bs cs h k =
    let e : [] ≡ bs = cc in subst (λ z. journal_of qs ≡ ok (z ++ cs)) e k
journal_of-append (r ∷ rs) qs bs cs h k =
    let (b, h1, h2) = >>=-eq-ok (marshal_journal_record r) _ h in
    let (rest, h3, h4) = >>=-eq-ok (journal_of rs) _ h2 in
    let e : b ++ rest ≡ bs = cc in
    rw (h1, journal_of-append rs qs rest cs h3 k)
      (ap ok (sym (append_assoc b rest cs) ∙ ap (λ z. z ++ cs) e))

-- What a prepared transition is.
pub record Prepared (s : Store) (e : Extent) (es : List Extent) (bytes : List ℕ) : Type 0 where
  pub applied : apply_extent s.extents e ≡ ok es
  numbered : 0 < s.next_sequence
  written : marshal_journal_record (extent_record s.next_sequence e) ≡ ok bytes
  valid : IsValid e

pub coded-eq-ok : {A : Type 0} (r : Result CodecError A) (v : A) → coded r ≡ ok v → r ≡ ok v
coded-eq-ok (ok u) v h = cc
coded-eq-ok (err f) v h = cc

lift_map-eq-ok : {A : Type 0} (r : Result MapError A) (v : A) → lift_map r ≡ ok v → r ≡ ok v
lift_map-eq-ok (ok u) v h = cc
lift_map-eq-ok (err f) v h = cc

pub prepare_extent-Prepared :
    (s : Store) (e : Extent) (es : List Extent) (bytes : List ℕ)
    → prepare_extent s e ≡ ok (es, bytes)
    → Prepared s e es bytes
unfolding prepare_extent apply_extent
prepare_extent-Prepared s e es bytes h =
    let (es', h1, h2) = >>=-eq-ok (coded (lift_map (apply_extent s.extents e))) _ h in
    let (h3, h4) = guard-eq-ok (not (s.next_sequence == 0)) sequence_exhausted _ h2 in
    let (bytes', h5, h6) =
      >>=-eq-ok (coded (marshal_journal_record (extent_record s.next_sequence e))) _ h4 in
    let a : apply_extent s.extents e ≡ ok es' = lift_map-eq-ok _ es' (coded-eq-ok _ es' h1) in
    let same : es' ≡ es = cc in
    let same_bytes : bytes' ≡ bytes = cc in
    record {
      applied = a ∙ ap ok same;
      numbered = ground (arith, h3);
      written = coded-eq-ok _ bytes' h5 ∙ ap ok same_bytes;
      valid = validate→IsValid e (>>-eq-ok (validate e) _ a).0;
    }

pub if_else {ℓ} : {A : Type ℓ} (b : Bool) (x y : A) → b ≡ false → (if b then x else y) ≡ y
if_else b x y h = rw h

stage_extent-err :
    (s : Store) (e : Extent) (f : StoreError)
    → s.closed ≡ false
    → prepare_extent s e ≡ err f
    → stage_extent s e ≡ (s, some f)
unfolding stage_extent
stage_extent-err s e f o h = if_else s.closed _ _ o ∙ rw h

abbrev pub staged : Store → List Extent → List ℕ → Store
staged s es bytes = record s {
  extents = es;
  next_sequence = u64 (s.next_sequence + 1);
  pending_records = s.pending_records ++ bytes ∷ [];
  pending_bytes = u64 (s.pending_bytes + length bytes);
}

stage_extent-ok :
    (s : Store) (e : Extent) (es : List Extent) (bytes : List ℕ)
    → s.closed ≡ false
    → prepare_extent s e ≡ ok (es, bytes)
    → stage_extent s e ≡ (staged s es bytes, none)
unfolding stage_extent
stage_extent-ok s e es bytes o h = if_else s.closed _ _ o ∙ rw h

-- What a flush leaves of any open store: nothing to do, or all of the pending bytes, or some.
flush_pending-Flushes :
    (s : Store) (rs : List (List ℕ))
    → ((rs ≡ []) × (flush_pending s rs ≡ (s, none)))
      ⊎ ((d : Done) × (flush_pending s rs ≡ flushed s d) × Flushes s.file (concat rs) d)
flush_pending-Flushes s [] = inl (refl, refl)
flush_pending-Flushes s (r ∷ rs) =
    let all = concat (r ∷ rs) in
    inr (
      (seek_end s.file ▷ write_records (r ∷ rs) ▷ sync),
      refl,
      subst (λ z. Flushes s.file z (seek_end s.file ▷ write_records (r ∷ rs) ▷ sync))
          (append-nil all)
          (Flushes-then s.file all [] sync (seek_end s.file ▷ write_records (r ∷ rs))
            (Appends-then s.file [] all (write_records (r ∷ rs)) (seek_end s.file)
              (seek_end-Appends s.file) (write_records-Appends (r ∷ rs)))
            sync-Flushes),
    )

pub none-some : {e : StoreError} → ◌≡◌ {A = Option StoreError} (some e) none → ⊥
none-some q = cc

-- A flush of an open store that returns no error has put all of the pending bytes in the file.
pub flush-bytes :
    (s s' : Store)
    → s.closed ≡ false
    → flush s ≡ (s', none)
    → s'.file.bytes ≡ s.file.bytes ++ concat s.pending_records
unfolding flush
flush-bytes s s' o h =
    let opened : flush_pending s s.pending_records ≡ (s', none) =
      sym (if_else s.closed _ _ o) ∙ h in
    elim (flush_pending-Flushes s s.pending_records) [
      | inl (e, k) ↦
          let same : s ≡ s' = ap (λ (p : Store × Option StoreError). p.0) (sym k ∙ opened) in
          ap (λ (t : Store). t.file.bytes) (sym same)
          ∙ sym (append-nil s.file.bytes)
          ∙ ap (λ rs. s.file.bytes ++ concat rs) (sym e)
      | inr (d, k, fl) ↦ flushed_bytes d fl (sym k ∙ opened)
    ]
  where
    flushed_bytes :
        (d : Done)
        → Flushes s.file (concat s.pending_records) d
        → flushed s d ≡ (s', none)
        → s'.file.bytes ≡ s.file.bytes ++ concat s.pending_records
    flushed_bytes (f, some e) fl q = absurd (none-some (ap (λ p. p.1) q))
    flushed_bytes (f, none) (a, b) q =
        ap (λ (p : Store × Option StoreError). p.0.file.bytes) (sym q) ∙ a

pub journal_of-nil : journal_of [] ≡ ok []
unfolding journal_of
journal_of-nil = refl

module _ (c : Checkpoint) (front : List ℕ) (s : Store) (rs : List JournalRecord) (ps : List Extent)
    (i : IsSound c front s rs ps) where
  abbrev pub first : ℕ
  first = u64 (i.durable.last_sequence + 1)

  pub staged_one :
      (e : Extent) (es : List Extent) (bytes : List ℕ)
      → IsTyped e
      → Prepared s e es bytes
      → IsSound c front (staged s es bytes) rs (ps ++ e ∷ [])
  unfolding journal_of
  staged_one e es bytes t p =
      let more : staged_records first (ps ++ e ∷ [])
          ≡ staged_records first ps ++ extent_record s.next_sequence e ∷ [] =
        staged_records-append first ps e (omega arith)
        ∙ ap (λ m. staged_records first ps ++ extent_record m e ∷ []) (sym i.next_number) in
      record {
        in_use = i.in_use;
        journal = i.journal;
        journal_written = i.journal_written;
        records_storable = i.records_storable;
        file_bytes = i.file_bytes;
        file_synced = i.file_synced;
        durable = i.durable;
        replayed = i.replayed;
        durable_same = i.durable_same;
        pending_written =
            ap journal_of more
            ∙ journal_of-append (staged_records first ps) (extent_record s.next_sequence e ∷ [])
                (concat s.pending_records) (bytes ++ []) i.pending_written (rw (p.written))
            ∙ ap ok (sym (concat-append s.pending_records (bytes ∷ [])));
        pending_count = omega (
          arith,
          i.pending_count,
          length-append s.pending_records (bytes ∷ []),
          length-append ps (e ∷ []),
        );
        pending_storable = subst (All IsStorable) (sym more) (
            All-append IsStorable (staged_records first ps) (extent_record s.next_sequence e ∷ [])
              i.pending_storable
              (
                record {
                  numbered = p.numbered;
                  sequence_fits = omega (arith, i.next_number);
                  shaped = (t, p.valid, refl);
                },
                tt,
              ));
        advanced = advance_then s.durable_extents ps (e ∷ []) s.extents i.advanced ∙ rw (p.applied);
        next_number = omega (arith, i.next_number, length-append ps (e ∷ []));
      }

  -- From a sound store, `StageExtent` of an extent whose fields fit their Go types either returns
  -- an error and leaves the store as it was, or it returns none and the store is sound with that
  -- transition staged behind the others.
  pub stage_extent-IsSound :
      (e : Extent)
      → IsTyped e
      → ((f : StoreError) × (stage_extent s e ≡ (s, some f)))
        ⊎ (((stage_extent s e).1 ≡ none) × IsSound c front (stage_extent s e).0 rs (ps ++ e ∷ []))
  stage_extent-IsSound e t = elim (Result-cases (prepare_extent s e)) [
    | inl (f, h) ↦ inl (f, stage_extent-err s e f i.in_use h)
    | inr ((es, bytes), h) ↦
        let next = stage_extent-ok s e es bytes i.in_use h in
        inr (
          ap (λ p. p.1) next,
          subst (λ p. IsSound c front p.0 rs (ps ++ e ∷ [])) (sym next)
              (staged_one e es bytes t (prepare_extent-Prepared s e es bytes h)),
        )
  ]

  -- What a flush of a sound store leaves.
  abbrev pub AfterFlush : Store × Option StoreError → Type 0
  AfterFlush (s', none) =
      IsSound c front s' (rs ++ staged_records first ps) []
      × (s'.durable_extents ≡ s.extents)
      × (s'.extents ≡ s.extents)
  AfterFlush (s', some e) =
      (f : File) × (k : ℕ) × (s' ≡ record s { file = f })
      × (f.bytes ≡ s.file.bytes ++ take k (concat s.pending_records))
      × (f.synced ≡ s.file.synced)

  nothing_staged : s.pending_records ≡ [] → ps ≡ []
  nothing_staged h = empty_of ps (omega (arith, i.pending_count, ap length h))
    where
      empty_of : (qs : List Extent) → length qs ≡ 0 → qs ≡ []
      empty_of [] e = refl
      empty_of (q ∷ qs) e = absurd (omega arith)

  flush_nothing : s.pending_records ≡ [] → AfterFlush (s, none)
  flush_nothing h =
      let e = nothing_staged h in
      let same : rs ++ staged_records first ps ≡ rs =
        ap (λ qs. rs ++ staged_records first qs) e ∙ append-nil rs in
      let none_left : advance s.durable_extents [] ≡ ok s.extents =
        ap (advance s.durable_extents) (sym e) ∙ i.advanced in
      (subst (λ z. IsSound c front s z []) (sym same) (subst (IsSound c front s rs) e i), cc, refl)

  pub flushed-AfterFlush :
      (d : Done) → Flushes s.file (concat s.pending_records) d → AfterFlush (flushed s d)
  flushed-AfterFlush (f, some e) (k, a, b) = (f, k, refl, a, b)
  flushed-AfterFlush (f, none) (a, b) =
      let (d, h1, h2, h3) =
        replay_records-staged_records i.durable first ps s.extents refl
          (ap (λ es. advance es ps) i.durable_same ∙ i.advanced) in
      (
        record {
          in_use = i.in_use;
          journal = i.journal ++ concat s.pending_records;
          journal_written =
              journal_of-append rs (staged_records first ps) i.journal (concat s.pending_records)
                i.journal_written i.pending_written;
          records_storable =
              All-append IsStorable rs (staged_records first ps) i.records_storable
                i.pending_storable;
          file_bytes =
              a
              ∙ ap (λ z. z ++ concat s.pending_records) i.file_bytes
              ∙ append_assoc front i.journal (concat s.pending_records);
          file_synced = b;
          durable = d;
          replayed =
              replay_records-append c i.durable (u64 (c.last_sequence + 1)) rs
                (staged_records first ps) refl i.replayed
              ∙ h1;
          durable_same = h2;
          pending_written = journal_of-nil;
          pending_count = refl;
          pending_storable = tt;
          advanced = refl;
          next_number = i.next_number ∙ omega (arith, h3);
        },
        refl,
        refl,
      )

  -- From a sound store, `Flush` either returns no error, and the store is sound with every staged
  -- transition durable and none pending; or it returns an error, and all that has changed is that
  -- the first bytes of the pending records may stand behind those of the file.
  pub flush-AfterFlush : AfterFlush (flush s)
  unfolding flush
  flush-AfterFlush =
      subst AfterFlush (sym (if_else s.closed _ _ i.in_use))
        (elim (flush_pending-Flushes s s.pending_records) [
          | inl (e, h) ↦ subst AfterFlush (sym h) (flush_nothing e)
          | inr (d, h, fl) ↦ subst AfterFlush (sym h) (flushed-AfterFlush d fl)
        ])
