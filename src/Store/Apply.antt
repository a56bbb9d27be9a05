-- ===== src/Store/Apply.antt =====
-- `ApplyExtent` of a store: what it has returned without an error is durable.
use disc_rescue.Prelude.{
  ℕ, ◌+◌, ◌≡◌, refl, sym, ap, subst, ◌∙◌, true, inl, inr, List, [], ◌∷◌, ◌++◌, append-nil, arith,
  length, u64, Option, some, none, Result-cases, ok, err,
}
use disc_rescue.Mapfile.Extent.{Extent}
use disc_rescue.Mapfile.Edit.{apply_extent}
use disc_rescue.Mapfile.Codec.{JournalRecord}
use disc_rescue.Mapfile.Codec.Laws.{IsTyped}
use disc_rescue.Mapfile.Replay.{Checkpoint}
use disc_rescue.Store.Disk.{StoreError, File, Done, ◌▷◌, seek_end, sync, write_full}
use disc_rescue.Store.{
  Store, prepare_extent, appended, append_extent, append_flushed, apply_store_extent, flush,
}
use disc_rescue.Store.Writes.{
  concat, Flushes, Flushes-then, Appends-then, seek_end-Appends, write_full-Appends, sync-Flushes,
}
use disc_rescue.Store.History.{staged_records}
use disc_rescue.Store.Sound.{
  IsSound, Prepared, prepare_extent-Prepared, staged, staged_one, AfterFlush, flush-AfterFlush,
  flushed-AfterFlush, if_else, none-some,
}

-- The store holds a new map, all of it durable.
pub record Applied (c : Checkpoint) (front : List ℕ) (s s' : Store) (e : Extent) : Type 0 where
  pub records : List JournalRecord
  pub sound : IsSound c front s' records []
  pub updated : apply_extent s.extents e ≡ ok s'.extents
  pub durable : s'.durable_extents ≡ s'.extents

append_calls : List ℕ → File → Done
append_calls bytes f = seek_end f ▷ write_full bytes ▷ sync

append_calls-Flushes : (bytes : List ℕ) (f : File) → Flushes f bytes (append_calls bytes f)
unfolding append_calls
append_calls-Flushes bytes f =
    subst (λ z. Flushes f z (append_calls bytes f)) (append-nil bytes)
      (Flushes-then f bytes [] sync (seek_end f ▷ write_full bytes)
        (Appends-then f [] bytes (write_full bytes) (seek_end f) (seek_end-Appends f)
          (write_full-Appends bytes))
        sync-Flushes)

append_extent-ok :
    (s : Store) (e : Extent) (es : List Extent) (bytes : List ℕ)
    → prepare_extent s e ≡ ok (es, bytes)
    → append_extent s e true ≡ appended s true es (append_calls bytes s.file)
unfolding append_extent append_calls
append_extent-ok s e es bytes h = rw (h, append_extent)

append_extent-err :
    (s : Store) (e : Extent) (f : StoreError)
    → prepare_extent s e ≡ err f
    → append_extent s e true ≡ (s, some f)
unfolding append_extent
append_extent-err s e f h = rw (h, append_extent)

module _ (c : Checkpoint) (front : List ℕ) (s : Store) (rs : List JournalRecord)
    (i : IsSound c front s rs []) (e : Extent) (t : IsTyped e) where
  nothing_pending : s.pending_records ≡ []
  nothing_pending = empty_of s.pending_records i.pending_count
    where
      empty_of : (qs : List (List ℕ)) → length qs ≡ 0 → qs ≡ []
      empty_of [] h = refl
      empty_of (q ∷ qs) h = absurd (omega arith)

  one_pending : (bytes : List ℕ) → bytes ≡ concat (s.pending_records ++ bytes ∷ [])
  one_pending bytes =
      sym (append-nil bytes) ∙ ap (λ qs. concat (qs ++ bytes ∷ [])) (sym nothing_pending)

  appended-Applied :
      (es : List Extent) (bytes : List ℕ) (d : Done) (s' : Store)
      → Prepared s e es bytes
      → Flushes s.file bytes d
      → appended s true es d ≡ (s', none)
      → Applied c front s s' e
  appended-Applied es bytes (f, some x) s' p fl h = absurd (none-some (ap (λ q. q.1) h))
  appended-Applied es bytes (f, none) s' p fl h =
      let i2 = staged_one c front s rs [] i e es bytes t p in
      let (i3, _, _) =
        flushed-AfterFlush c front (staged s es bytes) rs (e ∷ []) i2 (f, none)
          (subst (λ z. Flushes s.file z (f, none)) (one_pending bytes) fl) in
      subst (λ (q : Store × Option StoreError). Applied c front s q.0 e) h
        (record {
          records = rs ++ staged_records (u64 (i2.durable.last_sequence + 1)) (e ∷ []);
          sound = record {
            in_use = i.in_use;
            journal = i3.journal;
            journal_written = i3.journal_written;
            records_storable = i3.records_storable;
            file_bytes = i3.file_bytes;
            file_synced = i3.file_synced;
            durable = i3.durable;
            replayed = i3.replayed;
            durable_same = i3.durable_same;
            pending_written = i3.pending_written ∙ ap (λ qs. ok (concat qs)) (sym nothing_pending);
            pending_count = i.pending_count;
            pending_storable = tt;
            advanced = refl;
            next_number = i3.next_number;
          };
          updated = p.applied;
          durable = refl;
        })

  append_extent-Applied :
      (s' : Store) → append_extent s e true ≡ (s', none) → Applied c front s s' e
  append_extent-Applied s' h = elim (Result-cases (prepare_extent s e)) [
    | inl (f, p) ↦ absurd (
        none-some
          (ap (λ (q : Store × Option StoreError). q.1) (sym (append_extent-err s e f p) ∙ h)))
    | inr ((es, bytes), p) ↦
        appended-Applied es bytes (append_calls bytes s.file) s'
          (prepare_extent-Prepared s e es bytes p) (append_calls-Flushes bytes s.file)
          (sym (append_extent-ok s e es bytes p) ∙ h)
  ]

append_flushed-Applied :
    (c : Checkpoint) (front : List ℕ) (s s' : Store) (rs : List JournalRecord) (ps : List Extent)
    (i : IsSound c front s rs ps) (e : Extent) (d : Store × Option StoreError)
    → IsTyped e
    → AfterFlush c front s rs ps i d
    → append_flushed e d ≡ (s', none)
    → Applied c front s s' e
append_flushed-Applied c front s s' rs ps i e (s1, some f) t a h =
    absurd (none-some (ap (λ (q : Store × Option StoreError). q.1) h))
append_flushed-Applied c front s s' rs ps i e (s1, none) t (i1, _, same) h =
    let r = append_extent-Applied c front s1 _ i1 e t s' h in
    record {
      records = r.records;
      sound = r.sound;
      updated = ap (λ es. apply_extent es e) (sym same) ∙ r.updated;
      durable = r.durable;
    }

-- From a sound store, when `ApplyExtent` of an extent whose fields fit their Go types returns no
-- error, the store is sound with nothing pending, its map is what the map's own `ApplyExtent`
-- makes of the extents, the staged ones included, and all of it is durable.
pub apply_store_extent-Applied :
    (c : Checkpoint) (front : List ℕ) (s s' : Store) (rs : List JournalRecord) (ps : List Extent)
    (e : Extent)
    → IsSound c front s rs ps
    → IsTyped e
    → apply_store_extent s e ≡ (s', none)
    → Applied c front s s' e
unfolding apply_store_extent
apply_store_extent-Applied c front s s' rs ps e i t h =
    append_flushed-Applied c front s s' rs ps i e (flush s) t (flush-AfterFlush c front s rs ps i)
      (sym (if_else s.closed _ _ i.in_use) ∙ h)
