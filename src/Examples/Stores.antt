-- ===== src/Examples/Stores.antt =====
-- A map's file that is made, worked on, flushed and closed.
use disc_rescue.Prelude.{
  ℕ, ◌≡◌, refl, sym, ap, ◌∙◌, ◌⊎◌, inl, inr, true, false, List, [], ◌∷◌, ◌++◌, append-nil, subst,
  arith, take, drop, length, Option, none, some, ok, err,
}
use disc_rescue.Prelude.Bytes.{crc32c, le_bytes}
use disc_rescue.Mapfile.Codec.{
  extent_bytes, marshal_extent, payload_bytes, validate_record, marshal_journal_record, frame,
  extent_state_changed,
}
use disc_rescue.Mapfile.Header.{header_body, validate_header, marshal_header}
use disc_rescue.Mapfile.Checkpoint.{marshal_checkpoint, marshal_extents, checkpoint_body}
use disc_rescue.Mapfile.Extent.{validate_extent_set}
use disc_rescue.Mapfile.Replay.{Checkpoint, requeued, requeue_all}
use disc_rescue.Store.Disk.{
  StoreError, io_failed, Answer, file_removed, completes, fails, seek_end, sync, write_full,
  write_loop, write_at,
}
use disc_rescue.Store.{
  Geometry, Store, append_extent, prepare_extent, stage_extent, flush, write_records,
  apply_store_extent, close, finalize, with_shutdown,
}
use disc_rescue.Store.Session.{no_records, created, create, prepare_new, write_new}
use disc_rescue.Mapfile.Edit.{
  apply_extent, carve_all, sort_by_start, insert_by_start, coalesce_extents, coalesce_from,
}
use disc_rescue.Mapfile.Extent.{validate, validate_after}
use disc_rescue.Mapfile.State.{validate_state_confidence}
use disc_rescue.Mapfile.Codec.{non_monotonic_sequence}
use disc_rescue.Mapfile.Replay.{replay_journal_reader}
use disc_rescue.Mapfile.Replay.Reader.{ending}
use disc_rescue.Store.Session.{read_state, inspect}
use disc_rescue.Store.ReadState.{Fits}
use disc_rescue.Store.Sound.{IsSound, AfterFlush, stage_extent-IsSound, flush-AfterFlush}
use disc_rescue.Store.Apply.{Applied, apply_store_extent-Applied}
use disc_rescue.Store.Crash.{Kept}
use disc_rescue.Store.Reopen.{read_state-crashed}
use disc_rescue.Store.Retry.{flush_again-unreadable}
use disc_rescue.Store.Closing.{close-inspected}
use disc_rescue.Store.Writes.{concat}
use disc_rescue.Store.Reopen.{Front}
use disc_rescue.Store.Creation.{create-IsSound, with_shutdown-IsTyped}
use disc_rescue.Examples.Headers.{
  disc_header, disc_header-IsTyped, bad_part-IsTyped, bad_part-IsValid,
}
use disc_rescue.Examples.Maps.{bad_part}

abbrev header_bytes : List ℕ
header_bytes =
    header_body (with_shutdown false disc_header)
    ++ le_bytes 4 (crc32c (header_body (with_shutdown false disc_header)))

abbrev checkpoint_bytes : List ℕ
checkpoint_bytes =
    checkpoint_body no_records [] ++ le_bytes 4 (crc32c (checkpoint_body no_records []))

-- A new store whose file answers like this from then on.
abbrev new_map : List Answer → Store
new_map answers = record {
  file = record {
    bytes = header_bytes ++ checkpoint_bytes;
    synced = header_bytes ++ checkpoint_bytes;
    answers = answers;
  };
  header = with_shutdown false disc_header;
  extents = [];
  durable_extents = [];
  next_sequence = 1;
  pending_bytes = 0;
  pending_records = [];
  closed = false;
}

abbrev after_creation : List Answer → List Answer
after_creation answers = completes ∷ completes ∷ completes ∷ completes ∷ completes ∷ answers

create-new_map :
    (answers : List Answer)
    → create disc_header (after_creation answers) file_removed ≡ created (new_map answers)
unfolding create prepare_new validate_header marshal_header marshal_checkpoint validate_extent_set
    marshal_extents write_new write_at sync seek_end header_body checkpoint_body
create-new_map answers = refl

create-IsSound_example :
    (hb : List ℕ) × (cb : List ℕ) × Front hb cb (with_shutdown false disc_header) no_records
    × IsSound no_records (hb ++ cb) (new_map []) [] []
    × ((new_map []).extents ≡ [])
create-IsSound_example =
    create-IsSound disc_header (after_creation []) file_removed (new_map []) disc_header-IsTyped
      (create-new_map [])

-- The front of the new file, and the soundness of its store.
made :
    (answers : List Answer)
    → (hb : List ℕ) × (cb : List ℕ) × Front hb cb (with_shutdown false disc_header) no_records
      × IsSound no_records (hb ++ cb) (new_map answers) [] []
      × ((new_map answers).extents ≡ [])
made answers =
    create-IsSound disc_header (after_creation answers) file_removed (new_map answers)
      disc_header-IsTyped (create-new_map answers)

abbrev front : List Answer → List ℕ
front answers = (made answers).0 ++ (made answers).1

new_map_sound : (answers : List Answer) → IsSound no_records (front answers) (new_map answers) [] []
new_map_sound answers = (made answers).3

stage_extent-IsSound_example :
    ((f : StoreError) × (stage_extent (new_map []) bad_part ≡ (new_map [], some f)))
    ⊎ (((stage_extent (new_map []) bad_part).1 ≡ none)
        × IsSound no_records (front []) (stage_extent (new_map []) bad_part).0 [] (bad_part ∷ []))
stage_extent-IsSound_example =
    stage_extent-IsSound no_records (front []) (new_map []) [] [] (new_map_sound []) bad_part
      bad_part-IsTyped

abbrev bad_frame : List ℕ
bad_frame = frame extent_state_changed 1 (extent_bytes bad_part)

-- With a first extent staged.
abbrev staged_map : List Answer → Store
staged_map answers = record (new_map answers) {
  extents = bad_part ∷ [];
  next_sequence = 2;
  pending_bytes = 57;
  pending_records = bad_frame ∷ [];
}

stage_bad_part :
    (answers : List Answer) → stage_extent (new_map answers) bad_part ≡ (staged_map answers, none)
unfolding stage_extent prepare_extent apply_extent validate validate_state_confidence
    validate_extent_set carve_all sort_by_start insert_by_start coalesce_extents coalesce_from
    marshal_journal_record validate_record payload_bytes marshal_extent frame extent_bytes
    validate_after
stage_bad_part answers = refl

not_refused :
    {s t : Store} {f : StoreError} → ◌≡◌ {A = Store × Option StoreError} (t, none) (s, some f) → ⊥
not_refused h = no_error (ap (λ (p : Store × Option StoreError). p.1) h)
  where
    no_error : {f : StoreError} → ◌≡◌ {A = Option StoreError} none (some f) → ⊥
    no_error q = cc

staged_map_sound :
    (answers : List Answer)
    → IsSound no_records (front answers) (staged_map answers) [] (bad_part ∷ [])
staged_map_sound answers =
    elim (stage_extent-IsSound no_records (front answers) (new_map answers) [] []
      (new_map_sound answers) bad_part bad_part-IsTyped) [
        | inl (f, h) ↦ absurd (not_refused (sym (stage_bad_part answers) ∙ h))
        | inr (_, i) ↦
            subst
              (λ (p : Store × Option StoreError).
                IsSound no_records (front answers) p.0 [] (bad_part ∷ []))
              (stage_bad_part answers) i
      ]

flush-AfterFlush_example :
    AfterFlush no_records
      (front [])
      (staged_map [])
      []
      (bad_part ∷ [])
      (staged_map_sound [])
      (flush (staged_map []))
flush-AfterFlush_example =
    flush-AfterFlush no_records (front []) (staged_map []) [] (bad_part ∷ []) (staged_map_sound [])

abbrev on_disc : Geometry
on_disc = record { logical_sector_size = 2048; expected_sector_count = 100 }

disc_header-Fits : Fits (with_shutdown false disc_header) on_disc
disc_header-Fits = record {
  sized = λ e. omega (arith, e);
  counted = λ e. omega (arith, e);
  same_size = refl;
  same_count = refl;
}

-- Twenty bytes of the pending record reach the disc.
read_state-crashed_example :
    (m : Kept [] (bad_part ∷ [])) × (d : Checkpoint) × (read_state
        ((header_bytes ++ checkpoint_bytes) ++ take 20 (bad_frame ++ []))
        on_disc
      ≡ ok (with_shutdown false disc_header, requeued d))
    × (d.extents ≡ m.map)
read_state-crashed_example =
    read_state-crashed (made []).0 (made []).1 (with_shutdown false disc_header) no_records
      (staged_map []) [] (bad_part ∷ []) on_disc 20 (made []).2 disc_header-Fits (omega arith)
      (staged_map_sound []) tt (omega arith, tt)

-- With the extent applied and durable.
abbrev applied_map : Store
applied_map = record (new_map []) {
  file = record {
    bytes = (header_bytes ++ checkpoint_bytes) ++ bad_frame;
    synced = (header_bytes ++ checkpoint_bytes) ++ bad_frame;
    answers = [];
  };
  extents = bad_part ∷ [];
  durable_extents = bad_part ∷ [];
  next_sequence = 2;
}

apply_bad_part : apply_store_extent (new_map []) bad_part ≡ (applied_map, none)
unfolding apply_store_extent flush append_extent prepare_extent apply_extent validate
    validate_state_confidence validate_extent_set carve_all sort_by_start insert_by_start
    coalesce_extents coalesce_from marshal_journal_record validate_record payload_bytes
    marshal_extent frame extent_bytes validate_after seek_end sync write_full write_loop
apply_bad_part = refl

apply_store_extent-Applied_example : Applied no_records (front []) (new_map []) applied_map bad_part
apply_store_extent-Applied_example =
    apply_store_extent-Applied no_records (front []) (new_map []) applied_map [] [] bad_part
      (new_map_sound []) bad_part-IsTyped apply_bad_part

-- The seek and the write of a flush are done, and its sync fails.
abbrev sync_fails : List Answer
sync_fails = completes ∷ completes ∷ fails 0 ∷ []

abbrev failed_map : Store
failed_map = record (staged_map []) {
  file = record {
    bytes = (header_bytes ++ checkpoint_bytes) ++ bad_frame;
    synced = header_bytes ++ checkpoint_bytes;
    answers = [];
  };
}

abbrev twice_flushed : Store
twice_flushed = record applied_map {
  file = record {
    bytes = ((header_bytes ++ checkpoint_bytes) ++ bad_frame) ++ bad_frame;
    synced = ((header_bytes ++ checkpoint_bytes) ++ bad_frame) ++ bad_frame;
    answers = [];
  };
}

first_flush : flush (staged_map sync_fails) ≡ (failed_map, some io_failed)
unfolding flush seek_end sync write_records write_full write_loop frame
first_flush = refl

second_flush : flush failed_map ≡ (twice_flushed, none)
unfolding flush seek_end sync write_records write_full write_loop frame
second_flush = refl

flush_again-unreadable_example :
    replay_journal_reader no_records
      (some (ending (drop (length (front sync_fails)) twice_flushed.file.bytes)))
    ≡ err non_monotonic_sequence
flush_again-unreadable_example =
    flush_again-unreadable no_records (front sync_fails) (staged_map sync_fails) failed_map
      twice_flushed [] bad_part [] io_failed (staged_map_sound sync_fails) (omega arith) first_flush
      all_there second_flush
  where
    all_there :
        failed_map.file.bytes ≡ (staged_map sync_fails).file.bytes ++ concat (bad_frame ∷ [])
    all_there = ap (λ z. (header_bytes ++ checkpoint_bytes) ++ z) (sym (append-nil bad_frame))

abbrev closed_map : Store
closed_map = (close (staged_map []) true).0

close-staged_map : close (staged_map []) true ≡ (closed_map, [])
unfolding close finalize flush seek_end sync write_records write_full write_loop frame
    marshal_header validate_header write_at
close-staged_map = refl

close-inspected_example :
    inspect closed_map.file.bytes on_disc
    ≡ ok (with_shutdown true (with_shutdown false disc_header), requeue_all (bad_part ∷ []))
close-inspected_example =
    close-inspected (made []).0 (made []).1 (with_shutdown false disc_header) no_records
      (staged_map []) closed_map [] (bad_part ∷ []) on_disc true (made []).2 (staged_map_sound [])
      (with_shutdown-IsTyped false disc_header disc_header-IsTyped) disc_header-Fits
      (bad_part-IsValid, omega arith, omega arith, tt) close-staged_map
