-- ===== src/Store/Session.antt =====
-- internal/recoverymap/store_create.go, store_open.go and state_reader.go: a map's file is made,
-- read back and opened again.
use disc_rescue.Prelude.{
  ℕ, ◌+◌, ◌-◌, ◌^◌, false, not, ◌||◌, ◌&&◌, ◌==◌, ltb, List, [], ◌∷◌, ◌++◌, length, drop, none,
  some, u64, if◌then◌else◌, Result, ok, err, guard, ◌>>=◌, ◌>>◌,
}
use disc_rescue.Prelude.Bytes.{le_value, slice}
use disc_rescue.Mapfile.Extent.{Extent}
use disc_rescue.Mapfile.Replay.{Checkpoint, replay_journal_reader_within_capacity}
use disc_rescue.Mapfile.Header.{Header, validate_header, marshal_header, unmarshal_header}
use disc_rescue.Mapfile.Checkpoint.{default_decode_limits, marshal_checkpoint, unmarshal_checkpoint}
use disc_rescue.Store.Disk.{
  StoreError, sequence_exhausted, geometry_required, geometry_mismatch, map_too_short,
  header_length_invalid, checkpoint_truncated, checkpoint_too_long, codec, io_failed, Answer, fails,
  Removal, file_removed, file_gone, file_kept, File, Done, ◌▷◌, seek_end, sync, write_at,
  read_at_exact,
}
use disc_rescue.Store.{Geometry, Store, coded, with_shutdown, close_file}

abbrev pub no_records : Checkpoint
no_records = record { last_sequence = 0; extents = [] }

abbrev pub empty_file : List Answer → File
empty_file answers = record { bytes = []; synced = []; answers = answers }

-- `os.OpenFile`: its error, or the answers to the calls to come.
abbrev pub open_file : List Answer → Result StoreError (List Answer)
open_file [] = ok []
open_file (fails n ∷ rest) = err io_failed
open_file (_ ∷ rest) = ok rest

-- A file that was gone is no error.
abbrev pub removal_errors : Removal → List StoreError
removal_errors file_removed = []
removal_errors file_gone = []
removal_errors file_kept = io_failed ∷ []

-- `abortCreate`: the cause, then the errors of the closing and of the removal.
abbrev pub abort_create : File → StoreError → Removal → List StoreError
abort_create f cause removal = (close_file f (cause ∷ [])).1 ++ removal_errors removal

-- What `Create` leaves: a store; or its error before it made the file, or its errors after that.
pub data Created : Type 0 where
  created : Store → Created
  refused : StoreError → Created
  abandoned : List StoreError → Created

-- The calls on the new file.
unfoldable pub write_new : List ℕ → List ℕ → File → Done
write_new header_bytes checkpoint_bytes f =
    write_at 0 header_bytes f ▷ write_at (length header_bytes) checkpoint_bytes ▷ sync ▷ seek_end

abbrev pub new_store : Header → Removal → Done → Created
new_store h removal (f, none) = created (record {
  file = f;
  header = h;
  extents = [];
  durable_extents = [];
  next_sequence = 1;
  pending_bytes = 0;
  pending_records = [];
  closed = false;
})
new_store h removal (f, some e) = abandoned (abort_create f e removal)

-- The bytes that `Create` has ready before it makes the file.
unfoldable pub prepare_new : Header → Result StoreError (List ℕ × List ℕ)
prepare_new h = do
  coded (validate_header h)
  header_bytes ← coded (marshal_header (with_shutdown false h))
  checkpoint_bytes ← coded (marshal_checkpoint no_records)
  ok (header_bytes, checkpoint_bytes)

-- `Create`, where the operating system gives these answers, and a removal ends like this.
unfoldable pub create : Header → List Answer → Removal → Created
create h answers removal = elim (prepare_new h) [
  | err e ↦ refused e
  | ok (header_bytes, checkpoint_bytes) ↦ elim (open_file answers) [
    | err e ↦ refused e
    | ok later ↦
        new_store (with_shutdown false h) removal
          (write_new header_bytes checkpoint_bytes (empty_file later))
  ]
]

-- `readState` of a file with these bytes.
unfoldable pub read_state : List ℕ → Geometry → Result StoreError (Header × Checkpoint)
read_state bs g = do
  guard (not (g.logical_sector_size == 0 || g.expected_sector_count == 0)) geometry_required
  guard (not (ltb (length bs) 8)) map_too_short
  start ← read_at_exact 0 8 bs
  let header_length = le_value (slice 6 8 start)
  guard (not (header_length == 0)) header_length_invalid
  header_bytes ← read_at_exact 0 header_length bs
  header ← coded (unmarshal_header header_bytes)
  checkpoint_prefix ← read_at_exact header_length 10 bs
  let payload_length = le_value (slice 6 10 checkpoint_prefix)
  let checkpoint_length = 14 + payload_length
  guard (not (ltb (length bs - header_length) checkpoint_length)) checkpoint_truncated
  guard (not (ltb default_decode_limits.max_checkpoint_payload_bytes payload_length))
      checkpoint_too_long
  checkpoint_bytes ← read_at_exact header_length checkpoint_length bs
  checkpoint ← coded (unmarshal_checkpoint checkpoint_bytes)
  guard
      (header.logical_sector_size == g.logical_sector_size
        && header.expected_sector_count == g.expected_sector_count)
      geometry_mismatch
  replayed ← coded (
      replay_journal_reader_within_capacity checkpoint
        (some (record { bytes = drop (header_length + checkpoint_length) bs; broken = false }))
        g.expected_sector_count)
  ok (header, replayed)

unfoldable pub inspect : List ℕ → Geometry → Result StoreError (Header × List Extent)
inspect bs g = do state ← read_state bs g; ok (state.0, state.1.extents)

-- What `Open` leaves: a store, or its error before it opened the file, or its errors after that, with the
-- file, which it has closed.
pub data Opened : Type 0 where
  opened : Store → Opened
  not_opened : StoreError → Opened
  aborted : File → List StoreError → Opened

abbrev pub resumed : Store → Done → Opened
resumed s (f, none) = opened (record s { file = f })
resumed s (f, some e) = let (f', errors) = close_file f (e ∷ []) in aborted f' errors

-- The store of a map that was read, before its header says that it is in use.
abbrev pub store_of : File → Header → Checkpoint → Store
store_of f h replayed = record {
  file = f;
  header = with_shutdown false h;
  extents = replayed.extents;
  durable_extents = replayed.extents;
  next_sequence = u64 (replayed.last_sequence + 1);
  pending_bytes = 0;
  pending_records = [];
  closed = false;
}

-- The calls on the file of a map that is opened.
unfoldable pub mark_active : Header → File → Done
mark_active h f = seek_end f ▷ λ f'. elim (marshal_header h) [
  | err e ↦ (f', some (codec e))
  | ok bytes ↦ write_at 0 bytes f' ▷ sync
]

-- `Open` of the file with these bytes, where the operating system gives these answers.
unfoldable pub open_map : File → Geometry → Opened
open_map f g = elim (read_state f.bytes g) [
  | err e ↦ not_opened e
  | ok (h, replayed) ↦
      if replayed.last_sequence == 2 ^ 64 - 1
      then not_opened sequence_exhausted
      else elim (open_file f.answers) [
        | err e ↦ not_opened e
        | ok later ↦
            let s = store_of (record f { answers = later }) h replayed in
            resumed s (mark_active s.header s.file)
      ]
]
