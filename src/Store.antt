-- ===== src/Store.antt =====
-- internal/recoverymap: the map file that an owner keeps while it works, with the transitions
-- that are staged in memory and not yet on the disc.
pub mod Disk
pub mod Session
pub mod Closing
pub mod Apply
pub mod Creation
pub mod Retry
pub mod Reopen
pub mod ReadState
pub mod Crash
pub mod Sound
pub mod History
pub mod Writes
pub mod Transaction
use disc_rescue.Prelude.{
  ℕ, ◌+◌, ◌-◌, ◌^◌, Bool, true, false, not, ◌||◌, ◌&&◌, ◌==◌, ltb, List, [], ◌∷◌, ◌++◌, length,
  drop, Option, none, some, u64, if◌then◌else◌, Result, ok, err, guard, ◌>>=◌, ◌>>◌,
}
use disc_rescue.Prelude.Bytes.{le_value, slice}
use disc_rescue.Mapfile.Extent.{Extent}
use disc_rescue.Mapfile.Edit.{apply_extent}
use disc_rescue.Mapfile.Codec.{
  CodecError, lift_map, JournalRecord, extent_state_changed, marshal_journal_record,
}
use disc_rescue.Mapfile.Replay.{Checkpoint, Stream, replay_journal_reader_within_capacity}
use disc_rescue.Mapfile.Header.{Header, validate_header, marshal_header, unmarshal_header}
use disc_rescue.Mapfile.Checkpoint.{
  DecodeLimits, default_decode_limits, marshal_checkpoint, unmarshal_checkpoint,
}
use disc_rescue.Store.Disk.{
  StoreError, store_is_closed, sequence_exhausted, geometry_required, geometry_mismatch,
  map_too_short, header_length_invalid, checkpoint_truncated, checkpoint_too_long, codec, io_failed,
  Answer, File, Done, ◌▷◌, seek_end, sync, answer_call, write_full, write_at, read_at_exact,
}

pub record Geometry : Type 0 where
  pub logical_sector_size : ℕ  -- uint32
  pub expected_sector_count : ℕ  -- uint64

-- `Store`, for an owner that has one. `file` is the file at `path`.
pub record Store : Type 0 where
  pub file : File
  pub header : Header
  pub extents : List Extent
  pub durable_extents : List Extent
  pub next_sequence : ℕ  -- uint64
  pub pending_bytes : ℕ  -- uint64
  pub pending_records : List (List ℕ)
  pub closed : Bool

abbrev pub coded : {A : Type 0} → Result CodecError A → Result StoreError A
coded (err e) = err (codec e)
coded (ok v) = ok v

-- The record of a transition.
abbrev pub extent_record : ℕ → Extent → JournalRecord
extent_record n e = record {
  type = extent_state_changed;
  sequence = n;
  extent = some e;
  payload = [];
}

unfoldable pub prepare_extent : Store → Extent → Result StoreError (List Extent × List ℕ)
prepare_extent s e = do
  next_extents ← coded (lift_map (apply_extent s.extents e))
  guard (not (s.next_sequence == 0)) sequence_exhausted
  bytes ← coded (marshal_journal_record (extent_record s.next_sequence e))
  ok (next_extents, bytes)

unfoldable pub stage_extent : Store → Extent → Store × Option StoreError
stage_extent s e = if s.closed then (s, some store_is_closed) else elim (prepare_extent s e) [
  | err f ↦ (s, some f)
  | ok (next_extents, bytes) ↦ (
    record s {
      extents = next_extents;
      next_sequence = u64 (s.next_sequence + 1);
      pending_records = s.pending_records ++ bytes ∷ [];
      pending_bytes = u64 (s.pending_bytes + length bytes);
    },
    none,
  )
]

-- The loop of `Flush`.
unfoldable pub write_records : List (List ℕ) → File → Done
write_records [] f = (f, none)
write_records (r ∷ rs) f = write_full r f ▷ write_records rs

-- The end of `Flush`: after an error the store is as before, but for its file.
abbrev pub flushed : Store → Done → Store × Option StoreError
flushed s (f, some e) = (record s { file = f }, some e)
flushed s (f, none) = (
  record s { file = f; pending_bytes = 0; pending_records = []; durable_extents = s.extents },
  none,
)

abbrev pub flush_pending : Store → List (List ℕ) → Store × Option StoreError
flush_pending s [] = (s, none)
flush_pending s (r ∷ rs) = flushed s (seek_end s.file ▷ write_records (r ∷ rs) ▷ sync)

unfoldable pub flush : Store → Store × Option StoreError
flush s = if s.closed then (s, some store_is_closed) else flush_pending s s.pending_records

-- The end of `appendExtent`.
abbrev pub appended : Store → Bool → List Extent → Done → Store × Option StoreError
appended s synced next_extents (f, some e) = (record s { file = f }, some e)
appended s synced next_extents (f, none) = (
  record s {
    file = f;
    extents = next_extents;
    next_sequence = u64 (s.next_sequence + 1);
    durable_extents = if synced then next_extents else s.durable_extents;
  },
  none,
)

unfoldable pub append_extent : Store → Extent → Bool → Store × Option StoreError
append_extent s e synced = elim (prepare_extent s e) [
  | err f ↦ (s, some f)
  | ok (next_extents, bytes) ↦
      appended s synced next_extents
        (seek_end s.file ▷ write_full bytes ▷ λ f. if synced then sync f else (f, none))
]

abbrev pub append_flushed : Extent → Store × Option StoreError → Store × Option StoreError
append_flushed e (s, some f) = (s, some f)
append_flushed e (s, none) = append_extent s e true

-- `ApplyExtent` of a store.
unfoldable pub apply_store_extent : Store → Extent → Store × Option StoreError
apply_store_extent s e = if s.closed then (s, some store_is_closed) else append_flushed e (flush s)

abbrev pub with_shutdown : Bool → Header → Header
with_shutdown clean h = record h { clean_shutdown = clean }

-- `file.Close`: the error that joins those before it.
abbrev pub joined : List StoreError → Done → File × List StoreError
joined errors (f, none) = (f, errors)
joined errors (f, some e) = (f, errors ++ e ∷ [])

abbrev pub close_file : File → List StoreError → File × List StoreError
close_file f errors = joined errors (answer_call f f.answers)

abbrev pub errors_of : Option StoreError → List StoreError
errors_of none = []
errors_of (some e) = e ∷ []

-- Every way out of `Close` closes the file and the store, and joins the errors.
abbrev pub shut : Store → Done → Store × List StoreError
shut s (f, o) =
    let (f', errors) = close_file f (errors_of o) in (record s { file = f'; closed = true }, errors)

-- `Close`, behind its flush.
unfoldable pub finalize : Store → Bool → Store × List StoreError
finalize s clean =
    let marked = record s { header = with_shutdown clean s.header } in
    elim (marshal_header marked.header) [
      | err f ↦ shut marked (s.file, some (codec f))
      | ok bytes ↦ shut marked (write_at 0 bytes s.file ▷ sync)
    ]

abbrev pub finalize_flushed : Bool → Store × Option StoreError → Store × List StoreError
finalize_flushed clean (s, some f) = shut s (s.file, some f)
finalize_flushed clean (s, none) = finalize s clean

unfoldable pub close : Store → Bool → Store × List StoreError
close s clean = if s.closed then (s, []) else finalize_flushed clean (flush s)
