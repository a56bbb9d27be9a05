-- ===== src/Mapfile/Replay.antt =====
-- internal/mapfile/checkpoint.go and replay.go: the journal is applied to a checkpoint.
-- The loops take fuel; `Replay/Fuel` shows that the length of the journal is enough.
pub mod Requeue
pub mod Fuel
pub mod Frames
pub mod Reader
pub mod ReaderLoop
use disc_rescue.Prelude.{
  ℕ, zero, suc, ◌+◌, Bool, true, false, Option, none, some, List, [], ◌∷◌, ◌++◌, ltb, ◌==◌,
  if◌then◌else◌, u64, length, take, drop, Result, ok, err, guard, ◌>>=◌, ◌>>◌,
}
use disc_rescue.Prelude.Bytes.{le_value, slice}
use disc_rescue.Mapfile.State.{SectorState, unknown, queued, no_confidence}
use disc_rescue.Mapfile.Extent.{Extent, validate_extent_set_within_capacity}
use disc_rescue.Mapfile.Edit.{apply_extent}
use disc_rescue.Mapfile.Codec.{
  CodecError, truncated_record, payload_too_long, non_monotonic_sequence, reader_required,
  read_failed, lift_map, is_extent_record, JournalRecord, max_journal_payload_bytes,
  unmarshal_journal_record,
}

pub record Checkpoint : Type 0 where
  pub last_sequence : ℕ  -- uint64
  pub extents : List Extent

-- `Replay`, over records in memory: extents are appended as they come.
unfoldable pub replay : Checkpoint → List JournalRecord → Checkpoint
replay next [] = next
replay next (r ∷ rs) =
    replay
      (record {
        last_sequence = r.sequence;
        extents = elim (r.extent) [ none ↦ next.extents | some e ↦ next.extents ++ e ∷ [] ];
      })
      rs

-- What a round of the loops does with a record that has the expected sequence number.
unfoldable pub apply_record : Checkpoint → JournalRecord → Result CodecError Checkpoint
apply_record next r = elim (r.extent) [
  | none ↦ ok (record next { last_sequence = r.sequence })
  | some e ↦
      if is_extent_record r.type
      then (do
        es ← lift_map (apply_extent next.extents e)
        ok (record { last_sequence = r.sequence; extents = es }))
      else ok (record next { last_sequence = r.sequence })
]

-- The loop of `ReplayJournal`; the bytes are `journal[offset:]`.
unfoldable pub replay_loop : ℕ → Checkpoint → ℕ → List ℕ → Result CodecError Checkpoint
replay_loop zero next expected bs = ok next
replay_loop (suc fuel) next expected [] = ok next
replay_loop (suc fuel) next expected (b ∷ bs) = elim (unmarshal_journal_record (b ∷ bs)) [
  | err truncated_record ↦ ok next
  | err e ↦ err e
  | ok (r, consumed) ↦ do
    guard (r.sequence == expected) non_monotonic_sequence
    next' ← apply_record next r
    replay_loop fuel next' (u64 (expected + 1)) (drop consumed (b ∷ bs))
]

-- The last loop of `ReplayJournal`: work that was only queued is unknown again.
abbrev pub requeue_state : SectorState → Extent → Extent
requeue_state queued e = record e { state = unknown; confidence = no_confidence }
requeue_state _ e = e

abbrev pub requeue : Extent → Extent
requeue e = requeue_state e.state e

unfoldable pub requeue_all : List Extent → List Extent
requeue_all [] = []
requeue_all (e ∷ es) = requeue e ∷ requeue_all es

abbrev pub requeued : Checkpoint → Checkpoint
requeued c = record c { extents = requeue_all c.extents }

unfoldable pub replay_journal : Checkpoint → List ℕ → Result CodecError Checkpoint
replay_journal c journal = do
  next ← replay_loop (length journal) c (u64 (c.last_sequence + 1)) journal
  ok (requeued next)

unfoldable pub replay_journal_within_capacity :
    Checkpoint → List ℕ → ℕ → Result CodecError Checkpoint
replay_journal_within_capacity c journal n = do
  next ← replay_journal c journal
  lift_map (validate_extent_set_within_capacity next.extents n)
  ok next

-- An `io.Reader`: the bytes that it still gives, and whether it then fails with an error other
-- than the end of the file.
pub record Stream : Type 0 where
  pub bytes : List ℕ
  pub broken : Bool

-- `io.ReadFull` of n bytes: them and the rest, or whether the reader broke (true) or ended (false).
unfoldable pub read_full : ℕ → Stream → Result Bool (List ℕ × Stream)
read_full n s =
    if ltb (length s.bytes) n
    then err s.broken
    else ok (take n s.bytes, record s { bytes = drop n s.bytes })

-- The two reads of a round: the record's bytes and the rest of the stream, or the end.
unfoldable pub next_record : Stream → Result CodecError (Option (List ℕ × Stream))
next_record s = elim (read_full 14 s) [
  | err broken ↦ if broken then err read_failed else ok none
  | ok (header, s1) ↦
      if ltb max_journal_payload_bytes (le_value (slice 10 14 header))
      then err payload_too_long
      else elim (read_full (le_value (slice 10 14 header) + 4) s1) [
        | err broken ↦ if broken then err read_failed else ok none
        | ok (payload, s2) ↦ ok (some (header ++ payload, s2))
      ]
]

-- The loop of `ReplayJournalReader`.
unfoldable pub reader_loop : ℕ → Checkpoint → ℕ → Stream → Result CodecError Checkpoint
reader_loop zero next expected s = ok next
reader_loop (suc fuel) next expected s = elim (next_record s) [
  | err e ↦ err e
  | ok none ↦ ok next
  | ok (some (bs, rest)) ↦ do
    decoded ← unmarshal_journal_record bs
    guard (decoded.0.sequence == expected) non_monotonic_sequence
    next' ← apply_record next decoded.0
    reader_loop fuel next' (u64 (expected + 1)) rest
]

unfoldable pub replay_journal_reader : Checkpoint → Option Stream → Result CodecError Checkpoint
replay_journal_reader c none = err reader_required
replay_journal_reader c (some s) = do
  next ← reader_loop (suc (length s.bytes)) c (u64 (c.last_sequence + 1)) s
  ok (requeued next)

unfoldable pub replay_journal_reader_within_capacity :
    Checkpoint → Option Stream → ℕ → Result CodecError Checkpoint
replay_journal_reader_within_capacity c s n = do
  next ← replay_journal_reader c s
  lift_map (validate_extent_set_within_capacity next.extents n)
  ok next
