-- ===== src/Lib.antt =====
-- DiscRescue recovers optical discs into an image file. What is known of each sector is kept in a
-- recovery map, a sorted list of extents, which is made durable as a checkpoint followed by a
-- journal of records. A coordinator turns the events of a recovery job into effects that others
-- carry out. The recovery passes decide which sectors are read next, a lifecycle gates the reads of
-- one session, and the outcome of a session is computed from its map.
--
-- Parts and files:
--   Mapfile/State      internal/mapfile/format.go, transitions.go: states, confidence, the allowed
--                      changes (`ValidateTransition` is `validate_transition`).
--   Mapfile/Extent     internal/mapfile/extents.go, extent.go, geometry.go and the small functions
--                      of extent_ops.go. Mapfile/Valid says as predicates what the checks accept;
--                      Mapfile/View is the abstract map, a partial function of the sector.
--   Mapfile/Edit       internal/mapfile/extent_ops.go and extent_apply.go: `CoalesceExtents`,
--                      `InsertExtent`, `ApplyExtent`. The `for` loops are recursions on the list;
--                      the proofs follow the steps carve, sort, coalesce.
--   Mapfile/Codec      internal/mapfile/codec.go, journal.go, journal_codec.go. A byte slice is a
--                      list of numbers; Prelude/Bytes has little-endian numbers and CRC-32C.
--   Mapfile/Replay     internal/mapfile/checkpoint.go, replay.go: `ReplayJournal`, its reader
--                      version, and both within a capacity.
--   Mapfile/Header     internal/mapfile/header.go, header_codec.go; Mapfile/Checkpoint is
--                      checkpoint_codec.go. The front of a map's file.
--   Store              internal/recoverymap: the map file while an owner works on it. Store has the
--                      store and its operations, Store/Disk the file and the calls on it,
--                      Store/Session `Create`, `readState`, `Inspect` and `Open`, Store/Transaction
--                      the start-up transaction. Store/Sound is the invariant between operations.
--   Image              internal/image/writer.go: sectors become writes at byte offsets. Image/Commit is
--                      commit_order.go and enospc.go.
--   Coordinator        internal/coordinator: Job (data and checks), Transition (one rule for each
--                      event), Handle (`Handle`, and `run` over several events), Shutdown.
--   Recovery/Request   internal/recovery/scheduler.go and the constructors of requests.
--   Recovery/Fast      internal/recovery/fast_pass.go: large reads, and what they leave behind.
--   Recovery/Trim      internal/recovery/trim_pass.go: a damaged extent is read from both ends.
--                      Recovery/Trim/Run runs a whole pass over given outcomes of its reads.
--   Recovery/Scrape    internal/recovery/scrape_pass.go: single sectors are tried again. Round is one
--                      action, dispatched and resolved, and Run a pass over given outcomes.
--   Recovery/Lifecycle internal/recovery/lifecycle.go. Each method holds the mutex throughout, so
--                      a session is a sequence of whole calls, `run_calls`.
--   Recovery/Outcome   internal/recovery/outcome.go.
--   Examples           concrete inputs for the theorems.
--
-- Conventions: numbers are natural numbers, and where a Go type is unsigned its wrap-around is
-- written out (u16, u32, u64). A Go pair of a value and an error is a `Result`; the text of an
-- error is not kept. A string type with constants is a data type with one more constructor for all
-- other strings. A method that changes its receiver returns the new one.
--
-- The operating system: a file has its bytes, those that the last sync made durable, and a list of
-- answers to the calls to come, each of which completes, moves some bytes, or fails after some. The
-- first answer for `Create` and `Open` is that of `os.OpenFile`; a failed `Create` also removes its
-- file, which may fail. A crash leaves the durable bytes and any first part of those that were
-- appended since.
--
-- Fuel: the replay loops take fuel. `replay_journal` gives the number of bytes, and each round uses
-- up at least 18 of them; the reader's loop has one more round. No other recursion needs fuel.
--
-- Not modelled: the texts of errors and `String` methods; the aliasing of slices (`ReplayJournal`
-- clears queued states in the array of its argument where no record was applied); failures to read
-- a file; the adaptive pass, the policies, the identity of a disc and the stop controller with its
-- timer; the terminal interface, device access, operating systems and tools, which are input and
-- output.
pub mod Prelude
pub mod Mapfile
pub mod Store
pub mod Image
pub mod Coordinator
pub mod Recovery
pub mod Examples
