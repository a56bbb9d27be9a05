-- ===== src/Mapfile.antt =====
-- internal/mapfile: the recovery map, its extents, its file format and the replay of its journal.
pub mod State
pub mod Extent
pub mod Edit
pub mod Valid
pub mod View
pub mod Codec
pub mod Replay
pub mod Header
pub mod Checkpoint
