-- ===== src/Store/Disk.antt =====
-- internal/recoverymap/file_io.go: the map's file, and the calls of the operating system on it.
use disc_rescue.Prelude.{
  ℕ, zero, suc, ◌+◌, List, [], ◌∷◌, ◌++◌, ltb, length, take, drop, Option, none, some,
  if◌then◌else◌, Result, ok, err,
}
use disc_rescue.Prelude.Bytes.{slice}
use disc_rescue.Mapfile.Codec.{CodecError}

pub data StoreError : Type 0 where
  store_is_closed sequence_exhausted geometry_required geometry_mismatch : StoreError
  map_too_short header_length_invalid checkpoint_truncated checkpoint_too_long : StoreError
  unexpected_eof short_write io_failed : StoreError
  codec : CodecError → StoreError

-- How the operating system answers one call. `completes`: all is done. `writes n`: a write stores
-- n bytes and returns no error. `fails n`: the call returns an error, a write after n bytes. A
-- number above what there is to write stands for all of it.
pub data Answer : Type 0 where
  completes : Answer
  writes fails : ℕ → Answer

-- An open file: its bytes, those that the last `Sync` made durable, and the answers to the calls
-- to come (where the list ends, all later calls complete).
pub record File : Type 0 where
  pub bytes : List ℕ
  pub synced : List ℕ
  pub answers : List Answer

-- How the operating system answers the removal of a file.
pub data Removal : Type 0 where
  file_removed file_gone file_kept : Removal

-- What a call leaves: the file, and its error.
abbrev pub Done : Type 0
Done = File × Option StoreError

-- The next step, unless there was an error.
infixl 5 ◌▷◌
abbrev pub ◌▷◌ : Done → (File → Done) → Done
(f, none) ▷ next = next f
(f, some e) ▷ next = (f, some e)

-- A call that moves no bytes: a seek.
abbrev pub answer_call : File → List Answer → Done
answer_call f [] = (f, none)
answer_call f (fails n ∷ rest) = (record f { answers = rest }, some io_failed)
answer_call f (_ ∷ rest) = (record f { answers = rest }, none)

unfoldable pub seek_end : File → Done
seek_end f = answer_call f f.answers

unfoldable pub sync : File → Done
sync f = answer_call f f.answers ▷ λ f'. (record f' { synced = f'.bytes }, none)

-- The loop of `writeFull`, at the end of the file, where every caller has put the offset.
unfoldable pub write_loop : File → List Answer → List ℕ → Done
write_loop f answers [] = (record f { answers = answers }, none)
write_loop f [] (b ∷ bs) = (record f { bytes = f.bytes ++ (b ∷ bs); answers = [] }, none)
write_loop f (completes ∷ rest) (b ∷ bs) =
    (record f { bytes = f.bytes ++ (b ∷ bs); answers = rest }, none)
write_loop f (writes zero ∷ rest) (b ∷ bs) = (record f { answers = rest }, some short_write)
write_loop f (writes (suc n) ∷ rest) (b ∷ bs) =
    write_loop (record f { bytes = f.bytes ++ take (suc n) (b ∷ bs) }) rest (drop n bs)
write_loop f (fails n ∷ rest) (b ∷ bs) =
    (record f { bytes = f.bytes ++ take n (b ∷ bs); answers = rest }, some io_failed)

unfoldable pub write_full : List ℕ → File → Done
write_full bs f = write_loop f f.answers bs

-- The bytes with others in their place from an offset on.
abbrev pub overwrite : ℕ → List ℕ → List ℕ → List ℕ
overwrite offset new old = take offset old ++ (new ++ drop (offset + length new) old)

abbrev pub write_at_answered : ℕ → List ℕ → File → List Answer → Done
write_at_answered offset bs f [] = (record f { bytes = overwrite offset bs f.bytes }, none)
write_at_answered offset bs f (completes ∷ rest) =
    (record f { bytes = overwrite offset bs f.bytes; answers = rest }, none)
write_at_answered offset bs f (writes n ∷ rest) = (
  record f { bytes = overwrite offset (take n bs) f.bytes; answers = rest },
  if ltb n (length bs) then some short_write else none,
)
write_at_answered offset bs f (fails n ∷ rest) =
    (record f { bytes = overwrite offset (take n bs) f.bytes; answers = rest }, some io_failed)

-- `writeAt`.
unfoldable pub write_at : ℕ → List ℕ → File → Done
write_at offset bs f = write_at_answered offset bs f f.answers

-- `readAtExact`, of a file that can be read: n bytes from an offset.
unfoldable pub read_at_exact : ℕ → ℕ → List ℕ → Result StoreError (List ℕ)
read_at_exact offset n bs =
    if ltb (length bs) (offset + n) then err unexpected_eof else ok (slice offset (offset + n) bs)
