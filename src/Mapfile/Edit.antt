-- ===== src/Mapfile/Edit.antt =====
-- internal/mapfile/extent_ops.go and extent_apply.go: the operations that rebuild a list of
-- extents. A `for` loop over the extents is a recursion on the list.
mod Sort
pub mod Carve
pub mod Coalesce
pub mod Apply
pub mod Insert
use disc_rescue.Prelude.{
  ◌-◌, Bool, true, false, not, List, [], ◌∷◌, ◌++◌, ltb, leb, if◌then◌else◌, u32, Result, ok, guard,
  ◌>>=◌, ◌>>◌,
}
use disc_rescue.Mapfile.State.{validate_transition}
use disc_rescue.Mapfile.Extent.{
  Extent, MapError, candidate_overlaps, older_attempts, end_lba, lift_state, validate, overlaps,
  can_merge_adjacent, merge_adjacent, validate_extent_set,
}

-- The loop of `CoalesceExtents`, with its `current`.
unfoldable pub coalesce_from : Extent → List Extent → Result MapError (List Extent)
coalesce_from current [] = ok (current ∷ [])
coalesce_from current (next ∷ rest) = elim (can_merge_adjacent current next) [
  | true ↦ do merged ← merge_adjacent current next; coalesce_from merged rest
  | false ↦ do result ← coalesce_from next rest; ok (current ∷ result)
]

abbrev pub coalesce_all : List Extent → Result MapError (List Extent)
coalesce_all [] = ok []
coalesce_all (e ∷ es) = coalesce_from e es

unfoldable pub coalesce_extents : List Extent → Result MapError (List Extent)
coalesce_extents es = do validate_extent_set es; coalesce_all es

-- The loop of `InsertExtent`; `inserted` is its flag.
unfoldable pub insert_loop : Bool → List Extent → Extent → Result MapError (List Extent)
insert_loop inserted [] c = ok (if inserted then [] else c ∷ [])
insert_loop inserted (e ∷ es) c = do
  guard (not (overlaps e c)) candidate_overlaps
  let here = if inserted then false else leb (end_lba c) e.start_lba
  rest ← insert_loop (if here then true else inserted) es c
  ok (if here then c ∷ e ∷ rest else e ∷ rest)

unfoldable pub insert_extent : List Extent → Extent → Result MapError (List Extent)
insert_extent es c = do
  validate c
  validate_extent_set es
  result ← insert_loop false es c
  coalesce_extents result

-- The parts of `e` to the left and to the right of `c`.
unfoldable pub left_of : Extent → Extent → List Extent
left_of c e =
    if ltb e.start_lba c.start_lba
    then record e { sectors = u32 (c.start_lba - e.start_lba) } ∷ []
    else []

unfoldable pub right_of : Extent → Extent → List Extent
right_of c e =
    if ltb (end_lba c) (end_lba e)
    then record e { start_lba = end_lba c; sectors = u32 (end_lba e - end_lba c) } ∷ []
    else []

-- The two checks of `ApplyExtent` on an extent that the candidate overlaps.
unfoldable pub may_replace : Extent → Extent → Result MapError Unit
may_replace c e = do
  guard (not (ltb c.attempts e.attempts)) older_attempts
  lift_state (validate_transition e.state e.confidence c.state c.confidence)

-- One round of the loop of `ApplyExtent`: what is left of `e`.
unfoldable pub carve : Extent → Extent → Result MapError (List Extent)
carve c e =
    if overlaps e c then (do may_replace c e; ok (left_of c e ++ right_of c e)) else ok (e ∷ [])

unfoldable pub carve_all : Extent → List Extent → Result MapError (List Extent)
carve_all c [] = ok []
carve_all c (e ∷ es) = do here ← carve c e; rest ← carve_all c es; ok (here ++ rest)

-- `sort.Slice` by `StartLBA`.
unfoldable pub insert_by_start : Extent → List Extent → List Extent
insert_by_start e [] = e ∷ []
insert_by_start e (f ∷ fs) =
    if leb e.start_lba f.start_lba then e ∷ f ∷ fs else f ∷ insert_by_start e fs

unfoldable pub sort_by_start : List Extent → List Extent
sort_by_start [] = []
sort_by_start (e ∷ es) = insert_by_start e (sort_by_start es)

unfoldable pub apply_extent : List Extent → Extent → Result MapError (List Extent)
apply_extent es c = do
  validate c
  validate_extent_set es
  result ← carve_all c es
  coalesce_extents (sort_by_start (result ++ c ∷ []))
