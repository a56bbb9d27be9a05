-- ===== src/Mapfile/Edit/Insert.antt =====
-- `InsertExtent`: `ApplyExtent` for candidates that overlap nothing, and an error for the others.
use disc_rescue.Prelude.{
  ℕ, ◌≡◌, refl, Bool, true, false, not, List, [], ◌∷◌, ◌++◌, arith, ok, guard-eq-ok, >>-eq-ok,
  >>=-eq-ok,
}
use disc_rescue.Mapfile.Extent.{Extent, candidate_overlaps, overlaps, validate, validate_extent_set}
use disc_rescue.Mapfile.Valid.{IsValid, stop, Between, end_lba-eq-stop, overlaps→Apart}
use disc_rescue.Mapfile.Edit.{
  insert_loop, insert_extent, carve, carve_all, insert_by_start, sort_by_start, apply_extent,
}

-- The candidate overlaps no extent of the list.
abbrev pub Misses : Extent → List Extent → Type 0
Misses c [] = Unit
Misses c (e ∷ es) = (overlaps e c ≡ false) × Misses c es

insert_loop-done : (c : Extent) (es : List Extent) → Misses c es → insert_loop true es c ≡ ok es
unfolding insert_loop
insert_loop-done c [] m = refl
insert_loop-done c (e ∷ es) (m, ms) = ground (arith, insert_loop-done c es ms)

insert_loop-eq-insert_by_start :
    (lo hi : ℕ) (c : Extent) (es : List Extent)
    → IsValid c
    → Between lo hi es
    → Misses c es
    → insert_loop false es c ≡ ok (insert_by_start c es)
unfolding insert_loop insert_by_start
insert_loop-eq-insert_by_start lo hi c [] v b m = refl
insert_loop-eq-insert_by_start lo hi c (e ∷ es) v (w, l, r, b) (m, ms) = ground (
  arith,
  m,
  end_lba-eq-stop c v,
  w.nonempty,
  v.nonempty,
  overlaps→Apart e c w v m,
  insert_loop-done c es ms,
  insert_loop-eq-insert_by_start (stop e) hi c es v b ms,
)

carve_all-Misses : (c : Extent) (es : List Extent) → Misses c es → carve_all c es ≡ ok es
unfolding carve_all carve
carve_all-Misses c [] m = refl
carve_all-Misses c (e ∷ es) (m, ms) = rw (m, carve_all-Misses c es ms)

-- Two insertions commute where the two extents are apart.
insert_by_start-swap :
    (lo hi : ℕ) (c e : Extent) (es : List Extent)
    → IsValid c
    → Between lo hi (e ∷ es)
    → Misses c (e ∷ es)
    → insert_by_start e (insert_by_start c es) ≡ insert_by_start c (e ∷ es)
unfolding insert_by_start
insert_by_start-swap lo hi c e [] v (w, l, r, b) (m, ms) =
    ground (arith, overlaps→Apart e c w v m, w.nonempty, v.nonempty)
insert_by_start-swap lo hi c e (f ∷ es) v (w, l, r, (x, lf, rf, b)) (m, ms) = ground (
  arith,
  overlaps→Apart e c w v m,
  overlaps→Apart f c x v ms.0,
  w.nonempty,
  v.nonempty,
  x.nonempty,
)

sort_by_start-append_one :
    (lo hi : ℕ) (c : Extent) (es : List Extent)
    → IsValid c
    → Between lo hi es
    → Misses c es
    → sort_by_start (es ++ c ∷ []) ≡ insert_by_start c es
unfolding sort_by_start
sort_by_start-append_one lo hi c [] v b m = refl
sort_by_start-append_one lo hi c (e ∷ es) v b m =
    rw (sort_by_start-append_one (stop e) hi c es v b.3 m.1)
      (insert_by_start-swap lo hi c e es v b m)

-- On a map in order and a valid candidate that overlaps none of its extents, `InsertExtent`
-- returns what `ApplyExtent` returns.
pub insert_extent-eq-apply_extent :
    (hi : ℕ) (es : List Extent) (c : Extent)
    → Between 0 hi es
    → IsValid c
    → Misses c es
    → insert_extent es c ≡ apply_extent es c
unfolding insert_extent apply_extent
insert_extent-eq-apply_extent hi es c b v m =
    rw (insert_loop-eq-insert_by_start 0 hi c es v b m, carve_all-Misses c es m)
      (rw (sort_by_start-append_one 0 hi c es v b m))

insert_loop-Misses :
    (c : Extent) (es : List Extent) (inserted : Bool) (ys : List Extent)
    → insert_loop inserted es c ≡ ok ys
    → Misses c es
unfolding insert_loop
insert_loop-Misses c [] inserted ys h = tt
insert_loop-Misses c (e ∷ es) inserted ys h =
    let (h1, h2) = guard-eq-ok (not (overlaps e c)) candidate_overlaps _ h in
    let (rest, h3, h4) = >>=-eq-ok (insert_loop _ es c) _ h2 in
    (ground arith, insert_loop-Misses c es _ rest h3)

-- `InsertExtent` never returns a map for a candidate that overlaps one of its extents.
pub insert_extent-Misses :
    (es : List Extent) (c : Extent) (ys : List Extent) → insert_extent es c ≡ ok ys → Misses c es
unfolding insert_extent
insert_extent-Misses es c ys h =
    let (h1, h2) = >>-eq-ok (validate c) _ h in
    let (h3, h4) = >>-eq-ok (validate_extent_set es) _ h2 in
    let (zs, h5, h6) = >>=-eq-ok (insert_loop false es c) _ h4 in
    insert_loop-Misses c es false zs h5
