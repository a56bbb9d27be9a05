-- ===== src/Mapfile/Edit/Apply.antt =====
-- `ApplyExtent` as an update of the abstract view.
use disc_rescue.Prelude.{
  ℕ, ◌≤◌, ◌<◌, ◌≡◌, refl, ap, ◌↔◌, Bool, true, false, not, some, List, [], ◌∷◌, ◌++◌, arith, Result,
  ok, err, if◌then◌else◌, ltb, ◌^◌, >>=-eq-ok, >>-eq-ok, guard-eq-ok, ◌∙◌, Bool-cases, inl, inr,
  ◌⊎◌,
}
use disc_rescue.Mapfile.State.{StateError, state_claims_image_data, validate_transition-allowed}
use disc_rescue.Mapfile.Extent.{
  Extent, older_attempts, lift_state, covers, overlaps, validate, validate_extent_set,
}
use disc_rescue.Mapfile.Valid.{
  IsValid, stop, Between, IsValid→validate, Between→validate_extent_set,
}
use disc_rescue.Mapfile.View.{view, sector_at, view-append}
use disc_rescue.Mapfile.Edit.{may_replace, carve_all, sort_by_start, coalesce_extents, apply_extent}
use disc_rescue.Mapfile.Edit.Sort.{sort_by_start-Between, view-sort_by_start, Scattered-append_one}
use disc_rescue.Mapfile.Edit.Carve.{
  Replaceable, carve_all-Between, view-carve_all, carve_all-ok, carve_all-Replaceable,
  may_replace_overlapped,
}
use disc_rescue.Mapfile.Edit.Coalesce.{Coalesced, coalesce_from-total, coalesce_from-Coalesced}

-- On a map in order below 2^32 sectors, `CoalesceExtents` returns a map in order below the same
-- bound, with no two neighbours that could be merged, which records the same on every sector.
pub coalesce_extents-total :
    (hi : ℕ) (es : List Extent)
    → hi < 2 ^ 32
    → Between 0 hi es
    → (ys : List Extent) × (coalesce_extents es ≡ ok ys)
      × Between 0 hi ys
      × Coalesced ys
      × ((lba : ℕ) → view ys lba ≡ view es lba)
unfolding coalesce_extents validate_extent_set
coalesce_extents-total hi [] f b = ([], refl, tt, tt, λ lba. refl)
coalesce_extents-total hi (e ∷ es) f b =
    let (ys, h, b', same) = coalesce_from-total 0 hi e es f b in
    (
      ys,
      rw (Between→validate_extent_set 0 hi (e ∷ es) b) h,
      b',
      coalesce_from-Coalesced e es ys h,
      same,
    )

-- `ys` is a map in order up to `hi`, with no neighbours to merge, that records `c` on the sectors
-- of `c` and what `es` records on every other sector.
abbrev pub IsUpdate : ℕ → List Extent → Extent → List Extent → Type 0
IsUpdate hi es c ys =
    Between 0 hi ys
    × Coalesced ys
    × ((lba : ℕ) → view ys lba ≡ (if covers c lba then some (sector_at c lba) else view es lba))

module _ (hi : ℕ) (fits : hi < 2 ^ 32) (es : List Extent) (c : Extent) (b : Between 0 hi es)
    (vc : IsValid c) (rc : stop c ≤ hi) where
  apply_extent_from_carved :
      (ps : List Extent)
      → carve_all c es ≡ ok ps
      → (ys : List Extent) × (apply_extent es c ≡ ok ys) × IsUpdate hi es c ys
  unfolding apply_extent
  apply_extent_from_carved ps h =
      let (bp, ap) = carve_all-Between c vc hi fits 0 es ps b h in
      let s = Scattered-append_one 0 hi c ps vc rc bp ap in
      let (ys, h2, b2, n2, same) =
        coalesce_extents-total hi (sort_by_start (ps ++ c ∷ [])) fits
          (sort_by_start-Between hi _ s) in
      (
        ys,
        rw (IsValid→validate c vc, Between→validate_extent_set 0 hi es b, h) h2,
        (
          b2,
          n2,
          λ lba.
              same lba
              ∙ view-sort_by_start hi lba _ s
              ∙ view-append ps (c ∷ []) lba
              ∙ ground (arith, view-carve_all c vc hi fits lba 0 es ps b h),
        ),
      )

  -- On a map in order up to a bound below 2^32, and for a valid candidate that ends within the
  -- bound, `ApplyExtent` returns a map exactly when each extent of the map does not overlap the
  -- candidate or passes the two checks of a replacement.
  pub apply_extent_iff : ((ys : List Extent) × (apply_extent es c ≡ ok ys)) ↔ Replaceable c es
  unfolding apply_extent
  apply_extent_iff = (forth, back)
    where
      forth : (ys : List Extent) × (apply_extent es c ≡ ok ys) → Replaceable c es
      forth (ys, h) =
          let (h1, h2) = >>-eq-ok (validate c) _ h in
          let (h3, h4) = >>-eq-ok (validate_extent_set es) _ h2 in
          let (ps, h5, h6) = >>=-eq-ok (carve_all c es) _ h4 in carve_all-Replaceable c es ps h5

      back : Replaceable c es → (ys : List Extent) × (apply_extent es c ≡ ok ys)
      back r =
          let (ps, h) = carve_all-ok c es r in
          let (ys, h2, u) = apply_extent_from_carved ps h in (ys, h2)

  -- On a map in order up to a bound below 2^32, and for a valid candidate that ends within the
  -- bound, what `ApplyExtent` returns is in order up to the same bound, has no two neighbours that
  -- could be merged, and records the candidate on the candidate's sectors and what the map
  -- recorded on every other sector.
  pub apply_extent-IsUpdate : (ys : List Extent) → apply_extent es c ≡ ok ys → IsUpdate hi es c ys
  apply_extent-IsUpdate ys h =
      let (ps, h1) = carve_all-ok c es (apply_extent_iff.0 (ys, h)) in
      let (zs, h2, u) = apply_extent_from_carved ps h1 in let e : zs ≡ ys = cc in rw (← e) u

-- What a record may be replaced by: no fewer attempts, and image data if it had image data.
pub record KeepsWork (old new : Extent) : Type 0 where
  pub attempts_grow : old.attempts ≤ new.attempts
  pub data_kept :
      (state_claims_image_data old.state ≡ false) ⊎ (state_claims_image_data new.state ≡ true)

lift_state-eq-ok : (r : Result StateError Unit) → lift_state r ≡ ok tt → r ≡ ok tt
lift_state-eq-ok (ok u) h = refl
lift_state-eq-ok (err e) h = cc

covers→overlaps :
    (c e : Extent) (lba : ℕ) → covers c lba ≡ true → covers e lba ≡ true → overlaps e c ≡ true
unfolding overlaps
covers→overlaps c e lba h t = ground arith

may_replace-KeepsWork : (c e : Extent) → may_replace c e ≡ ok tt → KeepsWork e c
unfolding may_replace
may_replace-KeepsWork c e h =
    let (h1, h2) = guard-eq-ok (not (ltb c.attempts e.attempts)) older_attempts _ h in
    let keeps = (validate_transition-allowed _ _ _ _ (lift_state-eq-ok _ h2)).2 in
    record {
      attempts_grow = ground arith;
      data_kept = elim (Bool-cases (state_claims_image_data e.state)) [
        | inl d ↦ inr (keeps d)
        | inr d ↦ inl d
      ];
    }

-- The record of a sector that both the map and the candidate cover.
replaced_at :
    (c : Extent) (vc : IsValid c) (lba lo hi : ℕ) (es : List Extent) (old : Extent)
    → Between lo hi es
    → Replaceable c es
    → covers c lba ≡ true
    → view es lba ≡ some old
    → KeepsWork old (sector_at c lba)
replaced_at c vc lba lo hi [] old b r h v = cc
replaced_at c vc lba lo hi (e ∷ es) old (ve, l, re, b) (r, rs) h v =
    elim (Bool-cases (covers e lba)) [
      | inl t ↦
          let k =
            may_replace-KeepsWork c e
              (may_replace_overlapped c e r (covers→overlaps c e lba h t)) in
          let same : sector_at e lba ≡ old = ground arith in
          rw (← same) (record { attempts_grow = k.attempts_grow; data_kept = k.data_kept })
      | inr t ↦ replaced_at c vc lba (stop e) hi es old b rs h (rw t at v)
    ]

either_way : (b : Bool) → (b ≡ false) ⊎ (b ≡ true)
either_way true = inr refl
either_way false = inl refl

-- After a successful `ApplyExtent` on a map in order up to a bound below 2^32, with a valid
-- candidate that ends within the bound, each sector that had a record has one with no fewer
-- attempts, which claims image data if the old one did.
pub apply_extent-KeepsWork :
    (hi : ℕ) (es : List Extent) (c : Extent) (ys : List Extent) (lba : ℕ) (old : Extent)
    → hi < 2 ^ 32
    → Between 0 hi es
    → IsValid c
    → stop c ≤ hi
    → apply_extent es c ≡ ok ys
    → view es lba ≡ some old
    → (new : Extent) × (view ys lba ≡ some new) × KeepsWork old new
apply_extent-KeepsWork hi es c ys lba old f b vc rc h v =
    let (b', n', same) = apply_extent-IsUpdate hi f es c b vc rc ys h in
    elim (Bool-cases (covers c lba)) [
      | inl t ↦ (
        sector_at c lba,
        ground (arith, same lba),
        replaced_at c vc lba 0 hi es old b ((apply_extent_iff hi f es c b vc rc).0 (ys, h)) t v,
      )
      | inr t ↦ (
        old,
        ground (arith, same lba),
        record {
          attempts_grow = omega arith;
          data_kept = either_way (state_claims_image_data old.state);
        },
      )
    ]
