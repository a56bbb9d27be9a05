-- ===== src/Recovery/Outcome/Laws.antt =====
-- The report counts every sector of the map once, and claims a full recovery only for a map in
-- which every extent is proven.
use disc_rescue.Prelude.{
  ℕ, ◌+◌, ◌≤◌, ◌≡◌, refl, ◌↔◌, inl, inr, Bool, true, false, List, [], ◌∷◌, if◌then◌else◌, arith,
  All, ok, Bool-cases,
}
use disc_rescue.Mapfile.State.{
  SectorState, read_unverified, verified, reconstructed, invalid, validate_state_confidence,
}
use disc_rescue.Mapfile.Extent.{Extent, validate_extent_set, max_uint64}
use disc_rescue.Mapfile.Valid.{IsValid, stop, Between, validate_extent_set→Between}
use disc_rescue.Recovery.Outcome.{
  OutcomeInput, OutcomeResult, no_result, count_state, count_extents, classify, evaluate_outcome,
}

-- The four kinds of sectors.
abbrev pub is_verified : SectorState → Bool
is_verified verified = true
is_verified _ = false

abbrev pub is_reconstructed : SectorState → Bool
is_reconstructed reconstructed = true
is_reconstructed _ = false

abbrev pub is_accepted : SectorState → Bool
is_accepted read_unverified = true
is_accepted _ = false

abbrev pub is_unresolved : SectorState → Bool
is_unresolved verified = false
is_unresolved reconstructed = false
is_unresolved read_unverified = false
is_unresolved _ = true

-- How many sectors of a map are in states of one kind.
abbrev pub sectors_in : (SectorState → Bool) → List Extent → ℕ
sectors_in kind [] = 0
sectors_in kind (e ∷ es) = (if kind e.state then e.sectors else 0) + sectors_in kind es

abbrev pub total_sectors : List Extent → ℕ
total_sectors [] = 0
total_sectors (e ∷ es) = e.sectors + total_sectors es

-- No counter is above `n`.
abbrev AtMost : ℕ → OutcomeResult → Type 0
AtMost n r =
    (r.verified_sectors ≤ n)
    × (r.reconstructed_sectors ≤ n)
    × (r.accepted_unverified_sectors ≤ n)
    × (r.unresolved_sectors ≤ n)

-- The counters of `t` are those of `r`, with the sectors of a map.
abbrev Counts : OutcomeResult → List Extent → OutcomeResult → Type 0
Counts r es t =
    (t.verified_sectors ≡ r.verified_sectors + sectors_in is_verified es)
    × (t.reconstructed_sectors ≡ r.reconstructed_sectors + sectors_in is_reconstructed es)
    × (t.accepted_unverified_sectors ≡ r.accepted_unverified_sectors + sectors_in is_accepted es)
    × (t.unresolved_sectors ≡ r.unresolved_sectors + sectors_in is_unresolved es)

-- The counters after one extent.
abbrev CountsOne : SectorState → ℕ → OutcomeResult → OutcomeResult → Type 0
CountsOne s n r t =
    (t.verified_sectors ≡ r.verified_sectors + (if is_verified s then n else 0))
    × (t.reconstructed_sectors ≡ r.reconstructed_sectors + (if is_reconstructed s then n else 0))
    × (t.accepted_unverified_sectors
        ≡ r.accepted_unverified_sectors + (if is_accepted s then n else 0))
    × (t.unresolved_sectors ≡ r.unresolved_sectors + (if is_unresolved s then n else 0))

count_state-CountsOne :
    (s : SectorState) (e : Extent) (r : OutcomeResult)
    → IsValid e
    → AtMost e.start_lba r
    → e.state ≡ s
    → (t : OutcomeResult) × (count_state s e.sectors r ≡ ok t) × CountsOne s e.sectors r t
unfolding validate_state_confidence
count_state-CountsOne verified e r v b h = (_, refl, ground (arith, v.bounded))
count_state-CountsOne reconstructed e r v b h = (_, refl, ground (arith, v.bounded))
count_state-CountsOne read_unverified e r v b h = (_, refl, ground (arith, v.bounded))
count_state-CountsOne (invalid k) e r v b h = absurd (ground (arith, v.allowed))
count_state-CountsOne _ e r v b h = (_, refl, ground (arith, v.bounded))

added : (a b n lo : ℕ) (k : Bool) → a ≤ lo → b ≡ a + (if k then n else 0) → b ≤ lo + n
added a b n lo true h e = omega arith
added a b n lo false h e = omega arith

CountsOne-AtMost :
    (e : Extent) (r t : OutcomeResult)
    → AtMost e.start_lba r
    → CountsOne e.state e.sectors r t
    → AtMost (stop e) t
CountsOne-AtMost e r t (b0, b1, b2, b3) (c0, c1, c2, c3) = (
  added _ _ e.sectors e.start_lba (is_verified e.state) b0 c0,
  added _ _ e.sectors e.start_lba (is_reconstructed e.state) b1 c1,
  added _ _ e.sectors e.start_lba (is_accepted e.state) b2 c2,
  added _ _ e.sectors e.start_lba (is_unresolved e.state) b3 c3,
)

count_extents-Counts :
    (lo : ℕ) (es : List Extent) (r : OutcomeResult)
    → Between lo max_uint64 es
    → AtMost lo r
    → (t : OutcomeResult) × (count_extents es r ≡ ok t) × Counts r es t
unfolding count_extents
count_extents-Counts lo [] r v b = (r, refl, (omega arith, omega arith, omega arith, omega arith))
count_extents-Counts lo (e ∷ es) r (v, l, h, bs) b =
    let b' : AtMost e.start_lba r = (omega arith, omega arith, omega arith, omega arith) in
    let (m, hm, c) = count_state-CountsOne e.state e r v b' refl in
    let (t, ht, k) = count_extents-Counts (stop e) es m bs (CountsOne-AtMost e r m b' c) in
    (t, rw hm ht, (omega arith, omega arith, omega arith, omega arith))

one_kind :
    (s : SectorState) (n : ℕ)
    → (if is_verified s then n else 0)
        + (if is_reconstructed s then n else 0)
        + (if is_accepted s then n else 0)
        + (if is_unresolved s then n else 0)
      ≡ n
one_kind verified n = omega arith
one_kind reconstructed n = omega arith
one_kind read_unverified n = omega arith
one_kind _ n = omega arith

-- Every sector is of exactly one kind.
sectors_in-total :
    (es : List Extent)
    → sectors_in is_verified es
        + sectors_in is_reconstructed es
        + sectors_in is_accepted es
        + sectors_in is_unresolved es
      ≡ total_sectors es
sectors_in-total [] = refl
sectors_in-total (e ∷ es) = omega (arith, one_kind e.state e.sectors, sectors_in-total es)

-- No sector of a kind means no extent of it.
sectors_in-none :
    (kind : SectorState → Bool) (lo hi : ℕ) (es : List Extent)
    → Between lo hi es
    → (sectors_in kind es ≡ 0) ↔ All (λ (e : Extent). kind e.state ≡ false) es
sectors_in-none kind lo hi [] b = (λ _. tt, λ _. refl)
sectors_in-none kind lo hi (e ∷ es) (v, l, r, bs) =
    let (f, g) = sectors_in-none kind (stop e) hi es bs in
    elim (Bool-cases (kind e.state)) [
      | inl k ↦ rw k (λ h. absurd (omega (arith, v.nonempty)), λ h. absurd (ground (arith, h.0)))
      | inr k ↦ rw k (λ h. (refl, f (omega arith)), λ h. omega (arith, g h.1))
    ]

-- A sector that was verified against a checksum, or reconstructed.
abbrev pub IsProven : Extent → Type 0
IsProven e = (is_accepted e.state ≡ false) × (is_unresolved e.state ≡ false)

All-and :
    (p q : SectorState → Bool) (es : List Extent)
    → All (λ (e : Extent). p e.state ≡ false) es
    → All (λ (e : Extent). q e.state ≡ false) es
    → All (λ (e : Extent). (p e.state ≡ false) × (q e.state ≡ false)) es
All-and p q [] h k = tt
All-and p q (e ∷ es) (h, hs) (k, ks) = ((h, k), All-and p q es hs ks)

All-left :
    (p q : SectorState → Bool) (es : List Extent)
    → All (λ (e : Extent). (p e.state ≡ false) × (q e.state ≡ false)) es
    → All (λ (e : Extent). p e.state ≡ false) es
All-left p q [] h = tt
All-left p q (e ∷ es) (h, hs) = (h.0, All-left p q es hs)

All-right :
    (p q : SectorState → Bool) (es : List Extent)
    → All (λ (e : Extent). (p e.state ≡ false) × (q e.state ≡ false)) es
    → All (λ (e : Extent). q e.state ≡ false) es
All-right p q [] h = tt
All-right p q (e ∷ es) (h, hs) = (h.1, All-right p q es hs)

classify-full :
    (input : OutcomeInput) (r : OutcomeResult)
    → ((classify input r).fully_verified ≡ true)
      ↔ ((r.accepted_unverified_sectors ≡ 0) × (r.unresolved_sectors ≡ 0))
unfolding classify
classify-full input r = ground arith

classify-counters :
    (input : OutcomeInput) (r : OutcomeResult)
    → ((classify input r).verified_sectors ≡ r.verified_sectors)
      × ((classify input r).reconstructed_sectors ≡ r.reconstructed_sectors)
      × ((classify input r).accepted_unverified_sectors ≡ r.accepted_unverified_sectors)
      × ((classify input r).unresolved_sectors ≡ r.unresolved_sectors)
unfolding classify
classify-counters input r = ground arith

-- The report of a map that has a valid image: what was counted, and its class.
evaluate_outcome-Counts :
    (input : OutcomeInput)
    → validate_extent_set input.extents ≡ ok tt
    → input.valid_image_map_pair ≡ true
    → (t : OutcomeResult) × (evaluate_outcome input ≡ ok (classify input t))
      × Counts no_result input.extents t
unfolding evaluate_outcome
evaluate_outcome-Counts input v p =
    let (t, h, c) =
      count_extents-Counts 0 input.extents no_result (validate_extent_set→Between input.extents v)
        (omega arith, omega arith, omega arith, omega arith) in
    (t, rw (v, p, h) refl, c)

-- For a valid map with a valid image, a report is produced, and its four counters add up to the
-- sectors of the map, without wrapping.
pub evaluate_outcome-total_sectors :
    (input : OutcomeInput)
    → validate_extent_set input.extents ≡ ok tt
    → input.valid_image_map_pair ≡ true
    → (r : OutcomeResult) × (evaluate_outcome input ≡ ok r)
      × (r.verified_sectors + r.reconstructed_sectors + r.accepted_unverified_sectors
            + r.unresolved_sectors
          ≡ total_sectors input.extents)
evaluate_outcome-total_sectors input v p =
    let (t, h, c) = evaluate_outcome-Counts input v p in
    let k = classify-counters input t in
    (classify input t, h, omega (arith, sectors_in-total input.extents))

-- For a valid map with a valid image, the report says that the image is fully verified exactly
-- when every extent of the map is verified or reconstructed.
pub evaluate_outcome-fully_verified :
    (input : OutcomeInput)
    → validate_extent_set input.extents ≡ ok tt
    → input.valid_image_map_pair ≡ true
    → (r : OutcomeResult) × (evaluate_outcome input ≡ ok r)
      × ((r.fully_verified ≡ true) ↔ All IsProven input.extents)
evaluate_outcome-fully_verified input v p =
    let (t, h, (c0, c1, c2, c3)) = evaluate_outcome-Counts input v p in
    let b = validate_extent_set→Between input.extents v in
    let (f, g) = classify-full input t in
    let (f2, g2) = sectors_in-none is_accepted 0 max_uint64 input.extents b in
    let (f3, g3) = sectors_in-none is_unresolved 0 max_uint64 input.extents b in
    (
      classify input t,
      h,
      (
        λ x.
            let (z2, z3) = f x in
            All-and is_accepted is_unresolved input.extents (f2 (omega arith)) (f3 (omega arith)),
        λ a.
            let z2 = g2 (All-left is_accepted is_unresolved input.extents a) in
            let z3 = g3 (All-right is_accepted is_unresolved input.extents a) in
            g (omega arith, omega arith),
      ),
    )
