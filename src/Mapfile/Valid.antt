-- ===== src/Mapfile/Valid.antt =====
-- What the checks of internal/mapfile accept, as predicates: a valid extent, and a list of valid
-- extents in order within bounds.
use disc_rescue.Prelude.{
  ℕ, ◌+◌, ◌^◌, ◌≤◌, ◌<◌, ◌≡◌, refl, ◌⊎◌, inl, inr, ◌↔◌, false, List, [], ◌∷◌, arith, ok, >>-eq-ok,
  >>=-eq-ok, guard-eq-ok, ◌||◌, ltb, ◌==◌, leb→le, leb, not,
}
use disc_rescue.Mapfile.State.{validate_state_confidence}
use disc_rescue.Mapfile.Extent.{
  Extent, no_capacity, beyond_capacity, unsorted, overlapping, max_uint64, lift_state, end_lba,
  checked_end_lba, validate, overlaps, validate_after, validate_extent_set, check_capacity,
  validate_extent_set_within_capacity,
}

-- The exclusive end of an extent, as a plain sum.
abbrev pub stop : Extent → ℕ
stop e = e.start_lba + e.sectors

-- What `Validate` accepts.
pub record IsValid (e : Extent) : Type 0 where
  pub nonempty : 0 < e.sectors
  pub bounded : stop e < 2 ^ 64
  pub allowed : lift_state (validate_state_confidence e.state e.confidence) ≡ ok tt

pub validate→IsValid : (e : Extent) → validate e ≡ ok tt → IsValid e
unfolding validate
validate→IsValid e h = ground arith

pub IsValid→validate : (e : Extent) → IsValid e → validate e ≡ ok tt
unfolding validate
IsValid→validate e v = ground arith

pub end_lba-eq-stop : (e : Extent) → IsValid e → end_lba e ≡ stop e
unfolding end_lba
end_lba-eq-stop e v = omega arith

-- Valid extents, sorted and apart, from `lo` on and up to `hi`.
abbrev pub Between : ℕ → ℕ → List Extent → Type 0
Between lo hi [] = Unit
Between lo hi (e ∷ es) = IsValid e × (lo ≤ e.start_lba) × (stop e ≤ hi) × Between (stop e) hi es

pub Between-mono :
    (lo lo' hi : ℕ) (es : List Extent) → lo' ≤ lo → Between lo hi es → Between lo' hi es
Between-mono lo lo' hi [] h b = tt
Between-mono lo lo' hi (e ∷ es) h (v, l, r, b) = (v, omega arith, r, b)

pub Between-widen :
    (lo hi hi' : ℕ) (es : List Extent) → hi ≤ hi' → Between lo hi es → Between lo hi' es
Between-widen lo hi hi' [] h b = tt
Between-widen lo hi hi' (e ∷ es) h (v, l, r, b) =
    (v, l, omega arith, Between-widen (stop e) hi hi' es h b)

-- Two extents that share no sector.
abbrev pub Apart : Extent → Extent → Type 0
Apart a b = (stop a ≤ b.start_lba) ⊎ (stop b ≤ a.start_lba)

pub Apart-sym : (a b : Extent) → Apart a b → Apart b a
Apart-sym a b (inl h) = inr h
Apart-sym a b (inr h) = inl h

pub overlaps→Apart : (a b : Extent) → IsValid a → IsValid b → overlaps a b ≡ false → Apart a b
unfolding overlaps
overlaps→Apart a b v w h = ground (arith, end_lba-eq-stop a v, end_lba-eq-stop b w)

pub Apart→overlaps : (a b : Extent) → IsValid a → IsValid b → Apart a b → overlaps a b ≡ false
unfolding overlaps
Apart→overlaps a b v w h = ground (arith, end_lba-eq-stop a v, end_lba-eq-stop b w)

pub stop_le_of_sorted :
    (p e : Extent) → IsValid e → p.start_lba ≤ e.start_lba → Apart p e → stop p ≤ e.start_lba
stop_le_of_sorted p e w le (inl h) = h
stop_le_of_sorted p e w le (inr h) = absurd (omega (arith, w.nonempty))

-- `ValidateExtentSet` accepts the lists of valid extents in order, and no others.
pub validate_after→Between :
    (p : Extent) (es : List Extent)
    → IsValid p
    → validate_after p es ≡ ok tt
    → Between (stop p) max_uint64 es
unfolding validate_after
validate_after→Between p [] v h = tt
validate_after→Between p (e ∷ es) v h =
    let (h1, h2) = >>-eq-ok (validate e) _ h in
    let w = validate→IsValid e h1 in
    let (h3, h4) = guard-eq-ok (leb p.start_lba e.start_lba) unsorted _ h2 in
    let (h5, h6) = guard-eq-ok (not (overlaps p e)) overlapping _ h4 in
    let apart : Apart p e = overlaps→Apart p e v w (ground arith) in
    (
      w,
      stop_le_of_sorted p e w (leb→le p.start_lba e.start_lba h3) apart,
      omega (arith, w.bounded),
      validate_after→Between e es w h6,
    )

pub Between→validate_after :
    (p : Extent) (hi : ℕ) (es : List Extent)
    → IsValid p
    → Between (stop p) hi es
    → validate_after p es ≡ ok tt
unfolding validate_after
Between→validate_after p hi [] v h = refl
Between→validate_after p hi (e ∷ es) v (w, l, r, b) = ground (
  arith,
  IsValid→validate e w,
  Apart→overlaps p e v w (inl l),
  Between→validate_after e hi es w b,
)

pub validate_extent_set→Between :
    (es : List Extent) → validate_extent_set es ≡ ok tt → Between 0 max_uint64 es
unfolding validate_extent_set
validate_extent_set→Between [] h = tt
validate_extent_set→Between (e ∷ es) h =
    let (h1, h2) = >>-eq-ok (validate e) _ h in
    let w = validate→IsValid e h1 in (w, omega arith, omega arith, validate_after→Between e es w h2)

pub Between→validate_extent_set :
    (lo hi : ℕ) (es : List Extent) → Between lo hi es → validate_extent_set es ≡ ok tt
unfolding validate_extent_set
Between→validate_extent_set lo hi [] b = refl
Between→validate_extent_set lo hi (e ∷ es) (v, l, r, b) =
    ground (arith, IsValid→validate e v, Between→validate_after e hi es v b)

-- The capacity check of one extent, and of the rest.
check_capacity→Between :
    (lo n : ℕ) (es : List Extent)
    → Between lo max_uint64 es
    → check_capacity n es ≡ ok tt
    → Between lo n es
unfolding check_capacity checked_end_lba
check_capacity→Between lo n [] b h = tt
check_capacity→Between lo n (e ∷ es) (v, l, r, b) h =
    let (s, h1, h2) = >>=-eq-ok (checked_end_lba e) _ h in
    let (h3, h4) = guard-eq-ok (not (leb n e.start_lba || ltb n s)) beyond_capacity _ h2 in
    (v, l, ground (arith, v.bounded), check_capacity→Between (stop e) n es b h4)

Between→check_capacity :
    (lo n : ℕ) (es : List Extent) → Between lo n es → check_capacity n es ≡ ok tt
unfolding check_capacity checked_end_lba
Between→check_capacity lo n [] b = refl
Between→check_capacity lo n (e ∷ es) (v, l, r, b) =
    ground (arith, v.bounded, v.nonempty, Between→check_capacity (stop e) n es b)

-- `ValidateExtentSetWithinCapacity` accepts a list for a capacity of `n` sectors exactly when
-- `n` is not 0 and the list has valid extents in order, apart, all of them below sector `n`.
pub validate_extent_set_within_capacity_iff :
    (es : List Extent) (n : ℕ)
    → (validate_extent_set_within_capacity es n ≡ ok tt) ↔ ((0 < n) × Between 0 n es)
unfolding validate_extent_set_within_capacity
validate_extent_set_within_capacity_iff es n = (forth, back)
  where
    forth : validate_extent_set_within_capacity es n ≡ ok tt → (0 < n) × Between 0 n es
    forth h =
        let (h1, h2) = guard-eq-ok (not (n == 0)) no_capacity _ h in
        let (h3, h4) = >>-eq-ok (validate_extent_set es) _ h2 in
        (ground arith, check_capacity→Between 0 n es (validate_extent_set→Between es h3) h4)

    back : (0 < n) × Between 0 n es → validate_extent_set_within_capacity es n ≡ ok tt
    back (p, b) =
        ground (arith, Between→validate_extent_set 0 n es b, Between→check_capacity 0 n es b)
