-- ===== src/Mapfile/Edit/Carve.antt =====
-- Cutting a candidate's range out of a list of extents: what is left is in order, does not meet
-- the candidate, and records every other sector as before.
use Prim.Native.Nat.{min}
use disc_rescue.Prelude.{
  ℕ, ◌≤◌, ◌<◌, ◌≡◌, refl, ◌⊎◌, inl, inr, true, false, none, some, List, [], ◌∷◌, ◌++◌, arith, ok,
  if◌then◌else◌, ltb, leb, ◌&&◌, All, Bool-cases, All-append, >>-eq-ok, >>=-eq-ok, ◌^◌,
  append_assoc,
}
use disc_rescue.Mapfile.Extent.{Extent, covers, overlaps, end_lba}
use disc_rescue.Mapfile.Valid.{
  IsValid, stop, Between, Between-mono, Apart, Apart-sym, end_lba-eq-stop, overlaps→Apart,
}
use disc_rescue.Mapfile.View.{view, sector_at, view-append, covers-Apart}
use disc_rescue.Mapfile.Edit.{left_of, right_of, may_replace, carve, carve_all}

module _ (c e : Extent) (vc : IsValid c) (ve : IsValid e) (short : e.sectors < 2 ^ 32) where
  left_of-Between :
      (lo m hi : ℕ) (rest : List Extent)
      → lo ≤ e.start_lba
      → stop e ≤ hi
      → e.start_lba ≤ m
      → c.start_lba ≤ m
      → c.start_lba ≤ stop e
      → Between m hi rest
      → Between lo hi (left_of c e ++ rest)
  unfolding left_of
  left_of-Between lo m hi rest l r me mc o b = elim (Bool-cases (ltb e.start_lba c.start_lba)) [
    | inl t ↦ rw t (
      record {
        nonempty = ground arith;
        bounded = ground (arith, ve.bounded);
        allowed = ve.allowed;
      },
      l,
      ground arith,
      Between-mono m _ hi rest (ground arith) b,
    )
    | inr t ↦ rw t (Between-mono m lo hi rest (omega arith) b)
  ]

  right_of-Between :
      (m hi : ℕ) (rest : List Extent)
      → stop e ≤ hi
      → m ≤ stop c
      → m ≤ stop e
      → e.start_lba ≤ stop c
      → Between (stop e) hi rest
      → Between m hi (right_of c e ++ rest)
  unfolding right_of
  right_of-Between m hi rest r mc me ce b = elim (Bool-cases (ltb (end_lba c) (end_lba e))) [
    | inl t ↦ rw t (
      record {
        nonempty = ground (arith, end_c, end_e);
        bounded = ground (arith, ve.bounded, end_c, end_e);
        allowed = ve.allowed;
      },
      omega (arith, end_c),
      ground (arith, end_c, end_e),
      Between-mono (stop e) _ hi rest (ground (arith, end_c, end_e)) b,
    )
    | inr t ↦ rw t (Between-mono (stop e) m hi rest me b)
  ]
    where
      end_c : end_lba c ≡ stop c
      end_c = end_lba-eq-stop c vc

      end_e : end_lba e ≡ stop e
      end_e = end_lba-eq-stop e ve

  view-left_of :
      (lba : ℕ)
      → overlaps e c ≡ true
      → view (left_of c e) lba
        ≡ (if covers e lba && ltb lba c.start_lba then some (sector_at e lba) else none)
  unfolding left_of end_lba overlaps
  view-left_of lba o = ground (arith, ve.bounded, vc.bounded)

  view-right_of :
      (lba : ℕ)
      → overlaps e c ≡ true
      → view (right_of c e) lba
        ≡ (if covers e lba && leb (end_lba c) lba then some (sector_at e lba) else none)
  unfolding right_of end_lba overlaps
  view-right_of lba o = ground (arith, ve.bounded, vc.bounded)

  view-pieces :
      (lba : ℕ)
      → overlaps e c ≡ true
      → view (left_of c e ++ right_of c e) lba
        ≡ (if covers c lba then none else if covers e lba then some (sector_at e lba) else none)
  view-pieces lba o =
      ground (
        arith,
        view-append (left_of c e) (right_of c e) lba,
        view-left_of lba o,
        view-right_of lba o,
      )

  pieces-Between :
      (lo hi : ℕ) (rest : List Extent)
      → overlaps e c ≡ true
      → lo ≤ e.start_lba
      → stop e ≤ hi
      → Between (stop e) hi rest
      → Between lo hi ((left_of c e ++ right_of c e) ++ rest)
  unfolding overlaps
  pieces-Between lo hi rest o l r b =
      let end_c : end_lba c ≡ stop c = end_lba-eq-stop c vc in
      let end_e : end_lba e ≡ stop e = end_lba-eq-stop e ve in
      rw append_assoc (
        left_of-Between lo (min (stop c) (stop e)) hi (right_of c e ++ rest) l r (ground arith)
          (ground arith) (ground arith)
          (right_of-Between _ hi rest r (omega arith) (omega arith) (ground arith) b))

  pieces-Apart : overlaps e c ≡ true → All (Apart c) (left_of c e ++ right_of c e)
  unfolding left_of right_of overlaps
  pieces-Apart o = All-append (Apart c) (left_of c e) (right_of c e) left right
    where
      left : All (Apart c) (left_of c e)
      left = elim (Bool-cases (ltb e.start_lba c.start_lba)) [
        | inl t ↦ rw t (inr (ground arith), tt)
        | inr t ↦ rw t tt
      ]

      right : All (Apart c) (right_of c e)
      right = elim (Bool-cases (ltb (end_lba c) (end_lba e))) [
        | inl t ↦ rw t (inl (omega (arith, end_lba-eq-stop c vc)), tt)
        | inr t ↦ rw t tt
      ]

-- The checks of `ApplyExtent` on every extent that the candidate overlaps.
abbrev pub Replaceable : Extent → List Extent → Type 0
Replaceable c [] = Unit
Replaceable c (e ∷ es) = ((overlaps e c ≡ false) ⊎ (may_replace c e ≡ ok tt)) × Replaceable c es

pub may_replace_overlapped :
    (c e : Extent)
    → (overlaps e c ≡ false) ⊎ (may_replace c e ≡ ok tt)
    → overlaps e c ≡ true
    → may_replace c e ≡ ok tt
may_replace_overlapped c e (inl h) o = cc
may_replace_overlapped c e (inr h) o = h

module _ (c : Extent) (vc : IsValid c) (hi : ℕ) (fits : hi < 2 ^ 32) where
  carve-Between :
      (lo : ℕ) (e : Extent) (ps rest : List Extent)
      → IsValid e
      → lo ≤ e.start_lba
      → stop e ≤ hi
      → carve c e ≡ ok ps
      → Between (stop e) hi rest
      → Between lo hi (ps ++ rest) × All (Apart c) ps
  unfolding carve
  carve-Between lo e ps rest ve l r h b = elim (Bool-cases (overlaps e c)) [
    | inl o ↦
        let (h1, h2) = >>-eq-ok (may_replace c e) _ (rw o at h) in
        let eq : left_of c e ++ right_of c e ≡ ps = ground arith in
        rw (← eq) (
          pieces-Between c e vc ve (omega arith) lo hi rest o l r b,
          pieces-Apart c e vc ve (omega arith) o,
        )
    | inr o ↦
        let eq : e ∷ [] ≡ ps = ground arith in
        rw (← eq) ((ve, l, r, b), (Apart-sym e c (overlaps→Apart e c ve vc o), tt))
  ]

  pub carve_all-Between :
      (lo : ℕ) (es ps : List Extent)
      → Between lo hi es
      → carve_all c es ≡ ok ps
      → Between lo hi ps × All (Apart c) ps
  unfolding carve_all
  carve_all-Between lo [] ps b h = let eq : [] ≡ ps = cc in rw (← eq) (tt, tt)
  carve_all-Between lo (e ∷ es) ps (v, l, r, b) h =
      let (here, h1, h2) = >>=-eq-ok (carve c e) _ h in
      let (rest, h3, h4) = >>=-eq-ok (carve_all c es) _ h2 in
      let (b', a') = carve_all-Between (stop e) es rest b h3 in
      let (b'', a'') = carve-Between lo e here rest v l r h1 b' in
      let eq : here ++ rest ≡ ps = cc in rw (← eq) (b'', All-append (Apart c) here rest a'' a')

  view-carve :
      (lba : ℕ) (e : Extent) (ps : List Extent)
      → IsValid e
      → stop e ≤ hi
      → carve c e ≡ ok ps
      → view ps lba
        ≡ (if covers c lba then none else if covers e lba then some (sector_at e lba) else none)
  unfolding carve
  view-carve lba e ps ve r h = elim (Bool-cases (overlaps e c)) [
    | inl o ↦
        let (h1, h2) = >>-eq-ok (may_replace c e) _ (rw o at h) in
        let eq : left_of c e ++ right_of c e ≡ ps = ground arith in
        rw (← eq) (view-pieces c e vc ve (omega arith) lba o)
    | inr o ↦
        let eq : e ∷ [] ≡ ps = ground arith in
        rw (← eq) (ground (arith, covers-Apart e c lba ve vc (overlaps→Apart e c ve vc o)))
  ]

  pub view-carve_all :
      (lba lo : ℕ) (es ps : List Extent)
      → Between lo hi es
      → carve_all c es ≡ ok ps
      → view ps lba ≡ (if covers c lba then none else view es lba)
  unfolding carve_all
  view-carve_all lba lo [] ps b h = let eq : [] ≡ ps = cc in rw (← eq) (ground arith)
  view-carve_all lba lo (e ∷ es) ps (v, l, r, b) h =
      let (here, h1, h2) = >>=-eq-ok (carve c e) _ h in
      let (rest, h3, h4) = >>=-eq-ok (carve_all c es) _ h2 in
      let eq : here ++ rest ≡ ps = cc in
      rw (← eq) (
        ground (
          arith,
          view-append here rest lba,
          view-carve lba e here v r h1,
          view-carve_all lba (stop e) es rest b h3,
        ))

-- `carve_all` returns a list exactly when every overlapped extent may be replaced.
pub carve_all-ok :
    (c : Extent) (es : List Extent)
    → Replaceable c es
    → (ps : List Extent) × (carve_all c es ≡ ok ps)
unfolding carve_all carve
carve_all-ok c [] r = ([], refl)
carve_all-ok c (e ∷ es) (r, rs) =
    let (ps, h) = carve_all-ok c es rs in
    elim (Bool-cases (overlaps e c)) [
      | inl o ↦ ((left_of c e ++ right_of c e) ++ ps, rw (o, may_replace_overlapped c e r o, h))
      | inr o ↦ (e ∷ ps, rw (o, h))
    ]

pub carve_all-Replaceable :
    (c : Extent) (es ps : List Extent) → carve_all c es ≡ ok ps → Replaceable c es
unfolding carve_all carve
carve_all-Replaceable c [] ps h = tt
carve_all-Replaceable c (e ∷ es) ps h =
    let (here, h1, h2) = >>=-eq-ok (carve c e) _ h in
    let (rest, h3, h4) = >>=-eq-ok (carve_all c es) _ h2 in
    (
      elim (Bool-cases (overlaps e c)) [
        | inl o ↦ inr (>>-eq-ok (may_replace c e) _ (rw o at h1)).0
        | inr o ↦ inl o
      ],
      carve_all-Replaceable c es rest h3,
    )
