-- ===== src/Mapfile/Edit/Coalesce.antt =====
-- Coalescing: neighbours with the same record become one extent. The view is unchanged, and no
-- two neighbours of the result could be merged.
use disc_rescue.Prelude.{
  ℕ, ◌+◌, ◌<◌, ◌≡◌, refl, ap, inl, inr, true, false, List, [], ◌∷◌, arith, ok, Bool-cases, ◌^◌, u32,
  ◌∙◌, >>=-eq-ok, >>-eq-ok, guard-eq-ok,
}
use disc_rescue.Mapfile.State.{state_code-injective, confidence_code-injective}
use disc_rescue.Mapfile.Extent.{
  Extent, not_neighbors, end_lba, validate, bytes_eq, can_merge_adjacent, merge_adjacent,
}
use disc_rescue.Mapfile.Valid.{IsValid, stop, Between, end_lba-eq-stop, IsValid→validate}
use disc_rescue.Mapfile.View.{view, sector_at}
use disc_rescue.Mapfile.Edit.{coalesce_from}

pub bytes_eq→eq : (xs ys : List ℕ) → bytes_eq xs ys ≡ true → xs ≡ ys
unfolding bytes_eq
bytes_eq→eq [] [] h = refl
bytes_eq→eq [] (y ∷ ys) h = cc
bytes_eq→eq (x ∷ xs) [] h = cc
bytes_eq→eq (x ∷ xs) (y ∷ ys) h = ground (arith, bytes_eq→eq xs ys)

-- What `CanMergeAdjacent` requires of two extents.
pub record SameRecord (a b : Extent) : Type 0 where
  pub next_to : end_lba a ≡ b.start_lba
  pub same : (lba : ℕ) → sector_at a lba ≡ sector_at b lba

pub can_merge→SameRecord : (a b : Extent) → can_merge_adjacent a b ≡ true → SameRecord a b
unfolding can_merge_adjacent
can_merge→SameRecord a b h = record {
  next_to = ground arith;
  same = λ lba. ground (
    arith,
    state_code-injective a.state b.state,
    confidence_code-injective a.confidence b.confidence,
    bytes_eq→eq a.data_hash b.data_hash,
  );
}

abbrev joined : Extent → Extent → Extent
joined a b = record a { sectors = a.sectors + b.sectors }

module _ (a b : Extent) (va : IsValid a) (vb : IsValid b) (small : stop b < 2 ^ 32)
    (m : can_merge_adjacent a b ≡ true) where
  merge_adjacent-joined : merge_adjacent a b ≡ ok (joined a b)
  unfolding merge_adjacent
  merge_adjacent-joined =
      rw (IsValid→validate a va, IsValid→validate b vb, m)
        (ap (λ (n : ℕ). ok (record a { sectors = n })) fits)
    where
      fits : u32 (a.sectors + b.sectors) ≡ a.sectors + b.sectors
      fits = let r = can_merge→SameRecord a b m in omega (arith, r.next_to, end_lba-eq-stop a va)

  joined-IsValid : IsValid (joined a b)
  joined-IsValid =
      let r = can_merge→SameRecord a b m in
      record {
        nonempty = omega (arith, va.nonempty);
        bounded = omega (arith, r.next_to, end_lba-eq-stop a va, vb.bounded);
        allowed = va.allowed;
      }

  stop-joined : stop (joined a b) ≡ stop b
  stop-joined = let r = can_merge→SameRecord a b m in omega (arith, r.next_to, end_lba-eq-stop a va)

  view-joined :
      (rest : List Extent) (lba : ℕ) → view (joined a b ∷ rest) lba ≡ view (a ∷ b ∷ rest) lba
  view-joined rest lba =
      let r = can_merge→SameRecord a b m in
      ground (
        arith,
        r.next_to,
        r.same lba,
        end_lba-eq-stop a va,
        end_lba-eq-stop b vb,
        end_lba-eq-stop (joined a b) joined-IsValid,
        stop-joined,
      )

coalesce_from-merge :
    (a n m : Extent) (es : List Extent)
    → can_merge_adjacent a n ≡ true
    → merge_adjacent a n ≡ ok m
    → coalesce_from a (n ∷ es) ≡ coalesce_from m es
unfolding coalesce_from
coalesce_from-merge a n m es c h = rw (c, coalesce_from) (rw h)

coalesce_from-keep :
    (a n : Extent) (es ys : List Extent)
    → can_merge_adjacent a n ≡ false
    → coalesce_from n es ≡ ok ys
    → coalesce_from a (n ∷ es) ≡ ok (a ∷ ys)
unfolding coalesce_from
coalesce_from-keep a n es ys c h = rw (c, coalesce_from) (rw h)

-- The loop, from any valid `current` before a list in order: it returns, the result is in order,
-- and the view is kept.
pub coalesce_from-total :
    (lo hi : ℕ) (a : Extent) (es : List Extent)
    → hi < 2 ^ 32
    → Between lo hi (a ∷ es)
    → (ys : List Extent) × (coalesce_from a es ≡ ok ys)
      × Between lo hi ys
      × ((lba : ℕ) → view ys lba ≡ view (a ∷ es) lba)
unfolding coalesce_from
coalesce_from-total lo hi a [] f b = (a ∷ [], refl, b, λ lba. refl)
coalesce_from-total lo hi a (n ∷ es) f (va, l, r, (vn, ln, rn, b)) =
    elim (Bool-cases (can_merge_adjacent a n)) [
      | inl m ↦
          let e = stop-joined a n va vn (omega arith) m in
          let (ys, h, b', same) =
            coalesce_from-total lo hi (joined a n) es f
              (joined-IsValid a n va vn (omega arith) m, l, rw e rn, rw e b) in
          (
            ys,
            coalesce_from-merge a n _ es m (merge_adjacent-joined a n va vn (omega arith) m) ∙ h,
            b',
            λ lba. same lba ∙ view-joined a n va vn (omega arith) m es lba,
          )
      | inr m ↦
          let (ys, h, b', same) = coalesce_from-total (stop a) hi n es f (vn, ln, rn, b) in
          (
            a ∷ ys,
            coalesce_from-keep a n es ys m h,
            (va, l, r, b'),
            λ lba. ground (arith, same lba),
          )
    ]

-- No two neighbours of the list can be merged.
abbrev pub Coalesced : List Extent → Type 0
Coalesced [] = Unit
Coalesced (e ∷ []) = Unit
Coalesced (e ∷ f ∷ es) = (can_merge_adjacent e f ≡ false) × Coalesced (f ∷ es)

record Headed (a : Extent) (ys : List Extent) : Type 0 where
  first : Extent
  others : List Extent
  split : ys ≡ first ∷ others
  alike : (x : Extent) → can_merge_adjacent x first ≡ can_merge_adjacent x a
  apart : Coalesced (first ∷ others)

merge_adjacent-alike :
    (a n m : Extent)
    → merge_adjacent a n ≡ ok m
    → (x : Extent) → can_merge_adjacent x m ≡ can_merge_adjacent x a
unfolding merge_adjacent can_merge_adjacent
merge_adjacent-alike a n m h x =
    let (h1, h2) = >>-eq-ok (validate a) _ h in
    let (h3, h4) = >>-eq-ok (validate n) _ h2 in
    let (h5, h6) = guard-eq-ok (can_merge_adjacent a n) not_neighbors _ h4 in
    let e : record a { sectors = u32 (a.sectors + n.sectors) } ≡ m = cc in rw (← e)

coalesce_from-Headed : (a : Extent) (es ys : List Extent) → coalesce_from a es ≡ ok ys → Headed a ys
unfolding coalesce_from
coalesce_from-Headed a [] ys h = record {
  first = a;
  others = [];
  split = cc;
  alike = λ x. refl;
  apart = tt;
}
coalesce_from-Headed a (n ∷ es) ys h = elim (Bool-cases (can_merge_adjacent a n)) [
  | inl c ↦
      let h' = rw (c, coalesce_from) at h in
      let (m, h1, h2) = >>=-eq-ok (merge_adjacent a n) _ h' in
      let r = coalesce_from-Headed m es ys h2 in
      record {
        first = r.first;
        others = r.others;
        split = r.split;
        alike = λ x. r.alike x ∙ merge_adjacent-alike a n m h1 x;
        apart = r.apart;
      }
  | inr c ↦
      let h' = rw (c, coalesce_from) at h in
      let (t, h1, h2) = >>=-eq-ok (coalesce_from n es) _ h' in
      let r = coalesce_from-Headed n es t h1 in
      record {
        first = a;
        others = r.first ∷ r.others;
        split = cc (r.split);
        alike = λ x. refl;
        apart = (r.alike a ∙ c, r.apart);
      }
]

pub coalesce_from-Coalesced :
    (a : Extent) (es ys : List Extent) → coalesce_from a es ≡ ok ys → Coalesced ys
coalesce_from-Coalesced a es ys h = let r = coalesce_from-Headed a es ys h in rw r.split r.apart
