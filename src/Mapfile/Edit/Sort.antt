-- ===== src/Mapfile/Edit/Sort.antt =====
-- Sorting extents that share no sector gives a list in order with the same view.
use disc_rescue.Prelude.{
  ℕ, ◌≤◌, ◌≡◌, refl, inl, inr, List, [], ◌∷◌, ◌++◌, arith, leb, leb→le, All, Bool-cases, All-append,
}
use disc_rescue.Mapfile.Extent.{Extent}
use disc_rescue.Mapfile.Valid.{IsValid, stop, Between, Apart, Apart-sym, stop_le_of_sorted}
use disc_rescue.Mapfile.View.{view, covers-Apart}
use disc_rescue.Mapfile.Edit.{insert_by_start, sort_by_start}

-- Valid extents up to `hi`, in any order, no two of which share a sector.
abbrev pub Scattered : ℕ → List Extent → Type 0
Scattered hi [] = Unit
Scattered hi (e ∷ es) = IsValid e × (stop e ≤ hi) × All (Apart e) es × Scattered hi es

All-insert_by_start :
    (P : Extent → Type 0) (e : Extent) (es : List Extent)
    → P e
    → All P es
    → All P (insert_by_start e es)
unfolding insert_by_start
All-insert_by_start P e [] h hs = (h, tt)
All-insert_by_start P e (f ∷ fs) h hs = elim (Bool-cases (leb e.start_lba f.start_lba)) [
  | inl c ↦ rw c (h, hs)
  | inr c ↦ rw c (hs.0, All-insert_by_start P e fs h hs.1)
]

All-sort_by_start : (P : Extent → Type 0) (es : List Extent) → All P es → All P (sort_by_start es)
unfolding sort_by_start
All-sort_by_start P [] h = tt
All-sort_by_start P (e ∷ es) h = All-insert_by_start P e _ h.0 (All-sort_by_start P es h.1)

insert_by_start-Between :
    (lo hi : ℕ) (e : Extent) (es : List Extent)
    → IsValid e
    → lo ≤ e.start_lba
    → stop e ≤ hi
    → All (Apart e) es
    → Between lo hi es
    → Between lo hi (insert_by_start e es)
unfolding insert_by_start
insert_by_start-Between lo hi e [] v l r a b = (v, l, r, tt)
insert_by_start-Between lo hi e (f ∷ fs) v l r (a, later) (w, lf, rf, b) =
    elim (Bool-cases (leb e.start_lba f.start_lba)) [
      | inl c ↦
          rw c (v, l, r, (w, stop_le_of_sorted e f w (leb→le e.start_lba f.start_lba c) a, rf, b))
      | inr c ↦ rw c (
        w,
        lf,
        rf,
        insert_by_start-Between (stop f) hi e fs v
            (stop_le_of_sorted f e v (ground arith) (Apart-sym e f a)) r later b,
      )
    ]

pub sort_by_start-Between :
    (hi : ℕ) (es : List Extent) → Scattered hi es → Between 0 hi (sort_by_start es)
unfolding sort_by_start
sort_by_start-Between hi [] s = tt
sort_by_start-Between hi (e ∷ es) (v, r, a, s) =
    insert_by_start-Between 0 hi e _ v (omega arith) r (All-sort_by_start (Apart e) es a)
      (sort_by_start-Between hi es s)

view-insert_by_start :
    (lba : ℕ) (e : Extent) (es : List Extent)
    → IsValid e
    → All IsValid es
    → All (Apart e) es
    → view (insert_by_start e es) lba ≡ view (e ∷ es) lba
unfolding insert_by_start
view-insert_by_start lba e [] v vs a = refl
view-insert_by_start lba e (f ∷ fs) v vs a =
    ground (arith, view-insert_by_start lba e fs v vs.1 a.1, covers-Apart e f lba v vs.0 a.0)

Scattered-IsValid : (hi : ℕ) (es : List Extent) → Scattered hi es → All IsValid es
Scattered-IsValid hi [] s = tt
Scattered-IsValid hi (e ∷ es) (v, r, a, s) = (v, Scattered-IsValid hi es s)

pub view-sort_by_start :
    (hi lba : ℕ) (es : List Extent) → Scattered hi es → view (sort_by_start es) lba ≡ view es lba
unfolding sort_by_start
view-sort_by_start hi lba [] s = refl
view-sort_by_start hi lba (e ∷ es) (v, r, a, s) = ground (
  arith,
  view-insert_by_start lba e (sort_by_start es) v
      (All-sort_by_start IsValid es (Scattered-IsValid hi es s)) (All-sort_by_start (Apart e) es a),
  view-sort_by_start hi lba es s,
)

-- A list in order with one more extent behind it that shares no sector with the others.
pub Scattered-append_one :
    (lo hi : ℕ) (c : Extent) (es : List Extent)
    → IsValid c
    → stop c ≤ hi
    → Between lo hi es
    → All (Apart c) es
    → Scattered hi (es ++ c ∷ [])
Scattered-append_one lo hi c [] v r b a = (v, r, tt, tt)
Scattered-append_one lo hi c (e ∷ es) v r (w, l, re, b) (a, others) = (
  w,
  re,
  All-append (Apart e) es (c ∷ []) (later (stop e) es b (omega arith)) (Apart-sym c e a, tt),
  Scattered-append_one (stop e) hi c es v r b others,
)
  where
    later : (n : ℕ) (fs : List Extent) → Between n hi fs → stop e ≤ n → All (Apart e) fs
    later n [] bf h = tt
    later n (f ∷ fs) (vf, lf, rf, bf) h = (inl (omega arith), later (stop f) fs bf (omega arith))
