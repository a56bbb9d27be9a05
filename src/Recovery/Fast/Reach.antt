-- ===== src/Recovery/Fast/Reach.antt =====
-- What a fast pass reads lies ahead of its cursor.
use disc_rescue.Prelude.{
  ℕ, ◌+◌, ◌-◌, ◌^◌, ◌≤◌, ◌<◌, ◌≡◌, Bool, Bool-cases, inl, inr, true, false, not, ◌||◌, Option, none,
  some, List, [], ◌∷◌, arith, ltb, leb, if◌then◌else◌, u32,
}
use disc_rescue.Mapfile.Extent.{Extent, end_lba}
use disc_rescue.Mapfile.Valid.{IsValid, stop, Between, end_lba-eq-stop}
use disc_rescue.Recovery.Fast.{
  passed_over, start_in, next_cluster_range, next_single_sector, schedulable_fast_state,
}

-- A range of sectors from the cursor on, up to sector `hi`.
pub record InReach (cursor hi start sectors : ℕ) : Type 0 where
  pub ahead : cursor ≤ start
  pub nonempty : 0 < sectors
  pub within : start + sectors ≤ hi

same_pair : (a b c d : ℕ) → ◌≡◌ {A = Option (ℕ × ℕ)} (some (a, b)) (some (c, d)) → (a ≡ c) × (b ≡ d)
same_pair a b c d h = (cc, cc)

not_passed : (a : Bool) (m n : ℕ) → (a || leb m n) ≡ false → n < m
not_passed a m n h = ground (arith, h)

start_in-bounds :
    (e : Extent) (cursor : ℕ)
    → IsValid e
    → passed_over e cursor ≡ false
    → (cursor ≤ start_in e cursor) × (start_in e cursor < stop e)
start_in-bounds e cursor v t =
    let n = not_passed (not (schedulable_fast_state e.state)) (end_lba e) cursor t in
    let s = end_lba-eq-stop e v in (ground arith, ground (arith, n, s, v.nonempty))

span_bounds :
    (size span : ℕ)
    → 0 < size
    → 0 < span
    → (0 < (if ltb size span then size else span)) × ((if ltb size span then size else span) ≤ span)
span_bounds size span p q = (ground arith, ground arith)

span_exact : (m n : ℕ) → m < 2 ^ 32 → u32 (m - n) ≡ m - n
span_exact m n h = omega (arith, h)

cluster_in :
    (e : Extent) (cursor hi size start sectors : ℕ)
    → hi < 2 ^ 32
    → IsValid e
    → stop e ≤ hi
    → 0 < size
    → passed_over e cursor ≡ false
    → ◌≡◌ {A = Option (ℕ × ℕ)}
        (some (
          start_in e cursor,
          if ltb size (u32 (end_lba e - start_in e cursor))
              then size
              else u32 (end_lba e - start_in e cursor),
        ))
        (some (start, sectors))
    → InReach cursor hi start sectors
cluster_in e cursor hi size start sectors f v r p t h =
    let (e1, e2) = same_pair _ _ start sectors h in
    let (b1, b2) = start_in-bounds e cursor v t in
    let s = end_lba-eq-stop e v in
    let span = u32 (end_lba e - start_in e cursor) in
    let exact : span ≡ end_lba e - start_in e cursor =
      span_exact (end_lba e) (start_in e cursor) (omega (arith, s, r, f)) in
    let (c1, c2) = span_bounds size span p (omega (arith, exact, s, b2)) in
    record {
      ahead = omega (arith, e1, b1);
      nonempty = omega (arith, e2, c1);
      within = omega (arith, e1, e2, c2, exact, s, b2, r);
    }

pub next_single_sector-InReach :
    (lo hi : ℕ) (es : List Extent) (cursor boundary start : ℕ)
    → Between lo hi es
    → next_single_sector es cursor boundary ≡ some start
    → InReach cursor hi start 1
unfolding next_single_sector
next_single_sector-InReach lo hi [] cursor boundary start b h = cc
next_single_sector-InReach lo hi (e ∷ es) cursor boundary start (v, l, r, b) h =
    elim (Bool-cases (passed_over e cursor)) [
      | inl t ↦ next_single_sector-InReach (stop e) hi es cursor boundary start b (rw t at h)
      | inr t ↦ single_in (leb boundary (start_in e cursor)) t (rw t at h)
    ]
  where
    single_in :
        (past : Bool)
        → passed_over e cursor ≡ false
        → (if past then none else some (start_in e cursor)) ≡ some start
        → InReach cursor hi start 1
    single_in true t k = cc
    single_in false t k =
        let same : start_in e cursor ≡ start = cc in
        let (b1, b2) = start_in-bounds e cursor v t in
        record {
          ahead = omega (arith, same, b1);
          nonempty = omega arith;
          within = omega (arith, same, b2, r);
        }

pub next_cluster_range-InReach :
    (lo hi : ℕ) (es : List Extent) (cursor size start sectors : ℕ)
    → hi < 2 ^ 32
    → Between lo hi es
    → 0 < size
    → next_cluster_range es cursor size ≡ some (start, sectors)
    → InReach cursor hi start sectors
unfolding next_cluster_range
next_cluster_range-InReach lo hi [] cursor size start sectors f b p h = cc
next_cluster_range-InReach lo hi (e ∷ es) cursor size start sectors f (v, l, r, b) p h =
    elim (Bool-cases (passed_over e cursor)) [
      | inl t ↦
          next_cluster_range-InReach (stop e) hi es cursor size start sectors f b p (rw t at h)
      | inr t ↦ cluster_in e cursor hi size start sectors f v r p t (rw t at h)
    ]
