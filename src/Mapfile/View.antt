-- ===== src/Mapfile/View.antt =====
-- The abstract view of a map: what it records of each single sector. `LookupExtent` finds the
-- extent that holds a sector; how sectors are grouped into extents is forgotten.
use disc_rescue.Prelude.{
  ℕ, ◌+◌, ◌<◌, ◌≡◌, refl, true, false, Option, none, some, List, [], ◌∷◌, ◌++◌, arith,
  if◌then◌else◌,
}
use mathlib.Core.Option
use disc_rescue.Mapfile.Extent.{Extent, covers, lookup_from, lookup_extent}
use disc_rescue.Mapfile.Valid.{IsValid, stop, end_lba-eq-stop, Between, Apart}

-- The record of the one sector `lba` of an extent.
abbrev pub sector_at : Extent → ℕ → Extent
sector_at e lba = record e { start_lba = lba; sectors = 1 }

abbrev pub view : List Extent → ℕ → Option Extent
view [] lba = none
view (e ∷ es) lba = if covers e lba then some (sector_at e lba) else view es lba

view-lookup_from :
    (i : ℕ) (es : List Extent) (lba : ℕ)
    → Option.map (λ (p : Extent × ℕ). sector_at p.0 lba) (lookup_from i es lba) ≡ view es lba
view-lookup_from i [] lba = refl
view-lookup_from i (e ∷ es) lba = ground (arith, view-lookup_from (i + 1) es lba)

pub view-lookup_extent :
    (es : List Extent) (lba : ℕ)
    → Option.map (λ (p : Extent × ℕ). sector_at p.0 lba) (lookup_extent es lba) ≡ view es lba
unfolding lookup_extent
view-lookup_extent es lba = view-lookup_from 0 es lba

abbrev pub or_else : Option Extent → Option Extent → Option Extent
or_else none o = o
or_else (some e) o = some e

pub view-append :
    (es fs : List Extent) (lba : ℕ) → view (es ++ fs) lba ≡ or_else (view es lba) (view fs lba)
view-append [] fs lba = refl
view-append (e ∷ es) fs lba = ground (arith, view-append es fs lba)

-- A sector before the first extent is on no record.
pub view-below :
    (lo hi : ℕ) (es : List Extent) (lba : ℕ) → Between lo hi es → lba < lo → view es lba ≡ none
view-below lo hi [] lba b h = refl
view-below lo hi (e ∷ es) lba (v, l, r, b) h =
    ground (arith, view-below (stop e) hi es lba b, v.nonempty)

pub covers-Apart :
    (a b : Extent) (lba : ℕ)
    → IsValid a
    → IsValid b
    → Apart a b
    → covers a lba ≡ true
    → covers b lba ≡ false
covers-Apart a b lba v w h c = ground (arith, end_lba-eq-stop a v, end_lba-eq-stop b w)
