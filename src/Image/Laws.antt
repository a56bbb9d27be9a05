-- ===== src/Image/Laws.antt =====
-- The positioned writes leave the same image as the writes of the single sectors.
use disc_rescue.Prelude.{
  ℕ, zero, suc, ◌+◌, ◌-◌, ◌*◌, ◌^◌, ◌<◌, ◌≡◌, refl, sym, ap, subst, ◌∙◌, Bool-cases, inl, inr, true,
  false, ◌&&◌, List, [], ◌∷◌, ◌++◌, arith, length, length-append, ltb, leb, ◌==◌, ==_iff,
  if◌then◌else◌, All, u64, ok, >>-eq-ok,
}
use mathlib.Core.Path.{fun_ext}
use disc_rescue.Image.{
  SectorWrite, PositionedWrite, WriterPlan, write_offset, at_offset, validate_plan, build_from,
  build_all, build_positioned_writes,
}

-- The contents of an image, by byte.
abbrev pub Contents : Type 0
Contents = ℕ → ℕ

abbrev pub byte_of : List ℕ → ℕ → ℕ
byte_of [] k = 0
byte_of (b ∷ bs) zero = b
byte_of (b ∷ bs) (suc k) = byte_of bs k

-- The image with these bytes put at an offset.
abbrev pub put : PositionedWrite → Contents → Contents
put p image = λ k.
    if leb p.offset k && ltb k (p.offset + length p.bytes)
    then byte_of p.bytes (k - p.offset)
    else image k

abbrev pub put_all : List PositionedWrite → Contents → Contents
put_all [] image = image
put_all (p ∷ ps) image = put_all ps (put p image)

-- Each sector written by itself.
abbrev pub put_sectors : List SectorWrite → Contents → Contents
put_sectors [] image = image
put_sectors (w ∷ ws) image = put_sectors ws (put (at_offset w) image)

byte_of-append :
    (xs ys : List ℕ) (k : ℕ)
    → byte_of (xs ++ ys) k
      ≡ (if ltb k (length xs) then byte_of xs k else byte_of ys (k - length xs))
byte_of-append [] ys k = let e : k - 0 ≡ k = omega arith in ground (arith, e)
byte_of-append (x ∷ xs) ys zero = ground arith
byte_of-append (x ∷ xs) ys (suc k) =
    let e : suc k - suc (length xs) ≡ k - length xs = omega arith in
    ground (arith, byte_of-append xs ys k, e)

put-append :
    (o : ℕ) (xs ys : List ℕ) (image : Contents)
    → put (record { offset = o; bytes = xs ++ ys }) image
      ≡ put
          (record { offset = o + length xs; bytes = ys })
          (put (record { offset = o; bytes = xs }) image)
put-append o xs ys image = fun_ext (λ k. at k)
  where
    at :
        (k : ℕ)
        → put (record { offset = o; bytes = xs ++ ys }) image k
          ≡ put
              (record { offset = o + length xs; bytes = ys })
              (put (record { offset = o; bytes = xs }) image)
              k
    at k =
        let e : k - o - length xs ≡ k - (o + length xs) = omega arith in
        ground (arith, length-append xs ys, byte_of-append xs ys (k - o), e)

-- The end of a write, which no wrap-around has touched.
abbrev pub InRange : SectorWrite → Type 0
InRange w = w.lba * w.logical_sector_size + length w.bytes < 2 ^ 64

u64_small : (n : ℕ) → n < 2 ^ 64 → u64 n ≡ n
u64_small n h = omega (arith, h)

below : (n m k : ℕ) → n + m < k → n < k
below n m k h = omega (arith, h)

write_offset-exact : (w : SectorWrite) → InRange w → write_offset w ≡ w.lba * w.logical_sector_size
unfolding write_offset
write_offset-exact w r =
    u64_small (w.lba * w.logical_sector_size) (below _ (length w.bytes) (2 ^ 64) r)

InRange-end : (w : SectorWrite) → InRange w → write_offset w + length w.bytes < 2 ^ 64
InRange-end w r = subst (λ n. n + length w.bytes < 2 ^ 64) (sym (write_offset-exact w r)) r

build_from-merged :
    (c : PositionedWrite) (w : SectorWrite) (ws : List SectorWrite)
    → (write_offset w == u64 (c.offset + length c.bytes)) ≡ true
    → build_from c (w ∷ ws) ≡ build_from (record c { bytes = c.bytes ++ w.bytes }) ws
unfolding build_from
build_from-merged c w ws t = rw (t, build_from)

build_from-apart :
    (c : PositionedWrite) (w : SectorWrite) (ws : List SectorWrite)
    → (write_offset w == u64 (c.offset + length c.bytes)) ≡ false
    → build_from c (w ∷ ws) ≡ c ∷ build_from (at_offset w) ws
unfolding build_from
build_from-apart c w ws t = rw (t, build_from)

build_from-put_sectors :
    (c : PositionedWrite) (ws : List SectorWrite) (image : Contents)
    → c.offset + length c.bytes < 2 ^ 64
    → All InRange ws
    → put_all (build_from c ws) image ≡ put_sectors ws (put c image)
unfolding build_from
build_from-put_sectors c [] image h a = refl
build_from-put_sectors c (w ∷ ws) image h (r, a) =
    elim (Bool-cases (write_offset w == u64 (c.offset + length c.bytes))) [
      | inl t ↦
          let e : write_offset w ≡ c.offset + length c.bytes =
            (==_iff (write_offset w) (u64 (c.offset + length c.bytes))).0 t
            ∙ u64_small (c.offset + length c.bytes) h in
          let merged : PositionedWrite = record c { bytes = c.bytes ++ w.bytes } in
          ap (λ ps. put_all ps image) (build_from-merged c w ws t)
          ∙ build_from-put_sectors merged ws image
              (omega (arith, length-append c.bytes w.bytes, e, InRange-end w r)) a
          ∙ ap (put_sectors ws) (
              put-append c.offset c.bytes w.bytes image
              ∙ ap (λ o. put (record { offset = o; bytes = w.bytes }) (put c image)) (sym e))
      | inr t ↦
          ap (λ ps. put_all ps image) (build_from-apart c w ws t)
          ∙ build_from-put_sectors (at_offset w) ws (put c image) (InRange-end w r) a
    ]

-- Where no write of a plan ends beyond 2^64 - 1 bytes, the writes that `BuildPositionedWrites`
-- returns leave the same contents of any image as each sector written by itself at its offset.
pub build_positioned_writes-put_sectors :
    (p : WriterPlan) (ps : List PositionedWrite) (image : Contents)
    → All InRange p.writes
    → build_positioned_writes p ≡ ok ps
    → put_all ps image ≡ put_sectors p.writes image
unfolding build_positioned_writes
build_positioned_writes-put_sectors p ps image a h =
    let (h1, h2) = >>-eq-ok (validate_plan p) _ h in
    let same : build_all p.writes ≡ ps = cc in
    ap (λ qs. put_all qs image) (sym same) ∙ of_writes p.writes a
  where
    of_writes :
        (ws : List SectorWrite)
        → All InRange ws
        → put_all (build_all ws) image ≡ put_sectors ws image
    of_writes [] b = refl
    of_writes (w ∷ ws) (r, b) = build_from-put_sectors (at_offset w) ws image (InRange-end w r) b
