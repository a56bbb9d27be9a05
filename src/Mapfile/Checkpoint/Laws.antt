-- ===== src/Mapfile/Checkpoint/Laws.antt =====
-- A checkpoint is read back from its bytes.
use disc_rescue.Prelude.{
  ℕ, ◌+◌, ◌-◌, ◌*◌, ◌^◌, ◌≤◌, ◌<◌, ◌≡◌, refl, sym, ap, ◌∙◌, Bool, true, false, not, List, [], ◌∷◌,
  ◌++◌, arith, ltb, ◌==◌, length, take, length-append, take-append, drop-append, All, ok, u64, ◌&&◌,
}
use disc_rescue.Prelude.Bytes.{
  le_bytes, le_value, slice, crc32c, crc32c-lt, le_value-le_bytes_four, le_value-le_bytes_eight,
}
use disc_rescue.Mapfile.Extent.{Extent, bytes_eq, validate_extent_set}
use disc_rescue.Mapfile.Valid.{stop, Between, Between→validate_extent_set}
use disc_rescue.Mapfile.Codec.Laws.{IsTyped, unmarshal_extent-marshal_extent}
use disc_rescue.Mapfile.Replay.{Checkpoint}
use disc_rescue.Mapfile.Header.{format_version}
use disc_rescue.Mapfile.Checkpoint.{
  checkpoint_magic, marshal_extents, payload_length, checkpoint_body, marshal_checkpoint,
  read_extents, unmarshal_checkpoint_with_limits, unmarshal_checkpoint,
}

-- The extents are written one after the other, and read back by their number.
pub read_extents-marshal_extents :
    (lo hi : ℕ) (es : List Extent)
    → Between lo hi es
    → All IsTyped es
    → (bs : List ℕ) × (marshal_extents es ≡ ok bs)
      × (length bs ≡ length es * 39)
      × (read_extents (length es) bs ≡ ok es)
unfolding marshal_extents read_extents
read_extents-marshal_extents lo hi [] b t = ([], refl, refl, refl)
read_extents-marshal_extents lo hi (e ∷ es) (v, _, _, b) (t, ts) =
    let (xs, h1, h2, h3) = unmarshal_extent-marshal_extent e t v in
    let (ys, k1, k2, k3) = read_extents-marshal_extents (stop e) hi es b ts in
    let long : ltb (length (xs ++ ys)) 39 ≡ false = ground (arith, length-append xs ys) in
    (
      xs ++ ys,
      rw (h1, k1),
      omega (arith, length-append xs ys),
      rw (long, take-append 39 xs ys h2, drop-append 39 xs ys h2, h3, k3),
    )

record Fits (c : Checkpoint) : Type 0 where
  few : length c.extents ≤ 2 ^ 20
  sequence_fits : c.last_sequence < 2 ^ 64

module _ (c : Checkpoint) (xs : List ℕ) (f : Fits c) (l : length xs ≡ length c.extents * 39) where
  length-checkpoint_body : length (checkpoint_body c xs) ≡ 22 + length xs
  unfolding checkpoint_body
  length-checkpoint_body = omega arith

  abbrev whole : List ℕ
  whole = checkpoint_body c xs ++ le_bytes 4 (crc32c (checkpoint_body c xs))

  length-whole : length whole ≡ 26 + length xs
  length-whole = omega (
    arith,
    length-checkpoint_body,
    length-append (checkpoint_body c xs) (le_bytes 4 (crc32c (checkpoint_body c xs))),
  )

  body_end : length whole - 4 ≡ length (checkpoint_body c xs)
  body_end = omega (arith, length-whole, length-checkpoint_body)

  whole_body : take (length whole - 4) whole ≡ checkpoint_body c xs
  whole_body = take-append (length whole - 4) (checkpoint_body c xs) _ (sym body_end)

  whole_checksum :
      le_value (slice (length whole - 4) (length whole) whole) ≡ crc32c (checkpoint_body c xs)
  whole_checksum =
      let crc = le_bytes 4 (crc32c (checkpoint_body c xs)) in
      let four : length whole - (length whole - 4) ≡ 4 = omega (arith, length-whole) in
      ap (λ z. le_value (take (length whole - (length whole - 4)) z))
        (drop-append (length whole - 4) (checkpoint_body c xs) crc (sym body_end))
      ∙ ap (λ k. le_value (take k crc)) four
      ∙ le_value-le_bytes_four _ (crc32c-lt (checkpoint_body c xs))

  declared_magic : slice 0 4 whole ≡ checkpoint_magic
  unfolding checkpoint_body
  declared_magic = refl

  declared_version : le_value (slice 4 6 whole) ≡ format_version
  unfolding checkpoint_body
  declared_version = refl

  declared_payload : le_value (slice 6 10 whole) ≡ payload_length c
  unfolding checkpoint_body
  declared_payload = le_value-le_bytes_four (payload_length c) (omega (arith, f.few))

  declared_sequence : le_value (slice 10 18 whole) ≡ c.last_sequence
  unfolding checkpoint_body
  declared_sequence = le_value-le_bytes_eight c.last_sequence f.sequence_fits

  declared_count : le_value (slice 18 22 whole) ≡ length c.extents
  unfolding checkpoint_body
  declared_count = le_value-le_bytes_four (length c.extents) (omega (arith, f.few))

  declared_extents : slice 22 (length whole - 4) whole ≡ xs
  unfolding checkpoint_body
  declared_extents =
      take-append (length whole - 4 - 22) xs _ (omega (arith, body_end, length-checkpoint_body))

lt_false : (a b : ℕ) → b ≤ a → ltb a b ≡ false
lt_false a b h = ground arith

eq_same : (a b : ℕ) → a ≡ b → (a == b) ≡ true
eq_same a b h = ground arith

-- What the checks of `UnmarshalCheckpoint` ask for.
record Reads (bs : List ℕ) (c : Checkpoint) (xs : List ℕ) : Type 0 where
  size : length bs ≡ 26 + length c.extents * 39
  magic : slice 0 4 bs ≡ checkpoint_magic
  version : le_value (slice 4 6 bs) ≡ format_version
  declared : le_value (slice 6 10 bs) ≡ payload_length c
  checksum : le_value (slice (length bs - 4) (length bs) bs) ≡ crc32c (take (length bs - 4) bs)
  count : le_value (slice 18 22 bs) ≡ length c.extents
  payload : slice 22 (length bs - 4) bs ≡ xs
  sequence : le_value (slice 10 18 bs) ≡ c.last_sequence

and_false : (b : Bool) → (b && false) ≡ false
and_false b = ground arith

u64_payload : (n : ℕ) → n ≤ 2 ^ 20 → u64 (12 + u64 (n * 39)) ≡ 12 + n * 39
u64_payload n h = omega arith

unmarshal_checkpoint-Reads :
    (bs : List ℕ) (c : Checkpoint) (xs : List ℕ)
    → Reads bs c xs
    → length c.extents ≤ 2 ^ 20
    → read_extents (length c.extents) xs ≡ ok c.extents
    → validate_extent_set c.extents ≡ ok tt
    → unmarshal_checkpoint bs ≡ ok c
unfolding unmarshal_checkpoint unmarshal_checkpoint_with_limits bytes_eq
unmarshal_checkpoint-Reads bs c xs r few reads valid =
    let n = length c.extents in
    rw (
      lt_false (length bs) 26 (omega (arith, r.size)),
      r.magic,
      r.version,
      r.declared,
      lt_false (payload_length c) 12 (omega arith),
      lt_false (2 ^ 26) (payload_length c) (omega arith),
      eq_same (length bs) (14 + payload_length c) (omega (arith, r.size)),
      r.checksum,
      eq_same (crc32c (take (length bs - 4) bs)) _ refl,
      r.count,
      u64_payload n few,
      lt_false (12 + n * 39) 12 (omega arith),
      and_false (not (n == 0)),
      eq_same (12 + n * 39) (12 + n * 39) refl,
      lt_false (2 ^ 20) n few,
      lt_false (2 ^ 63 - 1) n (omega arith),
      r.payload,
      reads,
      valid,
      r.sequence,
    )

-- A checkpoint of at most 2^20 valid extents in order, whose fields fit their Go types, is written
-- as bytes from which `UnmarshalCheckpoint` reads it back.
pub unmarshal_checkpoint-marshal_checkpoint :
    (lo hi : ℕ) (c : Checkpoint)
    → Between lo hi c.extents
    → All IsTyped c.extents
    → length c.extents ≤ 2 ^ 20
    → c.last_sequence < 2 ^ 64
    → (bs : List ℕ) × (marshal_checkpoint c ≡ ok bs) × (unmarshal_checkpoint bs ≡ ok c)
unfolding marshal_checkpoint unmarshal_checkpoint unmarshal_checkpoint_with_limits bytes_eq
unmarshal_checkpoint-marshal_checkpoint lo hi c b t few fits =
    let f : Fits c = record { few = few; sequence_fits = fits } in
    let (xs, h, l, r) = read_extents-marshal_extents lo hi c.extents b t in
    let n = length c.extents in
    let valid = Between→validate_extent_set lo hi c.extents b in
    (
      whole c xs f l,
      rw (
        valid,
        lt_false (2 ^ 20) n few,
        lt_false (2 ^ 26) (payload_length c) (omega arith),
        lt_false (2 ^ 32 - 1) (payload_length c) (omega arith),
        h,
      ),
      unmarshal_checkpoint-Reads (whole c xs f l) c xs
          (record {
            size = length-whole c xs f l ∙ ap (λ k. 26 + k) l;
            magic = declared_magic c xs f l;
            version = declared_version c xs f l;
            declared = declared_payload c xs f l;
            checksum = whole_checksum c xs f l ∙ ap crc32c (sym (whole_body c xs f l));
            count = declared_count c xs f l;
            payload = declared_extents c xs f l;
            sequence = declared_sequence c xs f l;
          })
          few r valid,
    )
