-- ===== src/Store/ReadState.antt =====
-- `readState` of a file that holds a header, a checkpoint and a journal, one behind the other.
use disc_rescue.Prelude.{
  ℕ, ◌+◌, ◌-◌, ◌^◌, ◌≤◌, ◌≢◌, ◌≡◌, refl, ap, ◌∙◌, true, false, not, ◌||◌, ◌&&◌, List, ◌++◌, arith,
  length, length-append, take, take-append, take_within, take_all, slice-take, ==_iff, drop,
  drop-append, drop-drop, ltb, ◌==◌, some, ok, ◌>>=◌, guard-eq-ok,
}
use disc_rescue.Prelude.Bytes.{le_value, slice}
use disc_rescue.Mapfile.Extent.{bytes_eq}
use disc_rescue.Mapfile.Codec.{
  short_buffer, bad_magic, bad_version, bad_header_length, bad_payload_length, wrong_length,
  small_limit,
}
use disc_rescue.Mapfile.Header.{
  Header, header_magic, header_length, format_version, unmarshal_header,
}
use disc_rescue.Mapfile.Checkpoint.{
  checkpoint_magic, checkpoint_fixed_payload_bytes, unmarshal_checkpoint,
  unmarshal_checkpoint_with_limits,
}
use disc_rescue.Mapfile.Replay.{Checkpoint, replay_journal_reader_within_capacity}
use disc_rescue.Mapfile.Replay.Reader.{ending}
use disc_rescue.Store.Disk.{read_at_exact}
use disc_rescue.Store.{Geometry, coded}
use disc_rescue.Store.Session.{read_state}

not_ltb→le : (a b : ℕ) → not (ltb a b) ≡ true → b ≤ a
not_ltb→le a b h = ground (arith, h)

unmarshal_header-own_length :
    (bs : List ℕ) (h : Header) → unmarshal_header bs ≡ ok h → le_value (slice 6 8 bs) ≡ 135
unfolding unmarshal_header
unmarshal_header-own_length bs h e =
    let (_, e1) = guard-eq-ok (not (ltb (length bs) header_length)) short_buffer _ e in
    let (_, e2) = guard-eq-ok (bytes_eq (slice 0 4 bs) header_magic) bad_magic _ e1 in
    let (_, e3) = guard-eq-ok (le_value (slice 4 6 bs) == format_version) bad_version _ e2 in
    let (t, _) = guard-eq-ok (le_value (slice 6 8 bs) == header_length) bad_header_length _ e3 in
    (==_iff (le_value (slice 6 8 bs)) 135).0 t

unmarshal_checkpoint-declared :
    (bs : List ℕ) (c : Checkpoint)
    → unmarshal_checkpoint bs ≡ ok c
    → (length bs ≡ 14 + le_value (slice 6 10 bs))
      × (le_value (slice 6 10 bs) ≤ 2 ^ 26)
      × (26 ≤ length bs)
unfolding unmarshal_checkpoint unmarshal_checkpoint_with_limits
unmarshal_checkpoint-declared bs c e =
    let declared = le_value (slice 6 10 bs) in
    let (_, e1) = guard-eq-ok (not (ltb (2 ^ 26) checkpoint_fixed_payload_bytes)) small_limit _ e in
    let (l, e2) = guard-eq-ok (not (ltb (length bs) 26)) short_buffer _ e1 in
    let (_, e3) = guard-eq-ok (bytes_eq (slice 0 4 bs) checkpoint_magic) bad_magic _ e2 in
    let (_, e4) = guard-eq-ok (le_value (slice 4 6 bs) == format_version) bad_version _ e3 in
    let (_, e5) =
      guard-eq-ok (not (ltb declared checkpoint_fixed_payload_bytes)) bad_payload_length _ e4 in
    let (t, e6) = guard-eq-ok (not (ltb (2 ^ 26) declared)) bad_payload_length _ e5 in
    let (u, _) = guard-eq-ok (length bs == 14 + declared) wrong_length _ e6 in
    (
      (==_iff (length bs) (14 + declared)).0 u,
      not_ltb→le (2 ^ 26) declared t,
      not_ltb→le (length bs) 26 l,
    )

read_at_exact-ok :
    (offset n : ℕ) (bs part : List ℕ)
    → offset + n ≤ length bs
    → slice offset (offset + n) bs ≡ part
    → read_at_exact offset n bs ≡ ok part
unfolding read_at_exact
read_at_exact-ok offset n bs part h e =
    let f : ltb (length bs) (offset + n) ≡ false = ground arith in rw (f, e)

-- The steps of `readState`, with what each of them reads.
record Layout (bs : List ℕ) (h : Header) (c : Checkpoint) (js : List ℕ) : Type 0 where
  front : List ℕ
  header_bytes : List ℕ
  checkpoint_prefix : List ℕ
  checkpoint_bytes : List ℕ
  long : 8 ≤ length bs
  read_prefix : read_at_exact 0 8 bs ≡ ok front
  own_length : le_value (slice 6 8 front) ≡ 135
  read_header : read_at_exact 0 135 bs ≡ ok header_bytes
  header_ok : unmarshal_header header_bytes ≡ ok h
  read_checkpoint_prefix : read_at_exact 135 10 bs ≡ ok checkpoint_prefix
  payload : ℕ
  payload_declared : le_value (slice 6 10 checkpoint_prefix) ≡ payload
  whole : 14 + payload ≤ length bs - 135
  small : payload ≤ 2 ^ 26
  read_checkpoint : read_at_exact 135 (14 + payload) bs ≡ ok checkpoint_bytes
  checkpoint_ok : unmarshal_checkpoint checkpoint_bytes ≡ ok c
  journal : drop (135 + (14 + payload)) bs ≡ js

lt_false : (a b : ℕ) → b ≤ a → ltb a b ≡ false
lt_false a b h = ground arith

-- The geometry is the one that the header names, and it names one.
pub record Fits (h : Header) (g : Geometry) : Type 0 where
  pub sized : g.logical_sector_size ≢ 0
  pub counted : g.expected_sector_count ≢ 0
  pub same_size : h.logical_sector_size ≡ g.logical_sector_size
  pub same_count : h.expected_sector_count ≡ g.expected_sector_count

geometry_given :
    (h : Header) (g : Geometry)
    → Fits h g
    → not (g.logical_sector_size == 0 || g.expected_sector_count == 0) ≡ true
geometry_given h g f = ground (arith, f.sized, f.counted)

geometry_matches :
    (h : Header) (g : Geometry)
    → Fits h g
    → (h.logical_sector_size == g.logical_sector_size
        && h.expected_sector_count == g.expected_sector_count)
      ≡ true
geometry_matches h g f = ground (arith, f.same_size, f.same_count)

read_state-Layout :
    (bs : List ℕ) (h : Header) (c : Checkpoint) (js : List ℕ) (g : Geometry)
    → Layout bs h c js
    → Fits h g
    → read_state bs g ≡ (do
      replayed ←
          coded (replay_journal_reader_within_capacity c (some (ending js)) g.expected_sector_count)
      ok (h, replayed))
unfolding read_state
read_state-Layout bs h c js g l f = rw (
  geometry_given h g f,
  lt_false (length bs) 8 l.long,
  l.read_prefix,
  l.own_length,
  l.read_header,
  l.header_ok,
  l.read_checkpoint_prefix,
  l.payload_declared,
  lt_false (length bs - 135) (14 + l.payload) l.whole,
  lt_false (2 ^ 26) l.payload l.small,
  l.read_checkpoint,
  l.checkpoint_ok,
  geometry_matches h g f,
  l.journal,
)

module _ (hb cb js : List ℕ) (h : Header) (c : Checkpoint) (l : length hb ≡ 135)
    (eh : unmarshal_header hb ≡ ok h) (ec : unmarshal_checkpoint cb ≡ ok c) where
  abbrev file : List ℕ
  file = hb ++ (cb ++ js)

  declared : ℕ
  declared = le_value (slice 6 10 cb)

  size : length cb ≡ 14 + declared
  unfolding declared
  size = (unmarshal_checkpoint-declared cb c ec).0

  length-file : length file ≡ 135 + (length cb + length js)
  length-file = omega (arith, l, length-append hb (cb ++ js), length-append cb js)

  behind_header : drop 135 file ≡ cb ++ js
  behind_header = drop-append 135 hb (cb ++ js) l

  behind_checkpoint : drop (135 + (14 + declared)) file ≡ js
  behind_checkpoint =
      drop-drop 135 (14 + declared) file
      ∙ ap (drop (14 + declared)) behind_header
      ∙ drop-append (14 + declared) cb js size

  in_checkpoint : (n : ℕ) → n ≤ length cb → slice 135 (135 + n) file ≡ take n cb
  in_checkpoint n le =
      let e : 135 + n - 135 ≡ n = omega arith in
      ap (λ m. take m (drop 135 file)) e ∙ ap (take n) behind_header ∙ take_within n cb js le

  file-Layout : Layout file h c js
  unfolding declared
  file-Layout =
      let (d1, d2, d3) = unmarshal_checkpoint-declared cb c ec in
      record {
        front = take 8 hb;
        header_bytes = hb;
        checkpoint_prefix = take 10 cb;
        checkpoint_bytes = cb;
        long = omega (arith, length-file, l);
        read_prefix =
            read_at_exact-ok 0 8 file (take 8 hb) (omega (arith, length-file))
              (take_within 8 hb (cb ++ js) (omega (arith, l)));
        own_length = ap le_value (slice-take 6 2 8 hb refl) ∙ unmarshal_header-own_length hb h eh;
        read_header =
            read_at_exact-ok 0 135 file hb (omega (arith, length-file))
              (take-append 135 hb (cb ++ js) l);
        header_ok = eh;
        read_checkpoint_prefix =
            read_at_exact-ok 135 10 file (take 10 cb) (omega (arith, length-file, d3))
              (in_checkpoint 10 (omega (arith, d3)));
        payload = declared;
        payload_declared = ap le_value (slice-take 6 4 10 cb refl);
        whole = omega (arith, length-file, d1);
        small = d2;
        read_checkpoint =
            read_at_exact-ok 135 (14 + declared) file cb (omega (arith, length-file, d1)) (
              in_checkpoint (14 + declared) (omega (arith, d1))
              ∙ take_all (14 + declared) cb (omega (arith, d1)));
        checkpoint_ok = ec;
        journal = behind_checkpoint;
      }

  -- Where a file is 135 bytes from which the header is read, bytes from which the checkpoint is
  -- read, and a journal, `readState` for the header's own geometry returns the header and what the
  -- journal replays to within the capacity, or the error of that replay.
  pub read_state-parts :
      (g : Geometry)
      → Fits h g
      → read_state (hb ++ (cb ++ js)) g ≡ (do
        replayed ←
            coded
              (replay_journal_reader_within_capacity c (some (ending js)) g.expected_sector_count)
        ok (h, replayed))
  read_state-parts g f = read_state-Layout file h c js g file-Layout f
