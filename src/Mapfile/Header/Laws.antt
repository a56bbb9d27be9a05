-- ===== src/Mapfile/Header/Laws.antt =====
-- A header is read back from its bytes, whatever follows them.
use disc_rescue.Prelude.{
  ℕ, ◌+◌, ◌-◌, ◌^◌, ◌<◌, ◌≡◌, refl, sym, ap, ◌∙◌, Bool, true, false, List, ◌∷◌, ◌++◌, append_assoc,
  arith, ◌==◌, length, take, drop, length-append, take-append, drop-append, drop-drop, length-take,
  ltb, ok, err,
}
use disc_rescue.Prelude.Bytes.{
  le_bytes, le_value, slice, crc32c, crc32c-lt, le_value-le_bytes_two, le_value-le_bytes_four,
  le_value-le_bytes_eight,
}
use disc_rescue.Mapfile.Extent.{bytes_eq}
use disc_rescue.Mapfile.Codec.{byte_at, short_buffer}
use disc_rescue.Mapfile.Header.{
  Header, header_length, header_magic, format_version, validate_header, flag_byte, header_body,
  marshal_header, header_of_bytes, unmarshal_header,
}

-- The fields have the widths of their Go types.
pub record IsTyped (h : Header) : Type 0 where
  pub size_fits : h.logical_sector_size < 2 ^ 32
  pub count_fits : h.expected_sector_count < 2 ^ 64
  pub format_fits : h.output_format < 2 ^ 16
  pub version_fits : h.identity_algorithm_version < 2 ^ 16
  pub layout_length : length h.layout_sha256 ≡ 32
  pub quick_length : length h.quick_content_id ≡ 16
  pub capture_length : length h.capture_id ≡ 16
  pub catalog_length : length h.catalog_record_id ≡ 16
  pub job_length : length h.job_id ≡ 16
  pub creation_fits : h.creation_unix_nano < 2 ^ 64

first_byte : (b : Bool) (ys : List ℕ) → (le_value (take 1 (flag_byte b ∷ ys)) == 1) ≡ b
first_byte true ys = refl
first_byte false ys = refl

-- A flag, from where it stands.
flag_at :
    (n : ℕ) (b : Bool) (bs ys : List ℕ) → drop n bs ≡ flag_byte b ∷ ys → (byte_at n bs == 1) ≡ b
flag_at n b bs ys d =
    let one : n + 1 - n ≡ 1 = omega arith in
    ap (λ k. le_value (take k (drop n bs)) == 1) one
    ∙ ap (λ z. le_value (take 1 z) == 1) d
    ∙ first_byte b ys

-- One field of known length, and what comes after it, from where the field starts.
field_at :
    (start stop size : ℕ) (bs xs ys : List ℕ)
    → drop start bs ≡ xs ++ ys
    → length xs ≡ size
    → stop - start ≡ size
    → slice start stop bs ≡ xs
field_at start stop size bs xs ys d h e =
    ap (λ k. take k (drop start bs)) e ∙ ap (take size) d ∙ take-append size xs ys h

after_field :
    (start size : ℕ) (bs xs ys : List ℕ)
    → drop start bs ≡ xs ++ ys
    → length xs ≡ size
    → drop (start + size) bs ≡ ys
after_field start size bs xs ys d h =
    drop-drop start size bs ∙ ap (drop size) d ∙ drop-append size xs ys h

module _ (h : Header) (t : IsTyped h) (rest : List ℕ) where
  abbrev closing : List ℕ
  closing = le_bytes 8 h.creation_unix_nano ++ (flag_byte h.clean_shutdown ∷ rest)

  abbrev from_catalog : List ℕ
  from_catalog = h.catalog_record_id ++ (h.job_id ++ closing)

  abbrev from_quick : List ℕ
  from_quick =
      h.quick_content_id ++ (h.capture_id ++ (flag_byte h.catalog_record_id_present ∷ from_catalog))

  abbrev fixed : List ℕ
  fixed =
      header_magic
      ++ (le_bytes 2 format_version
          ++ (le_bytes 2 header_length
              ++ (le_bytes 4 h.logical_sector_size
                  ++ (le_bytes 8 h.expected_sector_count
                      ++ (le_bytes 2 h.output_format
                          ++ (le_bytes 2 h.identity_algorithm_version
                              ++ (h.layout_sha256
                                  ++ (flag_byte h.quick_content_id_present ∷ from_quick))))))))

  regroup : header_body h ++ rest ≡ fixed
  unfolding header_body
  regroup = simp (append_assoc)

  at_flag : drop 56 fixed ≡ flag_byte h.quick_content_id_present ∷ from_quick
  at_flag = after_field 24 32 fixed h.layout_sha256 _ refl t.layout_length

  at_quick : drop 57 fixed ≡ from_quick
  at_quick = drop-drop 56 1 fixed ∙ ap (drop 1) at_flag

  at_capture :
      drop 73 fixed ≡ h.capture_id ++ (flag_byte h.catalog_record_id_present ∷ from_catalog)
  at_capture = after_field 57 16 fixed h.quick_content_id _ at_quick t.quick_length

  at_second_flag : drop 89 fixed ≡ flag_byte h.catalog_record_id_present ∷ from_catalog
  at_second_flag = after_field 73 16 fixed h.capture_id _ at_capture t.capture_length

  at_catalog : drop 90 fixed ≡ from_catalog
  at_catalog = drop-drop 89 1 fixed ∙ ap (drop 1) at_second_flag

  at_job : drop 106 fixed ≡ h.job_id ++ closing
  at_job = after_field 90 16 fixed h.catalog_record_id _ at_catalog t.catalog_length

  at_closing : drop 122 fixed ≡ closing
  at_closing = after_field 106 16 fixed h.job_id _ at_job t.job_length

  at_last_flag : drop 130 fixed ≡ flag_byte h.clean_shutdown ∷ rest
  at_last_flag = drop-drop 122 8 fixed ∙ ap (drop 8) at_closing

  header_of_bytes-fixed : header_of_bytes fixed ≡ h
  unfolding header_of_bytes
  header_of_bytes-fixed = λ i. record {
    logical_sector_size = le_value-le_bytes_four h.logical_sector_size t.size_fits i;
    expected_sector_count = le_value-le_bytes_eight h.expected_sector_count t.count_fits i;
    output_format = le_value-le_bytes_two h.output_format t.format_fits i;
    identity_algorithm_version =
        le_value-le_bytes_two h.identity_algorithm_version t.version_fits i;
    layout_sha256 = field_at 24 56 32 fixed h.layout_sha256 _ refl t.layout_length refl i;
    quick_content_id_present = flag_at 56 h.quick_content_id_present fixed _ at_flag i;
    quick_content_id = field_at 57 73 16 fixed h.quick_content_id _ at_quick t.quick_length refl i;
    capture_id = field_at 73 89 16 fixed h.capture_id _ at_capture t.capture_length refl i;
    catalog_record_id_present = flag_at 89 h.catalog_record_id_present fixed _ at_second_flag i;
    catalog_record_id =
        field_at 90 106 16 fixed h.catalog_record_id _ at_catalog t.catalog_length refl i;
    job_id = field_at 106 122 16 fixed h.job_id _ at_job t.job_length refl i;
    creation_unix_nano =
        (ap (λ bs. le_value (take 8 bs)) at_closing
            ∙ le_value-le_bytes_eight h.creation_unix_nano t.creation_fits)
          i;
    clean_shutdown = flag_at 130 h.clean_shutdown fixed _ at_last_flag i;
  }

  at_end : drop 131 fixed ≡ rest
  at_end = drop-drop 130 1 fixed ∙ ap (drop 1) at_last_flag

length-header_body : (h : Header) → IsTyped h → length (header_body h) ≡ 131
unfolding header_body
length-header_body h t = omega (
  arith,
  length-append {0},
  t.layout_length,
  t.quick_length,
  t.capture_length,
  t.catalog_length,
  t.job_length,
)

-- What the checks of `UnmarshalHeader` ask for.
record Reads (bs : List ℕ) (h : Header) : Type 0 where
  long_enough : ltb (length bs) header_length ≡ false
  magic : slice 0 4 bs ≡ header_magic
  version : le_value (slice 4 6 bs) ≡ format_version
  own_length : le_value (slice 6 8 bs) ≡ header_length
  checksum : le_value (slice 131 135 bs) ≡ crc32c (take 131 bs)
  fields : header_of_bytes bs ≡ h

eq_self : (n : ℕ) → (n == n) ≡ true
eq_self n = ground arith

unmarshal_header-Reads :
    (bs : List ℕ) (h : Header) → Reads bs h → validate_header h ≡ ok tt → unmarshal_header bs ≡ ok h
unfolding unmarshal_header bytes_eq
unmarshal_header-Reads bs h r v = rw (
  r.long_enough,
  r.magic,
  r.version,
  r.own_length,
  r.checksum,
  eq_self (crc32c (take 131 bs)),
  r.fields,
  v,
)

-- The bytes of a header, the checksum included, with others behind them.
module _ (h : Header) (t : IsTyped h) (rest : List ℕ) where
  abbrev checksum_bytes : List ℕ
  checksum_bytes = le_bytes 4 (crc32c (header_body h))

  abbrev whole : List ℕ
  whole = fixed h t (checksum_bytes ++ rest)

  whole_length : ltb (length whole) header_length ≡ false
  whole_length =
      let m : length whole ≡ 131 + length (checksum_bytes ++ rest) =
        ap length (sym (regroup h t (checksum_bytes ++ rest)))
        ∙ length-append (header_body h) (checksum_bytes ++ rest)
        ∙ ap (λ k. k + length (checksum_bytes ++ rest)) (length-header_body h t) in
      let n : length (checksum_bytes ++ rest) ≡ 4 + length rest =
        length-append checksum_bytes rest in
      ground (arith, m, n)

  body_of_whole : take 131 whole ≡ header_body h
  body_of_whole =
      ap (take 131) (sym (regroup h t (checksum_bytes ++ rest)))
      ∙ take-append 131 (header_body h) (checksum_bytes ++ rest) (length-header_body h t)

  whole-Reads : Reads whole h
  whole-Reads = record {
    long_enough = whole_length;
    magic = refl;
    version = refl;
    own_length = refl;
    checksum =
        ap le_value (
          field_at 131 135 4 whole checksum_bytes rest (at_end h t (checksum_bytes ++ rest)) refl
            refl)
        ∙ le_value-le_bytes_four (crc32c (header_body h)) (crc32c-lt (header_body h))
        ∙ ap crc32c (sym body_of_whole);
    fields = header_of_bytes-fixed h t (checksum_bytes ++ rest);
  }

unmarshal_header-short : (bs : List ℕ) → length bs < 135 → unmarshal_header bs ≡ err short_buffer
unfolding unmarshal_header
unmarshal_header-short bs l =
    let e : ltb (length bs) header_length ≡ true = ground (arith, l) in rw e

-- A valid header whose fields fit their Go types is written as 135 bytes. `UnmarshalHeader` reads
-- the header back from them, whatever bytes follow, with the ids as they were even where a flag
-- says that there is none; and it refuses the first k of them, for any k below 135, as too short.
pub unmarshal_header-marshal_header :
    (h : Header) (rest : List ℕ) (k : ℕ)
    → IsTyped h
    → validate_header h ≡ ok tt
    → k < 135
    → (bs : List ℕ) × (marshal_header h ≡ ok bs)
      × (length bs ≡ 135)
      × (unmarshal_header (bs ++ rest) ≡ ok h)
      × (unmarshal_header (take k bs) ≡ err short_buffer)
unfolding marshal_header
unmarshal_header-marshal_header h rest k t v l =
    let body = header_body h in
    let crc = le_bytes 4 (crc32c body) in
    (
      body ++ crc,
      rw v,
      omega (arith, length-append body crc, length-header_body h t),
      rw (append_assoc body crc rest, regroup h t (crc ++ rest))
          (unmarshal_header-Reads (whole h t rest) h (whole-Reads h t rest) v),
      unmarshal_header-short (take k (body ++ crc)) (omega (arith, length-take k (body ++ crc))),
    )
