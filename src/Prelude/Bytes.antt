-- ===== src/Prelude/Bytes.antt =====
-- Byte slices: Go's `encoding/binary` in little-endian order, slicing, and `hash/crc32` with the
-- Castagnoli table.
use Prim.Native.Nat.{ℕ, zero, suc, ◌+◌, ◌-◌, ◌*◌, ◌/◌, ◌%◌, ◌^◌, ◌<◌, bit_xor}
use mathlib.Core.Path.{◌≡◌, refl}
use mathlib.Core.List.{List, [], ◌∷◌}
use native.Mathlib.Omega.{arith}
use disc_rescue.Prelude.Tests.{◌==◌, if◌then◌else◌}
use disc_rescue.Prelude.Lists.{take, drop}

-- `binary.LittleEndian.PutUint16/32/64` write `le_bytes 2/4/8`.
abbrev pub le_bytes : ℕ → ℕ → List ℕ
le_bytes zero n = []
le_bytes (suc w) n = (n % 256) ∷ le_bytes w (n / 256)

-- `binary.LittleEndian.Uint16/32/64`.
abbrev pub le_value : List ℕ → ℕ
le_value [] = 0
le_value (b ∷ bs) = b + 256 * le_value bs

-- `bytes[from:to]`, for bounds inside the slice.
abbrev pub slice : ℕ → ℕ → List ℕ → List ℕ
slice from to bytes = take (to - from) (drop from bytes)

-- One bit of a reflected CRC with the Castagnoli polynomial.
crc_bit : ℕ → ℕ
crc_bit c = if c % 2 == 1 then bit_xor (c / 2) 0x82F63B78 else c / 2

crc_bits : ℕ → ℕ → ℕ
crc_bits zero c = c
crc_bits (suc n) c = crc_bits n (crc_bit c)

crc_update : ℕ → List ℕ → ℕ
crc_update c [] = c
crc_update c (b ∷ bs) = crc_update (crc_bits 8 (bit_xor c b)) bs

-- `crc32.Checksum(bytes, crc32cTable)`, a uint32.
unfoldable pub crc32c : List ℕ → ℕ
unfolding crc_bit crc_bits crc_update
crc32c bytes = bit_xor (crc_update 0xFFFFFFFF bytes) 0xFFFFFFFF % 2 ^ 32

-- The check value of CRC-32C: the checksum of "123456789".
crc32c_check :
    crc32c (0x31 ∷ 0x32 ∷ 0x33 ∷ 0x34 ∷ 0x35 ∷ 0x36 ∷ 0x37 ∷ 0x38 ∷ 0x39 ∷ []) ≡ 0xE3069283
unfolding crc32c
crc32c_check = refl

pub crc32c-lt : (bytes : List ℕ) → crc32c bytes < 2 ^ 32
unfolding crc32c
crc32c-lt bytes = omega arith

pub le_value-le_bytes_two : (n : ℕ) → n < 2 ^ 16 → le_value (le_bytes 2 n) ≡ n
le_value-le_bytes_two n h = omega arith

pub le_value-le_bytes_four : (n : ℕ) → n < 2 ^ 32 → le_value (le_bytes 4 n) ≡ n
le_value-le_bytes_four n h = omega arith

pub le_value-le_bytes_eight : (n : ℕ) → n < 2 ^ 64 → le_value (le_bytes 8 n) ≡ n
le_value-le_bytes_eight n h = omega arith
