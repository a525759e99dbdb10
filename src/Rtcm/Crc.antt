-- ===== src/Rtcm/Crc.antt =====
-- `BaseStation::rtcm_crc24q`, in `uint32_t` arithmetic.
use gps_base_station.Prelude.{
  ℕ, zero, suc, ◌*◌, ◌%◌, ◌^◌, bit_and, bit_xor, List, [], ◌∷◌, ◌==◌, if◌then◌else◌,
}

-- One round of the inner loop.
pub crc_bit : ℕ → ℕ
crc_bit crc =
    let shifted = crc * 2 % 2 ^ 32 in
    if bit_and shifted 0x1000000 == 0 then shifted else bit_xor shifted 0x1864CFB

pub crc_bits : ℕ → ℕ → ℕ
unfolding crc_bit
crc_bits zero crc = crc
crc_bits (suc n) crc = crc_bits n (crc_bit crc)

pub crc_bytes : ℕ → List ℕ → ℕ
unfolding crc_bits
crc_bytes crc [] = crc
crc_bytes crc (byte ∷ bytes) = crc_bytes (crc_bits 8 (bit_xor crc (byte * 2 ^ 16))) bytes

unfoldable pub crc24q : List ℕ → ℕ
unfolding crc_bytes
crc24q bytes = bit_and (crc_bytes 0 bytes) 0xFFFFFF
