-- ===== src/Canbus/Crc.antt =====
-- internal/canbus/fuse.go: CRC16Fuse, the CRC-16 with the reflected polynomial 0xa001.
use wire_bonding_ultra.Prelude.{
  ℕ, zero, suc, ◌/◌, bit_and, bit_xor, List, [], ◌∷◌, ◌==◌, if◌then◌else◌,
}

abbrev pub fuse_crc16_poly : ℕ
fuse_crc16_poly = 0xa001

-- One turn of the inner loop.
unfoldable pub crc_bit : ℕ → ℕ
crc_bit crc = if bit_and crc 0x0001 == 0 then crc / 2 else bit_xor (crc / 2) fuse_crc16_poly

unfoldable pub crc_bits : ℕ → ℕ → ℕ
unfolding crc_bit
crc_bits zero crc = crc
crc_bits (suc n) crc = crc_bits n (crc_bit crc)

unfoldable pub crc_bytes : ℕ → List ℕ → ℕ
unfolding crc_bits
crc_bytes crc [] = crc
crc_bytes crc (b ∷ bytes) = crc_bytes (crc_bits 8 (bit_xor crc b)) bytes

unfoldable pub crc16_fuse : List ℕ → ℕ
unfolding crc_bytes
crc16_fuse bytes = crc_bytes 0xffff bytes
