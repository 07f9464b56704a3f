-- ===== src/Opc/Crc.antt =====
-- `OPC_calcCRC` of Firmware/src/opc_n3.c: the 16-bit checksum of a histogram.
pub mod Detects
use air_quality_sensor_node.Base.{
  ℕ, zero, suc, ◌/◌, ◌%◌, ◌^◌, bit_xor, [], ◌∷◌, Bytes, ◌==◌, if◌then◌else◌, take,
}

-- `PLYNOMIAL` and `InitCRCval`
abbrev pub polynomial : ℕ
polynomial = 0xA001

abbrev pub init_crc_val : ℕ
init_crc_val = 0xFFFF

-- One round of the loop over the bits of a byte.
unfoldable pub crc_bit : ℕ → ℕ
crc_bit crc = if crc % 2 == 1 then bit_xor (crc / 2) polynomial else crc / 2

-- The rounds that are left, from `bit = 8 - n` on.
unfoldable pub crc_bits : ℕ → ℕ → ℕ
crc_bits zero crc = crc
crc_bits (suc n) crc = crc_bits n (crc_bit crc)

-- One round of the loop over the bytes.
unfoldable pub crc_byte : ℕ → ℕ → ℕ
crc_byte crc b = crc_bits 8 (bit_xor crc b)

unfoldable pub crc_from : ℕ → Bytes → ℕ
crc_from crc [] = crc
crc_from crc (b ∷ bs) = crc_from (crc_byte crc b) bs

-- `number_of_bytes` and the loop's counter are of type `uint8_t`: the loop reads the first
-- `number_of_bytes % 2 ^ 8` bytes. The caller gives an array at least that long.
unfoldable pub calc_crc : Bytes → ℕ → ℕ
unfolding crc_from crc_byte crc_bits crc_bit
calc_crc bytes number_of_bytes = crc_from init_crc_val (take (number_of_bytes % 2 ^ 8) bytes)
