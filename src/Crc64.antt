-- ===== src/Crc64.antt =====
-- src/crc64.c: the table-driven CRC-64.
mod Table
pub mod Reference
unfoldable pub use Table.{crc64_tab}
use bytekv.Prelude.{ℕ, ◌/◌, ◌%◌, [], ◌∷◌, bit_xor, get_or}
use bytekv.Prelude.Bytes.{Bytes}

-- one round of the loop: `crc64_tab[(uint8_t)crc ^ byte] ^ (crc >> 8)`
unfoldable pub crc64_round : ℕ → ℕ → ℕ
crc64_round crc byte = bit_xor (get_or crc64_tab (bit_xor (crc % 256) byte) 0) (crc / 256)

unfoldable pub crc64 : ℕ → Bytes → ℕ
crc64 crc [] = crc
crc64 crc (byte ∷ s) = crc64 (crc64_round crc byte) s
