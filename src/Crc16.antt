-- ===== src/Crc16.antt =====
-- The checksum of a firmware image (port/device_common/crc16.h).
pub mod Table
pub mod Round
pub mod Bitwise
pub mod Detect
mod Tests
use rp2040_wiznet_eaa_s_aws.Prelude.{
  ℕ, zero, suc, ◌*◌, ◌/◌, ◌%◌, ◌^◌, bit_xor, List, [], ◌∷◌, get_or,
}
use rp2040_wiznet_eaa_s_aws.Prelude.Word.{u16}
use Table.{crc16_ccitt_tab}

-- One round of the loop: `crc << 8` is an `int`, and the assignment cuts it to 16 bits. `& 0x00FF`
-- is the remainder by 2 ^ 8.
unfoldable pub crc16_ccitt_round : ℕ → ℕ → ℕ
crc16_ccitt_round crc byte =
    u16 (bit_xor (crc * 2 ^ 8) (get_or crc16_ccitt_tab (bit_xor (crc / 2 ^ 8) byte % 2 ^ 8) 0))

-- The loop over the bytes of the buffer.
unfoldable pub crc16_ccitt_from : ℕ → List ℕ → ℕ
unfolding crc16_ccitt_round
crc16_ccitt_from crc [] = crc
crc16_ccitt_from crc (byte ∷ buf) = crc16_ccitt_from (crc16_ccitt_round crc byte) buf

unfoldable pub crc16_ccitt : List ℕ → ℕ
unfolding crc16_ccitt_from
crc16_ccitt buf = crc16_ccitt_from 0 buf
