-- ===== src/Crc16/Tests.antt =====
-- The checksum on concrete buffers.
use rp2040_wiznet_eaa_s_aws.Prelude.{ℕ, ◌/◌, ◌%◌, ◌≡◌, ◌≢◌, refl, List, [], ◌∷◌, ◌++◌, arith}
use rp2040_wiznet_eaa_s_aws.Crc16.{crc16_ccitt}
use rp2040_wiznet_eaa_s_aws.Crc16.Table.{crc16_ccitt_tab}
use rp2040_wiznet_eaa_s_aws.Crc16.Bitwise.{bitwise_from, crc16_ccitt-bitwise}
use rp2040_wiznet_eaa_s_aws.Crc16.Detect.{crc16_ccitt-residue, crc16_ccitt_burst}

abbrev four_bytes : List ℕ
four_bytes = 1 ∷ 2 ∷ 3 ∷ 4 ∷ []

crc16_ccitt-four_bytes : crc16_ccitt four_bytes ≡ 0x0d03
unfolding crc16_ccitt crc16_ccitt_tab
crc16_ccitt-four_bytes = refl

crc16_ccitt-bitwise_example : crc16_ccitt four_bytes ≡ bitwise_from 0 four_bytes
crc16_ccitt-bitwise_example =
    crc16_ccitt-bitwise four_bytes (omega arith, (omega arith, (omega arith, (omega arith, tt))))

crc16_ccitt-residue_example :
    crc16_ccitt (four_bytes ++ crc16_ccitt four_bytes / 256 ∷ crc16_ccitt four_bytes % 256 ∷ []) ≡ 0
crc16_ccitt-residue_example =
    crc16_ccitt-residue four_bytes (omega arith, (omega arith, (omega arith, (omega arith, tt))))

crc16_ccitt_burst_example :
    crc16_ccitt ((9 ∷ []) ++ 1 ∷ 2 ∷ 7 ∷ []) ≢ crc16_ccitt ((9 ∷ []) ++ 1 ∷ 3 ∷ 7 ∷ [])
crc16_ccitt_burst_example =
    crc16_ccitt_burst (9 ∷ []) (7 ∷ []) 1 2 1 3 (omega arith, tt) (omega arith, tt)
      (omega arith, omega arith) (omega arith, omega arith) (λ e. omega (arith, e.1))
