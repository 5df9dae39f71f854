-- ===== src/Crc16/Round.antt =====
-- One round of the checksum of port/device_common/crc16.h, byte by byte of the register.
use rp2040_wiznet_eaa_s_aws.Prelude.{
  ℕ, ◌*◌, ◌/◌, ◌%◌, ◌<◌, ◌≡◌, bit_xor, List, [], ◌∷◌, ◌++◌, refl, get_or, All, arith,
}
use rp2040_wiznet_eaa_s_aws.Prelude.Xor.{bit_xor_fields, bit_xor-lt, bit_xor-zero, zero-bit_xor}
use rp2040_wiznet_eaa_s_aws.Crc16.Table.{crc16_ccitt_tab, tab-lt}
use rp2040_wiznet_eaa_s_aws.Crc16.{crc16_ccitt_round, crc16_ccitt_from}

-- The entry of the table that a round adds.
abbrev pub entry : ℕ → ℕ
entry i = get_or crc16_ccitt_tab i 0

abbrev pub index : ℕ → ℕ → ℕ
index crc byte = bit_xor (crc / 256) byte

abbrev pub IsByte : ℕ → Type 0
IsByte b = b < 256

pub index-lt : (crc byte : ℕ) → crc < 65536 → byte < 256 → index crc byte < 256
index-lt crc byte h k = bit_xor-lt 8 (crc / 256) byte (omega arith) (omega arith)

-- The low byte of the register moves up, and the high byte picks an entry.
pub round_lem :
    (crc byte : ℕ)
    → crc < 65536
    → byte < 256
    → crc16_ccitt_round crc byte ≡ bit_xor (crc % 256 * 256) (entry (index crc byte))
unfolding crc16_ccitt_round
round_lem crc byte h k =
    let small : index crc byte < 256 = index-lt crc byte h k in
    let entry_small : entry (index crc byte) < 65536 = tab-lt (index crc byte) small in
    let low : bit_xor (crc % 256 * 256) (entry (index crc byte)) < 65536 =
      bit_xor-lt 16 (crc % 256 * 256) (entry (index crc byte)) (omega arith) (omega arith) in
    ground (
      arith,
      bit_xor_fields 16 (crc / 256) 0 (crc % 256 * 256) (entry (index crc byte)),
      bit_xor-zero (crc / 256),
    )

pub round-lt : (crc byte : ℕ) → crc < 65536 → byte < 256 → crc16_ccitt_round crc byte < 65536
unfolding crc16_ccitt_round
round-lt crc byte h k = omega arith

-- The two bytes of the register after a round.
pub round_bytes :
    (crc byte : ℕ)
    → crc < 65536
    → byte < 256
    → (crc16_ccitt_round crc byte % 256 ≡ entry (index crc byte) % 256)
      × (crc16_ccitt_round crc byte / 256 ≡ bit_xor (crc % 256) (entry (index crc byte) / 256))
round_bytes crc byte h k =
    let t : ℕ = entry (index crc byte) in
    let t_small : t < 65536 = tab-lt (index crc byte) (index-lt crc byte h k) in
    let low : bit_xor (crc % 256) (t / 256) < 256 =
      bit_xor-lt 8 (crc % 256) (t / 256) (omega arith) (omega arith) in
    ground (
      arith,
      round_lem crc byte h k,
      bit_xor_fields 8 (crc % 256) (t / 256) 0 (t % 256),
      zero-bit_xor (t % 256),
    )

pub crc16_ccitt_from-append :
    (crc : ℕ) (xs ys : List ℕ)
    → crc16_ccitt_from crc (xs ++ ys) ≡ crc16_ccitt_from (crc16_ccitt_from crc xs) ys
unfolding crc16_ccitt_from
crc16_ccitt_from-append crc [] ys = refl
crc16_ccitt_from-append crc (x ∷ xs) ys = crc16_ccitt_from-append (crc16_ccitt_round crc x) xs ys

pub crc16_ccitt_from-lt :
    (crc : ℕ) (xs : List ℕ) → crc < 65536 → All IsByte xs → crc16_ccitt_from crc xs < 65536
unfolding crc16_ccitt_from
crc16_ccitt_from-lt crc [] h k = h
crc16_ccitt_from-lt crc (x ∷ xs) h k =
    crc16_ccitt_from-lt (crc16_ccitt_round crc x) xs (round-lt crc x h k.0) k.1
