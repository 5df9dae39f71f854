-- ===== src/Crc16/Bitwise.antt =====
-- The checksum bit by bit, with the polynomial x^16 + x^12 + x^5 + 1, against the table of
-- port/device_common/crc16.h.
use rp2040_wiznet_eaa_s_aws.Prelude.{
  ℕ, zero, suc, ◌+◌, ◌*◌, ◌/◌, ◌%◌, ◌<◌, ◌≡◌, refl, bit_xor, List, [], ◌∷◌, get_or, All, arith,
  Bool, true, ltb, ◌==◌, if◌then◌else◌, ==_iff, ◌∙◌, ap, sym,
}
use rp2040_wiznet_eaa_s_aws.Prelude.Word.{u16}
use rp2040_wiznet_eaa_s_aws.Prelude.Xor.{bit_xor_fields, bit_xor-zero}
use rp2040_wiznet_eaa_s_aws.Crc16.Table.{crc16_ccitt_tab, holds_up_to, holds_up_to_at}
use rp2040_wiznet_eaa_s_aws.Crc16.Round.{index, IsByte, index-lt, round_lem, round-lt}
use rp2040_wiznet_eaa_s_aws.Crc16.{crc16_ccitt_round, crc16_ccitt_from, crc16_ccitt}

-- The division by the polynomial, one bit.
pub shift_bit : ℕ → ℕ
shift_bit x = if ltb x 32768 then x * 2 else bit_xor (u16 (x * 2)) 0x1021

pub shift_bits : ℕ → ℕ → ℕ
shift_bits zero x = x
shift_bits (suc n) x = shift_bits n (shift_bit x)

-- A byte enters at the top, and eight bits are shifted out.
pub bitwise_from : ℕ → List ℕ → ℕ
bitwise_from crc [] = crc
bitwise_from crc (byte ∷ buf) = bitwise_from (shift_bits 8 (bit_xor crc (byte * 256))) buf

row : ℕ → ℕ → Bool
row t i = holds_up_to 256 (λ l. shift_bits 8 (i * 256 + l) == bit_xor (l * 256) t)

tab_bits : holds_up_to 256 (λ i. row (get_or crc16_ccitt_tab i 0) i) ≡ true
unfolding holds_up_to crc16_ccitt_tab shift_bits shift_bit row
tab_bits = refl

shift_bits-tab :
    (i l : ℕ)
    → i < 256
    → l < 256
    → shift_bits 8 (i * 256 + l) ≡ bit_xor (l * 256) (get_or crc16_ccitt_tab i 0)
unfolding row
shift_bits-tab i l hi hl =
    (==_iff _ _).0 (holds_up_to_at _ 256 l hl (holds_up_to_at _ 256 i hi tab_bits))

bitwise-round :
    (crc byte : ℕ)
    → crc < 65536
    → byte < 256
    → shift_bits 8 (bit_xor crc (byte * 256)) ≡ crc16_ccitt_round crc byte
bitwise-round crc byte h k =
    let i : ℕ = index crc byte in
    let l : ℕ = crc % 256 in
    let small : i < 256 = index-lt crc byte h k in
    let split : bit_xor crc (byte * 256) ≡ i * 256 + l =
      ground (arith, bit_xor_fields 8 (crc / 256) byte l 0, bit_xor-zero l) in
    ap (shift_bits 8) split ∙ shift_bits-tab i l small (omega arith) ∙ sym (round_lem crc byte h k)

crc16_ccitt_from-bitwise :
    (crc : ℕ) (buf : List ℕ)
    → crc < 65536
    → All IsByte buf
    → crc16_ccitt_from crc buf ≡ bitwise_from crc buf
unfolding crc16_ccitt_from bitwise_from
crc16_ccitt_from-bitwise crc [] h k = refl
crc16_ccitt_from-bitwise crc (byte ∷ buf) h k =
    rw (bitwise-round crc byte h k.0)
      (crc16_ccitt_from-bitwise (crc16_ccitt_round crc byte) buf (round-lt crc byte h k.0) k.1)

-- Of a buffer of bytes the table-driven checksum is the remainder that the division by the
-- polynomial 0x1021, one bit at a time from a zero register, leaves.
pub crc16_ccitt-bitwise : (buf : List ℕ) → All IsByte buf → crc16_ccitt buf ≡ bitwise_from 0 buf
unfolding crc16_ccitt
crc16_ccitt-bitwise buf h = crc16_ccitt_from-bitwise 0 buf (omega arith) h
