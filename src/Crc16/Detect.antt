-- ===== src/Crc16/Detect.antt =====
-- What the checksum of port/device_common/crc16.h detects.
use rp2040_wiznet_eaa_s_aws.Prelude.{
  ℕ, ◌*◌, ◌/◌, ◌%◌, ◌<◌, ◌≡◌, ◌≢◌, bit_xor, List, [], ◌∷◌, ◌++◌, get_or, All, arith, ◌∙◌, ap, sym,
  refl,
}
use rp2040_wiznet_eaa_s_aws.Prelude.Xor.{
  bit_xor_self, bit_xor-zero, bit_xor_cancel_left, bit_xor_cancel_right,
}
use rp2040_wiznet_eaa_s_aws.Crc16.Table.{crc16_ccitt_tab, low_index, low_index-tab}
use rp2040_wiznet_eaa_s_aws.Crc16.{crc16_ccitt_round, crc16_ccitt_from, crc16_ccitt}
use rp2040_wiznet_eaa_s_aws.Crc16.Round.{
  entry, index, IsByte, index-lt, round_lem, round-lt, round_bytes, crc16_ccitt_from-append,
  crc16_ccitt_from-lt,
}

entry-zero : entry 0 ≡ 0
unfolding crc16_ccitt_tab
entry-zero = refl

-- A round with the register's own high byte moves the low byte up.
round-high : (crc : ℕ) → crc < 65536 → crc16_ccitt_round crc (crc / 256) ≡ crc % 256 * 256
round-high crc h =
    round_lem crc (crc / 256) h (omega arith)
    ∙ ap (λ i. bit_xor (crc % 256 * 256) (entry i)) (bit_xor_self (crc / 256))
    ∙ ap (bit_xor (crc % 256 * 256)) entry-zero
    ∙ bit_xor-zero (crc % 256 * 256)

residue : (crc : ℕ) → crc < 65536 → crc16_ccitt_from crc (crc / 256 ∷ crc % 256 ∷ []) ≡ 0
unfolding crc16_ccitt_from
residue crc h =
    let second : crc16_ccitt_round (crc % 256 * 256) (crc % 256 * 256 / 256)
        ≡ crc % 256 * 256 % 256 * 256 =
      round-high (crc % 256 * 256) (omega arith) in
    let same : crc % 256 * 256 / 256 ≡ crc % 256 = omega arith in
    rw (round-high crc h)
      (ap (crc16_ccitt_round (crc % 256 * 256)) (sym same) ∙ second ∙ omega arith)

-- A buffer of bytes that is followed by its own checksum, high byte first, has the checksum 0.
pub crc16_ccitt-residue :
    (buf : List ℕ)
    → All IsByte buf
    → crc16_ccitt (buf ++ crc16_ccitt buf / 256 ∷ crc16_ccitt buf % 256 ∷ []) ≡ 0
unfolding crc16_ccitt
crc16_ccitt-residue buf h =
    crc16_ccitt_from-append 0 buf _
    ∙ residue (crc16_ccitt_from 0 buf) (crc16_ccitt_from-lt 0 buf (omega arith) h)

-- The low bytes after a round tell the entries that were added.
index_of_low :
    (c d a b : ℕ)
    → c < 65536
    → d < 65536
    → a < 256
    → b < 256
    → crc16_ccitt_round c a % 256 ≡ crc16_ccitt_round d b % 256
    → index c a ≡ index d b
index_of_low c d a b hc hd ha hb e =
    let low : entry (index c a) % 256 ≡ entry (index d b) % 256 =
      sym (round_bytes c a hc ha).0 ∙ e ∙ (round_bytes d b hd hb).0 in
    sym (low_index-tab (index c a) (index-lt c a hc ha))
    ∙ ap (λ l. get_or low_index l 0) low
    ∙ low_index-tab (index d b) (index-lt d b hd hb)

-- Two equal registers after a round had equal low bytes before it.
low_of_round :
    (c d a b : ℕ)
    → c < 65536
    → d < 65536
    → a < 256
    → b < 256
    → crc16_ccitt_round c a ≡ crc16_ccitt_round d b
    → c % 256 ≡ d % 256
low_of_round c d a b hc hd ha hb e =
    let i : index c a ≡ index d b = index_of_low c d a b hc hd ha hb (ap (λ (x : ℕ). x % 256) e) in
    bit_xor_cancel_right (c % 256) (d % 256) (entry (index d b) / 256) (
      ap (λ i. bit_xor (c % 256) (entry i / 256)) (sym i)
      ∙ sym (round_bytes c a hc ha).1
      ∙ ap (λ (x : ℕ). x / 256) e
      ∙ (round_bytes d b hd hb).1)

round_injective :
    (c d a : ℕ)
    → c < 65536
    → d < 65536
    → a < 256
    → crc16_ccitt_round c a ≡ crc16_ccitt_round d a
    → c ≡ d
round_injective c d a hc hd ha e =
    let high : c / 256 ≡ d / 256 =
      bit_xor_cancel_right (c / 256) (d / 256) a
        (index_of_low c d a a hc hd ha ha (ap (λ (x : ℕ). x % 256) e)) in
    omega (arith, low_of_round c d a a hc hd ha ha e)

-- The bytes behind a difference do not hide it.
crc16_ccitt_from_injective :
    (c d : ℕ) (ys : List ℕ)
    → c < 65536
    → d < 65536
    → All IsByte ys
    → crc16_ccitt_from c ys ≡ crc16_ccitt_from d ys
    → c ≡ d
unfolding crc16_ccitt_from
crc16_ccitt_from_injective c d [] hc hd hy e = e
crc16_ccitt_from_injective c d (y ∷ ys) hc hd hy e = round_injective c d y hc hd hy.0 (
    crc16_ccitt_from_injective (crc16_ccitt_round c y) (crc16_ccitt_round d y) ys
      (round-lt c y hc hy.0) (round-lt d y hd hy.0) hy.1 e)

two_rounds :
    (c a b a' b' : ℕ)
    → c < 65536
    → (a < 256) × (b < 256)
    → (a' < 256) × (b' < 256)
    → crc16_ccitt_round (crc16_ccitt_round c a) b ≡ crc16_ccitt_round (crc16_ccitt_round c a') b'
    → (a ≡ a') × (b ≡ b')
two_rounds c a b a' b' hc h h' e =
    let x : ℕ = crc16_ccitt_round c a in
    let x' : ℕ = crc16_ccitt_round c a' in
    let hx : x < 65536 = round-lt c a hc h.0 in
    let hx' : x' < 65536 = round-lt c a' hc h'.0 in
    let low : x % 256 ≡ x' % 256 = low_of_round x x' b b' hx hx' h.1 h'.1 e in
    let first : a ≡ a' =
      bit_xor_cancel_left (c / 256) a a' (index_of_low c c a a' hc hc h.0 h'.0 low) in
    let i : index x b ≡ index x' b' =
      index_of_low x x' b b' hx hx' h.1 h'.1 (ap (λ (t : ℕ). t % 256) e) in
    (
      first,
      bit_xor_cancel_left (x / 256) b b'
          (i ∙ ap (λ t. bit_xor (crc16_ccitt_round c t / 256) b') (sym first)),
    )

-- Two buffers of bytes that agree except in two neighbouring bytes, and differ in at least one of
-- these, have different checksums: every error burst within two bytes is detected.
pub crc16_ccitt_burst :
    (xs ys : List ℕ) (a b a' b' : ℕ)
    → All IsByte xs
    → All IsByte ys
    → (a < 256) × (b < 256)
    → (a' < 256) × (b' < 256)
    → ¬ ((a ≡ a') × (b ≡ b'))
    → crc16_ccitt (xs ++ a ∷ b ∷ ys) ≢ crc16_ccitt (xs ++ a' ∷ b' ∷ ys)
unfolding crc16_ccitt crc16_ccitt_from
crc16_ccitt_burst xs ys a b a' b' hx hy h h' ne e =
    let c : ℕ = crc16_ccitt_from 0 xs in
    let hc : c < 65536 = crc16_ccitt_from-lt 0 xs (omega arith) hx in
    let same : crc16_ccitt_from c (a ∷ b ∷ ys) ≡ crc16_ccitt_from c (a' ∷ b' ∷ ys) =
      sym (crc16_ccitt_from-append 0 xs (a ∷ b ∷ ys))
      ∙ e
      ∙ crc16_ccitt_from-append 0 xs (a' ∷ b' ∷ ys) in
    let registers =
      crc16_ccitt_from_injective (crc16_ccitt_round (crc16_ccitt_round c a) b)
        (crc16_ccitt_round (crc16_ccitt_round c a') b') ys
        (round-lt (crc16_ccitt_round c a) b (round-lt c a hc h.0) h.1)
        (round-lt (crc16_ccitt_round c a') b' (round-lt c a' hc h'.0) h'.1) hy same in
    ne (two_rounds c a b a' b' hc h h' registers)
