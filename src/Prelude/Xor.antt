-- ===== src/Prelude/Xor.antt =====
-- The laws of `bit_xor` at variables, from its lowest digit.
use Prim.Native.Nat.{
  ℕ, zero, suc, ◌+◌, ◌-◌, ◌*◌, ◌/◌, ◌%◌, ◌^◌, ◌≤◌, ◌<◌, bit_xor, digits, bit_xor-bitwise, differ,
}
use mathlib.Core.Path.{◌≡◌, refl, ap, sym, ◌∙◌}
use native.Mathlib.Nat.{pow-suc}
use native.Mathlib.Omega.{arith}

abbrev xor_loop : ℕ → ℕ → ℕ → ℕ
xor_loop rounds a b = digits (λ rest. rest) differ rounds a b

-- Nothing is left to do for zero, in however many rounds.
no_rounds : (b rounds : ℕ) → xor_loop rounds 0 b ≡ b
no_rounds b zero = refl
no_rounds b (suc rounds) = refl

-- As many rounds as the number says are enough: any further ones do nothing.
more_rounds :
    (extra rounds b a : ℕ) → a ≤ rounds → xor_loop rounds a b ≡ xor_loop (rounds + extra) a b
more_rounds extra rounds b zero h = no_rounds b rounds ∙ sym (no_rounds b (rounds + extra))
more_rounds extra zero b (suc a) h = absurd (omega arith)
more_rounds extra (suc rounds) b (suc a) h =
    let half : ℕ = suc a / 2 in
    let step : xor_loop rounds half (b / 2) ≡ xor_loop (rounds + extra) half (b / 2) =
      more_rounds extra rounds (b / 2) half (omega arith) in
    let shift : suc (rounds + extra) ≡ suc rounds + extra = omega arith in
    let whole : xor_loop (suc rounds) (suc a) b ≡ xor_loop (suc (rounds + extra)) (suc a) b =
      omega (arith, step) in
    whole ∙ ap (λ r. xor_loop r (suc a) b) shift

pub zero-bit_xor : (b : ℕ) → bit_xor 0 b ≡ b
zero-bit_xor b = bit_xor-bitwise 0 b

-- Exclusive or of two digits, as the remainder of their sum.
differ-digits : (x y : ℕ) → x < 2 → y < 2 → differ x y ≡ (x + y) % 2
differ-digits zero y p q = omega arith
differ-digits (suc zero) zero p q = refl
differ-digits (suc zero) (suc zero) p q = refl
differ-digits (suc zero) (suc (suc y)) p q = absurd (omega arith)
differ-digits (suc (suc x)) y p q = absurd (omega arith)

pub bit_xor_step : (a b : ℕ) → bit_xor a b ≡ bit_xor (a / 2) (b / 2) * 2 + (a % 2 + b % 2) % 2
bit_xor_step zero b =
    let whole : bit_xor 0 b ≡ b = zero-bit_xor b in
    let rest : bit_xor 0 (b / 2) ≡ b / 2 = zero-bit_xor (b / 2) in omega (arith, whole, rest)
bit_xor_step (suc a) b =
    let half : ℕ = suc a / 2 in
    let spare : half + (a - half) ≡ a = omega arith in
    let rounds : xor_loop half half (b / 2) ≡ xor_loop a half (b / 2) =
      more_rounds (a - half) half (b / 2) half (omega arith)
      ∙ ap (λ r. xor_loop r half (b / 2)) spare in
    let low : differ (suc a % 2) (b % 2) ≡ (suc a % 2 + b % 2) % 2 =
      differ-digits (suc a % 2) (b % 2) (omega arith) (omega arith) in
    omega (arith, rounds, low, bit_xor-bitwise half (b / 2), bit_xor-bitwise (suc a) b)

xor_self_fuel : (n a : ℕ) → a ≤ n → bit_xor a a ≡ 0
xor_self_fuel n zero h = zero-bit_xor 0
xor_self_fuel zero (suc a) h = absurd (omega arith)
xor_self_fuel (suc n) (suc a) h =
    omega (arith, bit_xor_step (suc a) (suc a), xor_self_fuel n (suc a / 2) (omega arith))

pub bit_xor_self : (a : ℕ) → bit_xor a a ≡ 0
bit_xor_self a = xor_self_fuel a a (omega arith)

xor_zero_fuel : (n a : ℕ) → a ≤ n → bit_xor a 0 ≡ a
xor_zero_fuel n zero h = zero-bit_xor 0
xor_zero_fuel zero (suc a) h = absurd (omega arith)
xor_zero_fuel (suc n) (suc a) h =
    omega (arith, bit_xor_step (suc a) 0, xor_zero_fuel n (suc a / 2) (omega arith))

pub bit_xor-zero : (a : ℕ) → bit_xor a 0 ≡ a
bit_xor-zero a = xor_zero_fuel a a (omega arith)

-- Fields of `k` bits do not meet.
pub bit_xor_fields :
    (k q p r s : ℕ)
    → r < 2 ^ k
    → s < 2 ^ k
    → bit_xor (q * 2 ^ k + r) (p * 2 ^ k + s) ≡ bit_xor q p * 2 ^ k + bit_xor r s
bit_xor_fields zero q p r s hr hs = ground (arith, zero-bit_xor 0)
bit_xor_fields (suc k) q p r s hr hs = ground (
  arith,
  pow-suc 2 k,
  ap (λ (t : ℕ). q * t) (pow-suc 2 k),
  ap (λ (t : ℕ). p * t) (pow-suc 2 k),
  ap (λ (t : ℕ). bit_xor q p * t) (pow-suc 2 k),
  bit_xor_step (q * 2 ^ suc k + r) (p * 2 ^ suc k + s),
  bit_xor_step r s,
  bit_xor_fields k q p (r / 2) (s / 2) (omega arith) (omega arith),
)

pub bit_xor-lt : (k a b : ℕ) → a < 2 ^ k → b < 2 ^ k → bit_xor a b < 2 ^ k
bit_xor-lt zero a b ha hb = ground (arith, zero-bit_xor 0)
bit_xor-lt (suc k) a b ha hb =
    omega (
      arith,
      pow-suc 2 k,
      bit_xor_step a b,
      bit_xor-lt k (a / 2) (b / 2) (omega arith) (omega arith),
    )

xor_cancel_fuel : (n a b : ℕ) → a + b ≤ n → bit_xor (bit_xor a b) b ≡ a
xor_cancel_fuel zero a b h = ground (arith, zero-bit_xor 0)
xor_cancel_fuel (suc n) zero b h = ground (arith, zero-bit_xor b, bit_xor_self b)
xor_cancel_fuel (suc n) (suc a) b h = ground (
  arith,
  bit_xor_step (suc a) b,
  bit_xor_step (bit_xor (suc a) b) b,
  xor_cancel_fuel n (suc a / 2) (b / 2) (omega arith),
)

pub bit_xor_cancel : (a b : ℕ) → bit_xor (bit_xor a b) b ≡ a
bit_xor_cancel a b = xor_cancel_fuel (a + b) a b (omega arith)

xor_comm_fuel : (n a b : ℕ) → a + b ≤ n → bit_xor a b ≡ bit_xor b a
xor_comm_fuel zero a b h = ground (arith, zero-bit_xor 0)
xor_comm_fuel (suc n) zero b h = ground (arith, zero-bit_xor b, bit_xor-zero b)
xor_comm_fuel (suc n) (suc a) b h = omega (
  arith,
  bit_xor_step (suc a) b,
  bit_xor_step b (suc a),
  xor_comm_fuel n (suc a / 2) (b / 2) (omega arith),
)

pub bit_xor_comm : (a b : ℕ) → bit_xor a b ≡ bit_xor b a
bit_xor_comm a b = xor_comm_fuel (a + b) a b (omega arith)

-- What is changed on one side only shows.
pub bit_xor_cancel_right : (a b c : ℕ) → bit_xor a c ≡ bit_xor b c → a ≡ b
bit_xor_cancel_right a b c h = ground (arith, bit_xor_cancel a c, bit_xor_cancel b c)

pub bit_xor_cancel_left : (a b c : ℕ) → bit_xor a b ≡ bit_xor a c → b ≡ c
bit_xor_cancel_left a b c h =
    bit_xor_cancel_right b c a (ground (arith, bit_xor_comm a b, bit_xor_comm a c))
