-- ===== src/Prelude/CNum.antt =====
-- The conversions of <stdlib.h> and <stdio.h> that the program uses. C leaves open what happens when
-- a number does not fit an `int`; here it is
-- kept, and the functions that use the number say what they make of it.
use Prim.Native.Nat.{ℕ, ◌+◌, ◌-◌, ◌*◌, ◌%◌, ◌<◌, ◌≤◌, min, ◌^◌}
use mathlib.Core.Path.{◌≡◌, refl}
use mathlib.Core.Bool.{Bool, false, ◌&&◌, ◌||◌}
use mathlib.Core.List.{List, [], ◌∷◌, ◌++◌}
use mathlib.Core.Option.{Option, none, some}
use native.Mathlib.Omega.{arith}
use package.rp2040_wiznet_eaa_s_aws.Prelude.Lists.{length, All}
use package.rp2040_wiznet_eaa_s_aws.Prelude.Tests.{leb, ◌==◌, if◌then◌else◌}
use package.rp2040_wiznet_eaa_s_aws.Prelude.CStr.{IsText}
use package.rp2040_wiznet_eaa_s_aws.Prelude.Int.{ℤ, pos, negate}

abbrev pub is_digit : ℕ → Bool
is_digit c = leb b'0' c && leb c b'9'

-- Blanks: space, and tab up to carriage return.
abbrev is_space : ℕ → Bool
is_space c = c == 32 || (leb 9 c && leb c 13)

unfoldable pub skip_spaces : List ℕ → List ℕ
skip_spaces [] = []
skip_spaces (c ∷ s) = let rest = skip_spaces s in if is_space c then rest else c ∷ s

-- The value of the digits at the front, added to what was read, and the text behind them.
unfoldable pub scan_digits : ℕ → List ℕ → ℕ × List ℕ
scan_digits acc [] = (acc, [])
scan_digits acc (c ∷ s) =
    let rest = scan_digits (acc * 10 + (c - b'0')) s in if is_digit c then rest else (acc, c ∷ s)

abbrev starts_digit : List ℕ → Bool
starts_digit [] = false
starts_digit (c ∷ s) = is_digit c

-- Digits behind an optional sign; `none` if there are none.
unfoldable pub scan_signed : List ℕ → Option (ℤ × List ℕ)
unfolding scan_digits
scan_signed [] = none
scan_signed (c ∷ s) =
    if c == b'-'
    then (if starts_digit s then some (negate (scan_digits 0 s).0, (scan_digits 0 s).1) else none)
    else if c == b'+'
    then (if starts_digit s then some (pos (scan_digits 0 s).0, (scan_digits 0 s).1) else none)
    else if is_digit c
    then some (pos (scan_digits 0 (c ∷ s)).0, (scan_digits 0 (c ∷ s)).1)
    else none

-- `%d` of `sscanf`.
unfoldable pub scan_int : List ℕ → Option (ℤ × List ℕ)
unfolding scan_signed skip_spaces
scan_int s = scan_signed (skip_spaces s)

unfoldable pub atoi : List ℕ → ℤ
unfolding scan_int
atoi s = elim (scan_int s) [ none ↦ pos 0 | some (n, rest) ↦ n ]

-- The value of a hexadecimal digit.
abbrev hex_digit : ℕ → Option ℕ
hex_digit c =
    if is_digit c
    then some (c - b'0')
    else if leb b'A' c && leb c b'F'
    then some (c - 55)
    else if leb b'a' c && leb c b'f'
    then some (c - 87)
    else none

unfoldable pub scan_hex : ℕ → List ℕ → ℕ
scan_hex acc [] = acc
scan_hex acc (c ∷ s) =
    let rest = λ (d : ℕ). scan_hex (acc * 16 + d) s in
    elim (hex_digit c) [ none ↦ acc | some d ↦ rest d ]

abbrev skip_0x : List ℕ → List ℕ
skip_0x [] = []
skip_0x (c ∷ []) = c ∷ []
skip_0x (c ∷ d ∷ s) = if c == b'0' && (d == b'x' || d == b'X') then s else c ∷ d ∷ s

-- A value that does not fit 32 bits is cut to the greatest.
hex_magnitude : List ℕ → ℕ
hex_magnitude s = min (scan_hex 0 (skip_0x s)) (2 ^ 32 - 1)

hex_signed : List ℕ → ℕ
unfolding hex_magnitude
hex_signed [] = 0
hex_signed (c ∷ s) =
    if c == b'-'
    then (2 ^ 32 - hex_magnitude s) % 2 ^ 32
    else if c == b'+'
    then hex_magnitude s
    else hex_magnitude (c ∷ s)

-- `strtoul(s, NULL, 16)`, whose `unsigned long` has 32 bits here.
unfoldable pub strtoul_hex : List ℕ → ℕ
unfolding hex_signed skip_spaces scan_hex
strtoul_hex s = hex_signed (skip_spaces s)

-- A text of decimal digits, and its value.
abbrev pub IsDigits : List ℕ → Type 0
IsDigits s = All (λ c. (b'0' ≤ c) × (c ≤ b'9')) s

unfoldable pub value_from : ℕ → List ℕ → ℕ
value_from acc [] = acc
value_from acc (c ∷ s) = value_from (acc * 10 + (c - b'0')) s

-- The number that a text of digits writes.
abbrev pub value : List ℕ → ℕ
value s = value_from 0 s

-- Reading stops at the first byte that is no digit.
pub scan_digits_lem :
    (acc : ℕ) (s : List ℕ) (c : ℕ) (t : List ℕ)
    → IsDigits s
    → is_digit c ≡ false
    → scan_digits acc (s ++ c ∷ t) ≡ (value_from acc s, c ∷ t)
unfolding scan_digits value_from
scan_digits_lem acc [] c t h stop = rw stop
scan_digits_lem acc (d ∷ s) c t h stop =
    ground (arith, h.0.0, h.0.1, scan_digits_lem (acc * 10 + (d - b'0')) s c t h.1 stop)

pub scan_int-digits :
    (s : List ℕ) (c : ℕ) (t : List ℕ)
    → IsDigits s
    → 0 < length s
    → is_digit c ≡ false
    → scan_int (s ++ c ∷ t) ≡ some (pos (value s), c ∷ t)
unfolding scan_int
scan_int-digits [] c t h k stop = absurd (omega arith)
scan_int-digits (d ∷ s) c t h k stop =
    ground (arith, h.0.0, h.0.1, scan_digits_lem 0 (d ∷ s) c t h stop)

pub scan_digits_end :
    (acc : ℕ) (s : List ℕ) → IsDigits s → scan_digits acc s ≡ (value_from acc s, [])
unfolding scan_digits value_from
scan_digits_end acc [] h = refl
scan_digits_end acc (d ∷ s) h =
    ground (arith, h.0.0, h.0.1, scan_digits_end (acc * 10 + (d - b'0')) s h.1)

-- `atoi` of a buffer that starts with digits, whether they fill it or not.
pub atoi-digits : (s : List ℕ) → IsDigits s → 0 < length s → atoi s ≡ pos (value s)
unfolding atoi
atoi-digits [] h k = absurd (omega arith)
atoi-digits (d ∷ s) h k = ground (arith, h.0.0, h.0.1, scan_digits_end 0 (d ∷ s) h)

pub atoi-digits_stop :
    (s : List ℕ) (c : ℕ) (t : List ℕ)
    → IsDigits s
    → 0 < length s
    → is_digit c ≡ false
    → atoi (s ++ c ∷ t) ≡ pos (value s)
unfolding atoi
atoi-digits_stop s c t h k stop = rw (atoi, scan_int-digits s c t h k stop)

pub digits-IsText : (s : List ℕ) → IsDigits s → IsText s
digits-IsText [] h = tt
digits-IsText (c ∷ s) h = (λ e. omega arith, digits-IsText s h.1)
