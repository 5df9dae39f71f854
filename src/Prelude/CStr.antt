-- ===== src/Prelude/CStr.antt =====
-- The functions of <string.h> that the program uses, over byte buffers. A string ends at its first
-- zero byte; a read behind the end of a buffer counts as a zero, a write there changes nothing.
use Prim.Native.Nat.{ℕ, zero, suc, ◌-◌, ◌≤◌, ◌<◌}
use mathlib.Core.Path.{◌≡◌, refl, ap}
use mathlib.Core.Logic.{◌≢◌, inl, inr}
use mathlib.Core.Bool.{Bool, true, false}
use mathlib.Core.List.{List, [], ◌∷◌, ◌++◌}
use mathlib.Core.Option.{Option, none, some}
use native.Mathlib.Omega.{arith}
use package.rp2040_wiznet_eaa_s_aws.Prelude.Lists.{length, drop, replicate, set, All}
use package.rp2040_wiznet_eaa_s_aws.Prelude.Tests.{ltb, ◌==◌, if◌then◌else◌, lt→ltb, Bool-cases}
use package.rp2040_wiznet_eaa_s_aws.Prelude.Monad.{Returns, IfReturns}

-- The bytes before the first zero.
unfoldable pub c_str : List ℕ → List ℕ
c_str [] = []
c_str (c ∷ s) = if c == 0 then [] else c ∷ c_str s

unfoldable pub strlen : List ℕ → ℕ
unfolding c_str
strlen s = length (c_str s)

-- `strncmp(s, t, n) == 0`.
unfoldable pub strncmp_eq : List ℕ → List ℕ → ℕ → Bool
strncmp_eq s t zero = true
strncmp_eq [] [] (suc n) = true
strncmp_eq [] (d ∷ t) (suc n) = d == 0
strncmp_eq (c ∷ s) [] (suc n) = c == 0
strncmp_eq (c ∷ s) (d ∷ t) (suc n) =
    let rest = strncmp_eq s t n in if c == d then (if c == 0 then true else rest) else false

-- `memcpy(dst, src, length src)`.
unfoldable pub memcpy : List ℕ → List ℕ → List ℕ
memcpy [] src = []
memcpy (d ∷ dst) [] = d ∷ dst
memcpy (d ∷ dst) (c ∷ src) = c ∷ memcpy dst src

-- `strncpy(dst, src, n)`: up to `n` bytes of the string, then zeros up to `n`.
unfoldable pub strncpy : List ℕ → List ℕ → ℕ → List ℕ
strncpy dst src zero = dst
strncpy [] src (suc n) = []
strncpy (d ∷ dst) [] (suc n) = zero ∷ strncpy dst [] n
strncpy (d ∷ dst) (c ∷ src) (suc n) =
    if c == 0 then zero ∷ strncpy dst [] n else c ∷ strncpy dst src n

-- A text without a zero byte.
abbrev pub IsText : List ℕ → Type 0
IsText s = All (λ c. c ≢ 0) s

pub c_str-text : (s t : List ℕ) → IsText s → c_str (s ++ 0 ∷ t) ≡ s
unfolding c_str
c_str-text [] t h = refl
c_str-text (c ∷ s) t h = ground (arith, c_str-text s t h.1, h.0)

pub strlen-text : (s t : List ℕ) → IsText s → strlen (s ++ 0 ∷ t) ≡ length s
unfolding strlen
strlen-text s t h = ap length (c_str-text s t h)

pub length-strncpy : (dst src : List ℕ) (n : ℕ) → length (strncpy dst src n) ≡ length dst
unfolding strncpy
length-strncpy dst src zero = refl
length-strncpy [] src (suc n) = refl
length-strncpy (d ∷ dst) [] (suc n) = ap suc (length-strncpy dst [] n)
length-strncpy (d ∷ dst) (c ∷ src) (suc n) =
    ground (arith, length-strncpy dst [] n, length-strncpy dst src n)

pub drop-nil {ℓ} : {A : Type ℓ} (n : ℕ) → drop {A = A} n [] ≡ []
drop-nil zero = refl
drop-nil (suc n) = refl

-- Copying a whole text without its end leaves the rest of the buffer.
pub strncpy_text :
    (dst s t : List ℕ)
    → IsText s
    → length s ≤ length dst
    → strncpy dst (s ++ t) (length s) ≡ s ++ drop (length s) dst
unfolding strncpy
strncpy_text dst [] t h fits = refl
strncpy_text [] (c ∷ s) t h fits = absurd (omega arith)
strncpy_text (d ∷ dst) (c ∷ s) t h fits =
    ground (arith, h.0, strncpy_text dst s t h.1 (omega arith))

-- Whether a text is a prefix of another.
unfoldable pub is_prefix : List ℕ → List ℕ → Bool
is_prefix [] t = true
is_prefix (c ∷ s) [] = false
is_prefix (c ∷ s) (d ∷ t) = let rest = is_prefix s t in if c == d then rest else false

-- Comparing as many bytes as a text has asks whether it is a prefix.
pub strncmp_eq-is_prefix :
    (s t u v : List ℕ)
    → IsText s
    → strncmp_eq (t ++ 0 ∷ u) (s ++ v) (length s) ≡ is_prefix s (t ++ 0 ∷ u)
unfolding strncmp_eq is_prefix
strncmp_eq-is_prefix [] t u v h = refl
strncmp_eq-is_prefix (c ∷ s) [] u v h = ground (arith, h.0)
strncmp_eq-is_prefix (c ∷ s) (d ∷ t) u v h = ground (arith, h.0, strncmp_eq-is_prefix s t u v h.1)

-- The same of texts without their ends.
pub strncmp_text : (s t : List ℕ) → IsText s → strncmp_eq t s (length s) ≡ is_prefix s t
unfolding strncmp_eq is_prefix
strncmp_text [] t h = refl
strncmp_text (d ∷ s) [] h = ground (arith, h.0)
strncmp_text (d ∷ s) (c ∷ t) h = ground (arith, h.0, strncmp_text s t h.1)

pub strncmp_same : (t : List ℕ) → strncmp_eq t t (length t) ≡ true
unfolding strncmp_eq
strncmp_same [] = refl
strncmp_same (c ∷ t) = ground (arith, strncmp_same t)

-- A text without its end is its own string.
pub c_str_text : (s : List ℕ) → IsText s → c_str s ≡ s
unfolding c_str
c_str_text [] h = refl
c_str_text (c ∷ s) h = ground (arith, h.0, c_str_text s h.1)

pub strlen_text : (s : List ℕ) → IsText s → strlen s ≡ length s
unfolding strlen
strlen_text s h = ap length (c_str_text s h)

pub is_prefix-text : (s t u : List ℕ) → IsText s → is_prefix s (t ++ 0 ∷ u) ≡ is_prefix s t
unfolding is_prefix
is_prefix-text [] t u h = refl
is_prefix-text (c ∷ s) [] u h = ground (arith, h.0)
is_prefix-text (c ∷ s) (d ∷ t) u h = ground (arith, is_prefix-text s t u h.1)

pub is_prefix-append : (s t : List ℕ) → is_prefix s (s ++ t) ≡ true
unfolding is_prefix
is_prefix-append [] t = refl
is_prefix-append (c ∷ s) t = ground (arith, is_prefix-append s t)

-- `strncpy(dst, src, n); dst[n] = 0`, the way the program stores a string; `none` is a write behind
-- the end of `dst`.
unfoldable pub copy_terminated : List ℕ → List ℕ → ℕ → Option (List ℕ)
unfolding strncpy
copy_terminated dst src n = if ltb n (length dst) then some (set (strncpy dst src n) n 0) else none

set-append_length :
    (s d : List ℕ) (v : ℕ) → 0 < length d → set (s ++ d) (length s) v ≡ s ++ v ∷ drop 1 d
set-append_length [] [] v h = absurd (omega arith)
set-append_length [] (x ∷ d) v h = refl
set-append_length (x ∷ s) d v h = ap (λ l. x ∷ l) (set-append_length s d v h)

drop-one-drop : (n : ℕ) (d : List ℕ) → drop 1 (drop n d) ≡ drop (suc n) d
drop-one-drop zero [] = refl
drop-one-drop zero (x ∷ d) = refl
drop-one-drop (suc n) [] = refl
drop-one-drop (suc n) (x ∷ d) = drop-one-drop n d

pos-drop : (n : ℕ) (d : List ℕ) → n < length d → 0 < length (drop n d)
pos-drop zero d h = h
pos-drop (suc n) [] h = absurd (omega arith)
pos-drop (suc n) (x ∷ d) h = pos-drop n d (omega arith)

-- A text that fits with its end is stored with its end, and the rest of the buffer stays.
pub copy_terminated_text :
    (dst s t : List ℕ)
    → IsText s
    → length s < length dst
    → copy_terminated dst (s ++ t) (length s) ≡ some (s ++ 0 ∷ drop (suc (length s)) dst)
unfolding copy_terminated
copy_terminated_text dst s t h fits = ground (
  arith,
  strncpy_text dst s t h (omega arith),
  set-append_length s (drop (length s) dst) 0 (pos-drop (length s) dst fits),
  drop-one-drop (length s) dst,
)

pub drop-replicate : (n m a : ℕ) → drop n (replicate m a) ≡ replicate (m - n) a
drop-replicate zero m a = let e : m ≡ m - 0 = omega arith in ap (λ k. replicate k a) e
drop-replicate (suc n) zero a = let e : 0 ≡ 0 - suc n = omega arith in ap (λ k. replicate k a) e
drop-replicate (suc n) (suc m) a =
    let e : m - n ≡ suc m - suc n = omega arith in
    rw (drop-replicate n m a) (ap (λ k. replicate k a) e)

-- `memcpy` of bytes that fit.
pub memcpy_fits :
    (dst src : List ℕ) → length src ≤ length dst → memcpy dst src ≡ src ++ drop (length src) dst
unfolding memcpy
memcpy_fits [] [] h = refl
memcpy_fits [] (c ∷ src) h = absurd (omega arith)
memcpy_fits (d ∷ dst) [] h = refl
memcpy_fits (d ∷ dst) (c ∷ src) h = ap (λ l. c ∷ l) (memcpy_fits dst src (omega arith))

-- `sprintf` into a buffer; `none` is a text that does not fit with its end.
unfoldable pub sprintf : ℕ → List ℕ → Option (List ℕ)
sprintf size text = if ltb (length text) size then some text else none

pub sprintf_lem :
    (size : ℕ) (text : List ℕ) → length text < size → Returns (sprintf size text) (λ t. t ≡ text)
unfolding sprintf
sprintf_lem size text fits = rw (lt→ltb (length text) size fits) refl

pub sprintf_fits : (size : ℕ) (text : List ℕ) → length text < size → sprintf size text ≡ some text
unfolding sprintf
sprintf_fits size text fits = rw (lt→ltb (length text) size fits) refl

pub sprintf_result : (size : ℕ) (text : List ℕ) → IfReturns (sprintf size text) (λ t. t ≡ text)
unfolding sprintf
sprintf_result size text = elim (Bool-cases (ltb (length text) size)) [
  | inl p ↦ rw p refl
  | inr q ↦ rw q tt
]
