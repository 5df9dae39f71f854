-- ===== src/Device/FwVersion.antt =====
-- The version test of an update (`is_upper_version_fw` of port/device_common/device_common.c).
use rp2040_wiznet_eaa_s_aws.Prelude.{
  ℕ, ◌+◌, ◌^◌, ◌<◌, ◌≡◌, ◌≢◌, refl, true, false, leb, ◌==◌, List, [], ◌∷◌, ◌++◌, length, All-append,
  some, append_assoc, arith, ◌∙◌, ap,
}
use rp2040_wiznet_eaa_s_aws.Prelude.Int.{pos}
use rp2040_wiznet_eaa_s_aws.Prelude.CStr.{c_str-text, IsText}
use rp2040_wiznet_eaa_s_aws.Prelude.CNum.{scan_int-digits, value, IsDigits, digits-IsText}
use rp2040_wiznet_eaa_s_aws.Device.{
  char_count_from, get_char_count, scan_numbers, scan_version, fits_int, is_upper_version_fw,
}

-- How often a byte stands in a text.
abbrev pub count : ℕ → List ℕ → ℕ
count c [] = 0
count c (d ∷ s) = (elim (c == d) [ true ↦ 1 | false ↦ 0 ]) + count c s

char_count_from_lem :
    (n : ℕ) (s : List ℕ) (c : ℕ) → n + length s < 2 ^ 16 → char_count_from n s c ≡ n + count c s
unfolding char_count_from
char_count_from_lem n [] c h = omega arith
char_count_from_lem n (d ∷ s) c h =
    ground (arith, char_count_from_lem (n + 1) s c, char_count_from_lem n s c)

-- The counting loop counts the byte in the text before its end.
pub get_char_count_lem :
    (s t : List ℕ) (c : ℕ)
    → IsText s
    → length s < 2 ^ 16
    → get_char_count (s ++ 0 ∷ t) c ≡ count c s
unfolding get_char_count
get_char_count_lem s t c h k =
    rw (c_str-text s t h) (omega (arith, char_count_from_lem 0 s c (omega arith)))

digits-count : (s : List ℕ) → IsDigits s → count b'.' s ≡ 0
digits-count [] h = refl
digits-count (c ∷ s) h = ground (arith, h.0.0, digits-count s h.1)

count-append : (c : ℕ) (s t : List ℕ) → count c (s ++ t) ≡ count c s + count c t
count-append c [] t = omega arith
count-append c (d ∷ s) t = omega (arith, count-append c s t)

-- Three texts with dots between them.
abbrev pub dotted : List ℕ → List ℕ → List ℕ → List ℕ
dotted a b c = a ++ (b'.' ∷ (b ++ (b'.' ∷ c)))

-- A text of at least one digit.
abbrev pub IsNumber : List ℕ → Type 0
IsNumber s = IsDigits s × (0 < length s)

dotted-IsText : (a b c : List ℕ) → IsDigits a → IsDigits b → IsDigits c → IsText (dotted a b c)
dotted-IsText a b c ha hb hc =
    All-append (λ x. x ≢ 0) a (b'.' ∷ (b ++ (b'.' ∷ c))) (digits-IsText a ha)
      (
        λ e. omega arith,
        All-append (λ x. x ≢ 0) b (b'.' ∷ c) (digits-IsText b hb)
            (λ e. omega arith, digits-IsText c hc),
      )

dotted-count :
    (a b c : List ℕ) → IsDigits a → IsDigits b → IsDigits c → count b'.' (dotted a b c) ≡ 2
dotted-count a b c ha hb hc = omega (
  arith,
  count-append b'.' a (b'.' ∷ (b ++ (b'.' ∷ c))),
  count-append b'.' b (b'.' ∷ c),
  digits-count a ha,
  digits-count b hb,
  digits-count c hc,
)

dotted-append : (a b c t : List ℕ) → dotted a b c ++ t ≡ a ++ (b'.' ∷ (b ++ (b'.' ∷ (c ++ t))))
dotted-append a b c t =
    append_assoc a (b'.' ∷ (b ++ (b'.' ∷ c))) t
    ∙ ap (λ l. a ++ (b'.' ∷ l)) (append_assoc b (b'.' ∷ c) t)

-- `sscanf` reads the three numbers of a version.
scan_numbers-dotted :
    (a b c t : List ℕ)
    → IsNumber a
    → IsNumber b
    → IsNumber c
    → scan_numbers (dotted a b c ++ 0 ∷ t)
      ≡ record { major = pos (value a); minor = pos (value b); patch = pos (value c) }
unfolding scan_numbers
scan_numbers-dotted a b c t ha hb hc = rw (dotted-append a b c (0 ∷ t)) (
    ground (
      arith,
      scan_int-digits a b'.' (b ++ (b'.' ∷ (c ++ 0 ∷ t))) ha.0 ha.1 refl,
      scan_int-digits b b'.' (c ++ 0 ∷ t) hb.0 hb.1 refl,
      scan_int-digits c 0 t hc.0 hc.1 refl,
    ))

-- A version of three decimal numbers that an `int` holds, in fewer than 2 ^ 16 bytes, passes the test
-- exactly when its major number is at least 1: with the current version 1.0.0 the minor and the patch
-- number do not count, and the version that is running passes itself.
pub is_upper_version_fw-dotted :
    (a b c t : List ℕ)
    → IsNumber a
    → IsNumber b
    → IsNumber c
    → value a < 2 ^ 31
    → value b < 2 ^ 31
    → value c < 2 ^ 31
    → length (dotted a b c) < 2 ^ 16
    → is_upper_version_fw (dotted a b c ++ 0 ∷ t) ≡ some (leb 1 (value a))
unfolding is_upper_version_fw scan_version fits_int
is_upper_version_fw-dotted a b c t ha hb hc int_a int_b int_c short =
    rw
      (
        scan_numbers-dotted a b c t ha hb hc,
        get_char_count_lem (dotted a b c) t b'.' (dotted-IsText a b c ha.0 hb.0 hc.0) short,
        dotted-count a b c ha.0 hb.0 hc.0,
      )
      (ground arith)
