-- ===== src/Device/IpAddr.antt =====
-- Dotted quads (`is_ipaddr` of port/device_common/device_common.c).
use rp2040_wiznet_eaa_s_aws.Prelude.{
  ℕ, ◌+◌, ◌-◌, ◌≤◌, ◌<◌, ◌≡◌, refl, true, List, [], ◌∷◌, ◌++◌, length, All-append, arith, ◌∙◌, ap,
  sym, ◌≢◌, append-nil, none, some, set, take-length, length-append,
}
use rp2040_wiznet_eaa_s_aws.Prelude.Int.{pos}
use rp2040_wiznet_eaa_s_aws.Prelude.CStr.{c_str-text, strlen-text, IsText}
use rp2040_wiznet_eaa_s_aws.Prelude.CNum.{
  value_from, value, IsDigits, digits-IsText, atoi, atoi-digits_stop,
}
use rp2040_wiznet_eaa_s_aws.Device.{IpScan, tmp_number, ip_loop, is_ipaddr}

-- The buffer `tmp` with digits at its front.
abbrev in_tmp : List ℕ → List ℕ
in_tmp [] = 0 ∷ 0 ∷ 0 ∷ []
in_tmp (x ∷ []) = x ∷ 0 ∷ 0 ∷ []
in_tmp (x ∷ y ∷ s) = x ∷ y ∷ 0 ∷ []

-- The state behind `dots` numbers, in front of the next.
abbrev fresh : ℕ → List ℕ → IpScan
fresh dots ret_ip = record {
  dotcnt = dots;
  tval = 0;
  tmp = 0 ∷ 0 ∷ 0 ∷ [];
  tmpcnt = 0;
  ret_ip = ret_ip;
}

-- The state when a number has been read.
abbrev read_number : ℕ → List ℕ → List ℕ → IpScan
read_number dots ret_ip s = record {
  dotcnt = dots;
  tval = value s;
  tmp = in_tmp s;
  tmpcnt = length s;
  ret_ip = ret_ip;
}

-- One or two digits: a third fills `tmp`, which has no end then.
abbrev pub IsOctet : List ℕ → Type 0
IsOctet s = IsDigits s × (0 < length s) × (length s ≤ 2)

octet_loop :
    (dots : ℕ) (ret_ip s rest : List ℕ)
    → IsOctet s
    → ip_loop (fresh dots ret_ip) (s ++ rest) ≡ ip_loop (read_number dots ret_ip s) rest
unfolding ip_loop value_from
octet_loop dots ret_ip [] rest h = absurd (omega arith)
octet_loop dots ret_ip (x ∷ []) rest h = ground arith
octet_loop dots ret_ip (x ∷ y ∷ []) rest h = ground arith
octet_loop dots ret_ip (x ∷ y ∷ z ∷ s) rest h = absurd (omega arith)

atoi-in_tmp : (s : List ℕ) → IsOctet s → atoi (in_tmp s) ≡ pos (value s)
atoi-in_tmp [] h = absurd (omega arith)
atoi-in_tmp (x ∷ []) h = atoi-digits_stop (x ∷ []) 0 (0 ∷ []) h.0 h.1 refl
atoi-in_tmp (x ∷ y ∷ []) h = atoi-digits_stop (x ∷ y ∷ []) 0 [] h.0 h.1 refl
atoi-in_tmp (x ∷ y ∷ z ∷ s) h = absurd (omega arith)

octet_value : (s : List ℕ) → IsOctet s → value s ≤ 99
unfolding value_from
octet_value [] h = absurd (omega arith)
octet_value (x ∷ []) h = ground arith
octet_value (x ∷ y ∷ []) h = ground arith
octet_value (x ∷ y ∷ z ∷ s) h = absurd (omega arith)

length-in_tmp : (s : List ℕ) → length (in_tmp s) ≡ 3
length-in_tmp [] = refl
length-in_tmp (x ∷ []) = refl
length-in_tmp (x ∷ y ∷ s) = refl

tmp_number-IsOctet :
    (dots : ℕ) (ret_ip s : List ℕ)
    → IsOctet s
    → tmp_number (read_number dots ret_ip s) ≡ some (value s)
unfolding tmp_number
tmp_number-IsOctet dots ret_ip s h =
    ground (arith, atoi-in_tmp s h, octet_value s h, length-in_tmp s)

-- A dot stores the number before it.
dot_loop :
    (dots : ℕ) (ret_ip s rest : List ℕ)
    → IsOctet s
    → dots < length ret_ip
    → dots < 4
    → ip_loop (read_number dots ret_ip s) (b'.' ∷ rest)
      ≡ ip_loop (fresh (dots + 1) (set ret_ip dots (value s))) rest
unfolding ip_loop
dot_loop dots ret_ip s rest h room few =
    let index : dots + 1 - 1 ≡ dots = omega arith in
    ground (arith, tmp_number-IsOctet dots ret_ip s h, octet_value s h)

end_loop :
    (dots : ℕ) (ret_ip s : List ℕ)
    → IsOctet s
    → dots < length ret_ip
    → ip_loop (read_number dots ret_ip s) [] ≡ some (true, set ret_ip dots (value s))
unfolding ip_loop
end_loop dots ret_ip s h room = ground (arith, tmp_number-IsOctet dots ret_ip s h)

abbrev pub three : List ℕ → List ℕ → List ℕ → List ℕ
three a b c = a ++ (b'.' ∷ (b ++ (b'.' ∷ c)))

-- The text of a dotted quad.
abbrev pub quad : List ℕ → List ℕ → List ℕ → List ℕ → List ℕ
quad a b c d = a ++ (b'.' ∷ three b c d)

joined-IsText : (a s : List ℕ) → IsDigits a → IsText s → IsText (a ++ (b'.' ∷ s))
joined-IsText a s h k =
    All-append (λ x. x ≢ 0) a (b'.' ∷ s) (digits-IsText a h) (λ e. omega arith, k)

three-IsText : (a b c : List ℕ) → IsDigits a → IsDigits b → IsDigits c → IsText (three a b c)
three-IsText a b c ha hb hc =
    joined-IsText a (b ++ (b'.' ∷ c)) ha (joined-IsText b c hb (digits-IsText c hc))

length-three : (a b c : List ℕ) → length (three a b c) ≡ length a + length b + length c + 2
length-three a b c =
    omega (arith, length-append a (b'.' ∷ (b ++ (b'.' ∷ c))), length-append b (b'.' ∷ c))

-- A text of a length between 7 and 15 goes into the loop as it is.
enter_loop :
    (s t ret_ip : List ℕ)
    → IsText s
    → 7 ≤ length s
    → length s ≤ 15
    → is_ipaddr (s ++ 0 ∷ t) ret_ip ≡ ip_loop (fresh 0 ret_ip) s
unfolding is_ipaddr
enter_loop s t ret_ip h low high =
    ground (arith, strlen-text s t h, c_str-text s t h, take-length s)

-- A dotted quad of four numbers of one or two digits is accepted, and the four numbers are stored.
pub is_ipaddr-quad :
    (a b c d t : List ℕ) (r₀ r₁ r₂ r₃ : ℕ)
    → IsOctet a
    → IsOctet b
    → IsOctet c
    → IsOctet d
    → is_ipaddr (quad a b c d ++ 0 ∷ t) (r₀ ∷ r₁ ∷ r₂ ∷ r₃ ∷ [])
      ≡ some (true, value a ∷ value b ∷ value c ∷ value d ∷ [])
is_ipaddr-quad a b c d t r₀ r₁ r₂ r₃ ha hb hc hd =
    let size : length (quad a b c d) ≡ length a + length b + length c + length d + 3 =
      omega (arith, length-append a (b'.' ∷ three b c d), length-three b c d) in
    enter_loop (quad a b c d) t (r₀ ∷ r₁ ∷ r₂ ∷ r₃ ∷ [])
      (joined-IsText a (three b c d) ha.0 (three-IsText b c d hb.0 hc.0 hd.0)) (omega arith)
      (omega arith)
    ∙ octet_loop 0 (r₀ ∷ r₁ ∷ r₂ ∷ r₃ ∷ []) a (b'.' ∷ three b c d) ha
    ∙ dot_loop 0 (r₀ ∷ r₁ ∷ r₂ ∷ r₃ ∷ []) a (three b c d) ha (omega arith) (omega arith)
    ∙ octet_loop 1 (value a ∷ r₁ ∷ r₂ ∷ r₃ ∷ []) b (b'.' ∷ (c ++ (b'.' ∷ d))) hb
    ∙ dot_loop 1 (value a ∷ r₁ ∷ r₂ ∷ r₃ ∷ []) b (c ++ (b'.' ∷ d)) hb (omega arith) (omega arith)
    ∙ octet_loop 2 (value a ∷ value b ∷ r₂ ∷ r₃ ∷ []) c (b'.' ∷ d) hc
    ∙ dot_loop 2 (value a ∷ value b ∷ r₂ ∷ r₃ ∷ []) c d hc (omega arith) (omega arith)
    ∙ ap (ip_loop (fresh 3 (value a ∷ value b ∷ value c ∷ r₃ ∷ []))) (sym (append-nil d))
    ∙ octet_loop 3 (value a ∷ value b ∷ value c ∷ r₃ ∷ []) d [] hd
    ∙ end_loop 3 (value a ∷ value b ∷ value c ∷ r₃ ∷ []) d hd (omega arith)

-- The number of dots is not checked from below: three numbers of one or two digits, with a dot between
-- each two and at least five digits together, are accepted as an address, and the fourth byte of the
-- result is what stood there before.
pub is_ipaddr-three :
    (a b c t : List ℕ) (r₀ r₁ r₂ r₃ : ℕ)
    → IsOctet a
    → IsOctet b
    → IsOctet c
    → 5 ≤ length a + length b + length c
    → is_ipaddr (three a b c ++ 0 ∷ t) (r₀ ∷ r₁ ∷ r₂ ∷ r₃ ∷ [])
      ≡ some (true, value a ∷ value b ∷ value c ∷ r₃ ∷ [])
is_ipaddr-three a b c t r₀ r₁ r₂ r₃ ha hb hc long =
    enter_loop (three a b c) t (r₀ ∷ r₁ ∷ r₂ ∷ r₃ ∷ []) (three-IsText a b c ha.0 hb.0 hc.0)
      (omega (arith, length-three a b c)) (omega (arith, length-three a b c))
    ∙ octet_loop 0 (r₀ ∷ r₁ ∷ r₂ ∷ r₃ ∷ []) a (b'.' ∷ (b ++ (b'.' ∷ c))) ha
    ∙ dot_loop 0 (r₀ ∷ r₁ ∷ r₂ ∷ r₃ ∷ []) a (b ++ (b'.' ∷ c)) ha (omega arith) (omega arith)
    ∙ octet_loop 1 (value a ∷ r₁ ∷ r₂ ∷ r₃ ∷ []) b (b'.' ∷ c) hb
    ∙ dot_loop 1 (value a ∷ r₁ ∷ r₂ ∷ r₃ ∷ []) b c hb (omega arith) (omega arith)
    ∙ ap (ip_loop (fresh 2 (value a ∷ value b ∷ r₂ ∷ r₃ ∷ []))) (sym (append-nil c))
    ∙ octet_loop 2 (value a ∷ value b ∷ r₂ ∷ r₃ ∷ []) c [] hc
    ∙ end_loop 2 (value a ∷ value b ∷ r₂ ∷ r₃ ∷ []) c hc (omega arith)

-- Three digits that write at most 255, as the first of the numbers, fill `tmp`.
is_ipaddr_full :
    (x y z : ℕ) (rest t ret_ip : List ℕ)
    → IsDigits (x ∷ y ∷ z ∷ [])
    → value (x ∷ y ∷ z ∷ []) ≤ 255
    → IsText rest
    → 3 ≤ length rest
    → length rest ≤ 11
    → is_ipaddr ((x ∷ y ∷ z ∷ b'.' ∷ rest) ++ 0 ∷ t) ret_ip ≡ none
unfolding ip_loop value_from tmp_number
is_ipaddr_full x y z rest t ret_ip h small text low high =
    enter_loop (x ∷ y ∷ z ∷ b'.' ∷ rest) t ret_ip
      (λ e. ground arith, (λ e. ground arith, (λ e. ground arith, (λ e. omega arith, text))))
      (omega arith) (omega arith)
    ∙ ground arith
