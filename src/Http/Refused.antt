-- ===== src/Http/Refused.antt =====
-- URLs whose scheme the client refuses (port/network_interface/http_interface.c).
use rp2040_wiznet_eaa_s_aws.Prelude.{
  ◌==◌, ℕ, ◌<◌, ◌≡◌, ◌≢◌, inl, inr, refl, ◌∙◌, false, ◌==◌, List, [], ◌∷◌, ◌++◌, none, some, length,
  take-length, All-append, arith, Bool-cases, ◌>>=◌, le→not_ltb,
}
use rp2040_wiznet_eaa_s_aws.Prelude.CStr.{strncmp_text, c_str-text, IsText, is_prefix}
use rp2040_wiznet_eaa_s_aws.Http.ParseUrl.{IsToken, url_buffers, strtok-IsToken}
use rp2040_wiznet_eaa_s_aws.Http.{
  http_text, https_text, scheme_end, is_delim, scheme_port, parse_url_info,
}

longer_prefix : (s u t : List ℕ) → is_prefix s t ≡ false → is_prefix (s ++ u) t ≡ false
unfolding is_prefix
longer_prefix [] u t h = absurd (ground arith)
longer_prefix (c ∷ s) u [] h = refl
longer_prefix (c ∷ s) u (d ∷ t) h = elim (Bool-cases (c == d)) [
  | inl q ↦ rw q (longer_prefix s u t (rw q at h))
  | inr q ↦ rw q refl
]

no_scheme : (scheme : List ℕ) → is_prefix http_text scheme ≡ false → scheme_port scheme ≡ none
unfolding scheme_port
no_scheme scheme h =
    let text : IsText https_text = (
      λ q. omega arith,
      (λ q. omega arith, (λ q. omega arith, (λ q. omega arith, (λ q. omega arith, tt)))),
    ) in
    rw
      (
        strncmp_text https_text scheme text ∙ longer_prefix http_text (b's' ∷ []) scheme h,
        strncmp_text http_text scheme (text.0, (text.1.0, (text.1.1.0, (text.1.1.1.0, tt)))) ∙ h,
      )
      refl

-- Another scheme sets nothing.
pub bad_scheme :
    (scheme rest junk : List ℕ)
    → IsText scheme
    → IsText rest
    → 0 < length scheme
    → length (scheme ++ b':' ∷ rest) < 2176
    → IsToken scheme_end scheme
    → is_prefix http_text scheme ≡ false
    → parse_url_info
        ((scheme ++ b':' ∷ rest) ++ 0 ∷ junk)
        (length (scheme ++ b':' ∷ rest))
        url_buffers
        128
        2048
      ≡ some (false, url_buffers)
unfolding parse_url_info is_delim
bad_scheme scheme rest junk text_s text_r pos_s fit token no_http =
    let url : List ℕ = scheme ++ b':' ∷ rest in
    let text : IsText url =
      All-append (λ c. c ≢ 0) scheme (b':' ∷ rest) text_s (λ q. omega arith, text_r) in
    let not_full : (length url == 2176) ≡ false = ground arith in
    rw
      (
        le→not_ltb 2176 (length url) (omega arith),
        c_str-text url junk text,
        take-length url,
        not_full,
        strtok-IsToken scheme_end scheme b':' rest pos_s token refl,
        ◌>>=◌,
        no_scheme scheme no_http,
      )
      refl
