-- ===== src/Http/ParseUrl.antt =====
-- What `parse_url_info` makes of a URL (port/network_interface/http_interface.c).
use rp2040_wiznet_eaa_s_aws.Prelude.{
  ◌==◌, ℕ, suc, ◌+◌, ◌-◌, ◌<◌, ◌≤◌, ◌≡◌, ◌≢◌, ◌⊎◌, inl, inr, refl, ◌∙◌, true, false, List, [], ◌∷◌,
  ◌++◌, some, length, take-length, drop, replicate, All, All-append, arith, append-nil, ◌>>=◌,
  length-replicate, le→not_ltb,
}
use rp2040_wiznet_eaa_s_aws.Prelude.Word.{u16}
use rp2040_wiznet_eaa_s_aws.Prelude.CStr.{
  c_str-text, strncmp_eq, copy_terminated, copy_terminated_text, IsText, drop-replicate,
}
use rp2040_wiznet_eaa_s_aws.Http.{
  Url, https_text, http_text, scheme_end, slash, is_delim, skip_delims, token_of, strtok,
  scheme_port, parse_url_info,
}

-- No byte of the text separates.
abbrev pub IsToken : List ℕ → List ℕ → Type 0
IsToken delims s = All (λ c. is_delim delims c ≡ false) s

token_of-IsToken :
    (delims s : List ℕ) (d : ℕ) (rest : List ℕ)
    → IsToken delims s
    → is_delim delims d ≡ true
    → token_of delims (s ++ d ∷ rest) ≡ (s, rest)
unfolding token_of
token_of-IsToken delims [] d rest h e = rw e refl
token_of-IsToken delims (c ∷ s) d rest h e = rw (h.0, token_of-IsToken delims s d rest h.1 e) refl

token_of-whole : (delims s : List ℕ) → IsToken delims s → token_of delims s ≡ (s, [])
unfolding token_of
token_of-whole delims [] h = refl
token_of-whole delims (c ∷ s) h = rw (h.0, token_of-whole delims s h.1) refl

-- A token up to the byte that ends it.
pub strtok-IsToken :
    (delims s : List ℕ) (d : ℕ) (rest : List ℕ)
    → 0 < length s
    → IsToken delims s
    → is_delim delims d ≡ true
    → strtok delims (s ++ d ∷ rest) ≡ some (s, rest)
unfolding strtok skip_delims
strtok-IsToken delims [] d rest k h e = absurd (omega arith)
strtok-IsToken delims (c ∷ s) d rest k h e =
    rw (strtok, skip_delims, h.0, token_of-IsToken delims (c ∷ s) d rest h e) refl

-- A byte that separates in front of a token is skipped.
pub strtok_skip :
    (delims : List ℕ) (d : ℕ) (s : List ℕ)
    → is_delim delims d ≡ true
    → strtok delims (d ∷ s) ≡ strtok delims s
unfolding strtok skip_delims
strtok_skip delims d s e = rw (strtok, skip_delims, e) refl

no_delims : (s : List ℕ) → IsToken [] s
unfolding is_delim
no_delims [] = tt
no_delims (c ∷ s) = (refl, no_delims s)

pub strtok_rest : (s : List ℕ) → 0 < length s → strtok [] s ≡ some (s, [])
unfolding strtok skip_delims is_delim
strtok_rest [] k = absurd (omega arith)
strtok_rest (c ∷ s) k = rw (token_of-whole [] (c ∷ s) (no_delims (c ∷ s))) refl

-- The two schemes, and their ports.
abbrev pub IsScheme : List ℕ → ℕ → Type 0
IsScheme scheme port = ((scheme ≡ https_text) × (port ≡ 443)) ⊎ ((scheme ≡ http_text) × (port ≡ 80))

-- A URL in parts.
abbrev pub url_of : List ℕ → List ℕ → List ℕ → List ℕ
url_of scheme host path = scheme ++ b':' ∷ b'/' ∷ b'/' ∷ (host ++ b'/' ∷ path)

scheme_lem :
    (scheme : List ℕ) (port : ℕ)
    → IsScheme scheme port
    → (scheme_port scheme ≡ some port)
      × IsToken scheme_end scheme
      × IsText scheme
      × (0 < length scheme)
      × (length scheme ≤ 5)
unfolding scheme_port strncmp_eq is_delim
scheme_lem scheme port (inl (e, p)) =
    rw (e, p)
      (
        refl,
        (refl, (refl, (refl, (refl, (refl, tt))))),
        (
          λ q. omega arith,
          (λ q. omega arith, (λ q. omega arith, (λ q. omega arith, (λ q. omega arith, tt)))),
        ),
        omega arith,
        omega arith,
      )
scheme_lem scheme port (inr (e, p)) =
    rw (e, p)
      (
        refl,
        (refl, (refl, (refl, (refl, tt)))),
        (λ q. omega arith, (λ q. omega arith, (λ q. omega arith, (λ q. omega arith, tt)))),
        omega arith,
        omega arith,
      )

pub scheme-IsText : (scheme : List ℕ) (port : ℕ) → IsScheme scheme port → IsText scheme
scheme-IsText scheme port h = (scheme_lem scheme port h).2

-- The buffers of the caller, as `memset` left them.
abbrev pub url_buffers : Url
url_buffers = record { address = replicate 128 0; path = replicate 2048 0; port = 0 }

host_IsToken : (host : List ℕ) → All (λ c. c ≢ b'/') host → IsToken slash host
unfolding is_delim
host_IsToken [] h = tt
host_IsToken (c ∷ host) h = (ground (arith, h.0), host_IsToken host h.1)

pub url_of-IsText :
    (scheme host path : List ℕ)
    → IsText scheme
    → IsText host
    → IsText path
    → IsText (url_of scheme host path)
url_of-IsText scheme host path h k l =
    All-append (λ c. c ≢ 0) scheme _ h
      (
        λ q. omega arith,
        (
          λ q. omega arith,
          (λ q. omega arith, All-append (λ c. c ≢ 0) host _ k (λ q. omega arith, l)),
        ),
      )

-- The two tokens behind the scheme.
host_token :
    (host path : List ℕ)
    → 0 < length host
    → All (λ c. c ≢ b'/') host
    → strtok slash (b'/' ∷ b'/' ∷ (host ++ b'/' ∷ path)) ≡ some (host, path)
unfolding is_delim
host_token host path pos_h no_slash =
    strtok_skip slash b'/' (b'/' ∷ (host ++ b'/' ∷ path)) refl
    ∙ strtok_skip slash b'/' (host ++ b'/' ∷ path) refl
    ∙ strtok-IsToken slash host b'/' path pos_h (host_IsToken host no_slash) refl

stored_text :
    (size : ℕ) (s : List ℕ)
    → IsText s
    → length s < size
    → copy_terminated (replicate size 0) s (length s)
      ≡ some (s ++ 0 ∷ replicate (size - suc (length s)) 0)
stored_text size s h fits =
    let e : copy_terminated (replicate size 0) (s ++ []) (length s)
        ≡ some (s ++ 0 ∷ drop (suc (length s)) (replicate size 0)) =
      copy_terminated_text (replicate size 0) s [] h
        (omega (arith, length-replicate {A = ℕ} size 0)) in
    let e' = rw (append-nil s, drop-replicate (suc (length s)) size 0) at e in e'

-- A URL of one of the two schemes, `://`, a host, `/` and a path, of fewer than 2176 bytes, where the host
-- and the path are not empty, the host has no `/`, and both fit their buffers with the ends, is taken apart
-- into the host, the path with its `/`, and the scheme's port.
pub parse_url_info_lem :
    (scheme host path junk : List ℕ) (port : ℕ)
    → IsScheme scheme port
    → IsText host
    → All (λ c. c ≢ b'/') host
    → IsText path
    → 0 < length host
    → length host < 128
    → 0 < length path
    → length path < 2047
    → length (url_of scheme host path) < 2176
    → parse_url_info
        (url_of scheme host path ++ 0 ∷ junk)
        (length (url_of scheme host path))
        url_buffers
        128
        2048
      ≡ some (
        true,
        record {
          address = host ++ 0 ∷ replicate (128 - suc (length host)) 0;
          path = b'/' ∷ path ++ 0 ∷ replicate (2048 - suc (suc (length path))) 0;
          port = port;
        },
      )
unfolding parse_url_info is_delim
parse_url_info_lem scheme host path junk port is_scheme text_h no_slash text_p pos_h fit_h pos_p
      fit_p fit =
    let url : List ℕ = url_of scheme host path in
    let (scheme_ok, token, text_s, pos_s, short) = scheme_lem scheme port is_scheme in
    let behind : List ℕ = b'/' ∷ b'/' ∷ (host ++ b'/' ∷ path) in
    let first : strtok scheme_end url ≡ some (scheme, behind) =
      strtok-IsToken scheme_end scheme b':' behind pos_s token refl in
    let host_len : u16 (length host) ≡ length host = omega arith in
    let path_len : u16 (length path) ≡ length path = omega arith in
    let not_full : (length url == 2176) ≡ false = ground arith in
    let next : length path + 1 ≡ suc (length path) = omega arith in
    rw
      (
        le→not_ltb 2176 (length url) (omega arith),
        c_str-text url junk (url_of-IsText scheme host path text_s text_h text_p),
        take-length url,
        not_full,
        first,
        ◌>>=◌,
        scheme_ok,
        host_token host path pos_h no_slash,
        host_len,
        le→not_ltb 128 (length host) (omega arith),
        stored_text 128 host text_h fit_h,
        strtok_rest path pos_p,
        path_len,
        le→not_ltb 2048 (length path) (omega arith),
        next,
        stored_text 2048 (b'/' ∷ path) (λ q. omega arith, text_p) (omega arith),
      )
      refl
