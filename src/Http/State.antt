-- ===== src/Http/State.antt =====
-- The state of the HTTP client across requests (port/network_interface/http_interface.c).
use rp2040_wiznet_eaa_s_aws.Prelude.{
  ℕ, suc, ◌-◌, ◌<◌, ◌≡◌, ◌≢◌, ◌⊎◌, inl, inr, refl, Bool, true, false, ◌==◌, if◌then◌else◌, ◌||◌,
  List, ◌∷◌, ◌++◌, Option, none, some, length, replicate, All, arith, Bool-cases, ◌>>=◌,
}
use rp2040_wiznet_eaa_s_aws.Prelude.Word.{u16}
use rp2040_wiznet_eaa_s_aws.Prelude.Int.{ℤ, negsuc}
use rp2040_wiznet_eaa_s_aws.Prelude.CStr.{strlen-text, IsText}
use rp2040_wiznet_eaa_s_aws.Http.ParseUrl.{
  IsScheme, url_of, url_of-IsText, parse_url_info_lem, scheme-IsText,
}
use rp2040_wiznet_eaa_s_aws.Http.{
  Network, HttpConfig, http_idle, http_running, get, empty_http_config, http_exchange, http_open,
  http_get, http_close, close_return, resolve,
}

-- The request returned -1, with a configuration and a state of the given kind.
unfoldable pub Stuck :
    {S : Type 0} → Option (ℤ × HttpConfig × S) → (HttpConfig → S → Type 0) → Type 0
Stuck none P = ⊥
Stuck (some (ret, config, s)) P = (ret ≡ negsuc 0) × P config s

closed_idle :
    {S : Type 0} (tls_set : Bool) (config config' : HttpConfig) (ret ret' : ℤ) (s s' : S)
    → close_return tls_set config ret s ≡ some (ret', config', s')
    → config'.http_state ≡ http_idle
unfolding close_return http_close
closed_idle tls_set config config' ret ret' s s' e = ground arith

module _ {S : Type 0} (request : HttpConfig → S → Option (ℤ × S)) (network : Network) where
  http_exchange_idle :
      (config config' : HttpConfig) (tls_given : Bool) (s s' : S) (ret : ℤ)
      → http_exchange request network config tls_given s ≡ some (ret, config', s')
      → config'.http_state ≡ http_idle
  unfolding http_exchange close_return http_close
  http_exchange_idle config config' tls_given s s' ret e = ground arith

  resolved_idle :
      (found : Option (Bool × HttpConfig)) (config' : HttpConfig) (tls_given : Bool) (s s' : S)
      (ret : ℤ)
      → (found >>= λ answer.
          if answer.0
          then http_exchange request network (record answer.1 { http_method = get }) tls_given s
          else close_return false answer.1 (negsuc 0) s)
        ≡ some (ret, config', s')
      → config'.http_state ≡ http_idle
  resolved_idle none config' tls_given s s' ret e = ground arith
  resolved_idle (some (true, config)) config' tls_given s s' ret e =
      http_exchange_idle (record config { http_method = get }) config' tls_given s s' ret e
  resolved_idle (some (false, config)) config' tls_given s s' ret e =
      closed_idle false config config' (negsuc 0) ret s s' e

  http_open_idle :
      (config config' : HttpConfig) (tls_given force_http : Bool) (s s' : S) (ret : ℤ)
      → (config.http_port ≡ 443) ⊎ (config.http_port ≡ 80)
      → http_open request network config tls_given force_http s ≡ some (ret, config', s')
      → config'.http_state ≡ http_idle
  unfolding http_open
  http_open_idle config config' tls_given force_http s s' ret port e =
      elim (Bool-cases (config.http_port == 443 || config.http_port == 80)) [
        | inl known ↦ resolved_idle _ config' tls_given s s' ret (rw known at e)
        | inr unknown ↦ absurd (ground arith)
      ]

  -- A request over TLS returns only with a TLS context and a connection: otherwise `http_close` uses the
  -- null pointer.
  open_given :
      (config config' : HttpConfig) (tls_given : Bool) (s s' : S) (ret : ℤ)
      → config.http_port ≡ 443
      → http_open request network config tls_given false s ≡ some (ret, config', s')
      → (tls_given ≡ true) × (network.tls_connects ≡ true)
  unfolding http_open http_exchange close_return http_close resolve
  open_given config config' tls_given s s' ret secure e = (ground arith, ground arith)

  open_kind :
      (config config' : HttpConfig) (tls_given force_http : Bool) (s s' : S) (ret : ℤ)
      → (config.http_port ≡ 443) ⊎ (config.http_port ≡ 80)
      → http_open request network config tls_given force_http s ≡ some (ret, config', s')
      → (config.http_port ≡ 80)
        ⊎ ((force_http ≡ true) ⊎ ((tls_given ≡ true) × (network.tls_connects ≡ true)))
  open_kind config config' tls_given force_http s s' ret (inr plain) e = inl plain
  open_kind config config' tls_given true s s' ret (inl secure) e = inr (inl refl)
  open_kind config config' tls_given false s s' ret (inl secure) e =
      inr (inr (open_given config config' tls_given s s' ret secure e))

  -- A request, from the idle state, for a URL of one of the two schemes, `://`, a host, `/` and a path,
  -- where the host and the path are not empty and fit their buffers, the host has no `/`, and the URL
  -- has fewer than 2176 bytes: when it returns, the client is idle, whatever the network, the name
  -- server and the callback answered; and it went over plain HTTP, by its scheme or by `force_http`, or
  -- it had a TLS context and the TLS connection was made. (In every other case over TLS `http_close` uses
  -- the null pointer of the TLS context.)
  pub http_get-idle :
      (scheme host path junk : List ℕ) (port : ℕ) (config config' : HttpConfig)
      (tls_given force_http : Bool) (s s' : S) (ret : ℤ)
      → IsScheme scheme port
      → IsText host
      → All (λ c. c ≢ b'/') host
      → IsText path
      → 0 < length host
      → length host < 128
      → 0 < length path
      → length path < 2047
      → length (url_of scheme host path) < 2176
      → config.http_state ≡ http_idle
      → http_get request network (url_of scheme host path ++ 0 ∷ junk) tls_given force_http config s
        ≡ some (ret, config', s')
      → (config'.http_state ≡ http_idle)
        × ((port ≡ 80)
            ⊎ ((force_http ≡ true) ⊎ ((tls_given ≡ true) × (network.tls_connects ≡ true))))
  unfolding http_get
  http_get-idle scheme host path junk port config config' tls_given force_http s s' ret is_scheme
        text_h no_slash text_p pos_h fit_h pos_p fit_p fit idle e =
      let url : List ℕ = url_of scheme host path in
      let known : (port ≡ 443) ⊎ (port ≡ 80) = ground (arith, is_scheme) in
      let len : u16 (length url) ≡ length url = omega arith in
      let e' =
        rw
          (
            idle,
            strlen-text url junk (
                url_of-IsText scheme host path (scheme-IsText scheme port is_scheme) text_h text_p),
            len,
            parse_url_info_lem scheme host path junk port is_scheme text_h no_slash text_p pos_h
                fit_h pos_p fit_p fit,
          )
          at e in
      let opened : HttpConfig = record empty_http_config {
        http_state = http_running;
        http_domain = host ++ 0 ∷ replicate (128 - suc (length host)) 0;
        http_path = b'/' ∷ path ++ 0 ∷ replicate (2048 - suc (suc (length path))) 0;
        http_port = port;
      } in
      (
        http_open_idle opened config' tls_given force_http s s' ret known e',
        open_kind opened config' tls_given force_http s s' ret known e',
      )
