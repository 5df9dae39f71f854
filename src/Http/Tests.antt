-- ===== src/Http/Tests.antt =====
-- The HTTP client on a concrete URL.
use rp2040_wiznet_eaa_s_aws.Prelude.{
  ℕ, ◌-◌, ◌≡◌, refl, true, false, List, [], ◌∷◌, ◌++◌, suc, Option, none, some, length, replicate,
  arith, ◌⊎◌, inl, inr,
}
use rp2040_wiznet_eaa_s_aws.Prelude.Int.{ℤ, pos}
use rp2040_wiznet_eaa_s_aws.Http.{
  get, HttpConfig, Network, empty_http_config, http_idle, http_text, https_text, parse_url_info,
  http_get,
}
use rp2040_wiznet_eaa_s_aws.Http.ParseUrl.{url_of, url_buffers, parse_url_info_lem}
use rp2040_wiznet_eaa_s_aws.Http.State.{http_get-idle}

abbrev test_host : List ℕ
test_host = b'1' ∷ b'0' ∷ b'.' ∷ b'0' ∷ b'.' ∷ b'0' ∷ b'.' ∷ b'1' ∷ []

abbrev test_path : List ℕ
test_path = b'f' ∷ b'w' ∷ b'.' ∷ b'b' ∷ b'i' ∷ b'n' ∷ []

abbrev test_url : List ℕ
test_url = url_of http_text test_host test_path ++ 0 ∷ []

abbrev up : Network
up = record {
  dns_answer = none;
  socket_opens = true;
  connects = true;
  tls_connects = false;
  http_network_error = pos 2;
}

-- A callback that counts its calls.
abbrev counted : HttpConfig → ℕ → Option (ℤ × ℕ)
counted config n = some (pos 0, suc n)

parse_url_info_lem_example :
    parse_url_info test_url (length (url_of http_text test_host test_path)) url_buffers 128 2048
    ≡ some (
      true,
      record {
        address = test_host ++ 0 ∷ replicate (128 - suc (length test_host)) 0;
        path = b'/' ∷ test_path ++ 0 ∷ replicate (2048 - suc (suc (length test_path))) 0;
        port = 80;
      },
    )
parse_url_info_lem_example =
    parse_url_info_lem http_text test_host test_path [] 80 (inr (refl, refl))
      (
        λ q. omega arith,
        (
          λ q. omega arith,
          (
            λ q. omega arith,
            (
              λ q. omega arith,
              (λ q. omega arith, (λ q. omega arith, (λ q. omega arith, (λ q. omega arith, tt)))),
            ),
          ),
        ),
      )
      (
        λ q. omega arith,
        (
          λ q. omega arith,
          (
            λ q. omega arith,
            (
              λ q. omega arith,
              (λ q. omega arith, (λ q. omega arith, (λ q. omega arith, (λ q. omega arith, tt)))),
            ),
          ),
        ),
      )
      (
        λ q. omega arith,
        (
          λ q. omega arith,
          (λ q. omega arith, (λ q. omega arith, (λ q. omega arith, (λ q. omega arith, tt)))),
        ),
      )
      (omega arith) (omega arith) (omega arith) (omega arith) (omega arith)

-- The URL names TLS, and the connection is made.
abbrev secure_config : HttpConfig
secure_config = record {
  http_state = http_idle;
  http_method = get;
  http_domain = test_host ++ 0 ∷ replicate (128 - suc (length test_host)) 0;
  http_domain_len = 8;
  http_path = b'/' ∷ test_path ++ 0 ∷ replicate (2048 - suc (suc (length test_path))) 0;
  http_path_len = 7;
  http_ip = 10 ∷ 0 ∷ 0 ∷ 1 ∷ [];
  http_port = 443;
  ssl_flag = true;
}

http_get-idle_example :
    (secure_config.http_state ≡ http_idle)
    × (◌≡◌ {A = ℕ} 443 80 ⊎ ((false ≡ true) ⊎ ((true ≡ true) × (true ≡ true))))
unfolding http_get
http_get-idle_example =
    http_get-idle counted (record up { tls_connects = true }) https_text test_host test_path [] 443
      empty_http_config secure_config true false 7 8 (pos 0) (inl (refl, refl))
      (
        λ q. omega arith,
        (
          λ q. omega arith,
          (
            λ q. omega arith,
            (
              λ q. omega arith,
              (λ q. omega arith, (λ q. omega arith, (λ q. omega arith, (λ q. omega arith, tt)))),
            ),
          ),
        ),
      )
      (
        λ q. omega arith,
        (
          λ q. omega arith,
          (
            λ q. omega arith,
            (
              λ q. omega arith,
              (λ q. omega arith, (λ q. omega arith, (λ q. omega arith, (λ q. omega arith, tt)))),
            ),
          ),
        ),
      )
      (
        λ q. omega arith,
        (
          λ q. omega arith,
          (λ q. omega arith, (λ q. omega arith, (λ q. omega arith, (λ q. omega arith, tt)))),
        ),
      )
      (omega arith) (omega arith) (omega arith) (omega arith) (omega arith) refl refl

-- A request over TLS without a context ends in the null pointer.
no_context :
    http_get counted up
      (url_of https_text test_host test_path ++ 0 ∷ [])
      false
      false
      empty_http_config
      7
    ≡ none
unfolding http_get
no_context = refl

-- A copy of 2176 bytes has no end.
full_url : parse_url_info (replicate 2176 b'a' ++ 0 ∷ []) 2176 url_buffers 128 2048 ≡ none
unfolding parse_url_info
full_url = refl
