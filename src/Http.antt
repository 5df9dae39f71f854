-- ===== src/Http.antt =====
-- The HTTP client's connection (port/network_interface/http_interface.c). What the network answers during
-- a request is given in advance; so are the results of the TLS library.
pub mod Io
pub mod ParseUrl
pub mod Reach
pub mod Refused
pub mod State
mod Tests
use rp2040_wiznet_eaa_s_aws.Prelude.{
  ℕ, zero, suc, ◌+◌, ◌%◌, ◌^◌, Bool, true, false, ltb, ◌==◌, if◌then◌else◌, ◌||◌, ◌&&◌, not, List,
  [], ◌∷◌, ◌++◌, Option, none, some, length, take, replicate, ◌>>=◌,
}
use rp2040_wiznet_eaa_s_aws.Prelude.Word.{u16}
use rp2040_wiznet_eaa_s_aws.Prelude.Int.{ℤ, pos, negsuc, is_zero}
use rp2040_wiznet_eaa_s_aws.Prelude.CStr.{c_str, strlen, strncmp_eq, copy_terminated}
use rp2040_wiznet_eaa_s_aws.Device.{is_ipaddr}

abbrev pub http_url_max_size : ℕ
http_url_max_size = 2176

abbrev pub http_domain_max_size : ℕ
http_domain_max_size = 128

abbrev pub http_path_max_size : ℕ
http_path_max_size = 2048

abbrev pub https_text : List ℕ
https_text = b'h' ∷ b't' ∷ b't' ∷ b'p' ∷ b's' ∷ []

abbrev pub http_text : List ℕ
http_text = b'h' ∷ b't' ∷ b't' ∷ b'p' ∷ []

abbrev pub scheme_end : List ℕ
scheme_end = b':' ∷ b'/' ∷ b'/' ∷ []

abbrev pub slash : List ℕ
slash = b'/' ∷ []

pub data HttpState : Type 0 where
  http_idle http_running : HttpState

pub data HttpMethod : Type 0 where
  get post : HttpMethod

-- The request's body, which stays empty, is left out.
pub record HttpConfig : Type 0 where
  pub http_state : HttpState
  pub http_method : HttpMethod
  pub http_domain : List ℕ
  pub http_domain_len : ℕ
  pub http_path : List ℕ
  pub http_path_len : ℕ
  pub http_ip : List ℕ
  pub http_port : ℕ
  pub ssl_flag : Bool

-- What `memset` leaves.
abbrev pub empty_http_config : HttpConfig
empty_http_config = record {
  http_state = http_idle;
  http_method = get;
  http_domain = replicate http_domain_max_size 0;
  http_domain_len = 0;
  http_path = replicate http_path_max_size 0;
  http_path_len = 0;
  http_ip = replicate 4 0;
  http_port = 0;
  ssl_flag = false;
}

-- `strtok`: the bytes that separate are skipped, the text up to the next of them is the token.
unfoldable pub is_delim : List ℕ → ℕ → Bool
is_delim [] c = false
is_delim (d ∷ delims) c = let rest = is_delim delims c in if c == d then true else rest

unfoldable pub skip_delims : List ℕ → List ℕ → List ℕ
unfolding is_delim
skip_delims delims [] = []
skip_delims delims (c ∷ text) =
    let rest = skip_delims delims text in if is_delim delims c then rest else c ∷ text

-- The token and the text behind the byte that ends it.
unfoldable pub token_of : List ℕ → List ℕ → List ℕ × List ℕ
unfolding is_delim
token_of delims [] = ([], [])
token_of delims (c ∷ text) =
    let rest = token_of delims text in
    if is_delim delims c then ([], text) else (c ∷ rest.0, rest.1)

-- `none` is the null pointer.
unfoldable pub strtok : List ℕ → List ℕ → Option (List ℕ × List ℕ)
unfolding skip_delims token_of
strtok delims text = elim (skip_delims delims text) [
  | [] ↦ none
  | c ∷ text' ↦ some (token_of delims (c ∷ text'))
]

-- What `parse_url_info` writes through its pointers.
pub record Url : Type 0 where
  pub address : List ℕ
  pub path : List ℕ
  pub port : ℕ

unfoldable pub scheme_port : List ℕ → Option ℕ
unfolding strncmp_eq
scheme_port scheme =
    if strncmp_eq scheme https_text 5
    then some 443
    else if strncmp_eq scheme http_text 4
    then some 80
    else none

-- `none` is a null pointer that is read, a write behind the end of a buffer, or a copy that fills
-- `tempUrl`: it has no end then, and `strtok` reads behind it.
unfoldable pub parse_url_info : List ℕ → ℕ → Url → ℕ → ℕ → Option (Bool × Url)
unfolding strtok scheme_port copy_terminated c_str
parse_url_info url url_len out max_address_len max_path_len =
    if ltb http_url_max_size url_len
    then some (false, out)
    else if length (take url_len (c_str url)) == http_url_max_size
    then none
    else strtok scheme_end (take url_len (c_str url)) >>= λ first. elim (scheme_port first.0) [
      | none ↦ some (false, out)
      | some port' ↦ strtok slash first.1 >>= λ second.
          if ltb max_address_len (u16 (length second.0))
          then some (false, record out { port = port' })
          else copy_terminated out.address second.0 (u16 (length second.0)) >>= λ address'.
              strtok [] second.1 >>= λ third.
              if ltb max_path_len (u16 (length third.0))
              then some (false, record out { address = address'; port = port' })
              else copy_terminated out.path (b'/' ∷ third.0) (length third.0 + 1) >>= λ path'.
                  some (true, record { address = address'; path = path'; port = port' })
    ]

-- The answers of one request: the address that the name server gives, and whether the calls of the
-- socket and of the TLS library succeed;
-- and the client library's number for a network error.
pub record Network : Type 0 where
  pub dns_answer : Option (List ℕ)
  pub socket_opens : Bool
  pub connects : Bool
  pub tls_connects : Bool
  pub http_network_error : ℤ

unfoldable pub http_connect : Network → ℤ
http_connect network =
    if not network.socket_opens then negsuc 0 else if not network.connects then negsuc 0 else pos 0

-- The first argument tells whether `g_http_tls_context_ptr` is set: `https_connect` sets it when the
-- connection is made, and `http_close` resets it, so it is not set between two requests. `none` is the
-- use of the null pointer.
unfoldable pub http_close : Bool → HttpConfig → Option HttpConfig
http_close tls_set config =
    if config.ssl_flag && not tls_set then none else some (record config { http_state = http_idle })

-- A return behind `http_close`.
unfoldable pub close_return : {S : Type 0} → Bool → HttpConfig → ℤ → S → Option (ℤ × HttpConfig × S)
unfolding http_close
close_return tls_set config ret s = http_close tls_set config >>= λ config'. some (ret, config', s)

-- The answer of `is_ipaddr`, and of the name server where the domain is no address.
unfoldable pub resolve : Network → HttpConfig → Option (Bool × HttpConfig)
unfolding is_ipaddr
resolve network config = is_ipaddr config.http_domain config.http_ip >>= λ answer.
    if answer.0
    then some (true, record config { http_ip = answer.1 })
    else elim network.dns_answer [
      | none ↦ some (false, record config { http_ip = answer.1 })
      | some ip ↦ some (true, record config { http_ip = ip })
    ]

-- `S` is the state that the callback changes; a fault in the callback is its `none`.
module _ {S : Type 0} (request : HttpConfig → S → Option (ℤ × S)) (network : Network) where
  -- From the choice of the connection on.
  unfoldable pub http_exchange : HttpConfig → Bool → S → Option (ℤ × HttpConfig × S)
  unfolding http_connect close_return
  http_exchange config tls_given s =
      let run = λ (tls_set : Bool).
        request config s >>= λ done. close_return tls_set config done.0 done.1 in
      if config.ssl_flag
      then if not tls_given
        then close_return false config (negsuc 0) s
        else if network.tls_connects
        then run true
        else close_return false config network.http_network_error s
      else if is_zero (http_connect network)
      then run false
      else close_return false config network.http_network_error s

  -- From the check of the port on.
  unfoldable pub http_open : HttpConfig → Bool → Bool → S → Option (ℤ × HttpConfig × S)
  unfolding resolve http_exchange close_return strlen
  http_open config tls_given force_http s =
      let secure = config.http_port == 443 in
      let config' : HttpConfig = record config {
        http_domain_len = strlen config.http_domain;
        http_path_len = strlen config.http_path;
        http_port = if force_http then 80 else config.http_port;
        ssl_flag = if force_http then false else secure;
      } in
      let opened = resolve network config' >>= λ found.
      if found.0
      then http_exchange (record found.1 { http_method = get }) tls_given s
      else close_return false found.1 (negsuc 0) s in
      if secure || config.http_port == 80 then opened else some (negsuc 0, config, s)

  -- The result of `parse_url_info` is not looked at, only the port.
  unfoldable pub http_get : List ℕ → Bool → Bool → HttpConfig → S → Option (ℤ × HttpConfig × S)
  unfolding parse_url_info http_open strlen
  http_get url tls_given force_http config s = elim config.http_state [
    | http_running ↦ some (negsuc 0, config, s)
    | http_idle ↦
        parse_url_info url (u16 (strlen url))
          (record {
            address = empty_http_config.http_domain;
            path = empty_http_config.http_path;
            port = 0;
          })
          http_domain_max_size http_path_max_size
        >>= λ parsed.
            http_open
              (record empty_http_config {
                http_state = http_running;
                http_domain = parsed.1.address;
                http_path = parsed.1.path;
                http_port = parsed.1.port;
              })
              tls_given force_http s
  ]
