-- ===== src/Tls.antt =====
-- The TLS sockets (port/network_interface/tls_socket_interface.c). What the TLS library and the sockets
-- answer, and the clock, is given in advance.
use rp2040_wiznet_eaa_s_aws.Prelude.{
  ℕ, ◌%◌, Bool, true, false, ltb, ◌==◌, if◌then◌else◌, not, ◌&&◌, ◌||◌, List, [], ◌∷◌, Option, none,
  some, map,
}
use rp2040_wiznet_eaa_s_aws.Prelude.Word.{sub32}
use rp2040_wiznet_eaa_s_aws.Prelude.Int.{ℤ, pos, negsuc, is_zero}

-- `ret < 0`, and `ret == n`.
abbrev pub is_negative : ℤ → Bool
is_negative (pos n) = false
is_negative (negsuc n) = true

abbrev pub is_number : ℕ → ℤ → Bool
is_number n (pos k) = k == n
is_number n (negsuc k) = false

-- The bytes from the numbers that `rand` gives for them.
unfoldable pub tls_random_callback : List ℕ → ℤ × List ℕ
tls_random_callback [] = (pos 1, [])
tls_random_callback (r ∷ rands) = (pos 0, map (λ n. n % 0xff) (r ∷ rands))

-- One turn of a loop that reads: whether bytes wait, what `recv` returns, and the clock behind it.
pub record RecvRound : Type 0 where
  pub rx_size : ℕ
  pub recv_result : ℤ
  pub now : ℕ

unfoldable pub recv_timeout : ℕ → ℕ → List RecvRound → Option ℤ
recv_timeout timeout start [] = none
recv_timeout timeout start (round ∷ rounds) =
    let again = recv_timeout timeout start rounds in
    if ltb 0 round.rx_size
    then some round.recv_result
    else if ltb (sub32 round.now start) timeout
    then again
    else some (pos 0)

-- The results of the library's calls in their order.
pub record TlsSetUp : Type 0 where
  pub crt_parse_root : ℤ
  pub set_hostname : ℤ
  pub crt_parse_client : ℤ
  pub pk_parse_key : ℤ
  pub config_defaults : ℤ
  pub conf_own_cert : ℤ
  pub ssl_setup : ℤ

-- The certificates, by the two options of the context.
unfoldable pub certificates_fail : Bool → Bool → TlsSetUp → Bool
certificates_fail rootca_option clica_option t =
    (rootca_option && (is_negative t.crt_parse_root || not (is_zero t.set_hostname)))
    || (clica_option && (not (is_zero t.crt_parse_client) || not (is_zero t.pk_parse_key)))

unfoldable pub tls_socket_init : Bool → Bool → TlsSetUp → ℤ
unfolding certificates_fail
tls_socket_init rootca_option clica_option t =
    if certificates_fail rootca_option clica_option t
    then negsuc 0
    else if not (is_zero t.config_defaults)
    then negsuc 0
    else if clica_option && not (is_zero t.conf_own_cert)
    then negsuc 0
    else if not (is_zero t.ssl_setup)
    then negsuc 0
    else pos 0

-- What `mbedtls_ssl_handshake` returns: 0, a request to be called again, or an error.
pub data HandshakeResult : Type 0 where
  handshake_done handshake_wants handshake_error : HandshakeResult

pub record HandshakeRound : Type 0 where
  pub result : HandshakeResult
  pub now : ℕ

unfoldable pub handshake_loop : ℕ → ℕ → List HandshakeRound → Option ℤ
handshake_loop timeout start [] = none
handshake_loop timeout start (round ∷ rounds) =
    let again = handshake_loop timeout start rounds in
    elim round.result [
      | handshake_done ↦ some (pos 0)
      | handshake_error ↦ some (negsuc 0)
      | handshake_wants ↦ if ltb timeout (sub32 round.now start) then some (negsuc 0) else again
    ]

-- `sock_ok` is the number of SOCK_OK.
unfoldable pub tls_socket_connect_timeout : ℕ → ℕ → ℤ → ℤ → ℕ → ℕ → List HandshakeRound → Option ℤ
unfolding handshake_loop
tls_socket_connect_timeout sock_ok sock socket_result connect_result timeout start rounds =
    let handshake = handshake_loop timeout start rounds in
    if not (is_number sock socket_result)
    then some socket_result
    else if not (is_number sock_ok connect_result)
    then some connect_result
    else handshake

-- What `disconnect` returns, and the clock behind it.
pub record DisconnectRound : Type 0 where
  pub result : ℤ
  pub is_timeout : Bool
  pub now : ℕ

-- The number of the socket, or what the last `disconnect` returned.
unfoldable pub tls_transport_disconnect : ℕ → ℕ → ℕ → ℕ → List DisconnectRound → Option ℤ
tls_transport_disconnect sock_ok sock timeout start [] = none
tls_transport_disconnect sock_ok sock timeout start (round ∷ rounds) =
    let again = tls_transport_disconnect sock_ok sock timeout start rounds in
    if is_number sock_ok round.result
    then some (pos sock)
    else if round.is_timeout
    then some round.result
    else if ltb (sub32 round.now start) timeout
    then again
    else some round.result
