-- ===== src/Http/Io.antt =====
-- What the HTTP library reads and writes through (port/network_interface/http_interface.c). Whether the
-- socket is connected, and what it and the TLS library return, is given in advance.
use rp2040_wiznet_eaa_s_aws.Prelude.{
  ℕ, Bool, ltb, if◌then◌else◌, not, List, [], ◌∷◌, Option, none, some,
}
use rp2040_wiznet_eaa_s_aws.Prelude.Word.{sub32}
use rp2040_wiznet_eaa_s_aws.Prelude.Int.{ℤ, pos, is_zero}
use rp2040_wiznet_eaa_s_aws.Tls.{RecvRound}

abbrev pub http_timeout : ℕ
http_timeout = 10000

unfoldable pub http_write : Bool → ℤ → ℤ
http_write is_established send_result = if is_established then send_result else pos 0

-- The loop that waits for bytes; `none` when it still waits at the end of what was given.
unfoldable pub http_read : ℕ → List RecvRound → Option ℤ
http_read start [] = none
http_read start (round ∷ rounds) =
    let size : ℤ = if ltb 0 round.rx_size then round.recv_result else pos 0 in
    let again = http_read start rounds in
    if not (is_zero size)
    then some size
    else if ltb http_timeout (sub32 round.now start)
    then some size
    else again

unfoldable pub https_write : Bool → ℤ → ℤ
https_write is_established write_result = if is_established then write_result else pos 0

-- With `tls_socket_read` in place of `recv`.
unfoldable pub https_read : ℕ → List RecvRound → Option ℤ
unfolding http_read
https_read start rounds = http_read start rounds
