-- ===== src/Ethernet.antt =====
-- The network link (port/network_interface/ethernet.c). What the chip and the DHCP and DNS libraries answer
-- is given in advance.
use rp2040_wiznet_eaa_s_aws.Prelude.{
  ℕ, suc, Bool, true, false, ltb, if◌then◌else◌, not, List, [], ◌∷◌, Option, none, some, ◌>>=◌,
}
use rp2040_wiznet_eaa_s_aws.Prelude.Word.{sub32}

abbrev pub dhcp_retry_count : ℕ
dhcp_retry_count = 5

abbrev pub dhcp_retry_timeout_ms : ℕ
dhcp_retry_timeout_ms = 10000

-- What `DHCP_run` returns: a failure, an address, or anything else.
pub data DhcpResult : Type 0 where
  dhcp_failed dhcp_ip_leased dhcp_running : DhcpResult

-- One turn of the loop: whether the cable is linked, the clock, and the library's answer.
pub record DhcpRound : Type 0 where
  pub is_linked : Bool
  pub now : ℕ
  pub result : DhcpResult

-- The loop from a number of failures on; `none` when it still waits at the end of what was given.
unfoldable pub dhcp_loop : ℕ → ℕ → List DhcpRound → Option Bool
dhcp_loop start retry_count [] = none
dhcp_loop start retry_count (round ∷ rounds) =
    let failed = dhcp_loop start (suc retry_count) rounds in
    let again = dhcp_loop start retry_count rounds in
    if not round.is_linked
    then some false
    else if ltb dhcp_retry_timeout_ms (sub32 round.now start)
    then some false
    else if ltb dhcp_retry_count retry_count
    then some false
    else elim round.result [
      | dhcp_failed ↦ failed
      | dhcp_ip_leased ↦ some true
      | dhcp_running ↦ again
    ]

-- What a request for an address sees: the clock at its start, the turns of the loop, and the network's
-- settings that the chip has at the end.
pub record Dhcp : Type 0 where
  pub is_dynamic : Bool
  pub start : ℕ
  pub rounds : List DhcpRound
  pub net_info : List ℕ

-- The result, and `pNetInfo` behind it.
unfoldable pub dhcp_process : Dhcp → List ℕ → Option (Bool × List ℕ)
unfolding dhcp_loop
dhcp_process dhcp net_info' =
    let leased = dhcp_loop dhcp.start 0 dhcp.rounds >>= λ is_leased.
    some (if is_leased then (true, dhcp.net_info) else (false, net_info')) in
    if dhcp.is_dynamic then leased else some (true, dhcp.net_info)

-- What `DNS_run` returns: an address, a failure, or anything else.
pub data DnsResult : Type 0 where
  dns_ret_success : List ℕ → DnsResult
  dns_ret_failed dns_ret_other : DnsResult

pub record DnsRound : Type 0 where
  pub now : ℕ
  pub result : DnsResult

-- The address, if there is one in time; the inner `none` stands for a failure and for the end of the time.
unfoldable pub get_ipaddr_from_dns : ℕ → ℕ → List DnsRound → Option (Option (List ℕ))
get_ipaddr_from_dns timeout_ms start [] = none
get_ipaddr_from_dns timeout_ms start (round ∷ rounds) =
    let again = get_ipaddr_from_dns timeout_ms start rounds in
    elim round.result [
      | dns_ret_success ip ↦ some (some ip)
      | dns_ret_failed ↦ some none
      | dns_ret_other ↦ if ltb timeout_ms (sub32 round.now start) then some none else again
    ]
