-- ===== src/Http/Reach.antt =====
-- A request to a host that is reachable (port/network_interface/http_interface.c).
use rp2040_wiznet_eaa_s_aws.Prelude.{
  ℕ, suc, ◌-◌, ◌≡◌, ◌⊎◌, Bool, true, List, ◌∷◌, ◌++◌, some, length, replicate,
}
use rp2040_wiznet_eaa_s_aws.Device.{is_ipaddr}
use rp2040_wiznet_eaa_s_aws.Http.{Network}

-- The host is an address, or the name server knows it, and the connection without TLS is made.
pub record IsReachable (network : Network) (host : List ℕ) : Type 0 where
  pub is_address : Bool
  pub address : List ℕ
  pub looked_at :
      is_ipaddr (host ++ 0 ∷ replicate (128 - suc (length host)) 0) (replicate 4 0)
      ≡ some (is_address, address)
  pub found : (is_address ≡ true) ⊎ (network.dns_answer ≡ some address)
  pub opens : network.socket_opens ≡ true
  pub connected : network.connects ≡ true
