-- ===== src/Fleet/Handle/Freed.antt =====
-- The TLS context of a provisioning (app/aws_iot/fleet_provisioning_handler.c).
use rp2040_wiznet_eaa_s_aws.Prelude.{◌≡◌, ◌⊎◌, Bool, false}
use rp2040_wiznet_eaa_s_aws.Mqtt.{Mqtt}
use rp2040_wiznet_eaa_s_aws.Fleet.Events.{Fleet}

-- It failed, or no TLS context is left that was set up.
abbrev pub IsFreed : Bool × Fleet → Type 0
IsFreed r = (r.0 ≡ false) ⊎ (r.1.mqtt.tls_allocated ≡ false)
