-- ===== src/Tasks/MainApp.antt =====
-- The task for the provisioning (app/tasks/main_app_task.c), with the check of the certificate
-- (port/device_common/simple_cert_checker.c).
use rp2040_wiznet_eaa_s_aws.Prelude.{
  ℕ, Bool, true, false, if◌then◌else◌, not, ◌&&◌, List, [], ◌∷◌, ◌++◌, take, drop, Option, some,
  ◌>>=◌,
}
use rp2040_wiznet_eaa_s_aws.Prelude.CStr.{c_str}
use rp2040_wiznet_eaa_s_aws.Config.{AppCommon}
use rp2040_wiznet_eaa_s_aws.Flash.Layout.{max_pem_size}
use rp2040_wiznet_eaa_s_aws.Flash.Rom.{FlashRom}
use rp2040_wiznet_eaa_s_aws.Flash.{load_flash_provisioned_cert_info}
use rp2040_wiznet_eaa_s_aws.Mqtt.{TlsContext}
use rp2040_wiznet_eaa_s_aws.Mqtt.Connect.{ConnectAnswers}
use rp2040_wiznet_eaa_s_aws.Fleet.Parse.{Cbor}
use rp2040_wiznet_eaa_s_aws.Fleet.Events.{Fleet}
use rp2040_wiznet_eaa_s_aws.Fleet.Handle.{Phase, fleet_provisioning_handle}
use rp2040_wiznet_eaa_s_aws.Tasks.{System, has_network}

-- Whether the TLS library accepts a text, with its end, as a certificate and as a key.
pub record Pem : Type 0 where
  pub mbedtls_x509_crt_parse : List ℕ → Bool
  pub mbedtls_pk_parse_key : List ℕ → Bool

unfoldable pub is_valid_pem_certificate : Pem → List ℕ → Bool
unfolding c_str
is_valid_pem_certificate pem cert = pem.mbedtls_x509_crt_parse (c_str cert ++ 0 ∷ [])

unfoldable pub is_valid_pem_private_key : Pem → List ℕ → Bool
unfolding c_str
is_valid_pem_private_key pem key = pem.mbedtls_pk_parse_key (c_str key ++ 0 ∷ [])

-- The start of the task: without a certificate and a key that can be read one has to be asked for.
unfoldable pub main_app_start : Pem → System → System
unfolding is_valid_pem_certificate is_valid_pem_private_key load_flash_provisioned_cert_info
main_app_start pem s =
    let info = load_flash_provisioned_cert_info s.jobs.flash in
    let is_valid =
      is_valid_pem_certificate pem (take max_pem_size info)
      && is_valid_pem_private_key pem (take max_pem_size (drop max_pem_size info)) in
    record s {
      main_started = true;
      app = record s.app {
        is_valid_claim_cert_info = false;
        is_valid_provisioned_cert_info = is_valid;
        enable_refresh_provisioned_cert = not is_valid;
      };
    }

-- What a provisioning meets.
pub record MainRound : Type 0 where
  pub connect : ConnectAnswers
  pub create : Phase
  pub register : Phase

module _ (rom : FlashRom) (cbor : Cbor) (claim : TlsContext) where
  unfoldable pub refresh_cert : MainRound → System → Option System
  unfolding fleet_provisioning_handle
  refresh_cert round s =
      let app' : AppCommon = record s.app { is_run_aws_iot_jobs = false } in
      let fleet' : Fleet = record s.fleet { mqtt = s.mqtt; flash = s.jobs.flash } in
      fleet_provisioning_handle rom cbor claim round.connect round.create round.register
        app'.device_info fleet'
      >>= λ r.
          let s' : System = record s {
            fleet = r.1;
            mqtt = r.1.mqtt;
            jobs = record s.jobs { flash = r.1.flash };
          } in
          some (
            if r.0
            then record s' {
              app = record app' {
                enable_refresh_provisioned_cert = false;
                is_run_aws_iot_jobs = true;
              };
            }
            else record s' { app = app' })

  unfoldable pub main_app_round : Pem → MainRound → System → Option System
  unfolding main_app_start refresh_cert
  main_app_round pem round s =
      let refresh = refresh_cert round s in
      if not (has_network s.app)
      then some s
      else if not s.main_started
      then some (main_app_start pem s)
      else if s.app.enable_refresh_provisioned_cert
      then refresh
      else if s.app.is_valid_provisioned_cert_info
      then some (record s { app = record s.app { is_run_aws_iot_jobs = true } })
      else some s
