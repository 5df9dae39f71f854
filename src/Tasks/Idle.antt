-- ===== src/Tasks/Idle.antt =====
-- The task that watches the link (app/tasks/idle_task.c), without its blinking light.
use rp2040_wiznet_eaa_s_aws.Prelude.{
  ℕ, ◌*◌, Bool, true, false, ltb, if◌then◌else◌, not, ◌&&◌, Option, some, ◌>>=◌,
}
use rp2040_wiznet_eaa_s_aws.Prelude.Word.{u32, sub32}
use rp2040_wiznet_eaa_s_aws.Config.{AppCommon}
use rp2040_wiznet_eaa_s_aws.Ethernet.{Dhcp, dhcp_process}
use rp2040_wiznet_eaa_s_aws.Tasks.{System}

-- One pass: the clock, the cable, the time that the library has for the address, in seconds, the request
-- for an address if there is one, and the clock behind it.
pub record IdleRound : Type 0 where
  pub now : ℕ
  pub phy_link : Bool
  pub lease_time_s : ℕ
  pub dhcp : Dhcp
  pub behind : ℕ

unfoldable pub watch_link : Bool → AppCommon → AppCommon
watch_link phy_link app =
    if phy_link
    then record app { is_wiz_chip_link_up = true }
    else record app { is_wiz_chip_link_up = false; is_dhcp_done = false }

-- A request for an address, by a device that has none.
unfoldable pub request_address : IdleRound → AppCommon → System → Option System
unfolding dhcp_process
request_address round app' s = dhcp_process round.dhcp app'.device_info.eth_net_info >>= λ answer.
    let told : AppCommon = record app' {
      device_info = record app'.device_info { eth_net_info = answer.1 };
    } in
    some (
      if answer.0
      then record s { app = record told { is_dhcp_done = true }; refresh_dhcp_ms = round.behind }
      else record s { app = told })

unfoldable pub idle_round : IdleRound → System → Option System
unfolding watch_link request_address
idle_round round s =
    let app' = watch_link round.phy_link s.app in
    let first = request_address round app' s in
    let renew = request_address round (record app' { is_dhcp_done = false }) s in
    let same : System = record s { app = app' } in
    if not app'.is_dhcp_done && app'.is_wiz_chip_link_up
    then first
    else if app'.is_dhcp_done && app'.is_wiz_chip_link_up
    then if ltb (u32 (round.lease_time_s * 1000)) (sub32 round.now s.refresh_dhcp_ms)
      then renew
      else some same
    else some same
