-- ===== src/Tasks/DefaultDevice.antt =====
-- The configuration of a device that has none yet (app/main.c).
use rp2040_wiznet_eaa_s_aws.Prelude.{
  ℕ, ◌+◌, ◌/◌, ◌%◌, ltb, if◌then◌else◌, List, [], ◌∷◌, ◌++◌, length,
}
use rp2040_wiznet_eaa_s_aws.Prelude.CStr.{strncpy}
use rp2040_wiznet_eaa_s_aws.Config.{DeviceInfo}

abbrev pub default_mac : List ℕ
default_mac = 0x00 ∷ 0x08 ∷ 0xdc ∷ 0x12 ∷ 0x34 ∷ 0x56 ∷ []

-- The bytes of the library's structure, with those of `NETINFO_DHCP`.
abbrev pub default_net_info : List ℕ → List ℕ
default_net_info netinfo_dhcp =
    default_mac
    ++ (192 ∷ 168 ∷ 11 ∷ 2 ∷ 255 ∷ 255 ∷ 255 ∷ 0 ∷ 192 ∷ 168 ∷ 11 ∷ 1 ∷ 8 ∷ 8 ∷ 8 ∷ 8
        ∷ netinfo_dhcp)

abbrev pub thing_name_prefix : List ℕ
thing_name_prefix =
    b'e' ∷ b'a' ∷ b'a' ∷ b's' ∷ b'-' ∷ b'd' ∷ b'e' ∷ b'v' ∷ b'i' ∷ b'c' ∷ b'e' ∷ b'-' ∷ []

abbrev pub default_location : List ℕ
default_location = b'S' ∷ b'e' ∷ b'o' ∷ b'u' ∷ b'l' ∷ []

abbrev pub default_manufacturer : List ℕ
default_manufacturer = b'W' ∷ b'I' ∷ b'Z' ∷ b'n' ∷ b'e' ∷ b't' ∷ []

abbrev pub default_end_point : List ℕ
default_end_point =
    b'a' ∷ b'3' ∷ b'u' ∷ b'z' ∷ b'5' ∷ b't' ∷ b'2' ∷ b'a' ∷ b'z' ∷ b'g' ∷ b'1' ∷ b'x' ∷ b'd' ∷ b'z'
    ∷ b'-' ∷ b'a' ∷ b't' ∷ b's' ∷ b'.' ∷ b'i' ∷ b'o' ∷ b't' ∷ b'.' ∷ b'a' ∷ b'p' ∷ b'-' ∷ b'n'
    ∷ b'o' ∷ b'r' ∷ b't' ∷ b'h' ∷ b'e' ∷ b'a' ∷ b's' ∷ b't' ∷ b'-' ∷ b'2' ∷ b'.' ∷ b'a' ∷ b'm'
    ∷ b'a' ∷ b'z' ∷ b'o' ∷ b'n' ∷ b'a' ∷ b'w' ∷ b's' ∷ b'.' ∷ b'c' ∷ b'o' ∷ b'm' ∷ []

abbrev pub default_template_name : List ℕ
default_template_name =
    b'w' ∷ b'i' ∷ b'z' ∷ b'n' ∷ b'e' ∷ b't' ∷ b'-' ∷ b's' ∷ b'e' ∷ b'r' ∷ b'v' ∷ b'i' ∷ b'c' ∷ b'e'
    ∷ b'-' ∷ b't' ∷ b'e' ∷ b'm' ∷ b'p' ∷ b'l' ∷ b'a' ∷ b't' ∷ b'e' ∷ []

-- `%02X` of bytes.
abbrev pub hex_digit : ℕ → ℕ
hex_digit n = if ltb n 10 then 48 + n else 55 + n

unfoldable pub hex_text : List ℕ → List ℕ
hex_text [] = []
hex_text (b ∷ bytes) = hex_digit (b / 16) ∷ hex_digit (b % 16) ∷ hex_text bytes

-- The texts with `sizeof` are copied with their end, those with `strlen` without.
unfoldable pub set_default_device_info : List ℕ → DeviceInfo → DeviceInfo
unfolding hex_text strncpy
set_default_device_info netinfo_dhcp device =
    let name = thing_name_prefix ++ hex_text default_mac in
    record device {
      eth_net_info = default_net_info netinfo_dhcp;
      thing_name = strncpy device.thing_name name (length name);
      location = strncpy device.location default_location (length default_location + 1);
      manufacturer =
          strncpy device.manufacturer default_manufacturer (length default_manufacturer + 1);
      aws_end_point = strncpy device.aws_end_point default_end_point (length default_end_point);
      aws_template_name =
          strncpy device.aws_template_name default_template_name (length default_template_name);
    }
