-- ===== src/Config.antt =====
-- The configuration that the boot loader, the tasks and the flash share (port/device_common/config.h),
-- and how the compiler lays it out in memory, which the program takes as given.
use rp2040_wiznet_eaa_s_aws.Prelude.{
  ℕ, ◌+◌, ◌*◌, ◌/◌, ◌%◌, ◌^◌, ◌≤◌, ◌<◌, ◌≡◌, refl, Bool, List, Mem, arith, ◌==◌, if◌then◌else◌,
}

-- OTA_STATUS_t; a byte of erased flash is neither of the two.
abbrev pub start_fw_ota_disable : ℕ
start_fw_ota_disable = 0

abbrev pub start_fw_ota_enable : ℕ
start_fw_ota_enable = 1

pub record DeviceOtaInfo : Type 0 where
  pub start_firmware_ota_status : ℕ
  pub firmware_size : ℕ
  pub firmware_crc : ℕ

-- The network library's structure is kept as its bytes.
pub record DeviceInfo : Type 0 where
  pub eth_net_info : List ℕ
  pub thing_name : List ℕ
  pub location : List ℕ
  pub manufacturer : List ℕ
  pub aws_end_point : List ℕ
  pub aws_template_name : List ℕ
  pub cert_ownership_token : List ℕ

pub data JobsStatus : Type 0 where
  jobs_disconnected jobs_connected : JobsStatus

pub record AppCommon : Type 0 where
  pub device_info : DeviceInfo
  pub device_ota_info : DeviceOtaInfo
  pub aws_iot_jobs_status : JobsStatus
  pub is_wiz_chip_link_up : Bool
  pub is_dhcp_done : Bool
  pub is_valid_claim_cert_info : Bool
  pub is_valid_provisioned_cert_info : Bool
  pub enable_refresh_provisioned_cert : Bool
  pub is_run_aws_iot_jobs : Bool
  pub enable_reboot : Bool

-- The layout of APP_COMMON_t: its size, the bytes of a value, and the two fields that the boot loader
-- reads and the one that it writes, on the bytes.
pub record Layout : Type 0 where
  pub sizeof_app_common : ℕ
  pub bytes_of : AppCommon → Mem
  pub ota_status_of : Mem → ℕ
  pub firmware_size_of : Mem → ℕ
  pub with_ota_status : ℕ → Mem → Mem

-- The structure fits the space before the claim certificates; a field lies within the structure; and
-- writing the status changes no other field.
pub record IsLayout (layout : Layout) : Type 0 where
  pub fits : layout.sizeof_app_common ≤ 0x2000
  pub status_of_bytes :
      (app : AppCommon)
      → app.device_ota_info.start_firmware_ota_status < 2
      → layout.ota_status_of (layout.bytes_of app) ≡ app.device_ota_info.start_firmware_ota_status
  pub size_of_bytes :
      (app : AppCommon)
      → app.device_ota_info.firmware_size < 2 ^ 32
      → layout.firmware_size_of (layout.bytes_of app) ≡ app.device_ota_info.firmware_size
  pub status_within :
      (m m' : Mem)
      → ((k : ℕ) → k < layout.sizeof_app_common → m k ≡ m' k)
      → layout.ota_status_of m ≡ layout.ota_status_of m'
  pub size_within :
      (m m' : Mem)
      → ((k : ℕ) → k < layout.sizeof_app_common → m k ≡ m' k)
      → layout.firmware_size_of m ≡ layout.firmware_size_of m'
  pub status_of_with :
      (status : ℕ) (m : Mem)
      → status < 2
      → layout.ota_status_of (layout.with_ota_status status m) ≡ status
  pub size_of_with :
      (status : ℕ) (m : Mem)
      → layout.firmware_size_of (layout.with_ota_status status m) ≡ layout.firmware_size_of m

-- A layout with the status in the first byte and the size in the next four.
abbrev pub simple_layout : Layout
simple_layout = record {
  sizeof_app_common = 8;
  bytes_of = λ app i.
      if i == 0
      then app.device_ota_info.start_firmware_ota_status
      else if i == 1
      then app.device_ota_info.firmware_size % 256
      else if i == 2
      then app.device_ota_info.firmware_size / 256 % 256
      else if i == 3
      then app.device_ota_info.firmware_size / 65536 % 256
      else app.device_ota_info.firmware_size / 16777216 % 256;
  ota_status_of = λ m. m 0;
  firmware_size_of = λ m. m 1 + m 2 * 256 + m 3 * 65536 + m 4 * 16777216;
  with_ota_status = λ status m i. if i == 0 then status else m i;
}

pub simple_layout-IsLayout : IsLayout simple_layout
simple_layout-IsLayout = record {
  fits = omega arith;
  status_of_bytes = λ app h. refl;
  size_of_bytes = λ app h. omega arith;
  status_within = λ m m' h. h 0 (omega arith);
  size_within = λ m m' h.
      omega (arith, h 1 (omega arith), h 2 (omega arith), h 3 (omega arith), h 4 (omega arith));
  status_of_with = λ status m h. refl;
  size_of_with = λ status m. refl;
}
