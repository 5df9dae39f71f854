-- ===== src/Flash/Layout.antt =====
-- The map of the flash (port/flash_interface/flash_control.h) and the sizes of what is stored in it.
use rp2040_wiznet_eaa_s_aws.Prelude.{ℕ, ◌+◌}

-- FLASH_PAGE_SIZE and FLASH_SECTOR_SIZE of the SDK.
abbrev pub page_size : ℕ
page_size = 256

abbrev pub sector_size : ℕ
sector_size = 4096

abbrev pub config_area_size : ℕ
config_area_size = 0x40000

abbrev pub boot_loader_size : ℕ
boot_loader_size = 0x40000

abbrev pub application_size : ℕ
application_size = 0x80000

abbrev pub flash_start_addr : ℕ
flash_start_addr = 0x10000000

abbrev pub flash_boot_start_addr : ℕ
flash_boot_start_addr = flash_start_addr

abbrev pub flash_app_start_addr : ℕ
flash_app_start_addr = flash_boot_start_addr + boot_loader_size

abbrev pub flash_factory_fw_start_addr : ℕ
flash_factory_fw_start_addr = flash_app_start_addr + application_size

abbrev pub flash_temp_fw_start_addr : ℕ
flash_temp_fw_start_addr = flash_factory_fw_start_addr + application_size

abbrev pub flash_common_config_start_addr : ℕ
flash_common_config_start_addr = flash_temp_fw_start_addr + application_size

abbrev pub flash_claim_cert_info_start_addr : ℕ
flash_claim_cert_info_start_addr = flash_common_config_start_addr + 0x2000

abbrev pub flash_provioned_cert_info_start_addr : ℕ
flash_provioned_cert_info_start_addr = flash_claim_cert_info_start_addr + 0x1000

abbrev pub flash_provioned_ownership_start_addr : ℕ
flash_provioned_ownership_start_addr = flash_provioned_cert_info_start_addr + 0x1000

abbrev pub flash_provioned_cert_id_start_addr : ℕ
flash_provioned_cert_id_start_addr = flash_provioned_ownership_start_addr + 0x0200

abbrev pub max_pem_size : ℕ
max_pem_size = 2048

abbrev pub max_fp_cert_ownership_token_size : ℕ
max_fp_cert_ownership_token_size = 512

abbrev pub max_fp_cert_id_size : ℕ
max_fp_cert_id_size = 256

-- AWS_FP_DEVICE_CERT_INFO_t: two PEM texts, the ownership token and the certificate's id.
abbrev pub sizeof_cert_info : ℕ
sizeof_cert_info =
    max_pem_size + max_pem_size + max_fp_cert_ownership_token_size + max_fp_cert_id_size
