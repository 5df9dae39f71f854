-- ===== src/Jobs/Ota.antt =====
-- The download of a firmware image (app/aws_iot/iot_jobs_job_ota_handler.c). The answers of the client
-- library and what each `recv` brings are given in advance.
pub mod Callback
pub mod Chunks
pub mod Download
pub mod Stored
use rp2040_wiznet_eaa_s_aws.Prelude.{
  ℕ, zero, suc, ◌+◌, ◌-◌, ◌%◌, ◌^◌, Bool, true, false, ltb, leb, ◌==◌, if◌then◌else◌, List, [], ◌∷◌,
  ◌++◌, Option, none, some, length, get_or, drop, take, replicate, Mem, read, ◌>>=◌,
}
use rp2040_wiznet_eaa_s_aws.Prelude.Word.{u32, add32}
use rp2040_wiznet_eaa_s_aws.Prelude.Int.{ℤ, pos, negsuc, is_negsuc}
use rp2040_wiznet_eaa_s_aws.Prelude.CStr.{memcpy, strncpy}
use rp2040_wiznet_eaa_s_aws.Crc16.{crc16_ccitt}
use rp2040_wiznet_eaa_s_aws.Flash.Layout.{flash_start_addr, flash_temp_fw_start_addr}
use rp2040_wiznet_eaa_s_aws.Flash.Rom.{FlashRom}
use rp2040_wiznet_eaa_s_aws.Flash.{erase_flash_total_ota_area, write_flash_ota_binary}
use rp2040_wiznet_eaa_s_aws.Http.{Network, HttpConfig, http_get}

abbrev pub http_buf_max_size : ℕ
http_buf_max_size = 2048

-- The client library's status, as far as the program tells them apart.
pub data HttpStatus : Type 0 where
  http_success http_insufficient_memory http_failure : HttpStatus

-- What `recv` brings: bytes, or the error -(n + 1).
pub data Received : Type 0 where
  bytes : List ℕ → Received
  recv_error : ℕ → Received

-- The answers of the client library in one request, and the response as far as it fits the buffer.
pub record Exchange : Type 0 where
  pub initialized : HttpStatus
  pub added_content_type : HttpStatus
  pub added_connection : HttpStatus
  pub sent : HttpStatus
  pub body : List ℕ
  pub content_length : ℕ
  pub received : List Received

-- The cast to `uint32_t`.
abbrev pub count_of : Received → ℕ
count_of (bytes bs) = u32 (length bs)
count_of (recv_error n) = (2 ^ 32 - suc (n % 2 ^ 32)) % 2 ^ 32

abbrev pub bytes_of : Received → List ℕ
bytes_of (bytes bs) = bs
bytes_of (recv_error n) = []

-- `memcpy` into a buffer from index `i` on.
unfoldable pub memcpy_at : List ℕ → ℕ → List ℕ → List ℕ
unfolding memcpy
memcpy_at buffer i src = take i buffer ++ memcpy (drop i buffer) src

abbrev pub empty_buffer : List ℕ
empty_buffer = replicate http_buf_max_size 0

-- The answers to the first two calls are only traced.
unfoldable pub request_status : Exchange → HttpStatus
request_status exchange = elim exchange.added_connection [
  | http_success ↦ exchange.sent
  | http_insufficient_memory ↦ http_insufficient_memory
  | http_failure ↦ http_failure
]

-- How the loop ended: the last count, whether the content is complete, and the flash.
pub record Downloaded : Type 0 where
  pub current_received : ℕ
  pub complete : Bool
  pub flash : Mem

module _ (rom : FlashRom) (content_length : ℕ) where
  -- A round of the loop behind the calls of `recv`; `continue` is the next round.
  unfoldable pub store_chunk :
      List ℕ → ℕ → ℕ → Mem → (ℕ → Mem → Option Downloaded) → Option Downloaded
  unfolding write_flash_ota_binary
  store_chunk buffer current total flash continue =
      let flash' = write_flash_ota_binary rom total (λ k. get_or buffer k 0) current flash in
      let total' = add32 total current in
      let next = continue total' flash' in
      if ltb 0 current
      then if leb content_length total'
        then some (record { current_received = current; complete = true; flash = flash' })
        else next
      else some (record { current_received = current; complete = false; flash = flash })

  -- The rounds behind the first: a short `recv` is followed by a second one. `none` when the loop still
  -- waits at the end of what was given.
  unfoldable pub receive_loop : List Received → ℕ → Mem → Option Downloaded
  unfolding store_chunk memcpy_at
  receive_loop [] total flash = none
  receive_loop (r ∷ []) total flash =
      let alone =
        store_chunk (memcpy_at empty_buffer 0 (bytes_of r)) (count_of r) total flash
          (λ total' flash'. none) in
      if ltb (count_of r) http_buf_max_size then none else alone
  receive_loop (r ∷ r' ∷ rest) total flash =
      let buffer = memcpy_at empty_buffer 0 (bytes_of r) in
      let two =
        store_chunk (memcpy_at buffer (count_of r) (bytes_of r')) (add32 (count_of r) (count_of r'))
          total flash (λ total' flash'. receive_loop rest total' flash') in
      let one =
        store_chunk buffer (count_of r) total flash
          (λ total' flash'. receive_loop (r' ∷ rest) total' flash') in
      if ltb (count_of r) http_buf_max_size then two else one

  -- The loop with its first round, which starts with the body of the response.
  unfoldable pub first_receive : List ℕ → List Received → Mem → Option Downloaded
  unfolding receive_loop
  first_receive body [] flash = none
  first_receive body (r ∷ rest) flash =
      store_chunk (memcpy_at (memcpy_at empty_buffer 0 body) (length body) (bytes_of r))
        (add32 (count_of r) (length body)) 0 flash
        (λ total' flash'. receive_loop rest total' flash')

-- The return value, and the flash: `loop` is how the loop ends where it runs.
unfoldable pub return_status : HttpStatus → Mem → Option Downloaded → Option (ℤ × Mem)
return_status http_success flash loop = some (negsuc 1, flash)
return_status http_failure flash loop = some (negsuc 1, flash)
return_status http_insufficient_memory flash loop = loop >>= λ d.
    let status = if d.complete then pos 0 else negsuc 0 in
    some (if d.current_received == 0 then negsuc 1 else status, d.flash)

unfoldable pub ota_http_send_request_callback : FlashRom → Exchange → Mem → Option (ℤ × Mem)
unfolding return_status request_status first_receive erase_flash_total_ota_area
ota_http_send_request_callback rom exchange flash = return_status (request_status exchange) flash (
    first_receive rom exchange.content_length exchange.body exchange.received
      (erase_flash_total_ota_area rom flash))

abbrev pub fail_to_http_get : List ℕ
fail_to_http_get =
    b'F' ∷ b'a' ∷ b'i' ∷ b'l' ∷ b' ' ∷ b't' ∷ b'o' ∷ b' ' ∷ b'h' ∷ b't' ∷ b't' ∷ b'p' ∷ b' ' ∷ b'g'
    ∷ b'e' ∷ b't' ∷ []

abbrev pub no_binary_data : List ℕ
no_binary_data =
    b'T' ∷ b'h' ∷ b'e' ∷ b'r' ∷ b'e' ∷ b' ' ∷ b'i' ∷ b's' ∷ b' ' ∷ b'n' ∷ b'o' ∷ b' ' ∷ b'b' ∷ b'i'
    ∷ b'n' ∷ b'a' ∷ b'r' ∷ b'y' ∷ b' ' ∷ b'd' ∷ b'a' ∷ b't' ∷ b'a' ∷ []

abbrev pub invalid_crc : List ℕ
invalid_crc = b'I' ∷ b'n' ∷ b'v' ∷ b'a' ∷ b'l' ∷ b'i' ∷ b'd' ∷ b' ' ∷ b'C' ∷ b'R' ∷ b'C' ∷ []

abbrev pub success_to_download : List ℕ
success_to_download =
    b'S' ∷ b'u' ∷ b'c' ∷ b'c' ∷ b'e' ∷ b's' ∷ b's' ∷ b' ' ∷ b't' ∷ b'o' ∷ b' ' ∷ b'd' ∷ b'o' ∷ b'w'
    ∷ b'n' ∷ b'l' ∷ b'o' ∷ b'a' ∷ b'd' ∷ b' ' ∷ b'f' ∷ b'i' ∷ b'r' ∷ b'm' ∷ b'w' ∷ b'a' ∷ b'r'
    ∷ b'e' ∷ []

-- What `ota_download_firmware` leaves.
pub record OtaResult : Type 0 where
  pub verified : Bool
  pub log_msg : List ℕ
  pub http_config : HttpConfig
  pub flash : Mem

-- The check behind the request.
unfoldable pub verify_firmware : ℕ → ℕ → List ℕ → ℤ → HttpConfig → Mem → OtaResult
unfolding crc16_ccitt strncpy
verify_firmware fw_size fw_crc log_msg ret config flash =
    let calced_crc =
      crc16_ccitt (read flash (flash_temp_fw_start_addr - flash_start_addr) fw_size) in
    let result : Bool → List ℕ → OtaResult = λ verified text. record {
      verified = verified;
      log_msg = strncpy log_msg text (length text);
      http_config = config;
      flash = flash;
    } in
    if is_negsuc ret 0
    then result false fail_to_http_get
    else if is_negsuc ret 1
    then result false no_binary_data
    else if calced_crc == fw_crc
    then result true success_to_download
    else result false invalid_crc

module _ (rom : FlashRom) (network : Network) (exchange : Exchange) where
  unfoldable pub ota_download_firmware :
      List ℕ → ℕ → ℕ → List ℕ → HttpConfig → Mem → Option OtaResult
  unfolding verify_firmware ota_http_send_request_callback http_get
  ota_download_firmware url fw_size fw_crc log_msg config flash =
      http_get (λ c f. ota_http_send_request_callback rom exchange f) network url true true config
        flash
      >>= λ done. some (verify_firmware fw_size fw_crc log_msg done.0 done.1 done.2)
