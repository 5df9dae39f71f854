-- ===== src/Jobs/Ota/Callback.antt =====
-- How the request's callback ends (app/aws_iot/iot_jobs_job_ota_handler.c).
use rp2040_wiznet_eaa_s_aws.Prelude.{
  ℕ, ◌<◌, ◌≡◌, ◌⊎◌, inl, inr, refl, true, false, ltb, leb, List, [], ◌∷◌, Option, none, some, Mem,
  arith, Bool-cases,
}
use rp2040_wiznet_eaa_s_aws.Prelude.Word.{add32}
use rp2040_wiznet_eaa_s_aws.Prelude.Int.{ℤ, pos, negsuc}
use rp2040_wiznet_eaa_s_aws.Flash.Rom.{FlashRom}
use rp2040_wiznet_eaa_s_aws.Flash.{erase_flash_total_ota_area}
use rp2040_wiznet_eaa_s_aws.Jobs.Ota.{
  HttpStatus, http_success, http_failure, http_insufficient_memory, count_of, Received, Exchange,
  Downloaded, store_chunk, receive_loop, first_receive, ota_http_send_request_callback,
  request_status, return_status,
}

-- The loop ends with everything received, or with a count of 0.
abbrev IsEnded : Downloaded → Type 0
IsEnded d =
    ((d.complete ≡ true) × (0 < d.current_received))
    ⊎ ((d.complete ≡ false) × (d.current_received ≡ 0))

module _ (rom : FlashRom) (content_length : ℕ) where
  store_chunk-IsEnded :
      (buffer : List ℕ) (current total : ℕ) (flash : Mem) (continue : ℕ → Mem → Option Downloaded)
      (d : Downloaded)
      → ((total' : ℕ) (flash' : Mem) → continue total' flash' ≡ some d → IsEnded d)
      → store_chunk rom content_length buffer current total flash continue ≡ some d
      → IsEnded d
  unfolding store_chunk
  store_chunk-IsEnded buffer current total flash continue d next e =
      elim (Bool-cases (ltb 0 current)) [
        | inl p ↦ elim (Bool-cases (leb content_length (add32 total current))) [
          | inl q ↦ let e' = rw (p, q) at e in ground arith
          | inr q ↦ next _ _ (rw (p, q) at e)
        ]
        | inr p ↦ let e' = rw p at e in ground arith
      ]

  receive_loop-IsEnded :
      (rs : List Received) (total : ℕ) (flash : Mem) (d : Downloaded)
      → receive_loop rom content_length rs total flash ≡ some d
      → IsEnded d
  unfolding receive_loop
  receive_loop-IsEnded [] total flash d e = ground arith
  receive_loop-IsEnded (r ∷ []) total flash d e = elim (Bool-cases (ltb (count_of r) 2048)) [
    | inl q ↦ let e' = rw q at e in ground arith
    | inr q ↦
        store_chunk-IsEnded _ _ total flash (λ total' flash'. none) d (λ t f k. ground arith)
          (rw q at e)
  ]
  receive_loop-IsEnded (r ∷ r' ∷ rest) total flash d e = elim (Bool-cases (ltb (count_of r) 2048)) [
    | inl q ↦
        store_chunk-IsEnded _ _ total flash
          (λ total' flash'. receive_loop rom content_length rest total' flash') d
          (λ t f k. receive_loop-IsEnded rest t f d k) (rw q at e)
    | inr q ↦
        store_chunk-IsEnded _ _ total flash
          (λ total' flash'. receive_loop rom content_length (r' ∷ rest) total' flash') d
          (λ t f k. receive_loop-IsEnded (r' ∷ rest) t f d k) (rw q at e)
  ]

  first_receive-IsEnded :
      (body : List ℕ) (rs : List Received) (flash : Mem) (d : Downloaded)
      → first_receive rom content_length body rs flash ≡ some d
      → IsEnded d
  unfolding first_receive
  first_receive-IsEnded body [] flash d e = ground arith
  first_receive-IsEnded body (r ∷ rest) flash d e =
      store_chunk-IsEnded _ _ 0 flash
        (λ total' flash'. receive_loop rom content_length rest total' flash') d
        (λ t f k. receive_loop-IsEnded rest t f d k) e

module _ (rom : FlashRom) where
  -- Whenever the request's callback returns, it returns 0 or -2: the -1 that it sets for a failed request
  -- is always overwritten by the -2 for a download without data.
  pub ota_http_send_request_callback_returns :
      (exchange : Exchange) (flash flash' : Mem) (ret : ℤ)
      → ota_http_send_request_callback rom exchange flash ≡ some (ret, flash')
      → (ret ≡ pos 0) ⊎ (ret ≡ negsuc 1)
  unfolding ota_http_send_request_callback return_status
  ota_http_send_request_callback_returns exchange flash flash' ret e =
      ended (request_status exchange)
        (first_receive rom exchange.content_length exchange.body exchange.received
          (erase_flash_total_ota_area rom flash))
        (λ d k.
          first_receive-IsEnded rom exchange.content_length exchange.body exchange.received
            (erase_flash_total_ota_area rom flash) d k)
        e
    where
      ended :
          (status : HttpStatus) (loop : Option Downloaded)
          → ((d : Downloaded) → loop ≡ some d → IsEnded d)
          → return_status status flash loop ≡ some (ret, flash')
          → (ret ≡ pos 0) ⊎ (ret ≡ negsuc 1)
      ended http_success loop ends k = inr (ground arith)
      ended http_failure loop ends k = inr (ground arith)
      ended http_insufficient_memory none ends k = ground arith
      ended http_insufficient_memory (some d) ends k =
          let ends' : IsEnded d = ends d refl in ground arith
