-- ===== src/Jobs/Ota/Chunks.antt =====
-- The download area after a download (app/aws_iot/iot_jobs_job_ota_handler.c).
use rp2040_wiznet_eaa_s_aws.Prelude.{
  ℕ, ◌+◌, ◌%◌, ◌<◌, ◌≤◌, ◌≡◌, refl, ap, ◌∙◌, sym, true, List, [], ◌∷◌, ◌++◌, append_assoc, map,
  Option, none, some, length, length-append, get_or, Mem, arith, All, Returns, lt→ltb, le→not_ltb,
  lt→not_leb, le→leb, ==_ne,
}
use rp2040_wiznet_eaa_s_aws.Prelude.Word.{u32, add32}
use rp2040_wiznet_eaa_s_aws.Prelude.Int.{pos}
use rp2040_wiznet_eaa_s_aws.Flash.Rom.{FlashRom, IsFlash}
use rp2040_wiznet_eaa_s_aws.Flash.Erase.{IsErased}
use rp2040_wiznet_eaa_s_aws.Flash.Areas.{erase_areas}
use rp2040_wiznet_eaa_s_aws.Flash.{erase_flash_total_ota_area, write_flash_ota_binary}
use rp2040_wiznet_eaa_s_aws.Jobs.Ota.{
  http_insufficient_memory, Received, bytes, Exchange, Downloaded, memcpy_at, empty_buffer,
  store_chunk, receive_loop, first_receive, ota_http_send_request_callback, request_status,
  return_status,
}
use rp2040_wiznet_eaa_s_aws.Jobs.Ota.Stored.{
  two_parts, one_part, IsStored, IsBlankFrom, chunk-IsStored, chunk-IsBlankFrom,
}

-- All chunks in a row.
abbrev pub concat : List (List ℕ) → List ℕ
concat [] = []
concat (c ∷ cs) = c ++ concat cs

regroup : (s c x y : List ℕ) → s ++ ((c ++ x) ++ y) ≡ (s ++ c) ++ (x ++ y)
regroup s c x y = ap (λ l. s ++ l) (append_assoc c x y) ∙ sym (append_assoc s c (x ++ y))

module _ (rom : FlashRom) (law : IsFlash rom) where
  -- What a chunk leaves in the flash.
  abbrev written : List ℕ → List ℕ → ℕ → Mem → Mem
  written stream buffer n flash =
      write_flash_ota_binary rom (length stream) (λ k. get_or buffer k 0) n flash

  -- A round that takes a chunk of 2048 bytes in one piece, with more to come.
  full_round :
      (content_length : ℕ) (c stream : List ℕ) (r : Received) (rest : List Received) (flash : Mem)
      (P : Downloaded → Type 0)
      → length c ≡ 2048
      → length (stream ++ c) < content_length
      → content_length ≤ 0x80000
      → Returns
          (receive_loop rom content_length
            (r ∷ rest)
            (length (stream ++ c))
            (written stream (memcpy_at empty_buffer 0 c) (length c) flash))
          P
      → Returns (receive_loop rom content_length (bytes c ∷ r ∷ rest) (length stream) flash) P
  unfolding store_chunk
  full_round content_length c stream r rest flash P full more room next =
      let count : u32 (length c) ≡ length c = omega arith in
      let total : add32 (length stream) (length c) ≡ length (stream ++ c) =
        omega (arith, length-append stream c) in
      rw
        (
          receive_one content_length c r rest (length stream) flash full,
          lt→ltb 0 (length c) (omega arith),
          total,
          lt→not_leb content_length (length (stream ++ c)) more,
        )
        next
    where
      receive_one :
          (content_length : ℕ) (c : List ℕ) (r : Received) (rest : List Received) (total : ℕ)
          (flash : Mem)
          → length c ≡ 2048
          → receive_loop rom content_length (bytes c ∷ r ∷ rest) total flash
            ≡ store_chunk rom content_length
                (memcpy_at empty_buffer 0 c)
                (length c)
                total
                flash
                (λ total' flash'. receive_loop rom content_length (r ∷ rest) total' flash')
      receive_one content_length c r rest total flash h =
          let count : u32 (length c) ≡ length c = omega arith in
          unfold receive_loop in rw (count, le→not_ltb (length c) 2048 (omega arith)) refl

  -- The last round, in two pieces.
  last_round :
      (content_length : ℕ) (a b stream : List ℕ) (flash before : Mem)
      → IsStored stream before flash
      → IsBlankFrom (length stream) flash
      → length stream % 256 ≡ 0
      → length a < 2048
      → length a + length b ≤ 2048
      → 0 < length a + length b
      → content_length ≡ length (stream ++ (a ++ b))
      → content_length ≤ 0x80000
      → Returns
          (receive_loop rom content_length (bytes a ∷ bytes b ∷ []) (length stream) flash)
          (λ d.
            (d.complete ≡ true)
            × (0 < d.current_received)
            × IsStored (stream ++ (a ++ b)) before d.flash)
  unfolding receive_loop store_chunk
  last_round content_length a b stream flash before old blank aligned short fit some_bytes size
        room =
      let count_a : u32 (length a) ≡ length a = omega arith in
      let count_b : u32 (length b) ≡ length b = omega arith in
      let both : add32 (length a) (length b) ≡ length (a ++ b) = omega (arith, length-append a b) in
      let total : add32 (length stream) (length (a ++ b)) ≡ length (stream ++ (a ++ b)) =
        omega (arith, length-append a b, length-append stream (a ++ b)) in
      rw
        (
          count_a,
          count_b,
          lt→ltb (length a) 2048 short,
          both,
          lt→ltb 0 (length (a ++ b)) (omega (arith, length-append a b)),
          total,
          le→leb content_length (length (stream ++ (a ++ b))) (omega arith),
        )
        (
          refl,
          omega (arith, length-append a b),
          chunk-IsStored rom law stream (a ++ b)
              (memcpy_at (memcpy_at empty_buffer 0 a) (length a) b) flash before old blank aligned
              (omega (arith, length-append a b)) (omega (arith, length-append stream (a ++ b)))
              (two_parts a b fit),
        )

  -- The rounds behind the first, for chunks that fill the buffer and a last one that comes in two parts.
  receive_loop-chunks :
      (content_length : ℕ) (fulls : List (List ℕ)) (a b stream : List ℕ) (flash before : Mem)
      → IsStored stream before flash
      → IsBlankFrom (length stream) flash
      → length stream % 256 ≡ 0
      → All (λ c. length c ≡ 2048) fulls
      → length a < 2048
      → length a + length b ≤ 2048
      → 0 < length a + length b
      → content_length ≡ length (stream ++ (concat fulls ++ (a ++ b)))
      → content_length ≤ 0x80000
      → Returns
          (receive_loop rom content_length
            (map bytes fulls ++ bytes a ∷ bytes b ∷ [])
            (length stream)
            flash)
          (λ d.
            (d.complete ≡ true)
            × (0 < d.current_received)
            × IsStored (stream ++ (concat fulls ++ (a ++ b))) before d.flash)
  receive_loop-chunks content_length [] a b stream flash before old blank aligned full short fit
        some_bytes size room =
      last_round content_length a b stream flash before old blank aligned short fit some_bytes size
        room
  receive_loop-chunks content_length (c ∷ []) a b stream flash before old blank aligned full short
        fit some_bytes size room =
      let buffer : List ℕ = memcpy_at empty_buffer 0 c in
      let behind : List ℕ = [] ++ (a ++ b) in
      let all : stream ++ ((c ++ []) ++ (a ++ b)) ≡ (stream ++ c) ++ behind =
        regroup stream c [] (a ++ b) in
      let size' : content_length ≡ length ((stream ++ c) ++ behind) = size ∙ ap length all in
      rw all (
        full_round content_length c stream (bytes a) (bytes b ∷ []) flash _ full.0
          (omega (arith, length-append (stream ++ c) behind, length-append a b)) room
          (receive_loop-chunks content_length [] a b (stream ++ c)
            (written stream buffer (length c) flash) before
            (chunk-IsStored rom law stream c buffer flash before old blank aligned
              (omega (arith, full.0))
              (omega (arith, length-append (stream ++ c) behind, length-append stream c))
              (one_part c (omega (arith, full.0))))
            (chunk-IsBlankFrom rom law stream c buffer flash blank aligned (omega (arith, full.0))
              (omega (arith, full.0))
              (omega (arith, length-append (stream ++ c) behind, length-append stream c)))
            (omega (arith, full.0, length-append stream c)) tt short fit some_bytes size' room))
  receive_loop-chunks content_length (c ∷ c' ∷ cs) a b stream flash before old blank aligned full
        short fit some_bytes size room =
      let buffer : List ℕ = memcpy_at empty_buffer 0 c in
      let behind : List ℕ = concat (c' ∷ cs) ++ (a ++ b) in
      let all : stream ++ ((c ++ concat (c' ∷ cs)) ++ (a ++ b)) ≡ (stream ++ c) ++ behind =
        regroup stream c (concat (c' ∷ cs)) (a ++ b) in
      let size' : content_length ≡ length ((stream ++ c) ++ behind) = size ∙ ap length all in
      let more : length (a ++ b) ≤ length behind =
        omega (arith, length-append (concat (c' ∷ cs)) (a ++ b)) in
      rw all (
        full_round content_length c stream (bytes c') (map bytes cs ++ bytes a ∷ bytes b ∷ []) flash
          _ full.0 (omega (arith, length-append (stream ++ c) behind, length-append a b)) room
          (receive_loop-chunks content_length (c' ∷ cs) a b (stream ++ c)
            (written stream buffer (length c) flash) before
            (chunk-IsStored rom law stream c buffer flash before old blank aligned
              (omega (arith, full.0))
              (omega (arith, length-append (stream ++ c) behind, length-append stream c))
              (one_part c (omega (arith, full.0))))
            (chunk-IsBlankFrom rom law stream c buffer flash blank aligned (omega (arith, full.0))
              (omega (arith, full.0))
              (omega (arith, length-append (stream ++ c) behind, length-append stream c)))
            (omega (arith, full.0, length-append stream c)) full.1 short fit some_bytes size' room))

  returned :
      (stream : List ℕ) (flash : Mem) (loop : Option Downloaded)
      → Returns loop
          (λ d. (d.complete ≡ true) × (0 < d.current_received) × IsStored stream flash d.flash)
      → Returns
          (return_status http_insufficient_memory flash loop)
          (λ r. (r.0 ≡ pos 0) × IsStored stream flash r.1)
  unfolding return_status
  returned stream flash none h = absurd h
  returned stream flash (some d) h =
      (rw (h.0, ==_ne d.current_received 0 (omega (arith, h.1))) refl, h.2)

  -- A download whose response does not fit the client's buffer, of at most 0x80000 bytes in all, where
  -- the body and the first `recv` fill a buffer, further calls of `recv` fill one each, and the last
  -- round comes in two pieces that are not both empty: the callback returns 0, the download area holds
  -- the bytes in the order in which they came, and nothing outside the area changed.
  pub ota_http_send_request_callback-IsStored :
      (exchange : Exchange) (first : List ℕ) (fulls : List (List ℕ)) (a b : List ℕ) (flash : Mem)
      → request_status exchange ≡ http_insufficient_memory
      → exchange.received ≡ bytes first ∷ (map bytes fulls ++ bytes a ∷ bytes b ∷ [])
      → length exchange.body + length first ≡ 2048
      → All (λ c. length c ≡ 2048) fulls
      → length a < 2048
      → length a + length b ≤ 2048
      → 0 < length a + length b
      → exchange.content_length ≡ length ((exchange.body ++ first) ++ (concat fulls ++ (a ++ b)))
      → exchange.content_length ≤ 0x80000
      → Returns (ota_http_send_request_callback rom exchange flash) (λ r.
        (r.0 ≡ pos 0) × IsStored ((exchange.body ++ first) ++ (concat fulls ++ (a ++ b))) flash r.1)
  unfolding ota_http_send_request_callback first_receive store_chunk
  ota_http_send_request_callback-IsStored exchange first fulls a b flash status input whole full
        short fit some_bytes size room =
      let stream : List ℕ = (exchange.body ++ first) ++ (concat fulls ++ (a ++ b)) in
      let c : List ℕ = exchange.body ++ first in
      let buffer : List ℕ =
        memcpy_at (memcpy_at empty_buffer 0 exchange.body) (length exchange.body) first in
      let erased : Mem = erase_flash_total_ota_area rom flash in
      let is_erased : IsErased 0x140000 0x1c0000 flash erased = (erase_areas rom law flash).2 in
      let len : length c ≡ 2048 = omega (arith, length-append exchange.body first) in
      let more : 2048 < exchange.content_length = omega (
        arith,
        length-append c (concat fulls ++ (a ++ b)),
        length-append (concat fulls) (a ++ b),
        length-append a b,
      ) in
      let count : add32 (u32 (length first)) (length exchange.body) ≡ length c = omega arith in
      let total : add32 0 (length c) ≡ length c = omega arith in
      let blank : IsBlankFrom 0 erased =
        λ k p q. is_erased.inside (0x140000 + k) (omega arith) (omega arith) in
      let old : IsStored [] flash erased = record {
        inside = λ k h. absurd (omega arith);
        outside = λ k h. is_erased.outside k h;
      } in
      let next =
        receive_loop-chunks exchange.content_length fulls a b c
          (written [] buffer (length c) erased) flash
          (chunk-IsStored rom law [] c buffer erased flash old blank (omega arith) (omega arith)
            (omega arith) (two_parts exchange.body first (omega arith)))
          (chunk-IsBlankFrom rom law [] c buffer erased blank (omega arith) (omega arith)
            (omega arith) (omega arith))
          (omega arith) full short fit some_bytes size room in
      rw (status, input)
        (returned stream flash _ (
          rw
            (
              count,
              lt→ltb 0 (length c) (omega arith),
              total,
              lt→not_leb exchange.content_length (length c) (omega arith),
            )
            next))
