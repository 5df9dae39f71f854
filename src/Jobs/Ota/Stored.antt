-- ===== src/Jobs/Ota/Stored.antt =====
-- A chunk in the download area (app/aws_iot/iot_jobs_job_ota_handler.c).
use rp2040_wiznet_eaa_s_aws.Prelude.{
  ℕ, ◌+◌, ◌-◌, ◌%◌, ◌<◌, ◌≤◌, ◌≡◌, ◌⊎◌, inl, inr, ap, ◌∙◌, sym, List, ◌++◌, append_assoc, length,
  length-append, length-drop, length-replicate, get_or, get_or-append_left, get_or-append_right,
  take-append, drop-append, drop, Mem, arith,
}
use native.Mathlib.Decide.{dec_lt}
use rp2040_wiznet_eaa_s_aws.Prelude.Word.{add32}
use rp2040_wiznet_eaa_s_aws.Prelude.CStr.{memcpy_fits}
use rp2040_wiznet_eaa_s_aws.Flash.Rom.{FlashRom, IsFlash}
use rp2040_wiznet_eaa_s_aws.Flash.Erase.{write_flash-inside, write_flash-outside}
use rp2040_wiznet_eaa_s_aws.Flash.{write_flash, write_flash_ota_binary}
use rp2040_wiznet_eaa_s_aws.Jobs.Ota.{memcpy_at, empty_buffer}

-- A buffer that begins with the given bytes.
abbrev pub BeginsWith : List ℕ → List ℕ → Type 0
BeginsWith buffer c = (k : ℕ) → k < length c → get_or buffer k 0 ≡ get_or c k 0

pub two_parts :
    (a b : List ℕ)
    → length a + length b ≤ 2048
    → BeginsWith (memcpy_at (memcpy_at empty_buffer 0 a) (length a) b) (a ++ b)
unfolding memcpy_at
two_parts a b fits k h =
    let size : length empty_buffer ≡ 2048 = length-replicate {A = ℕ} 2048 0 in
    let room : List ℕ = drop (length a) empty_buffer in
    rw
      (
        memcpy_fits empty_buffer a (omega arith),
        take-append a room,
        drop-append a room,
        memcpy_fits room b (omega (arith, length-drop (length a) empty_buffer)),
        sym (append_assoc a b (drop (length b) room)),
      )
      (get_or-append_left (a ++ b) _ k 0 h)

pub one_part : (a : List ℕ) → length a ≤ 2048 → BeginsWith (memcpy_at empty_buffer 0 a) a
unfolding memcpy_at
one_part a fits k h =
    rw (memcpy_fits empty_buffer a (omega (arith, length-replicate {A = ℕ} 2048 0)))
      (get_or-append_left a _ k 0 h)

-- The download area holds the bytes of `stream`, and nothing outside the area differs from `flash`.
pub record IsStored (stream : List ℕ) (flash flash' : Mem) : Type 0 where
  pub inside : (k : ℕ) → k < length stream → flash' (0x140000 + k) ≡ get_or stream k 0
  pub outside : (a : ℕ) → (a < 0x140000) ⊎ (0x1c0000 ≤ a) → flash' a ≡ flash a

-- The rest of the download area is erased.
abbrev pub IsBlankFrom : ℕ → Mem → Type 0
IsBlankFrom total flash = (k : ℕ) → total ≤ k → k < 0x80000 → flash (0x140000 + k) ≡ 0xff

module _ (rom : FlashRom) (law : IsFlash rom) where
  -- Writing a chunk behind what is stored.
  pub chunk-IsStored :
      (stream c buffer : List ℕ) (flash before : Mem)
      → IsStored stream before flash
      → IsBlankFrom (length stream) flash
      → length stream % 256 ≡ 0
      → length c ≤ 2048
      → length stream + length c ≤ 0x80000
      → BeginsWith buffer c
      → IsStored
          (stream ++ c)
          before
          (write_flash_ota_binary rom (length stream) (λ k. get_or buffer k 0) (length c) flash)
  unfolding write_flash_ota_binary
  chunk-IsStored stream c buffer flash before old blank aligned short fits begins =
      let n : ℕ = length stream in
      let there : add32 0x140000 n ≡ 0x140000 + n = omega arith in
      let whole : ℕ = 0x80000 - n in
      let data' : Mem = λ k. get_or buffer k 0 in
      rw there (record {
        inside = λ k h. elim (dec_lt k n) [
          | yes p ↦
              write_flash-outside rom law (0x140000 + n) (length c) whole data' flash (0x140000 + k)
                (omega arith) (omega arith) (omega arith) (omega arith) (inl (omega arith))
              ∙ old.inside k p
              ∙ sym (get_or-append_left stream c k 0 p)
          | no p ↦
              let j : ℕ = k - n in
              let index : 0x140000 + k ≡ 0x140000 + n + j = omega arith in
              let index' : k ≡ n + j = omega arith in
              let erased : flash (0x140000 + n + j) ≡ 0xff =
                let e : 0x140000 + n + j ≡ 0x140000 + (n + j) = omega arith in
                rw e (blank (n + j) (omega arith) (omega (arith, length-append stream c))) in
              ap (write_flash rom (0x140000 + n) data' (length c) flash) index
              ∙ write_flash-inside rom law (0x140000 + n) (length c) data' flash j (omega arith)
                  (omega arith) (omega (arith, length-append stream c)) erased
              ∙ begins j (omega (arith, length-append stream c))
              ∙ sym (get_or-append_right stream c j 0)
              ∙ ap (λ i. get_or (stream ++ c) i 0) (sym index')
        ];
        outside = λ a h.
            write_flash-outside rom law (0x140000 + n) (length c) whole data' flash a (omega arith)
              (omega arith) (omega arith) (omega arith) (omega arith)
            ∙ old.outside a h;
      })

  pub chunk-IsBlankFrom :
      (stream c buffer : List ℕ) (flash : Mem)
      → IsBlankFrom (length stream) flash
      → length stream % 256 ≡ 0
      → length c ≤ 2048
      → length c % 256 ≡ 0
      → length stream + length c ≤ 0x80000
      → IsBlankFrom
          (length (stream ++ c))
          (write_flash_ota_binary rom (length stream) (λ k. get_or buffer k 0) (length c) flash)
  unfolding write_flash_ota_binary
  chunk-IsBlankFrom stream c buffer flash blank aligned short whole fits k p q =
      let n : ℕ = length stream in
      let there : add32 0x140000 n ≡ 0x140000 + n = omega arith in
      rw there (
        write_flash-outside rom law (0x140000 + n) (length c) (length c) (λ i. get_or buffer i 0)
          flash (0x140000 + k) (omega arith) (omega arith) (omega arith) whole
          (inr (omega (arith, length-append stream c)))
        ∙ blank k (omega (arith, length-append stream c)) q)
