-- ===== src/Flash/Erase.antt =====
-- Which bytes erasing and writing touch (port/flash_interface/flash_control.c).
use rp2040_wiznet_eaa_s_aws.Prelude.{ℕ, ◌+◌, ◌-◌, ◌*◌, ◌%◌, ◌≤◌, ◌<◌, ◌≡◌, ◌⊎◌, Mem, arith, ap, ◌∙◌}
use rp2040_wiznet_eaa_s_aws.Flash.Rom.{FlashRom, IsFlash}
use rp2040_wiznet_eaa_s_aws.Flash.{unit_count, erase_flash, write_flash}

-- Enough whole sectors, and no more than needed, as long as the count fits a `uint16_t`.
pub unit_count-sectors :
    (n : ℕ)
    → n ≤ 65535 * 4096
    → (n ≤ unit_count n 4096 * 4096) × (unit_count n 4096 * 4096 < n + 4096)
unfolding unit_count
unit_count-sectors n h = ground arith

pub unit_count-pages :
    (n : ℕ) → n ≤ 65535 * 256 → (n ≤ unit_count n 256 * 256) × (unit_count n 256 * 256 < n + 256)
unfolding unit_count
unit_count-pages n h = ground arith

-- What `flash'` holds is `flash` with the bytes from `from` up to `to` erased.
pub record IsErased (from to : ℕ) (flash flash' : Mem) : Type 0 where
  pub inside : (a : ℕ) → from ≤ a → a < to → flash' a ≡ 0xff
  pub outside : (a : ℕ) → (a < from) ⊎ (to ≤ a) → flash' a ≡ flash a

module _ (rom : FlashRom) (law : IsFlash rom) where
  -- Erasing from a sector's start erases the sectors that the data reach, and nothing else.
  pub erase_flash-IsErased :
      (offset n : ℕ) (flash : Mem)
      → offset % 4096 ≡ 0
      → n ≤ 65535 * 4096
      → IsErased offset (offset + unit_count n 4096 * 4096) flash (erase_flash rom offset n flash)
  unfolding erase_flash
  erase_flash-IsErased offset n flash aligned fits = record {
    inside = λ a p q.
        law.erase_inside offset (unit_count n 4096 * 4096) flash a aligned (omega arith) p q;
    outside =
        λ a p. law.erase_outside offset (unit_count n 4096 * 4096) flash a aligned (omega arith) p;
  }

  -- Erasing whole sectors erases exactly these.
  pub erase_flash_exact :
      (offset n to : ℕ) (flash : Mem)
      → offset % 4096 ≡ 0
      → n % 4096 ≡ 0
      → n ≤ 65535 * 4096
      → offset + n ≡ to
      → IsErased offset to flash (erase_flash rom offset n flash)
  erase_flash_exact offset n to flash aligned whole fits end =
      let count : unit_count n 4096 * 4096 ≡ n = omega (arith, unit_count-sectors n fits) in
      let e = erase_flash-IsErased offset n flash aligned fits in
      record {
        inside = λ a p q. e.inside a p (omega arith);
        outside = λ a p. e.outside a (omega arith);
      }

  -- Writing to erased pages stores the data there, and changes nothing outside the pages.
  pub write_flash-inside :
      (offset n : ℕ) (bytes flash : Mem) (k : ℕ)
      → offset % 256 ≡ 0
      → n ≤ 65535 * 256
      → k < n
      → flash (offset + k) ≡ 0xff
      → write_flash rom offset bytes n flash (offset + k) ≡ bytes k
  unfolding write_flash
  write_flash-inside offset n bytes flash k aligned fits h erased =
      let index : offset + k - offset ≡ k = omega arith in
      law.program_inside offset (unit_count n 256 * 256) bytes flash (offset + k) aligned
        (omega arith) (omega arith) (omega (arith, unit_count-pages n fits)) erased
      ∙ ap bytes index

  pub write_flash-outside :
      (offset n room : ℕ) (bytes flash : Mem) (a : ℕ)
      → offset % 256 ≡ 0
      → n ≤ 65535 * 256
      → n ≤ room
      → room % 256 ≡ 0
      → (a < offset) ⊎ (offset + room ≤ a)
      → write_flash rom offset bytes n flash a ≡ flash a
  unfolding write_flash
  write_flash-outside offset n room bytes flash a aligned fits fit whole h =
      law.program_outside offset (unit_count n 256 * 256) bytes flash a aligned (omega arith)
        (omega (arith, unit_count-pages n fits))
