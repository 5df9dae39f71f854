-- ===== src/Flash/Rom.antt =====
-- What the program uses of the SDK's flash routines, and what they promise.
use rp2040_wiznet_eaa_s_aws.Prelude.{
  ℕ, ◌+◌, ◌-◌, ◌%◌, ◌≤◌, ◌<◌, ◌≡◌, ◌⊎◌, Mem, ltb, leb, ◌==◌, if◌then◌else◌, ◌&&◌, arith,
}

-- `flash_range_erase(offset, count)` and `flash_range_program(offset, data, count)`.
pub record FlashRom : Type 0 where
  pub flash_range_erase : ℕ → ℕ → Mem → Mem
  pub flash_range_program : ℕ → Mem → ℕ → Mem → Mem

-- On whole sectors erasing sets every byte to 0xFF; on whole pages programming stores the data in
-- erased bytes; neither touches a byte outside its range.
pub record IsFlash (rom : FlashRom) : Type 0 where
  pub erase_inside :
      (offset count : ℕ) (flash : Mem) (a : ℕ)
      → offset % 4096 ≡ 0
      → count % 4096 ≡ 0
      → offset ≤ a
      → a < offset + count
      → rom.flash_range_erase offset count flash a ≡ 0xff
  pub erase_outside :
      (offset count : ℕ) (flash : Mem) (a : ℕ)
      → offset % 4096 ≡ 0
      → count % 4096 ≡ 0
      → (a < offset) ⊎ (offset + count ≤ a)
      → rom.flash_range_erase offset count flash a ≡ flash a
  pub program_inside :
      (offset count : ℕ) (bytes flash : Mem) (a : ℕ)
      → offset % 256 ≡ 0
      → count % 256 ≡ 0
      → offset ≤ a
      → a < offset + count
      → flash a ≡ 0xff
      → rom.flash_range_program offset bytes count flash a ≡ bytes (a - offset)
  pub program_outside :
      (offset count : ℕ) (bytes flash : Mem) (a : ℕ)
      → offset % 256 ≡ 0
      → count % 256 ≡ 0
      → (a < offset) ⊎ (offset + count ≤ a)
      → rom.flash_range_program offset bytes count flash a ≡ flash a

-- A chip that keeps the promises; programming a byte that is not erased clears it here.
abbrev pub simple_rom : FlashRom
simple_rom = record {
  flash_range_erase =
      λ offset count flash a. if leb offset a && ltb a (offset + count) then 0xff else flash a;
  flash_range_program = λ offset bytes count flash a.
      if leb offset a && ltb a (offset + count)
      then (if flash a == 0xff then bytes (a - offset) else 0)
      else flash a;
}

pub simple_rom-IsFlash : IsFlash simple_rom
simple_rom-IsFlash = record {
  erase_inside = λ offset count flash a p q h k. ground arith;
  erase_outside = λ offset count flash a p q h. ground arith;
  program_inside = λ offset count bytes flash a p q h k e. ground arith;
  program_outside = λ offset count bytes flash a p q h. ground arith;
}
