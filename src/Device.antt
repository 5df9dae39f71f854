-- ===== src/Device.antt =====
-- Helpers of the device (port/device_common/device_common.c).
pub mod FwVersion
pub mod IpAddr
mod Tests
use rp2040_wiznet_eaa_s_aws.Prelude.{
  ℕ, zero, suc, ◌+◌, ◌-◌, ◌*◌, ◌/◌, ◌%◌, ◌^◌, Bool, true, false, ltb, ◌==◌, ◌||◌, ◌&&◌, not,
  if◌then◌else◌, List, [], ◌∷◌, Option, none, some, set, take, length, ◌>>=◌,
}
use rp2040_wiznet_eaa_s_aws.Prelude.Word.{u8, u16, u32}
use rp2040_wiznet_eaa_s_aws.Prelude.Int.{ℤ, pos, negsuc, lt_nat, to_u32}
use rp2040_wiznet_eaa_s_aws.Prelude.CStr.{c_str, strlen}
use rp2040_wiznet_eaa_s_aws.Prelude.CNum.{is_digit, scan_int, atoi, strtoul_hex}

abbrev pub application_version_major : ℕ
application_version_major = 1

abbrev pub application_version_minor : ℕ
application_version_minor = 0

abbrev pub application_version_patch : ℕ
application_version_patch = 0

-- `time_us_32()` is the argument.
unfoldable pub get_time_ms : ℕ → ℕ
get_time_ms time_us_32 = time_us_32 / 1000

-- A number that does not fit an `int`, which C leaves open, is taken modulo 2 ^ 32.
unfoldable pub string_to_int : List ℕ → ℕ
unfolding atoi
string_to_int text = to_u32 (atoi text)

unfoldable pub hex_string_to_int : List ℕ → ℕ
unfolding strtoul_hex
hex_string_to_int text = strtoul_hex text

-- The loop over the string, with the count so far.
unfoldable pub char_count_from : ℕ → List ℕ → ℕ → ℕ
char_count_from count [] wanted = count
char_count_from count (c ∷ text) wanted =
    char_count_from (if c == wanted then u16 (count + 1) else count) text wanted

-- The loop runs over the string's bytes before its end; a string has fewer than 2 ^ 16 of them.
unfoldable pub get_char_count : List ℕ → ℕ → ℕ
unfolding char_count_from c_str
get_char_count text wanted = char_count_from 0 (c_str text) wanted

pub record Version : Type 0 where
  pub major : ℤ
  pub minor : ℤ
  pub patch : ℤ

-- The '.' of the format has to be there.
abbrev pub scan_dot : List ℕ → Option (List ℕ)
scan_dot [] = none
scan_dot (c ∷ text) = if c == b'.' then some text else none

scan_next : List ℕ → Option (ℤ × List ℕ)
unfolding scan_int
scan_next text = scan_dot text >>= λ rest. scan_int rest

-- `sscanf(text, "%d.%d.%d", ...)` into variables that hold 0: it stops where the text does not fit.
unfoldable pub scan_numbers : List ℕ → Version
unfolding scan_next
scan_numbers text = elim (scan_int text) [
  | none ↦ record { major = pos 0; minor = pos 0; patch = pos 0 }
  | some (a, text') ↦ elim (scan_next text') [
    | none ↦ record { major = a; minor = pos 0; patch = pos 0 }
    | some (b, text'') ↦ elim (scan_next text'') [
      | none ↦ record { major = a; minor = b; patch = pos 0 }
      | some (c, rest) ↦ record { major = a; minor = b; patch = c }
    ]
  ]
]

-- Whether an `int` holds the number.
unfoldable pub fits_int : ℤ → Bool
fits_int (pos n) = ltb n (2 ^ 31)
fits_int (negsuc n) = ltb n (2 ^ 31)

-- `none` is a number that does not fit its `int`: C leaves open what `sscanf` does then.
unfoldable pub scan_version : List ℕ → Option Version
unfolding scan_numbers fits_int
scan_version text =
    let v = scan_numbers text in
    if fits_int v.major && fits_int v.minor && fits_int v.patch then some v else none

unfoldable pub is_upper_version_fw : List ℕ → Option Bool
unfolding get_char_count scan_version
is_upper_version_fw fw_version =
    let compared = scan_version fw_version >>= λ v. some (
      if lt_nat v.major application_version_major
        || lt_nat v.minor application_version_minor
        || lt_nat v.patch application_version_patch
      then false
      else true) in
    if get_char_count fw_version b'.' == 2 then compared else some false

-- The variables of `is_ipaddr`: `tmp` has three bytes.
pub record IpScan : Type 0 where
  pub dotcnt : ℕ
  pub tval : ℕ
  pub tmp : List ℕ
  pub tmpcnt : ℕ
  pub ret_ip : List ℕ

-- How a round of the loop ends.
pub data IpStep : Type 0 where
  next : IpScan → IpStep
  reject : IpStep
  fault : IpStep

-- A digit; `fault` is a write behind the end of `tmp` or `ret_ip`. The check of `tmpcnt` against the
-- size of `tmp` stands behind the write, so it cannot be met without a fault before it.
digit_step : IpScan → ℕ → IpStep
digit_step s c =
    let tval' = u16 (s.tval * 10 + c - b'0') in
    if ltb 255 tval'
    then reject
    else if ltb s.tmpcnt (length s.tmp)
    then next (record s { tval = tval'; tmp = set s.tmp s.tmpcnt c; tmpcnt = s.tmpcnt + 1 })
    else fault

-- `atoi(tmp)`: `none` when `tmp` is full, since it has no end then and `atoi` reads behind it.
unfoldable pub tmp_number : IpScan → Option ℕ
unfolding atoi
tmp_number s = if ltb s.tmpcnt (length s.tmp) then some (u8 (to_u32 (atoi s.tmp))) else none

unfoldable pub dot_step : IpScan → IpStep
unfolding tmp_number
dot_step s =
    let dotcnt' = s.dotcnt + 1 in
    if ltb 255 s.tval
    then reject
    else if ltb 4 dotcnt'
    then reject
    else if ltb (dotcnt' - 1) (length s.ret_ip)
    then elim (tmp_number s) [
      | none ↦ fault
      | some number ↦ next (record {
        dotcnt = dotcnt';
        tval = 0;
        tmp = 0 ∷ 0 ∷ 0 ∷ [];
        tmpcnt = 0;
        ret_ip = set s.ret_ip (dotcnt' - 1) number;
      })
    ]
    else fault

unfoldable pub ip_step : IpScan → ℕ → IpStep
unfolding digit_step dot_step
ip_step s c = if is_digit c then digit_step s c else if c == b'.' then dot_step s else reject

-- The loop; behind it the last number is stored. The result and `ret_ip`, or `none` for a fault. When
-- the text is rejected, `ret_ip` keeps what was stored, and the callers do not look at it.
unfoldable pub ip_loop : IpScan → List ℕ → Option (Bool × List ℕ)
unfolding ip_step tmp_number
ip_loop s [] =
    if ltb s.dotcnt (length s.ret_ip)
    then (tmp_number s >>= λ number. some (true, set s.ret_ip s.dotcnt number))
    else none
ip_loop s (c ∷ text) =
    let rest = λ (s' : IpScan). ip_loop s' text in
    elim (ip_step s c) [ next s' ↦ rest s' | reject ↦ some (false, s.ret_ip) | fault ↦ none ]

-- `len` is a `uint8_t`, so only a string of fewer than 256 bytes is read as a whole.
unfoldable pub is_ipaddr : List ℕ → List ℕ → Option (Bool × List ℕ)
unfolding ip_loop strlen c_str
is_ipaddr ipaddr ret_ip =
    let len = u8 (strlen ipaddr) in
    if ltb 15 len || ltb len 7
    then some (false, ret_ip)
    else ip_loop
        (record { dotcnt = 0; tval = 0; tmp = 0 ∷ 0 ∷ 0 ∷ []; tmpcnt = 0; ret_ip = ret_ip })
        (take len (c_str ipaddr))
