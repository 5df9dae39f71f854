-- ===== src/Device/Tests.antt =====
-- The device's helpers on concrete texts.
use rp2040_wiznet_eaa_s_aws.Prelude.{ℕ, ◌≡◌, true, List, [], ◌∷◌, ◌++◌, some, arith, leb}
use rp2040_wiznet_eaa_s_aws.Prelude.CNum.{value, value_from}
use rp2040_wiznet_eaa_s_aws.Device.{is_ipaddr, is_upper_version_fw}
use rp2040_wiznet_eaa_s_aws.Device.FwVersion.{dotted, is_upper_version_fw-dotted}
use rp2040_wiznet_eaa_s_aws.Device.IpAddr.{IsOctet, quad, three, is_ipaddr-quad, is_ipaddr-three}

abbrev ten : List ℕ
ten = b'1' ∷ b'0' ∷ []

abbrev one : List ℕ
one = b'1' ∷ []

is_upper_version_fw-dotted_example :
    is_upper_version_fw (dotted one ten one ++ 0 ∷ []) ≡ some (leb 1 (value one))
unfolding value_from
is_upper_version_fw-dotted_example =
    is_upper_version_fw-dotted one ten one [] (((omega arith, omega arith), tt), omega arith)
      (((omega arith, omega arith), ((omega arith, omega arith), tt)), omega arith)
      (((omega arith, omega arith), tt), omega arith) (omega arith) (omega arith) (omega arith)
      (omega arith)

ten-IsOctet : IsOctet ten
unfolding value_from
ten-IsOctet =
    (((omega arith, omega arith), ((omega arith, omega arith), tt)), omega arith, omega arith)

one-IsOctet : IsOctet one
unfolding value_from
one-IsOctet = (((omega arith, omega arith), tt), omega arith, omega arith)

is_ipaddr-quad_example :
    is_ipaddr (quad ten one one ten ++ 0 ∷ []) (0 ∷ 0 ∷ 0 ∷ 0 ∷ [])
    ≡ some (true, value ten ∷ value one ∷ value one ∷ value ten ∷ [])
is_ipaddr-quad_example =
    is_ipaddr-quad ten one one ten [] 0 0 0 0 ten-IsOctet one-IsOctet one-IsOctet ten-IsOctet

is_ipaddr-three_example :
    is_ipaddr (three ten ten one ++ 0 ∷ []) (0 ∷ 0 ∷ 0 ∷ 9 ∷ [])
    ≡ some (true, value ten ∷ value ten ∷ value one ∷ 9 ∷ [])
is_ipaddr-three_example =
    is_ipaddr-three ten ten one [] 0 0 0 9 ten-IsOctet ten-IsOctet one-IsOctet (omega arith)
