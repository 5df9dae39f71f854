-- ===== src/Crc16/Table.antt =====
-- The table of port/device_common/crc16.h, and what checking all of its entries shows.
use rp2040_wiznet_eaa_s_aws.Prelude.{
  ℕ, zero, suc, ◌%◌, ◌<◌, ◌≡◌, refl, List, [], ◌∷◌, get_or, arith, Bool, true, false, ltb, ◌==◌,
  if◌then◌else◌, Bool-cases, inl, inr, ==_iff, ltb→lt,
}
use native.Mathlib.Decide.{dec_lt}

unfoldable pub crc16_ccitt_tab : List ℕ
crc16_ccitt_tab =
    0x0000 ∷ 0x1021 ∷ 0x2042 ∷ 0x3063 ∷ 0x4084 ∷ 0x50a5 ∷ 0x60c6 ∷ 0x70e7 ∷ 0x8108 ∷ 0x9129 ∷ 0xa14a
    ∷ 0xb16b ∷ 0xc18c ∷ 0xd1ad ∷ 0xe1ce ∷ 0xf1ef ∷ 0x1231 ∷ 0x0210 ∷ 0x3273 ∷ 0x2252 ∷ 0x52b5
    ∷ 0x4294 ∷ 0x72f7 ∷ 0x62d6 ∷ 0x9339 ∷ 0x8318 ∷ 0xb37b ∷ 0xa35a ∷ 0xd3bd ∷ 0xc39c ∷ 0xf3ff
    ∷ 0xe3de ∷ 0x2462 ∷ 0x3443 ∷ 0x0420 ∷ 0x1401 ∷ 0x64e6 ∷ 0x74c7 ∷ 0x44a4 ∷ 0x5485 ∷ 0xa56a
    ∷ 0xb54b ∷ 0x8528 ∷ 0x9509 ∷ 0xe5ee ∷ 0xf5cf ∷ 0xc5ac ∷ 0xd58d ∷ 0x3653 ∷ 0x2672 ∷ 0x1611
    ∷ 0x0630 ∷ 0x76d7 ∷ 0x66f6 ∷ 0x5695 ∷ 0x46b4 ∷ 0xb75b ∷ 0xa77a ∷ 0x9719 ∷ 0x8738 ∷ 0xf7df
    ∷ 0xe7fe ∷ 0xd79d ∷ 0xc7bc ∷ 0x48c4 ∷ 0x58e5 ∷ 0x6886 ∷ 0x78a7 ∷ 0x0840 ∷ 0x1861 ∷ 0x2802
    ∷ 0x3823 ∷ 0xc9cc ∷ 0xd9ed ∷ 0xe98e ∷ 0xf9af ∷ 0x8948 ∷ 0x9969 ∷ 0xa90a ∷ 0xb92b ∷ 0x5af5
    ∷ 0x4ad4 ∷ 0x7ab7 ∷ 0x6a96 ∷ 0x1a71 ∷ 0x0a50 ∷ 0x3a33 ∷ 0x2a12 ∷ 0xdbfd ∷ 0xcbdc ∷ 0xfbbf
    ∷ 0xeb9e ∷ 0x9b79 ∷ 0x8b58 ∷ 0xbb3b ∷ 0xab1a ∷ 0x6ca6 ∷ 0x7c87 ∷ 0x4ce4 ∷ 0x5cc5 ∷ 0x2c22
    ∷ 0x3c03 ∷ 0x0c60 ∷ 0x1c41 ∷ 0xedae ∷ 0xfd8f ∷ 0xcdec ∷ 0xddcd ∷ 0xad2a ∷ 0xbd0b ∷ 0x8d68
    ∷ 0x9d49 ∷ 0x7e97 ∷ 0x6eb6 ∷ 0x5ed5 ∷ 0x4ef4 ∷ 0x3e13 ∷ 0x2e32 ∷ 0x1e51 ∷ 0x0e70 ∷ 0xff9f
    ∷ 0xefbe ∷ 0xdfdd ∷ 0xcffc ∷ 0xbf1b ∷ 0xaf3a ∷ 0x9f59 ∷ 0x8f78 ∷ 0x9188 ∷ 0x81a9 ∷ 0xb1ca
    ∷ 0xa1eb ∷ 0xd10c ∷ 0xc12d ∷ 0xf14e ∷ 0xe16f ∷ 0x1080 ∷ 0x00a1 ∷ 0x30c2 ∷ 0x20e3 ∷ 0x5004
    ∷ 0x4025 ∷ 0x7046 ∷ 0x6067 ∷ 0x83b9 ∷ 0x9398 ∷ 0xa3fb ∷ 0xb3da ∷ 0xc33d ∷ 0xd31c ∷ 0xe37f
    ∷ 0xf35e ∷ 0x02b1 ∷ 0x1290 ∷ 0x22f3 ∷ 0x32d2 ∷ 0x4235 ∷ 0x5214 ∷ 0x6277 ∷ 0x7256 ∷ 0xb5ea
    ∷ 0xa5cb ∷ 0x95a8 ∷ 0x8589 ∷ 0xf56e ∷ 0xe54f ∷ 0xd52c ∷ 0xc50d ∷ 0x34e2 ∷ 0x24c3 ∷ 0x14a0
    ∷ 0x0481 ∷ 0x7466 ∷ 0x6447 ∷ 0x5424 ∷ 0x4405 ∷ 0xa7db ∷ 0xb7fa ∷ 0x8799 ∷ 0x97b8 ∷ 0xe75f
    ∷ 0xf77e ∷ 0xc71d ∷ 0xd73c ∷ 0x26d3 ∷ 0x36f2 ∷ 0x0691 ∷ 0x16b0 ∷ 0x6657 ∷ 0x7676 ∷ 0x4615
    ∷ 0x5634 ∷ 0xd94c ∷ 0xc96d ∷ 0xf90e ∷ 0xe92f ∷ 0x99c8 ∷ 0x89e9 ∷ 0xb98a ∷ 0xa9ab ∷ 0x5844
    ∷ 0x4865 ∷ 0x7806 ∷ 0x6827 ∷ 0x18c0 ∷ 0x08e1 ∷ 0x3882 ∷ 0x28a3 ∷ 0xcb7d ∷ 0xdb5c ∷ 0xeb3f
    ∷ 0xfb1e ∷ 0x8bf9 ∷ 0x9bd8 ∷ 0xabbb ∷ 0xbb9a ∷ 0x4a75 ∷ 0x5a54 ∷ 0x6a37 ∷ 0x7a16 ∷ 0x0af1
    ∷ 0x1ad0 ∷ 0x2ab3 ∷ 0x3a92 ∷ 0xfd2e ∷ 0xed0f ∷ 0xdd6c ∷ 0xcd4d ∷ 0xbdaa ∷ 0xad8b ∷ 0x9de8
    ∷ 0x8dc9 ∷ 0x7c26 ∷ 0x6c07 ∷ 0x5c64 ∷ 0x4c45 ∷ 0x3ca2 ∷ 0x2c83 ∷ 0x1ce0 ∷ 0x0cc1 ∷ 0xef1f
    ∷ 0xff3e ∷ 0xcf5d ∷ 0xdf7c ∷ 0xaf9b ∷ 0xbfba ∷ 0x8fd9 ∷ 0x9ff8 ∷ 0x6e17 ∷ 0x7e36 ∷ 0x4e55
    ∷ 0x5e74 ∷ 0x2e93 ∷ 0x3eb2 ∷ 0x0ed1 ∷ 0x1ef0 ∷ []

-- Whether a test holds of every number below a bound.
unfoldable pub holds_up_to : ℕ → (ℕ → Bool) → Bool
holds_up_to zero test = true
holds_up_to (suc bound) test =
    let rest = holds_up_to bound test in if test bound then rest else false

-- The test was made at every index below the bound.
pub holds_up_to_at :
    (test : ℕ → Bool) (bound i : ℕ) → i < bound → holds_up_to bound test ≡ true → test i ≡ true
unfolding holds_up_to
holds_up_to_at test zero i below ok = absurd (omega arith)
holds_up_to_at test (suc bound) i below ok = elim (Bool-cases (test bound)) [
  | inl here ↦ elim (dec_lt i bound) [
    | yes p ↦ holds_up_to_at test bound i p (rw here at ok)
    | no p ↦ let last : i ≡ bound = omega arith in rw last here
  ]
  | inr fails ↦ absurd (ground (arith, rw fails at ok))
]

tab_small : holds_up_to 256 (λ i. ltb (get_or crc16_ccitt_tab i 0) 65536) ≡ true
unfolding holds_up_to crc16_ccitt_tab
tab_small = refl

pub tab-lt : (i : ℕ) → i < 256 → get_or crc16_ccitt_tab i 0 < 65536
tab-lt i h = ltb→lt _ _ (holds_up_to_at _ 256 i h tab_small)

-- The index of the entry with a given low byte.
pub low_index : List ℕ
low_index =
    0 ∷ 35 ∷ 70 ∷ 101 ∷ 140 ∷ 175 ∷ 202 ∷ 233 ∷ 8 ∷ 43 ∷ 78 ∷ 109 ∷ 132 ∷ 167 ∷ 194 ∷ 225 ∷ 17 ∷ 50
    ∷ 87 ∷ 116 ∷ 157 ∷ 190 ∷ 219 ∷ 248 ∷ 25 ∷ 58 ∷ 95 ∷ 124 ∷ 149 ∷ 182 ∷ 211 ∷ 240 ∷ 34 ∷ 1 ∷ 100
    ∷ 71 ∷ 174 ∷ 141 ∷ 232 ∷ 203 ∷ 42 ∷ 9 ∷ 108 ∷ 79 ∷ 166 ∷ 133 ∷ 224 ∷ 195 ∷ 51 ∷ 16 ∷ 117 ∷ 86
    ∷ 191 ∷ 156 ∷ 249 ∷ 218 ∷ 59 ∷ 24 ∷ 125 ∷ 94 ∷ 183 ∷ 148 ∷ 241 ∷ 210 ∷ 68 ∷ 103 ∷ 2 ∷ 33 ∷ 200
    ∷ 235 ∷ 142 ∷ 173 ∷ 76 ∷ 111 ∷ 10 ∷ 41 ∷ 192 ∷ 227 ∷ 134 ∷ 165 ∷ 85 ∷ 118 ∷ 19 ∷ 48 ∷ 217 ∷ 250
    ∷ 159 ∷ 188 ∷ 93 ∷ 126 ∷ 27 ∷ 56 ∷ 209 ∷ 242 ∷ 151 ∷ 180 ∷ 102 ∷ 69 ∷ 32 ∷ 3 ∷ 234 ∷ 201 ∷ 172
    ∷ 143 ∷ 110 ∷ 77 ∷ 40 ∷ 11 ∷ 226 ∷ 193 ∷ 164 ∷ 135 ∷ 119 ∷ 84 ∷ 49 ∷ 18 ∷ 251 ∷ 216 ∷ 189 ∷ 158
    ∷ 127 ∷ 92 ∷ 57 ∷ 26 ∷ 243 ∷ 208 ∷ 181 ∷ 150 ∷ 136 ∷ 171 ∷ 206 ∷ 237 ∷ 4 ∷ 39 ∷ 66 ∷ 97 ∷ 128
    ∷ 163 ∷ 198 ∷ 229 ∷ 12 ∷ 47 ∷ 74 ∷ 105 ∷ 153 ∷ 186 ∷ 223 ∷ 252 ∷ 21 ∷ 54 ∷ 83 ∷ 112 ∷ 145 ∷ 178
    ∷ 215 ∷ 244 ∷ 29 ∷ 62 ∷ 91 ∷ 120 ∷ 170 ∷ 137 ∷ 236 ∷ 207 ∷ 38 ∷ 5 ∷ 96 ∷ 67 ∷ 162 ∷ 129 ∷ 228
    ∷ 199 ∷ 46 ∷ 13 ∷ 104 ∷ 75 ∷ 187 ∷ 152 ∷ 253 ∷ 222 ∷ 55 ∷ 20 ∷ 113 ∷ 82 ∷ 179 ∷ 144 ∷ 245 ∷ 214
    ∷ 63 ∷ 28 ∷ 121 ∷ 90 ∷ 204 ∷ 239 ∷ 138 ∷ 169 ∷ 64 ∷ 99 ∷ 6 ∷ 37 ∷ 196 ∷ 231 ∷ 130 ∷ 161 ∷ 72
    ∷ 107 ∷ 14 ∷ 45 ∷ 221 ∷ 254 ∷ 155 ∷ 184 ∷ 81 ∷ 114 ∷ 23 ∷ 52 ∷ 213 ∷ 246 ∷ 147 ∷ 176 ∷ 89 ∷ 122
    ∷ 31 ∷ 60 ∷ 238 ∷ 205 ∷ 168 ∷ 139 ∷ 98 ∷ 65 ∷ 36 ∷ 7 ∷ 230 ∷ 197 ∷ 160 ∷ 131 ∷ 106 ∷ 73 ∷ 44
    ∷ 15 ∷ 255 ∷ 220 ∷ 185 ∷ 154 ∷ 115 ∷ 80 ∷ 53 ∷ 22 ∷ 247 ∷ 212 ∷ 177 ∷ 146 ∷ 123 ∷ 88 ∷ 61 ∷ 30
    ∷ []

low_bytes_differ :
    holds_up_to 256 (λ i. get_or low_index (get_or crc16_ccitt_tab i 0 % 256) 0 == i) ≡ true
unfolding holds_up_to crc16_ccitt_tab low_index
low_bytes_differ = refl

-- The low byte of an entry tells the entry.
pub low_index-tab : (i : ℕ) → i < 256 → get_or low_index (get_or crc16_ccitt_tab i 0 % 256) 0 ≡ i
low_index-tab i h = (==_iff _ i).0 (holds_up_to_at _ 256 i h low_bytes_differ)
