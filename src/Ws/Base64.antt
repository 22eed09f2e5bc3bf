-- ===== src/Ws/Base64.antt =====
-- src/ws/base64_parser.c. Where malloc returns NULL, the code does too: that is left out.
use iotbroker_cloud_c_client.Base.{
  ℕ, zero, suc, ◌+◌, ◌-◌, ◌*◌, ◌/◌, ◌%◌, Option, none, some, [], ◌∷◌, ◌++◌, if◌then◌else◌, ltb,
  ◌==◌, Outcome, ok, fault, ◌>>=◌, ◌>>◌, check, require, deref, Bytes, byte_at, length, take,
}

-- `A` to `Z`, `a` to `z`, `0` to `9`, `+` and `/`
abbrev pub encoding_table : Bytes
encoding_table =
    65 ∷ 66 ∷ 67 ∷ 68 ∷ 69 ∷ 70 ∷ 71 ∷ 72 ∷ 73 ∷ 74 ∷ 75 ∷ 76 ∷ 77 ∷ 78 ∷ 79 ∷ 80 ∷ 81 ∷ 82 ∷ 83
    ∷ 84 ∷ 85 ∷ 86 ∷ 87 ∷ 88 ∷ 89 ∷ 90 ∷ 97 ∷ 98 ∷ 99 ∷ 100 ∷ 101 ∷ 102 ∷ 103 ∷ 104 ∷ 105 ∷ 106
    ∷ 107 ∷ 108 ∷ 109 ∷ 110 ∷ 111 ∷ 112 ∷ 113 ∷ 114 ∷ 115 ∷ 116 ∷ 117 ∷ 118 ∷ 119 ∷ 120 ∷ 121 ∷ 122
    ∷ 48 ∷ 49 ∷ 50 ∷ 51 ∷ 52 ∷ 53 ∷ 54 ∷ 55 ∷ 56 ∷ 57 ∷ 43 ∷ 47 ∷ []

abbrev at : Bytes → ℕ → ℕ
at [] i = 0
at (b ∷ bs) zero = b
at (b ∷ bs) (suc i) = at bs i

-- `encoding_table[n & 0x3F]`
unfoldable pub encoded_char : ℕ → ℕ
encoded_char n = at encoding_table (n % 64)

-- The four characters of three octets.
unfoldable pub encoded_triple : ℕ → ℕ → ℕ → Bytes
encoded_triple a b c =
    let triple = a * 65536 + b * 256 + c in
    encoded_char (triple / 262144)
    ∷ encoded_char (triple / 4096)
    ∷ encoded_char (triple / 64)
    ∷ encoded_char triple
    ∷ []

-- The loop, three octets a round; an octet behind the end is 0.
unfoldable pub encode_loop : Bytes → Bytes
encode_loop [] = []
encode_loop (a ∷ []) = encoded_triple a 0 0
encode_loop (a ∷ b ∷ []) = encoded_triple a b 0
encode_loop (a ∷ b ∷ c ∷ rest) = encoded_triple a b c ++ encode_loop rest

-- `mod_table[n % 3]`
unfoldable pub pad_count : ℕ → ℕ
pad_count n = if n % 3 == 0 then 0 else if n % 3 == 1 then 2 else 1

abbrev pub equal_signs : ℕ → Bytes
equal_signs zero = []
equal_signs (suc n) = 61 ∷ equal_signs n

-- The last characters are overwritten. `4 * ((n + 2) / 3)` characters are stored, all the buffer has.
unfoldable pub base64_encode : Bytes → Bytes
base64_encode input =
    let encoded = encode_loop input in
    let padding = pad_count (length input) in
    take (4 * ((length input + 2) / 3) - padding) encoded ++ equal_signs padding

-- `build_decoding_table`: where a character stands in the table. The other entries are not set.
unfoldable pub table_index : ℕ → Bytes → ℕ → Option ℕ
table_index char [] i = none
table_index char (b ∷ bs) i =
    let later = table_index char bs (i + 1) in if b == char then some i else later

-- A character from 128 on is a negative index.
unfoldable pub decoded_char : ℕ → Outcome ℕ
decoded_char char = if char == 61 then ok 0 else deref (table_index char encoding_table 0)

-- The loop, four characters a round. A store that would pass `output_length` is left out.
unfoldable pub decode_loop : Bytes → Outcome Bytes
decode_loop [] = ok []
decode_loop (a ∷ b ∷ c ∷ d ∷ rest) = do
  a ← decoded_char a
  b ← decoded_char b
  c ← decoded_char c
  d ← decoded_char d
  let triple = a * 262144 + b * 4096 + c * 64 + d
  decoded ← decode_loop rest
  ok ((triple / 65536 % 256) ∷ (triple / 256 % 256) ∷ (triple % 256) ∷ decoded)
decode_loop _ = fault

-- The two tests of the last characters, which need not be there.
unfoldable pub output_length : Bytes → Outcome ℕ
output_length input = do
  let l = length input
  require (ltb 1 l)
  last ← byte_at input (l - 1)
  before ← byte_at input (l - 2)
  ok (l / 4 * 3 - (if last == 61 then 1 else 0) - (if before == 61 then 1 else 0))

unfoldable pub base64_decode : Bytes → Outcome Bytes
base64_decode input = do
  check (length input % 4 == 0)
  l ← output_length input
  decoded ← decode_loop input
  ok (take l decoded)
