-- ===== src/Sip/Dns/Tests.antt =====
-- Runs of wire/dns.rs.
use dee_lip.Prelude.{
  ℕ, ◌+◌, ◌<◌, ◌≡◌, ◌≢◌, refl, true, some, List, [], ◌∷◌, ◌++◌, length, All, arith, codes,
  all_ascii, all_ascii-IsAscii, panic,
}
use dee_lip.Sip.Util.{split_on}
use dee_lip.Sip.Auth.{trim_end_char}
use dee_lip.Sip.Dns.{
  encode_name, labels_of, join_dots, decode_name, skip_from, skip_name, parse_response,
}
use dee_lip.Sip.Dns.Names.{IsLabel, decode_name-encode_name, skip_name-enough}
use dee_lip.Sip.Dns.Responses.{parse_response-ne-panic}

abbrev host : List ℕ
host = codes "sip.example."

IsLabel-of : (l : List ℕ) → all_ascii l ≡ true → 0 < length l → length l < 64 → IsLabel l
IsLabel-of l a s h = record { ascii = all_ascii-IsAscii l a; some_text = s; short = h }

host-IsLabel : All IsLabel (labels_of host)
unfolding labels_of split_on trim_end_char all_ascii
host-IsLabel = (
  IsLabel-of (codes "sip") refl (omega arith) (omega arith),
  (IsLabel-of (codes "example") refl (omega arith) (omega arith), tt),
)

few_labels : length (labels_of host) < 128
unfolding labels_of split_on trim_end_char
few_labels = omega arith

abbrev header_bytes : List ℕ
header_bytes = 0 ∷ 1 ∷ 0x81 ∷ 0x80 ∷ 0 ∷ 1 ∷ 0 ∷ 1 ∷ 0 ∷ 0 ∷ 0 ∷ 0 ∷ []

decode_name-encode_name_example :
    decode_name (header_bytes ++ (encode_name host ++ (0 ∷ 1 ∷ []))) (length header_bytes)
    ≡ some (join_dots (labels_of host), length header_bytes + length (encode_name host))
decode_name-encode_name_example =
    decode_name-encode_name host header_bytes (0 ∷ 1 ∷ []) host-IsLabel few_labels

skip_name-enough_example :
    skip_from (length header_bytes + 1 + 5) header_bytes 2 ≡ skip_name header_bytes 2
skip_name-enough_example = skip_name-enough header_bytes 2 5

parse_response-ne-panic_example : parse_response header_bytes 1 33 ≢ panic
parse_response-ne-panic_example = parse_response-ne-panic header_bytes 1 33
