-- ===== src/Zrtp/Wire/Tests.antt =====
-- The theorems of the ZRTP message format at concrete inputs. The checksum is a byte sum.
use dee_lip.Prelude.{ℕ, ◌+◌, ◌≡◌, refl, List, [], ◌∷◌, replicate, u32, IsU32, arith, ok, panic}
use dee_lip.Zrtp.Wire.Types.{dh_part1, DhPart, IsDhPart, Packet}
use dee_lip.Zrtp.Wire.Encode.{encode, encode_packet}
use dee_lip.Zrtp.Wire.Decode.{decode, decode_packet}
use dee_lip.Zrtp.Wire.RoundTrip.{decode-encode, decode_packet-encode_packet}
use dee_lip.Zrtp.Wire.Panics.{IsChecked, decode-panic_iff}

abbrev sum_bytes : List ℕ → ℕ
sum_bytes [] = 0
sum_bytes (x ∷ xs) = u32 (x + sum_bytes xs)

sum_bytes-IsU32 : (xs : List ℕ) → IsU32 (sum_bytes xs)
sum_bytes-IsU32 [] = omega arith
sum_bytes-IsU32 (x ∷ xs) = omega arith

abbrev part : DhPart
part = record {
  h1 = replicate 32 1;
  rs1_id = replicate 8 2;
  rs2_id = replicate 8 3;
  aux_id = replicate 8 4;
  pbx_id = replicate 8 5;
  pv = replicate 64 6;
  mac = replicate 8 7;
}

part-IsDhPart : IsDhPart part
part-IsDhPart = record {
  h1_32 = refl;
  rs1_id_8 = refl;
  rs2_id_8 = refl;
  aux_id_8 = refl;
  pbx_id_8 = refl;
  pv_fits = omega arith;
  mac_8 = refl;
}

decode-encode_example : decode sum_bytes (encode sum_bytes (dh_part1 part)) ≡ ok (dh_part1 part)
decode-encode_example = decode-encode sum_bytes sum_bytes-IsU32 (dh_part1 part) part-IsDhPart

abbrev packet : Packet
packet = record { sequence = 17; ssrc = 99; message = dh_part1 part }

decode_packet-encode_packet_example :
    decode_packet sum_bytes (encode_packet sum_bytes packet) ≡ ok packet
decode_packet-encode_packet_example =
    decode_packet-encode_packet sum_bytes sum_bytes-IsU32 packet
      (record { sequence_u16 = omega arith; ssrc_u32 = omega arith; message_fits = part-IsDhPart })

-- A frame whose length field is 4, with the right checksum, and padding behind it.
abbrev tiny : List ℕ
tiny = 0x50 ∷ 0x5a ∷ 0 ∷ 4 ∷ 0 ∷ 0 ∷ 0 ∷ 174 ∷ replicate 8 0

tiny-IsChecked : IsChecked sum_bytes tiny
tiny-IsChecked = record {
  long = omega arith;
  preamble = refl;
  whole = omega arith;
  checksum = refl;
}

decode-panic_iff_example : decode sum_bytes tiny ≡ panic
decode-panic_iff_example = (decode-panic_iff sum_bytes tiny).1 (tiny-IsChecked, omega arith)
