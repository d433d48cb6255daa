-- ===== src/Media/Rtp/Tests.antt =====
-- The theorems of rtp.rs at concrete inputs.
use mathlib.Core.List.{map}
use dee_lip.Prelude.{ℕ, ◌≡◌, Option, none, some, List, [], ◌∷◌, true, arith}
use dee_lip.Media.Rtp.{RtpPacket, RtpSender, encode, decode}
use dee_lip.Media.Rtp.Codec.{decode-encode_rtp}
use dee_lip.Media.Rtp.Sender.{run, stamp, stamps, run-stamps}

abbrev packet : RtpPacket
packet = record {
  payload_type = 111;
  sequence = 65535;
  timestamp = 4294967295;
  ssrc = 77;
  marker = true;
  payload = 1 ∷ 2 ∷ 3 ∷ [];
}

decode-encode_rtp_example : decode (encode packet) ≡ some packet
decode-encode_rtp_example = decode-encode_rtp packet (record {
  payload_type_7 = omega arith;
  sequence_u16 = omega arith;
  timestamp_u32 = omega arith;
  ssrc_u32 = omega arith;
})

-- A sender about to wrap around.
abbrev sender : RtpSender
sender = record {
  payload_type = 0;
  ssrc = 77;
  sequence = 65535;
  timestamp = 4294967200;
  ts_increment = 160;
}

abbrev ticks : List (Option (List ℕ))
ticks = some (1 ∷ []) ∷ none ∷ some (2 ∷ []) ∷ some (3 ∷ []) ∷ []

run-stamps_example : map stamp (run sender ticks).0 ≡ stamps 65535 4294967200 160 0 0 ticks
run-stamps_example = run-stamps sender ticks (omega arith) (omega arith)
