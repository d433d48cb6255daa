-- ===== src/Media/Rtp.antt =====
-- crates/media-engine/src/rtp.rs: RTP packets and the sender's counters.
pub mod Codec
pub mod Sender
pub mod Tests
use Prim.Native.Nat.{bit_and, bit_or}
use dee_lip.Prelude.{
  ℕ, ◌+◌, ◌*◌, ◌/◌, ◌%◌, Bool, true, false, not, ◌&&◌, ◌||◌, Option, none, some, List, [], ◌∷◌,
  ◌++◌, length, drop, get_or, leb, ltb, ◌==◌, if◌then◌else◌, u8, u16, u32, be32,
}

pub record RtpPacket : Type 0 where
  pub payload_type : ℕ
  pub sequence : ℕ
  pub timestamp : ℕ
  pub ssrc : ℕ
  pub marker : Bool
  pub payload : List ℕ

abbrev pub rtp_version : ℕ
rtp_version = 2

abbrev pub rtp_header_size : ℕ
rtp_header_size = 12

-- `RtpPacket::new`
unfoldable pub new_packet : ℕ → ℕ → ℕ → ℕ → List ℕ → RtpPacket
new_packet payload_type sequence timestamp ssrc payload = record {
  payload_type = payload_type;
  sequence = sequence;
  timestamp = timestamp;
  ssrc = ssrc;
  marker = false;
  payload = payload;
}

abbrev marker_bit : Bool → ℕ
marker_bit true = 0x80
marker_bit false = 0

unfoldable pub encode : RtpPacket → List ℕ
encode p =
    u8 (rtp_version * 64)
    ∷ bit_or (marker_bit p.marker) (bit_and p.payload_type 0x7f)
    ∷ u8 (p.sequence / 256)
    ∷ u8 p.sequence
    ∷ (be32 p.timestamp ++ (be32 p.ssrc ++ p.payload))

-- `bytes[i]`; every index that `decode` uses is checked against the length first.
abbrev byte : List ℕ → ℕ → ℕ
byte bytes i = get_or bytes i 0

abbrev word : List ℕ → ℕ → ℕ
word bytes i = byte bytes i * 256 + byte bytes (i + 1)

abbrev long : List ℕ → ℕ → ℕ
long bytes i = word bytes i * 65536 + word bytes (i + 2)

-- Where the payload begins: behind the CSRC list, and behind the extension if there is one.
unfoldable pub payload_offset : List ℕ → ℕ
payload_offset bytes =
    let offset = rtp_header_size + bit_and (byte bytes 0) 0x0f * 4 in
    if not (bit_and (byte bytes 0 / 16) 0x01 == 0) && leb (offset + 4) (length bytes)
    then offset + 4 + word bytes (offset + 2) * 4
    else offset

unfoldable pub decode : List ℕ → Option RtpPacket
unfolding payload_offset
decode bytes =
    if ltb (length bytes) rtp_header_size
    then none
    else if not (bit_and (byte bytes 0 / 64) 0x03 == rtp_version)
    then none
    else if ltb (length bytes) (payload_offset bytes)
    then none
    else some (record {
      payload_type = bit_and (byte bytes 1) 0x7f;
      sequence = word bytes 2;
      timestamp = long bytes 4;
      ssrc = long bytes 8;
      marker = not (bit_and (byte bytes 1) 0x80 == 0);
      payload = drop (payload_offset bytes) bytes;
    })

pub record RtpSender : Type 0 where
  pub payload_type : ℕ
  pub ssrc : ℕ
  pub sequence : ℕ
  pub timestamp : ℕ
  pub ts_increment : ℕ

-- `RtpSender::new`; the SSRC comes from the clock.
unfoldable pub new_sender : ℕ → ℕ → ℕ → RtpSender
new_sender subsec_nanos payload_type ts_increment = record {
  payload_type = payload_type;
  ssrc = subsec_nanos;
  sequence = 0;
  timestamp = 0;
  ts_increment = ts_increment;
}

unfoldable pub next_packet_with_pt : RtpSender → ℕ → List ℕ → RtpPacket × RtpSender
unfolding new_packet
next_packet_with_pt s pt payload = (
  new_packet pt s.sequence s.timestamp s.ssrc payload,
  record s { sequence = u16 (s.sequence + 1); timestamp = u32 (s.timestamp + s.ts_increment) },
)

unfoldable pub next_packet : RtpSender → List ℕ → RtpPacket × RtpSender
unfolding next_packet_with_pt
next_packet s payload = next_packet_with_pt s s.payload_type payload

unfoldable pub skip_tick : RtpSender → RtpSender
skip_tick s = record s { timestamp = u32 (s.timestamp + s.ts_increment) }
